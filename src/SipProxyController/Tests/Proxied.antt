-- ===== src/SipProxyController/Tests/Proxied.antt =====
-- A proxied INVITE in the table, its CANCEL, and a challenge.
use drachtio_server.Common.{◌≡◌, refl, true, none, some, [], ◌∷◌, text_eq, codes}
use drachtio_server.Common.Dict
use drachtio_server.Common.Dict.{Dict}
use drachtio_server.Drachtio.Messages.{method_cancel}
use drachtio_server.SipProxyController.Tests.{
  calling_one, proceeding_one, setting, core_of, ringing, request,
}
use drachtio_server.SipProxyController.Table.{
  Message, Proxy, Controller, set_provisional_timeout, add_challenge, is_response_to_challenge,
}

abbrev cancel : Message
cancel = record {
  method = method_cancel;
  method_name = codes "CANCEL";
  is_request = true;
  call_id = codes "x";
  cseq = codes "1";
  branch = some (codes "z9");
  next_branch = none;
  credentials = some (codes "realm", codes "n1");
  max_forwards = none;
  response = ringing;
  request = request;
}

abbrev proxy : Proxy
proxy = record { core = core_of (proceeding_one ∷ calling_one ∷ []); setting = setting }

abbrev table : Controller
table = record { proxies = (codes "x|INVITE|1|z9", proxy) ∷ []; challenges = []; timers = [] }

seconds : set_provisional_timeout (codes "12s") 0 ≡ 12000
unfolding set_provisional_timeout text_eq
seconds = refl

-- Credentials for a challenge go to the target that made it, once.
challenged :
    is_response_to_challenge cancel (add_challenge 5 cancel (codes "sip:a") table).1
    ≡ (some (codes "sip:a"), table)
unfolding is_response_to_challenge add_challenge Dict.find Dict.insert Dict.erase text_eq
challenged = refl
