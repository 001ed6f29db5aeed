-- ===== src/PendingRequests/Tests.antt =====
-- An INVITE that comes in, is offered to a client, and times out.
use drachtio_server.Common.{
  ℕ, ◌≡◌, ◌≢◌, refl, ◌==◌, if◌then◌else◌, true, false, none, some, List, [], ◌∷◌, map, Text, codes,
  text_eq, starts_with,
}
use drachtio_server.Common.Dict
use drachtio_server.ClientController.{Controller, Live, empty, new_request}
use drachtio_server.ClientController.Selection.{to_lower}
use drachtio_server.ClientController.Selection.Candidates.{CanTake}
use drachtio_server.RequestRouter.{get_route}
use drachtio_server.PendingRequests.{
  Sip, Pending, PendingRequests, add, find, find_and_remove, is_retransmission,
}
use drachtio_server.PendingRequests.Invariant.{
  IsConsistent, IsNew, add-IsConsistent, find_and_remove_lem,
}
use drachtio_server.PendingRequests.NewRequest.{
  Arrival, World, process_new_request, timeout, route_url,
}
use drachtio_server.PendingRequests.NewRequest.Routed.{
  timeout_lem, process_new_request-served, process_new_request-unserved,
}

abbrev invite : Sip
invite = record {
  call_id = codes "c";
  is_cancel = false;
  is_invite = true;
  method_name = codes "INVITE";
  cseq_method = codes "INVITE";
  cseq = codes "1";
  branch = some (codes "z");
  to_tag = none;
}

abbrev nobody : Pending
nobody = record {
  transaction_id = [];
  sip = invite;
  timer = 0;
  canceled = false;
  meta = [];
  encoded_msg = [];
}

abbrev nothing : PendingRequests
nothing = record { objects = λ _. nobody; by_call_id = []; by_transaction = []; timers = [] }

nothing-IsConsistent : IsConsistent nothing
unfolding Dict.find
nothing-IsConsistent = record { own_id = λ id a e. cc; indexed = λ id a e. cc }

invite-IsNew : IsNew 7 (codes "u") invite nothing
unfolding Dict.find is_retransmission
invite-IsNew = record {
  no_retransmission = refl;
  new_id = refl;
  new_address = λ id a e. absurd (cc);
}

waiting-IsConsistent : IsConsistent (add 7 1 (codes "u") invite nothing)
waiting-IsConsistent =
    add-IsConsistent 7 1 (codes "u") invite nothing invite-IsNew nothing-IsConsistent

abbrev waiting : PendingRequests
waiting = add 7 1 (codes "u") invite nothing

find_and_remove_lem_example :
    (t : PendingRequests) × (find_and_remove (codes "u") false waiting ≡ some (some 7, t))
    × IsConsistent t
    × (Dict.find (codes "u") t.by_transaction ≡ none)
    × ((a : ℕ)
        → Dict.find (codes "u") waiting.by_transaction ≡ some a
        → is_retransmission (waiting.objects a).sip t ≡ false)
    × ((other : Text)
        → other ≢ codes "u"
        → Dict.find other t.by_transaction ≡ Dict.find other waiting.by_transaction)
unfolding add Dict.find Dict.insert text_eq
find_and_remove_lem_example = find_and_remove_lem (codes "u") false waiting waiting-IsConsistent

abbrev live : Live
live c = if c == 1 then some (record { tags = []; app_name = [] }) else none

abbrev registered : Controller
registered = record empty { request_types = (codes "invite", 1) ∷ [] }

abbrev world : Controller → PendingRequests → World
world clients pending = record { pending = pending; clients = clients; route_requests = [] }

abbrev arrival : Arrival
arrival = record {
  sip = invite;
  url_host = some (codes "h");
  url_user = none;
  url_params = none;
  from_user = none;
  to_user = none;
  content_type = none;
  protocol = codes "udp";
  source_address = codes "1.2.3.4";
  uri = codes "sip:h";
  encoded_msg = codes "INVITE sip:h";
  meta = codes "m";
}

abbrev no_split : ℕ → Text → List Text
no_split c s = s ∷ []

process_new_request-served_example :
    (chosen : ℕ) × (t : World) × (process_new_request no_split 7 1
        (codes "u")
        arrival
        []
        live
        (world registered nothing)
      ≡ some (0, codes "u", t))
    × CanTake live (map to_lower (codes "INVITE")) none registered.request_types chosen
    × (t.clients.posted ≡ (chosen, new_request (codes "u") (codes "INVITE sip:h") (codes "m")) ∷ [])
    × (Dict.find (codes "u") t.clients.net_transactions ≡ some chosen)
    × (find (codes "u") t.pending ≡ some 7)
    × IsConsistent t.pending
unfolding Dict.find
process_new_request-served_example =
    process_new_request-served no_split 7 1 (codes "u") arrival [] live (world registered nothing)
      (unfold Dict.find get_route in refl) refl (unfold to_lower text_eq in λ e. cc) invite-IsNew
      nothing-IsConsistent

test_process_new_request_unserved :
    (t : World) × (process_new_request no_split 7 1
        (codes "u")
        arrival
        []
        live
        (world empty nothing)
      ≡ some (503, codes "u", t))
    × (t.pending ≡ nothing)
    × (t.clients.posted ≡ [])
    × (t.route_requests ≡ [])
test_process_new_request_unserved =
    process_new_request-unserved no_split 7 1 (codes "u") arrival [] live (world empty nothing)
      (unfold Dict.find get_route in refl) refl refl

timeout_lem_example :
    (t : World) × (timeout (codes "u") (world registered waiting) ≡ some t)
    × IsConsistent t.pending
    × (find (codes "u") t.pending ≡ none)
    × (Dict.find (codes "u") t.clients.net_transactions ≡ none)
    × ((other : Text)
        → other ≢ codes "u"
        → (find other t.pending ≡ find other waiting)
          × (Dict.find other t.clients.net_transactions ≡ Dict.find other []))
timeout_lem_example = timeout_lem (codes "u") (world registered waiting) waiting-IsConsistent

abbrev queried : Text
queried =
    codes
      "http://r/?method=INVITE&domain=h&protocol=udp&source_address=1.2.3.4&fromUser=&toUser=&uriUser=&contentType=&uri=sip%3ah"

route_url_runs : route_url no_split (codes "http://r") arrival ≡ queried
unfolding route_url starts_with
route_url_runs = refl
