-- ===== src/Client/Commands/Refusals.antt =====
-- When `processClientMessage` returns false.
use Prim.{Unit, tt}
use drachtio_server.Common.{
  ℕ, ◌≡◌, refl, Bool, true, false, Option, none, some, List, [], ◌∷◌, Text, codes, text_eq,
  starts_with, is_empty, not, if◌then◌else◌, subst,
}
use drachtio_server.ClientController.{Live}
use drachtio_server.ClientController.Applications.{Stack}
use drachtio_server.Drachtio.Messages.{Strings, Parts, split_msg, split_tokens}
use drachtio_server.Client.Commands.{
  Connection, Answer, answered, undefined, Server, create_response_msg, first_or_empty, run_route,
  run_remove_route, run_authenticate, send_request, send_to, run_sip, run_proxy, run_tokens, refuse,
  dialog_of, process_client_message,
}

module _ {D : Type 0} (b : Strings) (k : Stack D) (server : Server) (live : Live) (c : ℕ)
    (uuid transaction_uuid : Text) where
  -- The answer false comes with a message NO to this id, and the system is as it was.
  abbrev pub IsHonest : Connection D → Text → Answer D → Type 0
  IsHonest s id undefined = Unit {0}
  IsHonest s id (answered s' response true) = Unit {0}
  IsHonest s id (answered s' response false) =
      (s'.system ≡ s.system)
      × ((reason : Text) × (response ≡ create_response_msg uuid id false (some reason)))

  if-IsHonest :
      (s : Connection D) (id : Text) (t : Bool) (a a' : Answer D)
      → IsHonest s id a
      → IsHonest s id a'
      → IsHonest s id (if t then a else a')
  if-IsHonest s id true a a' h h' = h
  if-IsHonest s id false a a' h h' = h'

  refuse-IsHonest :
      (s s' : Connection D) (id reason : Text)
      → s'.system ≡ s.system
      → IsHonest s id (refuse b k server live c uuid transaction_uuid s' id reason)
  refuse-IsHonest s s' id reason e = (e, (reason, refl))

  authenticate-IsHonest :
      (id : Text) (more : List Text) (s : Connection D)
      → IsHonest s id (run_authenticate b k server live c uuid transaction_uuid id more s)
  unfolding run_authenticate
  authenticate-IsHonest id [] s = tt
  authenticate-IsHonest id (secret ∷ []) s =
      if-IsHonest s id (not (server.is_secret secret)) _ _ (refl, (codes "incorrect secret", refl))
        tt
  authenticate-IsHonest id (secret ∷ tags ∷ more) s =
      if-IsHonest s id (not (server.is_secret secret)) _ _ (refl, (codes "incorrect secret", refl))
        tt

  route-IsHonest :
      (id : Text) (more : List Text) (s : Connection D)
      → IsHonest s id (run_route b k server live c uuid transaction_uuid id more s)
  unfolding run_route
  route-IsHonest id [] s = tt
  route-IsHonest id (verb ∷ more) s = tt

  remove_route-IsHonest :
      (id : Text) (more : List Text) (s : Connection D)
      → IsHonest s id (run_remove_route b k server live c uuid transaction_uuid id more s)
  unfolding run_remove_route
  remove_route-IsHonest id [] s = tt
  remove_route-IsHonest id (verb ∷ more) s = tt

  send_to-IsHonest :
      (id route_url : Text) (p : Parts) (dialog : Option Text) (s : Connection D)
      → IsHonest s id (send_to b k server live c uuid transaction_uuid id route_url p dialog s)
  unfolding send_to
  send_to-IsHonest id route_url p none s = tt
  send_to-IsHonest id route_url p (some dialog) s = tt

  sip-IsHonest :
      (id : Text) (more : List Text) (p : Parts) (s : Connection D)
      → IsHonest s id (run_sip b k server live c uuid transaction_uuid id more p s)
  unfolding run_sip send_request
  sip-IsHonest id [] p s = tt
  sip-IsHonest id (transaction ∷ []) p s = tt
  sip-IsHonest id (transaction ∷ dialog ∷ more) p s =
      if-IsHonest s id (starts_with (codes "SIP/") p.start_line) _ _
        (if-IsHonest s id (is_empty transaction) _ _ (refl, (codes "transaction id missing", refl))
          tt)
        (if-IsHonest s id (not (is_empty dialog)) _ _ tt (
          if-IsHonest s id (is_empty transaction) _ _
            (send_to-IsHonest id (first_or_empty more) p
              (dialog_of b k server live c uuid transaction_uuid p.headers s.system) s)
            (if-IsHonest s id (starts_with (codes "CANCEL") p.start_line) _ _ tt tt)))

  proxy-IsHonest :
      (id : Text) (more : List Text) (p : Parts) (s : Connection D)
      → IsHonest s id (run_proxy b k server live c uuid transaction_uuid id more p s)
  unfolding run_proxy
  proxy-IsHonest id (t ∷ rr ∷ fr ∷ fo ∷ si ∷ pt ∷ ft ∷ destinations) p s = tt
  proxy-IsHonest id [] p s =
      (refl, (codes "Invalid proxy request: not enough information provided", refl))
  proxy-IsHonest id (t ∷ []) p s =
      (refl, (codes "Invalid proxy request: not enough information provided", refl))
  proxy-IsHonest id (t ∷ rr ∷ []) p s = tt
  proxy-IsHonest id (t ∷ rr ∷ fr ∷ []) p s = tt
  proxy-IsHonest id (t ∷ rr ∷ fr ∷ fo ∷ []) p s = tt
  proxy-IsHonest id (t ∷ rr ∷ fr ∷ fo ∷ si ∷ []) p s = tt
  proxy-IsHonest id (t ∷ rr ∷ fr ∷ fo ∷ si ∷ pt ∷ []) p s = tt

  tokens-IsHonest :
      (tokens : List Text) (p : Parts) (s : Connection D)
      → IsHonest s
          (first_or_empty tokens)
          (run_tokens b k server live c uuid transaction_uuid tokens p s)
  unfolding run_tokens
  tokens-IsHonest [] p s = tt
  tokens-IsHonest (id ∷ []) p s = (refl, (codes "Invalid message format", refl))
  tokens-IsHonest (id ∷ command ∷ more) p s =
      if-IsHonest s id (text_eq command (codes "ping")) _ _ tt (
        if-IsHonest s id (text_eq command (codes "route")) _ _ (route-IsHonest id more s) (
          if-IsHonest s id (text_eq command (codes "remove_route")) _ _
            (remove_route-IsHonest id more s)
            (if-IsHonest s id (text_eq command (codes "authenticate")) _ _
              (authenticate-IsHonest id more s)
              (if-IsHonest s id (text_eq command (codes "sip")) _ _ (sip-IsHonest id more p s) (
                if-IsHonest s id (text_eq command (codes "proxy")) _ _ (proxy-IsHonest id more p s)
                  (refl, (codes "Unknown message type", refl)))))))

  -- Where handling a message returns false, so that the connection is closed, the response is a NO to
  -- the id in the message's first token with a reason, and neither the tables of the clients and of the
  -- pending requests nor the SIP stack has changed.
  pub process_client_message-refused :
      (msg response : Text) (s s' : Connection D)
      → process_client_message b k server live c uuid transaction_uuid msg s
        ≡ answered s' response false
      → (s'.system ≡ s.system)
        × ((reason : Text) × (response
              ≡ create_response_msg uuid
                  (first_or_empty (split_tokens b (split_msg msg).meta))
                  false
                  (some reason)))
  unfolding process_client_message
  process_client_message-refused msg response s s' e =
      let p = split_msg msg in
      let tokens = split_tokens b p.meta in
      subst (IsHonest s (first_or_empty tokens)) e (tokens-IsHonest tokens p s)
