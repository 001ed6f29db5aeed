-- ===== src/Client/Commands/Requests.antt =====
-- The requests that `processClientMessage` passes on: those of the commands sip and proxy.
use Prim.{Unit, tt}
use drachtio_server.Common.{
  ℕ, ◌≡◌, Bool, true, false, Option, none, some, List, [], ◌∷◌, ◌++◌, Text, codes, text_eq,
  starts_with, is_empty, not, if◌then◌else◌, subst,
}
use drachtio_server.Common.Dict
use drachtio_server.ClientController.{Live, lock, api_response}
use drachtio_server.ClientController.Selection.{wants_requests, no_longer_wants_requests}
use drachtio_server.ClientController.Transactions.{
  find_client_for_api_request, route_api_response, add_api_request, remove_net_transaction,
}
use drachtio_server.ClientController.Transactions.Laws.{route_api_response-delivered}
use drachtio_server.ClientController.Applications.{
  Stack, on_clients, System, ProxyOptions, register_sender,
}
use drachtio_server.ClientController.Applications.Answers.{
  KeepsClients, inside-IsRecorded, outside-IsRecorded, respond-IsRecorded, cancel-IsRecorded,
  proxy-IsRecorded,
}
use drachtio_server.Drachtio.Messages.{Strings, Parts, split_msg, split_tokens}
use drachtio_server.Client.Commands.{
  Connection, Answer, answered, undefined, Server, create_response_msg, first_or_empty, run_route,
  run_remove_route, run_authenticate, send_request, send_to, run_sip, run_proxy, run_tokens,
  dialog_of, with_tags, process_client_message,
}

module _ {D : Type 0} (b : Strings) (k : Stack D) (server : Server) (live : Live) (c : ℕ)
    (uuid transaction_uuid : Text) where
  -- What the stack leaves when one of its calls has been made for this client and id, which are recorded
  -- before the call.
  pub data Asked (id : Text) (start : System D) : System D → Type 0 where
    asked_inside :
        (t dialog start_line headers body : Text)
        → Asked id start
            (k.send_inside id dialog start_line headers body t
              (register_sender c t id start_line start)).1
    asked_outside :
        (t start_line headers body dialog route_url : Text)
        → Asked id start
            (k.send_outside id start_line headers body t dialog route_url
              (register_sender c t id start_line start)).1
    asked_response :
        (t start_line headers body : Text)
        → Asked id start
            (k.respond id t start_line headers body (on_clients (add_api_request c id) start)).1
    asked_cancel :
        (t start_line headers body : Text)
        → Asked id start
            (k.send_cancel id t start_line headers body (on_clients (add_api_request c id) start)).1
    asked_proxy :
        (t headers : Text) (options : ProxyOptions)
        → Asked id start (
            on_clients
              (remove_net_transaction t)
              (k.proxy id t options headers (on_clients (add_api_request c id) start)))

  -- An answer without a response is that to a request of this client under this id.
  abbrev IsOwned : System D → Text → Answer D → Type 0
  IsOwned start id undefined = Unit {0}
  IsOwned start id (answered s' response false) = Unit {0}
  IsOwned start id (answered s' (x ∷ response) true) = Unit {0}
  IsOwned start id (answered s' [] true) =
      Asked id start s'.system
      × (find_client_for_api_request live id s'.system.world.clients ≡ some c)

  if-IsOwned :
      (start : System D) (id : Text) (t : Bool) (a a' : Answer D)
      → IsOwned start id a
      → IsOwned start id a'
      → IsOwned start id (if t then a else a')
  if-IsOwned start id true a a' h h' = h
  if-IsOwned start id false a a' h h' = h'

  nonempty-IsOwned :
      (start : System D) (id : Text) (s : Connection D) (t : Text) (x : ℕ) (r : Text)
      → IsOwned start id (answered s (t ++ x ∷ r) true)
  nonempty-IsOwned start id s [] x r = tt
  nonempty-IsOwned start id s (y ∷ t) x r = tt

  response-IsOwned :
      (start : System D) (id : Text) (s : Connection D) (msg_id : Text) (ok : Bool)
      (reason : Option Text)
      → IsOwned start id (answered s (create_response_msg uuid msg_id ok reason) true)
  unfolding create_response_msg
  response-IsOwned start id s msg_id ok none = nonempty-IsOwned start id s uuid _ _
  response-IsOwned start id s msg_id ok (some reason) = nonempty-IsOwned start id s uuid _ _

  authenticate-IsOwned :
      (id : Text) (more : List Text) (s : Connection D)
      → IsOwned s.system id (run_authenticate b k server live c uuid transaction_uuid id more s)
  unfolding run_authenticate
  authenticate-IsOwned id [] s = tt
  authenticate-IsOwned id (secret ∷ more) s =
      if-IsOwned s.system id (not (server.is_secret secret)) _ _ tt (
        response-IsOwned s.system id (with_tags b k server live c uuid transaction_uuid more s) id
          true (some _))

  route-IsOwned :
      (id : Text) (more : List Text) (s : Connection D)
      → IsOwned s.system id (run_route b k server live c uuid transaction_uuid id more s)
  unfolding run_route
  route-IsOwned id [] s = tt
  route-IsOwned id (verb ∷ more) s =
      response-IsOwned s.system id
        (record s { system = on_clients (wants_requests c verb) s.system }) id true none

  remove_route-IsOwned :
      (id : Text) (more : List Text) (s : Connection D)
      → IsOwned s.system id (run_remove_route b k server live c uuid transaction_uuid id more s)
  unfolding run_remove_route
  remove_route-IsOwned id [] s = tt
  remove_route-IsOwned id (verb ∷ more) s =
      response-IsOwned s.system id
        (record s { system = on_clients (no_longer_wants_requests live c verb) s.system }) id true
        none

  module _ (keeps : KeepsClients k) (id : Text) (s : Connection D)
      (fresh : Dict.find id s.system.world.clients.api_requests ≡ none)
      (here : lock live c ≡ some c) where
    send_to-IsOwned :
        (route_url : Text) (p : Parts) (dialog : Option Text)
        → IsOwned s.system id
            (send_to b k server live c uuid transaction_uuid id route_url p dialog s)
    unfolding send_to
    send_to-IsOwned route_url p none = (
      asked_outside transaction_uuid p.start_line p.headers p.body [] route_url,
      outside-IsRecorded k keeps live c id s.system fresh here transaction_uuid p.start_line
          p.headers p.body [] route_url,
    )
    send_to-IsOwned route_url p (some dialog) = (
      asked_inside transaction_uuid dialog p.start_line p.headers p.body,
      inside-IsRecorded k keeps live c id s.system fresh here transaction_uuid dialog p.start_line
          p.headers p.body,
    )

    sip-IsOwned :
        (more : List Text) (p : Parts)
        → IsOwned s.system id (run_sip b k server live c uuid transaction_uuid id more p s)
    unfolding run_sip send_request
    sip-IsOwned [] p = tt
    sip-IsOwned (transaction ∷ []) p = tt
    sip-IsOwned (transaction ∷ dialog ∷ more) p =
        if-IsOwned s.system id (starts_with (codes "SIP/") p.start_line) _ _
          (if-IsOwned s.system id (is_empty transaction) _ _ tt (
            asked_response transaction p.start_line p.headers p.body,
            respond-IsRecorded k keeps live c id s.system fresh here transaction p.start_line
                p.headers p.body,
          ))
          (if-IsOwned s.system id (not (is_empty dialog)) _ _ (send_to-IsOwned [] p (some dialog)) (
            if-IsOwned s.system id (is_empty transaction) _ _
              (send_to-IsOwned (first_or_empty more) p
                (dialog_of b k server live c uuid transaction_uuid p.headers s.system))
              (if-IsOwned s.system id (starts_with (codes "CANCEL") p.start_line) _ _
                (
                  asked_cancel transaction p.start_line p.headers p.body,
                  cancel-IsRecorded k keeps live c id s.system fresh here transaction p.start_line
                      p.headers p.body,
                )
                tt)))

    proxy-IsOwned :
        (more : List Text) (p : Parts)
        → IsOwned s.system id (run_proxy b k server live c uuid transaction_uuid id more p s)
    unfolding run_proxy
    proxy-IsOwned (t ∷ rr ∷ fr ∷ fo ∷ si ∷ pt ∷ ft ∷ destinations) p = (
      asked_proxy t p.headers _,
      proxy-IsRecorded k keeps live c id s.system fresh here t _ p.headers,
    )
    proxy-IsOwned [] p = tt
    proxy-IsOwned (t ∷ []) p = tt
    proxy-IsOwned (t ∷ rr ∷ []) p = tt
    proxy-IsOwned (t ∷ rr ∷ fr ∷ []) p = tt
    proxy-IsOwned (t ∷ rr ∷ fr ∷ fo ∷ []) p = tt
    proxy-IsOwned (t ∷ rr ∷ fr ∷ fo ∷ si ∷ []) p = tt
    proxy-IsOwned (t ∷ rr ∷ fr ∷ fo ∷ si ∷ pt ∷ []) p = tt

    command-IsOwned :
        (command : Text) (more : List Text) (p : Parts)
        → IsOwned s.system id
            (run_tokens b k server live c uuid transaction_uuid (id ∷ command ∷ more) p s)
    unfolding run_tokens
    command-IsOwned command more p =
        if-IsOwned s.system id (text_eq command (codes "ping")) _ _
          (response-IsOwned s.system id s id true (some _))
          (if-IsOwned s.system id (text_eq command (codes "route")) _ _ (route-IsOwned id more s) (
            if-IsOwned s.system id (text_eq command (codes "remove_route")) _ _
              (remove_route-IsOwned id more s)
              (if-IsOwned s.system id (text_eq command (codes "authenticate")) _ _
                (authenticate-IsOwned id more s)
                (if-IsOwned s.system id (text_eq command (codes "sip")) _ _ (sip-IsOwned more p) (
                  if-IsOwned s.system id (text_eq command (codes "proxy")) _ _
                    (proxy-IsOwned more p) tt)))))

  tokens-IsOwned :
      (keeps : KeepsClients k) (tokens : List Text) (p : Parts) (s : Connection D)
      → Dict.find (first_or_empty tokens) s.system.world.clients.api_requests ≡ none
      → lock live c ≡ some c
      → IsOwned s.system
          (first_or_empty tokens)
          (run_tokens b k server live c uuid transaction_uuid tokens p s)
  unfolding run_tokens
  tokens-IsOwned keeps [] p s f l = tt
  tokens-IsOwned keeps (id ∷ []) p s f l = tt
  tokens-IsOwned keeps (id ∷ command ∷ more) p s f l = command-IsOwned keeps id s f l command more p

  -- A message that is accepted without a response at once, where its id, the first token, is not empty
  -- and not in use, the client is still there and the stack leaves the tables of the clients alone, is
  -- one call of the stack (a request inside or outside a dialog, a response, a CANCEL or a proxy request)
  -- with this id, made once the client is recorded for it; and the next response with this id is
  -- posted to the client that sent the message.
  pub process_client_message-answered_later :
      (msg response additional : Text) (s s' : Connection D)
      → KeepsClients k
      → let id = first_or_empty (split_tokens b (split_msg msg).meta) in
        is_empty id ≡ false
        → Dict.find id s.system.world.clients.api_requests ≡ none
        → lock live c ≡ some c
        → process_client_message b k server live c uuid transaction_uuid msg s ≡ answered s' [] true
        → let r = route_api_response live id response additional s'.system.world.clients in
          Asked id s.system s'.system
          × (r.0 ≡ true)
          × (r.1.posted
              ≡ s'.system.world.clients.posted ++ (c, api_response id response additional) ∷ [])
  unfolding process_client_message
  process_client_message-answered_later msg response additional s s' keeps n f l e =
      let p = split_msg msg in
      let tokens = split_tokens b p.meta in
      let o =
        subst (IsOwned s.system (first_or_empty tokens)) e (tokens-IsOwned keeps tokens p s f l) in
      let (sent, posted) =
        route_api_response-delivered live _ response additional c s'.system.world.clients n o.1 in
      (o.0, sent, posted)
