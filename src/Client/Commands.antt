-- ===== src/Client/Commands.antt =====
-- What a connection does with a whole message: `BaseClient::processClientMessage` of src/client.cpp,
-- and the messages that it writes.
pub mod Refusals
pub mod Requests
mod Tests
use drachtio_server.Common.{
  ℕ, ◌≡◌, Bool, true, false, not, Option, none, some, List, [], ◌∷◌, ◌++◌, ◌==◌, if◌then◌else◌,
  is_empty, Text, text_eq, codes, starts_with,
}
use drachtio_server.ClientController.{Live}
use drachtio_server.ClientController.Selection.{wants_requests, no_longer_wants_requests, has_tag}
use drachtio_server.ClientController.Applications.{
  System, on_clients, ProxyOptions, Stack, send_request_inside_dialog, send_request_outside_dialog,
  respond_to_sip_request, send_cancel_request, proxy_request,
}
use drachtio_server.Drachtio.Messages.{
  Strings, Parts, split_msg, split_tokens, get_value_for_header,
}

-- getSource() + "|" + getBytes() + … of `SipMsgData_t`
pub record SipMsgData : Type 0 where
  pub source : Text
  pub bytes : Text
  pub protocol : Text
  pub address : Text
  pub port : Text
  pub time : Text
  pub dest_address : Text
  pub dest_port : Text

-- The parts with '|' between them.
abbrev pub fields : List Text → Text
fields [] = []
fields (t ∷ []) = t
fields (t ∷ u ∷ ts) = t ++ b'|' ∷ fields (u ∷ ts)

unfoldable pub to_message_format : SipMsgData → Text
to_message_format m = fields (m.source ∷ m.bytes ∷ m.protocol ∷ m.address ∷ m.port ∷ m.time ∷ [])

-- What is sent for a SIP message of a dialog, and for one outside of a dialog; `uuid` is new.
unfoldable pub sip_message_text : Text → Text → Text → Text → SipMsgData → Text
unfolding to_message_format
sip_message_text uuid transaction dialog raw m =
    fields (uuid ∷ codes "sip" ∷ to_message_format m ∷ transaction ∷ dialog ∷ (13 ∷ 10 ∷ raw) ∷ [])

unfoldable pub sip_request_text : Text → Text → Text → SipMsgData → Text
unfolding to_message_format
sip_request_text uuid transaction raw m =
    fields (uuid ∷ codes "sip" ∷ to_message_format m ∷ transaction ∷ [] ∷ [] ∷ [])
    ++ ((if is_empty m.dest_address then [] else fields (m.dest_address ∷ m.dest_port ∷ [] ∷ []))
        ++ 13 ∷ 10 ∷ raw)

unfoldable pub cdr_text : Text → Text → Text → Text
cdr_text uuid raw meta = fields (uuid ∷ (meta ++ 13 ∷ 10 ∷ raw) ∷ [])

-- The additional text is left out where it is empty.
unfoldable pub api_response_text : Text → Text → Text → Text → Text
api_response_text uuid msg_id response [] =
    fields (uuid ∷ codes "response" ∷ msg_id ∷ response ∷ [])
api_response_text uuid msg_id response (c ∷ more) =
    fields (uuid ∷ codes "response" ∷ msg_id ∷ response ∷ (c ∷ more) ∷ [])

unfoldable pub create_response_msg : Text → Text → Bool → Option Text → Text
create_response_msg uuid msg_id ok none =
    fields (uuid ∷ codes "response" ∷ msg_id ∷ (if ok then codes "OK" else codes "NO") ∷ [])
create_response_msg uuid msg_id ok (some reason) =
    fields
      (uuid ∷ codes "response" ∷ msg_id ∷ (if ok then codes "OK" else codes "NO") ∷ reason ∷ [])

-- The state that a message works on: the system, and the tags of the client.
pub record Connection (D : Type 0) : Type 0 where
  pub system : System D
  pub tags : List Text

-- The state, the response (empty where none is made) and the value returned. `undefined` is a failed
-- assertion or a token that is read past the end of the vector.
pub data Answer (D : Type 0) : Type 0 where
  answered : Connection D → Text → Bool → Answer D
  undefined : Answer D

-- What the connection asks of the controller and of the build: `isSecret`, and what a client is told
-- when it has authenticated.
pub record Server : Type 0 where
  pub is_secret : Text → Bool
  pub host_ports : Text
  pub version : Text
  pub local_host_ports : Text

unfoldable pub insert_tags : List Text → List Text → List Text
insert_tags [] tags = tags
insert_tags (t ∷ new) tags = insert_tags new (if has_tag t tags then tags else t ∷ tags)

abbrev pub first_or_empty : List Text → Text
first_or_empty [] = []
first_or_empty (t ∷ ts) = t

-- The client, the addresses that are locked, and the two ids that `generateUuid` gives: for the
-- response and for the transaction of a request.
module _ {D : Type 0} (b : Strings) (k : Stack D) (server : Server) (live : Live) (c : ℕ)
    (uuid transaction_uuid : Text) where
  abbrev pub refuse : Connection D → Text → Text → Answer D
  refuse s msg_id reason = answered s (create_response_msg uuid msg_id false (some reason)) false

  abbrev pub on_system : (System D → Bool × System D) → Connection D → Answer D
  on_system f s = answered (record s { system = (f s.system).1 }) [] true

  run_route : Text → List Text → Connection D → Answer D
  unfolding wants_requests create_response_msg
  run_route msg_id [] s = undefined
  run_route msg_id (verb ∷ more) s =
      answered (record s { system = on_clients (wants_requests c verb) s.system })
        (create_response_msg uuid msg_id true none) true

  run_remove_route : Text → List Text → Connection D → Answer D
  unfolding no_longer_wants_requests create_response_msg
  run_remove_route msg_id [] s = undefined
  run_remove_route msg_id (verb ∷ more) s =
      answered (record s { system = on_clients (no_longer_wants_requests live c verb) s.system })
        (create_response_msg uuid msg_id true none) true

  abbrev pub with_tags : List Text → Connection D → Connection D
  with_tags [] s = s
  with_tags (tags ∷ more) s = record s { tags = insert_tags (b.split (codes ",") tags) s.tags }

  -- The tags are taken even where the secret is wrong.
  run_authenticate : Text → List Text → Connection D → Answer D
  unfolding insert_tags create_response_msg
  run_authenticate msg_id [] s = undefined
  run_authenticate msg_id (secret ∷ more) s =
      let s' = with_tags more s in
      if not (server.is_secret secret)
      then refuse s' msg_id (codes "incorrect secret")
      else answered s'
          (create_response_msg uuid msg_id true
            (some (fields (server.host_ports ∷ server.version ∷ server.local_host_ports ∷ []))))
          true

  -- A request with neither a dialog nor a transaction: its Call-ID may be that of a dialog.
  abbrev pub dialog_of : Text → System D → Option Text
  dialog_of headers s = elim (get_value_for_header b headers (codes "Call-ID")) [
    | none ↦ none
    | some call_id ↦ k.find_dialog_by_call_id call_id s
  ]

  send_to : Text → Text → Parts → Option Text → Connection D → Answer D
  unfolding send_request_inside_dialog send_request_outside_dialog
  send_to msg_id route_url p (some dialog) s =
      on_system
        (send_request_inside_dialog k c transaction_uuid msg_id dialog p.start_line p.headers
          p.body)
        s
  send_to msg_id route_url p none s =
      on_system
        (send_request_outside_dialog k c transaction_uuid msg_id p.start_line p.headers p.body []
          route_url)
        s

  send_request : Text → Text → Parts → Connection D → Answer D
  unfolding send_to get_value_for_header
  send_request msg_id route_url p s = send_to msg_id route_url p (dialog_of p.headers s.system) s

  run_sip : Text → List Text → Parts → Connection D → Answer D
  unfolding send_request respond_to_sip_request send_request_inside_dialog send_cancel_request
  run_sip msg_id [] p s = undefined
  run_sip msg_id (transaction ∷ []) p s = undefined
  run_sip msg_id (transaction ∷ dialog ∷ more) p s =
      if starts_with (codes "SIP/") p.start_line
      then if is_empty transaction
        then refuse s msg_id (codes "transaction id missing")
        else on_system (respond_to_sip_request k c msg_id transaction p.start_line p.headers p.body)
            s
      else if not (is_empty dialog)
      then on_system
          (send_request_inside_dialog k c transaction_uuid msg_id dialog p.start_line p.headers
            p.body)
          s
      else if is_empty transaction
      then send_request msg_id (first_or_empty more) p s
      else if starts_with (codes "CANCEL") p.start_line
      then on_system (send_cancel_request k c msg_id transaction p.start_line p.headers p.body) s
      else undefined

  run_proxy : Text → List Text → Parts → Connection D → Answer D
  unfolding proxy_request create_response_msg
  run_proxy msg_id (t ∷ rr ∷ fr ∷ fo ∷ si ∷ pt ∷ ft ∷ destinations) p s =
      on_system
        (proxy_request k c msg_id t
          (record {
            record_route = text_eq rr (codes "remainInDialog");
            full_response = text_eq fr (codes "fullResponse");
            follow_redirects = text_eq fo (codes "followRedirects");
            simultaneous = text_eq si (codes "simultaneous");
            provisional_timeout = pt;
            final_timeout = ft;
            destinations = destinations;
          })
          p.headers)
        s
  run_proxy msg_id [] p s =
      refuse s msg_id (codes "Invalid proxy request: not enough information provided")
  run_proxy msg_id (t ∷ []) p s =
      refuse s msg_id (codes "Invalid proxy request: not enough information provided")
  run_proxy msg_id (t ∷ rr ∷ []) p s = undefined
  run_proxy msg_id (t ∷ rr ∷ fr ∷ []) p s = undefined
  run_proxy msg_id (t ∷ rr ∷ fr ∷ fo ∷ []) p s = undefined
  run_proxy msg_id (t ∷ rr ∷ fr ∷ fo ∷ si ∷ []) p s = undefined
  run_proxy msg_id (t ∷ rr ∷ fr ∷ fo ∷ si ∷ pt ∷ []) p s = undefined

  run_tokens : List Text → Parts → Connection D → Answer D
  unfolding run_route run_remove_route run_authenticate run_sip run_proxy create_response_msg
  run_tokens [] p s = undefined
  run_tokens (msg_id ∷ []) p s = refuse s msg_id (codes "Invalid message format")
  run_tokens (msg_id ∷ command ∷ more) p s =
      if text_eq command (codes "ping")
      then answered s (create_response_msg uuid msg_id true (some (codes "pong"))) true
      else if text_eq command (codes "route")
      then run_route msg_id more s
      else if text_eq command (codes "remove_route")
      then run_remove_route msg_id more s
      else if text_eq command (codes "authenticate")
      then run_authenticate msg_id more s
      else if text_eq command (codes "sip")
      then run_sip msg_id more p s
      else if text_eq command (codes "proxy")
      then run_proxy msg_id more p s
      else refuse s msg_id (codes "Unknown message type")

  unfoldable pub process_client_message : Text → Connection D → Answer D
  unfolding run_tokens
  process_client_message msg s = let p = split_msg msg in run_tokens (split_tokens b p.meta) p s
