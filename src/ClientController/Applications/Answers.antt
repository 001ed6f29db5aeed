-- ===== src/ClientController/Applications/Answers.antt =====
-- Who is recorded for the requests that an application makes, while the SIP stack leaves the tables of
-- the clients alone.
use drachtio_server.Common.{ℕ, ◌≡◌, none, some, Text, codes, starts_with, Bool-cases, inl, inr}
use drachtio_server.Common.Dict
use drachtio_server.ClientController.{Live, lock}
use drachtio_server.ClientController.Transactions.{
  find_client_for_api_request, add_api_request, add_app_transaction, remove_net_transaction,
}
use drachtio_server.ClientController.Applications.{
  System, on_clients, ProxyOptions, Stack, register_sender, send_request_inside_dialog,
  send_request_outside_dialog, respond_to_sip_request, send_cancel_request, proxy_request,
}

-- The calls into the stack only post to its thread.
pub record KeepsClients {D : Type 0} (k : Stack D) : Type 0 where
  pub inside :
      (m d t h b u : Text) (s : System D)
      → (k.send_inside m d t h b u s).1.world.clients ≡ s.world.clients
  pub outside :
      (m t h b u d r : Text) (s : System D)
      → (k.send_outside m t h b u d r s).1.world.clients ≡ s.world.clients
  pub respond :
      (m u t h b : Text) (s : System D) → (k.respond m u t h b s).1.world.clients ≡ s.world.clients
  pub cancel :
      (m u t h b : Text) (s : System D)
      → (k.send_cancel m u t h b s).1.world.clients ≡ s.world.clients
  pub proxy :
      (m u : Text) (o : ProxyOptions) (h : Text) (s : System D)
      → (k.proxy m u o h s).world.clients ≡ s.world.clients

module _ {D : Type 0} (k : Stack D) (keeps : KeepsClients k) (live : Live) (c : ℕ) (id : Text)
    (s : System D) (fresh : Dict.find id s.world.clients.api_requests ≡ none)
    (here : lock live c ≡ some c) where
  abbrev pub IsRecorded : System D → Type 0
  IsRecorded t = find_client_for_api_request live id t.world.clients ≡ some c

  registered : (uuid start_line : Text) → IsRecorded (register_sender c uuid id start_line s)
  unfolding find_client_for_api_request add_api_request add_app_transaction
  registered uuid start_line = elim (Bool-cases (starts_with (codes "ACK") start_line)) [
    | inl e ↦ rw (e, Dict.find-insert_self id c s.world.clients.api_requests, fresh) here
    | inr e ↦ rw (e, Dict.find-insert_self id c s.world.clients.api_requests, fresh) here
  ]

  added : IsRecorded (on_clients (add_api_request c id) s)
  unfolding find_client_for_api_request add_api_request
  added = rw (Dict.find-insert_self id c s.world.clients.api_requests, fresh) here

  pub inside-IsRecorded :
      (uuid dialog start_line headers body : Text)
      → IsRecorded (send_request_inside_dialog k c uuid id dialog start_line headers body s).1
  unfolding send_request_inside_dialog
  inside-IsRecorded uuid dialog start_line headers body =
      rw
        (keeps.inside id dialog start_line headers body uuid
          (register_sender c uuid id start_line s))
        (registered uuid start_line)

  pub outside-IsRecorded :
      (uuid start_line headers body dialog route_url : Text)
      → IsRecorded
          (send_request_outside_dialog k c uuid id start_line headers body dialog route_url s).1
  unfolding send_request_outside_dialog
  outside-IsRecorded uuid start_line headers body dialog route_url =
      rw
        (keeps.outside id start_line headers body uuid dialog route_url
          (register_sender c uuid id start_line s))
        (registered uuid start_line)

  pub respond-IsRecorded :
      (transaction start_line headers body : Text)
      → IsRecorded (respond_to_sip_request k c id transaction start_line headers body s).1
  unfolding respond_to_sip_request
  respond-IsRecorded transaction start_line headers body =
      rw
        (keeps.respond id transaction start_line headers body (on_clients (add_api_request c id) s))
        added

  pub cancel-IsRecorded :
      (transaction start_line headers body : Text)
      → IsRecorded (send_cancel_request k c id transaction start_line headers body s).1
  unfolding send_cancel_request
  cancel-IsRecorded transaction start_line headers body =
      rw (keeps.cancel id transaction start_line headers body (on_clients (add_api_request c id) s))
        added

  pub proxy-IsRecorded :
      (transaction : Text) (options : ProxyOptions) (headers : Text)
      → IsRecorded (proxy_request k c id transaction options headers s).1
  unfolding proxy_request remove_net_transaction find_client_for_api_request add_api_request
  proxy-IsRecorded transaction options headers =
      rw (keeps.proxy id transaction options headers (on_clients (add_api_request c id) s)) added
