-- ===== src/ClientController/Applications.antt =====
-- What an application asks for: the methods of src/client-controller.cpp that pass its requests on to
-- the SIP stack, and those that bring a held request to it.
-- `SipDialogController` and `SipProxyController` are an interface here, since they are components of
-- their own: `D` is their state.
pub mod Answers
use drachtio_server.Common.{
  ℕ, ◌≡◌, Bool, true, false, not, Option, none, some, List, [], ◌∷◌, ◌++◌, ◌==◌, if◌then◌else◌,
  Text, codes, starts_with,
}
use drachtio_server.ClientController.{Controller, Live}
use drachtio_server.ClientController.Selection.{select_client}
use drachtio_server.ClientController.Transactions.{
  add_app_transaction, add_api_request, remove_net_transaction,
}
use drachtio_server.PendingRequests.{get_method_for_request}
use drachtio_server.PendingRequests.NewRequest.{World, route_new_request_to_client}

-- The tables of the clients and of the pending requests, and the state of the SIP stack.
pub record System (D : Type 0) : Type 0 where
  pub world : World
  pub stack : D

abbrev pub on_clients : {D : Type 0} → (Controller → Controller) → System D → System D
on_clients f s = record s { world = record s.world { clients = f s.world.clients } }

-- The options and destinations of `proxyRequest`.
pub record ProxyOptions : Type 0 where
  pub record_route : Bool
  pub full_response : Bool
  pub follow_redirects : Bool
  pub simultaneous : Bool
  pub provisional_timeout : Text
  pub final_timeout : Text
  pub destinations : List Text

-- The calls into the SIP stack, each with the value that it returns. All arguments are in the source's
-- order; the client message id comes first.
pub record Stack (D : Type 0) : Type 0 where
  pub send_inside : Text → Text → Text → Text → Text → Text → System D → Bool × System D
  pub send_outside : Text → Text → Text → Text → Text → Text → Text → System D → Bool × System D
  pub respond : Text → Text → Text → Text → Text → System D → Bool × System D
  pub send_cancel : Text → Text → Text → Text → Text → System D → Bool × System D
  pub proxy : Text → Text → ProxyOptions → Text → System D → System D
  pub find_dialog_by_call_id : Text → System D → Option Text

-- An ACK has no response, so it makes no transaction.
abbrev pub register_sender : {D : Type 0} → ℕ → Text → Text → Text → System D → System D
register_sender c uuid msg_id start_line s =
    let s' =
      if starts_with (codes "ACK") start_line
      then s
      else on_clients (add_app_transaction c uuid) s in
    on_clients (add_api_request c msg_id) s'

module _ {D : Type 0} (k : Stack D) where
  -- `uuid` is what `generateUuid` writes to the transaction id.
  unfoldable pub send_request_inside_dialog :
      ℕ → Text → Text → Text → Text → Text → Text → System D → Bool × System D
  send_request_inside_dialog c uuid msg_id dialog start_line headers body s =
      k.send_inside msg_id dialog start_line headers body uuid
        (register_sender c uuid msg_id start_line s)

  unfoldable pub send_request_outside_dialog :
      ℕ → Text → Text → Text → Text → Text → Text → Text → System D → Bool × System D
  send_request_outside_dialog c uuid msg_id start_line headers body dialog route_url s =
      k.send_outside msg_id start_line headers body uuid dialog route_url
        (register_sender c uuid msg_id start_line s)

  unfoldable pub respond_to_sip_request :
      ℕ → Text → Text → Text → Text → Text → System D → Bool × System D
  respond_to_sip_request c msg_id transaction start_line headers body s =
      k.respond msg_id transaction start_line headers body (on_clients (add_api_request c msg_id) s)

  unfoldable pub send_cancel_request :
      ℕ → Text → Text → Text → Text → Text → System D → Bool × System D
  send_cancel_request c msg_id transaction start_line headers body s =
      k.send_cancel msg_id transaction start_line headers body
        (on_clients (add_api_request c msg_id) s)

  unfoldable pub proxy_request : ℕ → Text → Text → ProxyOptions → Text → System D → Bool × System D
  proxy_request c msg_id transaction options headers s = (
    true,
    on_clients (remove_net_transaction transaction)
        (k.proxy msg_id transaction options headers (on_clients (add_api_request c msg_id) s)),
  )

  unfoldable pub outbound_failed : Text → System D → System D
  outbound_failed transaction s =
      (k.respond [] transaction (codes "SIP/2.0 480 Temporarily Unavailable") [] [] s).1

  -- The request is given to a client; where it is not held any more the answer is 480.
  unfoldable pub outbound_ready : ℕ → Text → System D → System D
  unfolding route_new_request_to_client outbound_failed
  outbound_ready c transaction s =
      let (rc, w) = route_new_request_to_client c transaction s.world in
      let s' = record s { world = w } in if rc == 0 then s' else outbound_failed transaction s'

  abbrev pub to_selected : Text → Option ℕ × Controller → System D → System D
  to_selected transaction (none, clients) s =
      outbound_failed transaction (on_clients (λ _. clients) s)
  to_selected transaction (some c, clients) s =
      outbound_ready c transaction (on_clients (λ _. clients) s)

  unfoldable pub select_client_for_tag : Live → Text → Text → System D → System D
  unfolding get_method_for_request select_client outbound_failed
  select_client_for_tag live transaction tag s =
      elim (get_method_for_request transaction s.world.pending) [
        | none ↦ outbound_failed transaction s
        | some method ↦
            to_selected transaction (select_client live method (some tag) s.world.clients) s
      ]
