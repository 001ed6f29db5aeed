-- ===== src/ClientController/Routing.antt =====
-- Where messages from the network go: the `route_…` methods of src/client-controller.cpp for requests
-- and responses, each with the value that it returns and the state after it.
pub mod Responses
pub mod Requests
use drachtio_server.Common.{
  ℕ, ◌≡◌, Bool, true, false, not, ◌&&◌, ◌||◌, Option, none, some, or_else, List, [], ◌∷◌, ◌++◌, leb,
  if◌then◌else◌, Text, text_eq, codes, has_substring,
}
use drachtio_server.ClientController.{Controller, Live, lock, Post, sip_message, post}
use drachtio_server.ClientController.Transactions.{
  find_client_for_app_transaction, find_client_for_net_transaction, add_net_transaction,
  remove_app_transaction, remove_net_transaction,
}
use drachtio_server.ClientController.Dialogs.{find_client_for_dialog, remove_dialog}

-- What is read of a request's `sip_t`: the request line's method, the substate of a
-- Subscription-State header and the type of an Event header, both of which may be absent (the outer
-- `Option`) or null (the inner one).
pub record SipRequest : Type 0 where
  pub method_name : Text
  pub is_notify : Bool
  pub subscription_state : Option (Option Text)
  pub event : Option (Option Text)

abbrev pub is_terminated : Option (Option Text) → Bool
is_terminated none = false
is_terminated (some none) = false
is_terminated (some (some substate)) = has_substring (codes "terminated") substate

abbrev pub is_not_refer : Option (Option Text) → Bool
is_not_refer none = true
is_not_refer (some none) = false
is_not_refer (some (some type)) =
    not (has_substring (codes "refer") type) && not (has_substring (codes "REFER") type)

abbrev pub is_final_notify : SipRequest → Bool
is_final_notify sip =
    sip.is_notify && (is_terminated sip.subscription_state && is_not_refer sip.event)

abbrev pub is_bye : SipRequest → Bool
is_bye sip = text_eq sip.method_name (codes "BYE")

abbrev pub is_update : SipRequest → Bool
is_update sip = text_eq sip.method_name (codes "UPDATE")

-- Such a request from the network ends the dialog.
abbrev pub ends_dialog : SipRequest → Bool
ends_dialog sip = is_bye sip || is_final_notify sip

module _ (live : Live) (random : ℕ) (raw meta transaction : Text) where
  unfoldable pub route_ack_request_inside_dialog : Text → Text → Controller → Bool × Controller
  unfolding find_client_for_net_transaction post remove_net_transaction
  route_ack_request_inside_dialog invite_transaction dialog s =
      elim (or_else (find_client_for_dialog live random dialog s)
        (find_client_for_net_transaction live invite_transaction s)) [
          | none ↦ (false, s)
          | some c ↦ (
            true,
            remove_net_transaction invite_transaction
                (post c (sip_message transaction dialog raw meta) s),
          )
        ]

  unfoldable pub route_request_inside_invite : Text → Controller → Bool × Controller
  unfolding find_client_for_net_transaction find_client_for_app_transaction post
  route_request_inside_invite dialog s =
      elim (or_else (find_client_for_dialog live random dialog s) (
        or_else (find_client_for_net_transaction live transaction s)
          (find_client_for_app_transaction live transaction s))) [
            | none ↦ (false, s)
            | some c ↦ (true, post c (sip_message transaction dialog raw meta) s)
          ]

  -- An UPDATE may come before the dialog is known.
  abbrev pub find_client_for_request : SipRequest → Text → Controller → Option ℕ
  find_client_for_request sip dialog s =
      or_else (find_client_for_dialog live random dialog s)
        (if is_update sip then find_client_for_net_transaction live transaction s else none)

  -- With the client that was found, or none.
  unfoldable pub forward_request : SipRequest → Text → Option ℕ → Controller → Bool × Controller
  unfolding post add_net_transaction
  forward_request sip dialog none s = (false, if ends_dialog sip then remove_dialog dialog s else s)
  forward_request sip dialog (some c) s =
      let s' =
        if has_substring (codes "unsolicited") transaction
        then s
        else add_net_transaction c transaction s in
      let s'' = post c (sip_message transaction dialog raw meta) s' in
      (true, if ends_dialog sip then remove_dialog dialog s'' else s'')

  unfoldable pub route_request_inside_dialog : SipRequest → Text → Controller → Bool × Controller
  unfolding find_client_for_net_transaction forward_request
  route_request_inside_dialog sip dialog s =
      forward_request sip dialog (find_client_for_request sip dialog s) s

-- `status` is that of the response, and `method` that of its CSeq header.
module _ (live : Live) (raw meta transaction : Text) where
  unfoldable pub route_response_inside_transaction :
      ℕ → Text → Text → Controller → Bool × Controller
  unfolding find_client_for_app_transaction post remove_app_transaction
  route_response_inside_transaction status method dialog s =
      elim (find_client_for_app_transaction live transaction s) [
        | none ↦ (false, remove_dialog dialog (remove_app_transaction transaction s))
        | some c ↦
            let s' = post c (sip_message transaction dialog raw meta) s in
            let s'' = if leb 200 status then remove_app_transaction transaction s' else s' in
            (true, if text_eq method (codes "BYE") then remove_dialog dialog s'' else s'')
      ]
