-- ===== src/ClientController/Routing/Requests.antt =====
-- Requests inside a dialog.
use mathlib.Core.List.{append-nil}
use drachtio_server.Common.{
  ℕ, ◌≡◌, refl, Bool, true, false, ◌&&◌, Bool-cases, inl, inr, Option, none, some, or_else, is_some,
  List, [], ◌∷◌, ◌++◌, if◌then◌else◌, Text, text_eq, codes, arith, has_substring,
}
use drachtio_server.Common.Dict
use drachtio_server.ClientController.{Controller, Live, Post, sip_message, post}
use drachtio_server.ClientController.Transactions.{add_net_transaction}
use drachtio_server.ClientController.Dialogs.{remove_dialog}
use drachtio_server.ClientController.Dialogs.Laws.{remove_dialog_lem, remove_dialog-frame}
use drachtio_server.ClientController.Routing.{
  SipRequest, forward_request, ends_dialog, find_client_for_request, route_request_inside_dialog,
}

after_end :
    (ends : Bool) (dialog other : Text) (s : Controller)
    → Dict.find other (if ends then remove_dialog dialog s else s).dialogs
      ≡ (if ends && text_eq dialog other then none else Dict.find other s.dialogs)
after_end true dialog other s = remove_dialog_lem dialog other s
after_end false dialog other s = refl

module _ (live : Live) (random : ℕ) (raw meta transaction : Text) (sip : SipRequest)
    (dialog : Text) where
  forward_request-dialogs :
      (found : Option ℕ) (s : Controller) (other : Text)
      → Dict.find other
          (forward_request live random raw meta transaction sip dialog found s).1.dialogs
        ≡ (if ends_dialog sip && text_eq dialog other then none else Dict.find other s.dialogs)
  unfolding forward_request
  forward_request-dialogs none s other = after_end (ends_dialog sip) dialog other s
  forward_request-dialogs (some c) s other =
      elim (Bool-cases (has_substring (codes "unsolicited") transaction)) [
        | inl u ↦ rw u (
            after_end (ends_dialog sip) dialog other
              (post c (sip_message transaction dialog raw meta) s))
        | inr k ↦ rw k (
            after_end (ends_dialog sip) dialog other (
              post c (sip_message transaction dialog raw meta)
                (add_net_transaction c transaction s)))
      ]

  -- A BYE, or a NOTIFY that ends a subscription, takes its dialog out of the table whether or not a
  -- client was found for it; any other request leaves the table as it was.
  pub route_request_inside_dialog-dialogs :
      (s : Controller) (other : Text)
      → Dict.find other
          (route_request_inside_dialog live random raw meta transaction sip dialog s).1.dialogs
        ≡ (if ends_dialog sip && text_eq dialog other then none else Dict.find other s.dialogs)
  unfolding route_request_inside_dialog
  route_request_inside_dialog-dialogs s other =
      forward_request-dialogs
        (find_client_for_request live random raw meta transaction sip dialog s) s other

  abbrev pub delivered : Option ℕ → List (ℕ × Post)
  delivered none = []
  delivered (some c) = (c, sip_message transaction dialog raw meta) ∷ []

  forward_request-delivers :
      (found : Option ℕ) (s : Controller)
      → let t = forward_request live random raw meta transaction sip dialog found s in
        (t.0 ≡ is_some found)
        × (t.1.posted ≡ s.posted ++ delivered found)
        × (Dict.find transaction t.1.net_transactions ≡ (
            if has_substring (codes "unsolicited") transaction
            then Dict.find transaction s.net_transactions
            else or_else (Dict.find transaction s.net_transactions) found))
  unfolding forward_request
  forward_request-delivers none s =
      ground (arith, remove_dialog-frame dialog s, append-nil s.posted)
  forward_request-delivers (some c) s =
      let m = sip_message transaction dialog raw meta in
      ground (
        arith,
        remove_dialog-frame dialog (post c m s),
        remove_dialog-frame dialog (post c m (add_net_transaction c transaction s)),
        Dict.find-insert_self transaction c s.net_transactions,
      )

  -- The request goes once, to the client found for it, and the value says whether there was one. Unless
  -- its transaction id is an unsolicited one, the responses to it are then the client's to send: the
  -- transaction belongs to it, if it did not belong to another already.
  pub route_request_inside_dialog-delivers :
      (s : Controller)
      → let found = find_client_for_request live random raw meta transaction sip dialog s in
        let t = route_request_inside_dialog live random raw meta transaction sip dialog s in
        (t.0 ≡ is_some found)
        × (t.1.posted ≡ s.posted ++ delivered found)
        × (Dict.find transaction t.1.net_transactions ≡ (
            if has_substring (codes "unsolicited") transaction
            then Dict.find transaction s.net_transactions
            else or_else (Dict.find transaction s.net_transactions) found))
  unfolding route_request_inside_dialog
  route_request_inside_dialog-delivers s =
      forward_request-delivers
        (find_client_for_request live random raw meta transaction sip dialog s) s
