-- ===== src/SipDialogController/Thread/Outside/Failed.antt =====
-- An INVITE that fails (`processResponseOutsideDialog` of src/sip-dialog-controller.cpp).
use drachtio_server.Common.{
  ℕ, ◌≡◌, refl, sym, ap, ◌∙◌, Bool, true, false, ◌&&◌, Option, none, some, List, [], ◌∷◌, ◌==◌, leb,
  ltb, Text, text_eq, codes, arith, subst,
}
use drachtio_server.Common.Dict
use drachtio_server.Common.Dict.{Dict}
use drachtio_server.InvitesInProgress.{Iip, find_by_leg, find_by_orq, clear}
use drachtio_server.ClientController.{Controller, Live, post}
use drachtio_server.ClientController.Dialogs.{remove_dialog}
use drachtio_server.ClientController.Transactions.{remove_app_transaction}
use drachtio_server.ClientController.Routing.{route_response_inside_transaction}
use drachtio_server.SipDialogController.Liveness
use drachtio_server.SipDialogController.Liveness.{track_tport_liveness}
use drachtio_server.SipDialogController.TimerD
use drachtio_server.SipDialogController.TimerD.{TimerDHandler, resend_if_needed}
use drachtio_server.SipDialogController.Thread.{
  Thread, Effect, did, did_all, of_liveness, on_dialog, dialog_id,
}
use drachtio_server.SipDialogController.Thread.Steps.{World, clear_invite}
use drachtio_server.SipDialogController.Thread.Responses.{track, note_counts}
use drachtio_server.SipDialogController.Thread.Requests.{zero_rc}
use drachtio_server.SipDialogController.Thread.Requests.Late.{
  cleared-gone, settle_invites-SameTables,
}
use drachtio_server.SipDialogController.Thread.Requests.Held.{Yields}
use drachtio_server.SipDialogController.Thread.Outside.{
  Received, Network, is_subscribe, makes_dialog, is_ok_invite, note_response, establish,
  finish_response, tell_dialog, tell_app, forget_failed, response_to_invite, invite_found,
  unless_resent, process_response_outside_dialog,
}

did_all-invites :
    {A : Type 0} (f : A → Effect) (es : List A) (t : Thread) → (did_all f es t).invites ≡ t.invites
did_all-invites f [] t = refl
did_all-invites f (e ∷ es) t = did_all-invites f es (did (f e) t)

did_all-acks :
    {A : Type 0} (f : A → Effect) (es : List A) (t : Thread) → (did_all f es t).acks ≡ t.acks
did_all-acks f [] t = refl
did_all-acks f (e ∷ es) t = did_all-acks f es (did (f e) t)

note_counts-kept :
    (t : Thread) (r : Dict ℕ × List Liveness.Effect)
    → ((note_counts t r).invites ≡ t.invites) × ((note_counts t r).acks ≡ t.acks)
note_counts-kept t (counts, effects) = (
  did_all-invites of_liveness effects (record t { counts = counts }),
  did_all-acks of_liveness effects (record t { counts = counts }),
)

-- A final response ends the transaction of the application, whether it is connected or not.
pub route_response-ended :
    (live : Live) (raw meta transaction method dialog : Text) (status : ℕ) (s : Controller)
    → leb 200 status ≡ true
    → Dict.find transaction
        (route_response_inside_transaction live raw meta transaction status method dialog
          s).1.app_transactions
      ≡ none
unfolding route_response_inside_transaction remove_dialog remove_app_transaction post
route_response-ended live raw meta transaction method dialog status s final =
    ground (arith, final, Dict.find-erase_self transaction s.app_transactions)

-- Neither the invite in progress nor the transaction of the application is left.
abbrev pub IsForgotten : Iip → Thread → Type 0
IsForgotten iip u =
    (find_by_leg iip.leg u.invites ≡ none)
    × (Dict.find iip.transaction_id u.clients.app_transactions ≡ none)

module _ (world : World) (net : Network) (m : Received)
    (invite : m.response.method_name ≡ codes "INVITE")
    (failed : ltb 200 m.response.status ≡ true) where
  forget_failed-kept :
      (a : ℕ) (t : Thread)
      → ((forget_failed world net m.response a t).invites ≡ t.invites)
        × ((forget_failed world net m.response a t).clients.app_transactions
            ≡ t.clients.app_transactions)
  unfolding dialog_id remove_dialog
  forget_failed-kept a t = ground arith

  tell_dialog-IsForgotten :
      (iip : Iip) (a : ℕ) (t : Thread)
      → find_by_leg iip.leg t.invites ≡ none
      → IsForgotten iip (tell_dialog world net m.response iip a t)
  unfolding dialog_id
  tell_dialog-IsForgotten iip a t gone =
      let (id, u) = dialog_id a t in
      let v = tell_app world net m.response iip.transaction_id id u in
      let (i, c) = forget_failed-kept a v in
      (
        ap (find_by_leg iip.leg) i ∙ gone,
        ap (Dict.find iip.transaction_id) c
            ∙ route_response-ended world.live m.response.raw m.response.meta iip.transaction_id
                m.response.method_name id m.response.status u.clients (ground (arith, failed)),
      )

  finish_response-gone :
      (iip : Iip) (a : ℕ) (t : Thread)
      → find_by_leg iip.leg (finish_response world net m.response iip a t).invites ≡ none
  unfolding finish_response clear_invite
  finish_response-gone iip a t =
      let c = clear iip t.invites in
      let not_ok : (text_eq m.response.method_name (codes "INVITE") && m.response.status == 200)
          ≡ false =
        ground (arith, failed) in
      rw (not_ok, failed)
        (ap (find_by_leg iip.leg) (settle_invites-SameTables c.1 (record t { invites = c.0 })).0
          ∙ cleared-gone iip.leg iip t.invites refl)

  not_subscribe : is_subscribe m.response ≡ false
  unfolding text_eq
  not_subscribe = rw invite refl

  makes_none : makes_dialog m ≡ false
  makes_none = ground (arith, failed, not_subscribe)

  response_to_invite-IsForgotten :
      (iip : Iip) (a : ℕ) (t : Thread)
      → Yields (λ res. IsForgotten iip res.1) (response_to_invite world net m iip (some a) t)
  unfolding response_to_invite establish
  response_to_invite-IsForgotten iip a t =
      let u = on_dialog a (note_response world net m) t in
      let not_ok : is_ok_invite world net m.response ≡ false = ground (arith, failed) in
      (
        (
          zero_rc,
          tell_dialog world net m.response iip a (finish_response world net m.response iip a u),
        ),
        rw (makes_none, not_ok) refl,
        tell_dialog-IsForgotten iip a (finish_response world net m.response iip a u)
            (finish_response-gone iip a u),
      )

  invite_found-IsForgotten :
      (iip : Iip) (a : ℕ) (o : Option Iip) (t : Thread)
      → o ≡ some iip
      → iip.dialog ≡ some a
      → Yields (λ res. IsForgotten iip res.1) (invite_found world net m o t)
  invite_found-IsForgotten iip a o t known has_dialog =
      subst (λ x. Yields (λ res. IsForgotten iip res.1) (invite_found world net m x t)) (sym known)
        (subst (λ d. Yields (λ res. IsForgotten iip res.1) (response_to_invite world net m iip d t))
          (sym has_dialog) (response_to_invite-IsForgotten iip a t))

  unless_resent-IsForgotten :
      (iip : Iip) (a : ℕ) (s : Bool × List TimerD.Effect) (t : Thread)
      → s.0 ≡ false
      → find_by_orq (some m.response.orq) t.invites ≡ some iip
      → iip.dialog ≡ some a
      → Yields (λ res. IsForgotten iip res.1) (unless_resent world net m s t)
  unless_resent-IsForgotten iip a (true, effects) t new known has_dialog =
      absurd (ground (arith, new))
  unless_resent-IsForgotten iip a (false, effects) t new known has_dialog =
      invite_found-IsForgotten iip a (find_by_orq (some m.response.orq) t.invites) t known
        has_dialog

-- A response above 200 to an INVITE of ours that is in progress, and of which no ACK is kept: it is
-- handled without a failure, and then neither an invite in progress of its leg nor the
-- transaction of the application is left, whether the application is connected or not.
pub process_response_outside_dialog-IsForgotten :
    (world : World) (net : Network) (limit : ℕ) (m : Received) (iip : Iip) (a : ℕ) (t : Thread)
    → m.response.method_name ≡ codes "INVITE"
    → ltb 200 m.response.status ≡ true
    → find_by_orq (some m.response.orq) t.invites ≡ some iip
    → iip.dialog ≡ some a
    → (resend_if_needed world.ack_stack m.response.orq t.acks).0 ≡ false
    → Yields (λ res. IsForgotten iip res.1) (process_response_outside_dialog world net limit m t)
unfolding process_response_outside_dialog track text_eq
process_response_outside_dialog-IsForgotten world net limit m iip a t invite failed known has_dialog
      new =
    let r = m.response in
    let u = track limit r.answer r.tport t in
    let (i, k) = note_counts-kept t (track_tport_liveness limit r.answer r.tport t.counts) in
    rw (ap (λ n. text_eq n (codes "INVITE")) invite) (
      unless_resent-IsForgotten world net m invite failed iip a
        (resend_if_needed world.ack_stack r.orq u.acks) u
        (ap (λ d. (resend_if_needed world.ack_stack r.orq d).0) k ∙ new)
        (ap (find_by_orq (some r.orq)) i ∙ known) has_dialog)
