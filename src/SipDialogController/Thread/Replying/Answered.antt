-- ===== src/SipDialogController/Thread/Replying/Answered.antt =====
-- Every response of an application is answered (`doRespondToSipRequest` of
-- src/sip-dialog-controller.cpp).
use drachtio_server.Common.{
  ℕ, ◌+◌, ◌≡◌, refl, sym, ap, ◌∙◌, Bool, true, false, ◌||◌, Option, none, some, OnOption,
  if◌then◌else◌, is_empty, is_some, Text, codes, Bool-cases, inl, inr, subst,
}
use drachtio_server.InvitesInProgress.{Iip, find_by_transaction_id}
use drachtio_server.Common.Dict
use drachtio_server.ClientController.Transactions.{
  remove_net_transaction, find_client_for_api_request, lock_entry,
}
use drachtio_server.SipDialogController.Thread.{
  Thread, find_and_remove_transaction_id, add_incoming_request_transaction,
}
use drachtio_server.SipDialogController.Thread.Steps.{World, clear_invite_found}
use drachtio_server.SipDialogController.Thread.Clients.{clear_invite_found-clients}
use drachtio_server.SipDialogController.Thread.Sending.{answer}
use drachtio_server.SipDialogController.Thread.Sending.Replies.{replies, route_api_response-replies}
use drachtio_server.SipDialogController.Thread.Replying.{
  Reply, Waiting, Sent, Incoming, Outcome, enter_invite, enter_request, setup_for,
  setup_leg_for_incoming_request,
}
use drachtio_server.SipDialogController.Thread.Replying.Dialogs.{respond_to_waiting}
use drachtio_server.SipDialogController.Thread.Replying.Invites.{respond_to_iip}
use drachtio_server.SipDialogController.Thread.Replying.Whole
use drachtio_server.SipDialogController.Thread.Replying.Whole.{attempt, do_respond_to_sip_request}
use drachtio_server.SipDialogController.Thread.Replying.Quiet.{SamePosts, bind-OnOption}
use drachtio_server.SipDialogController.Thread.Replying.QuietHeld.{respond_to_waiting-Q}
use drachtio_server.SipDialogController.Thread.Replying.QuietInvites.{respond_to_iip-Q}

module _ (world : World) (net : Incoming) (k : Reply) (t0 : Thread) where
  abbrev Q : Thread → Type 0
  Q t = SamePosts t0.clients t.clients

  -- The whole

  enter_invite-Q :
      (w : Waiting) (irq : ℕ) (o : Option ℕ) (t : Thread) → Q t → Q (enter_invite net k w irq o t).1
  enter_invite-Q w irq none t h = h
  enter_invite-Q w irq (some leg) t h = h

  enter_request-Q :
      (w : Waiting) (o : Option ℕ) (t : Thread) → Q t → Q (enter_request net k w o t).1
  unfolding add_incoming_request_transaction
  enter_request-Q w none t h = h
  enter_request-Q w (some irq) t h = elim (Bool-cases w.makes_dialog) [
    | inl e ↦ rw e (enter_invite-Q w irq w.leg t h)
    | inr e ↦ rw e h
  ]

  setup_for-Q : (o : Option Waiting) (t : Thread) → Q t → Q (setup_for net k o t).1
  setup_for-Q none t h = h
  setup_for-Q (some w) t h = elim (Bool-cases (w.is_canceled || w.is_shutdown)) [
    | inl e ↦ rw e h
    | inr e ↦ rw e (enter_request-Q w w.irq t h)
  ]

  setup_leg-Q : (t : Thread) → Q t → Q (setup_leg_for_incoming_request net k t).1
  unfolding setup_leg_for_incoming_request
  setup_leg-Q t h = setup_for-Q (net.waiting k.transaction_id) t h

  find_and_remove-Q : (t : Thread) → Q t → Q (find_and_remove_transaction_id k.transaction_id t).1
  unfolding find_and_remove_transaction_id
  find_and_remove-Q t h = h

  abbrev OnAttempt : Option (Option Iip × Outcome × Thread) → Type 0
  OnAttempt o = OnOption (λ r. Q r.2) o

  with_iip-Q : (iip : Iip) (t : Thread) → Q t → OnAttempt (Whole.with_iip world net k iip t)
  with_iip-Q iip t h =
      bind-OnOption (λ x. Q x.1) (λ x. Q x.2) (respond_to_iip world net k iip t) _
        (respond_to_iip-Q world net k t0 iip t h) λ x hx. hx

  with_irq-Q :
      (existing : Bool) (r : Option ℕ × Thread)
      → Q r.1
      → OnAttempt (Whole.with_irq world net k existing r)
  with_irq-Q existing (none, t) h = h
  with_irq-Q existing (some irq, t) h =
      bind-OnOption (λ x. Q x.1) (λ x. Q x.2) (respond_to_waiting world net k irq existing t) _
        (respond_to_waiting-Q world net k t0 irq existing t h) λ x hx. hx

  set_up-Q :
      (o : Option Iip) (t : Thread)
      → Q t
      → OnAttempt (elim o [
        | none ↦
            Whole.with_irq world net k false (find_and_remove_transaction_id k.transaction_id t)
        | some iip ↦ Whole.with_iip world net k iip t
      ])
  set_up-Q none t h =
      with_irq-Q false (find_and_remove_transaction_id k.transaction_id t) (find_and_remove-Q t h)
  set_up-Q (some iip) t h = with_iip-Q iip t h

  after_setup-Q : (r : Bool × Thread) → Q r.1 → OnAttempt (Whole.after_setup world net k r)
  after_setup-Q (false, t) h = h
  after_setup-Q (true, t) h = set_up-Q (find_by_transaction_id k.transaction_id t.invites) t h

  invite_or_new-Q :
      (o : Option Iip) (t : Thread)
      → Q t
      → OnAttempt (elim o [
        | none ↦ Whole.after_setup world net k (setup_leg_for_incoming_request net k t)
        | some iip ↦ Whole.with_iip world net k iip t
      ])
  invite_or_new-Q none t h =
      after_setup-Q (setup_leg_for_incoming_request net k t) (setup_leg-Q t h)
  invite_or_new-Q (some iip) t h = with_iip-Q iip t h

  attempt_with-Q : (r : Option ℕ × Thread) → Q r.1 → OnAttempt (Whole.attempt_with world net k r)
  attempt_with-Q (none, t) h =
      invite_or_new-Q (find_by_transaction_id k.transaction_id t.invites) t h
  attempt_with-Q (some irq, t) h = with_irq-Q true (some irq, t) h

  attempt-Q : (t : Thread) → Q t → OnAttempt (attempt world net k t)
  unfolding attempt
  attempt-Q t h =
      attempt_with-Q (find_and_remove_transaction_id k.transaction_id t) (find_and_remove-Q t h)

  -- The answer

  module _ (ne : is_empty k.msg_id ≡ false)
      (asked : is_some (find_client_for_api_request world.live k.msg_id t0.clients) ≡ true) where
    abbrev Told : Thread → Type 0
    Told t = replies k.msg_id t.clients.posted ≡ replies k.msg_id t0.clients.posted + 1

    answer-Told : (how why : Text) (t : Thread) → Q t → Told (answer world k.msg_id how why t)
    unfolding find_client_for_api_request
    answer-Told how why t (p, q) =
        route_api_response-replies world k.msg_id how why t.clients ne
          (ap (λ m. is_some (lock_entry world.live (Dict.find k.msg_id m))) q ∙ asked)
        ∙ ap (λ posted. replies k.msg_id posted + 1) p

    tell_sent-Told :
        (dialog : Text) (o : Option Sent) (t : Thread)
        → Q t
        → Told (Whole.tell_sent world net k dialog o t)
    tell_sent-Told dialog none t h =
        answer-Told (codes "NOK") (codes "failed sending, possibly due to far end closing socket") t
          h
    tell_sent-Told dialog (some s) t h =
        answer-Told (codes "OK") (Whole.reply_text world net k dialog s) t h

    tell_client-Told :
        (o : Outcome) (problem : Option Text) (t : Thread)
        → Q t
        → Told (Whole.tell_client world net k o problem t)
    tell_client-Told o (some why) t h = answer-Told (codes "NOK") why t h
    tell_client-Told o none t h = tell_sent-Told o.dialog (Whole.response_of world net k o.irq) t h

    end_transaction-Told :
        (o : Outcome) (t : Thread) → Told t → Told (Whole.end_transaction world net k o t)
    unfolding remove_net_transaction
    end_transaction-Told o t h = elim (Bool-cases (Whole.ends_transaction world net k o)) [
      | inl e ↦ rw e h
      | inr e ↦ rw e h
    ]

    clear-Told :
        (clear : Bool) (iip : Option Iip) (t : Thread)
        → Told t
        → Told (if clear then clear_invite_found iip t else t)
    clear-Told false iip t h = h
    clear-Told true iip t h =
        subst (λ s. replies k.msg_id s.posted ≡ replies k.msg_id t0.clients.posted + 1)
          (sym (clear_invite_found-clients iip t)) h

    give_up-Told :
        (destroy : Bool) (irq : Option ℕ) (t : Thread)
        → Told t
        → Told (if destroy then Whole.give_up_irq world net k irq t else t)
    give_up-Told false irq t h = h
    give_up-Told true none t h = h
    give_up-Told true (some irq) t h = h

    finish-Told :
        (r : Option Iip × Outcome × Thread) → Q r.2 → Told (Whole.finish_attempt world net k r)
    finish-Told (iip, o, t) h =
        let t1 =
          Whole.end_transaction world net k o (Whole.tell_client world net k o o.problem t) in
        give_up-Told o.destroy_irq o.irq (if o.clear_iip then clear_invite_found iip t1 else t1) (
          clear-Told o.clear_iip iip t1 (
            end_transaction-Told o (Whole.tell_client world net k o o.problem t)
              (tell_client-Told o o.problem t h)))

-- A response of an application that is connected and has asked with a message id: unless an assertion
-- fails or a null pointer is read, the application gets exactly one more answer to that id, whether the
-- response is sent, refused or too late, and whatever kind of request it is for.
pub do_respond_to_sip_request-Told :
    (world : World) (net : Incoming) (k : Reply) (t : Thread)
    → is_empty k.msg_id ≡ false
    → is_some (find_client_for_api_request world.live k.msg_id t.clients) ≡ true
    → OnOption
        (λ u. replies k.msg_id u.clients.posted ≡ replies k.msg_id t.clients.posted + 1)
        (do_respond_to_sip_request world net k t)
unfolding do_respond_to_sip_request
do_respond_to_sip_request-Told world net k t ne asked =
    bind-OnOption (λ r. SamePosts t.clients r.2.clients)
      (λ u. replies k.msg_id u.clients.posted ≡ replies k.msg_id t.clients.posted + 1)
      (attempt world net k t) _ (attempt-Q world net k t t (refl, refl))
      λ r h. finish-Told world net k t ne asked r h
