-- ===== src/SipDialogController/Thread/Replying/QuietInvites.antt =====
-- The answer to an INVITE or an UPDATE (`doRespondToSipRequest` of src/sip-dialog-controller.cpp) posts
-- nothing to clients.
use drachtio_server.Common.{
  ℕ, Bool, true, false, ◌&&◌, ◌||◌, Option, none, some, OnOption, ◌==◌, leb, if◌then◌else◌,
  is_empty, is_some, Text, text_eq, codes, Bool-cases, inl, inr,
}
use drachtio_server.InvitesInProgress.{Iip, add_reliable_to}
use drachtio_server.ClientController.Transactions.{remove_net_transaction}
use drachtio_server.SipDialogController.Thread.{
  Thread, SessionExpires, replied, did, on_dialog, dialog_id, find_dialog_by_id,
  find_and_remove_transaction_id,
}
use drachtio_server.SipDialogController.Thread.Steps.{World, add_dialog}
use drachtio_server.SipDialogController.Thread.Replying.{
  Reply, Local, Incoming, is_invite, is_subscribe, open_tport, in_brackets, contact_for,
}
use drachtio_server.SipDialogController.Thread.Replying.Invites
use drachtio_server.SipDialogController.Thread.Replying.Invites.{
  Ended, respond_to_iip, respond_to_irq, respond_to_update, set_session, accept_invite,
}
use drachtio_server.SipDialogController.Thread.Replying.Quiet.{
  SamePosts, OnState, bind-OnOption, bind-any, if-OnState, try_reply-Q, start_session_timer-Q,
  dialog_id-Q, add_dialog-Q,
}

module _ (world : World) (net : Incoming) (k : Reply) (t0 : Thread) where
  abbrev Q : Thread → Type 0
  Q t = SamePosts t0.clients t.clients

  -- An UPDATE

  update_from-Q :
      (irq : ℕ) (l : Option Local) (t : Thread)
      → Q t
      → OnState Q (Invites.update_from world net k irq l t)
  update_from-Q irq none t h = tt
  update_from-Q irq (some l) t h = try_reply-Q world net k t0 irq k.code t h

  update_over-Q :
      (irq : ℕ) (tp : Option ℕ) (t : Thread)
      → Q t
      → OnState Q (Invites.update_over world net k irq tp t)
  update_over-Q irq none t h = h
  update_over-Q irq (some tp) t h = update_from-Q irq (net.find_transport tp) t h

  forget_update-Q :
      (a : ℕ) (id : Text) (t : Thread) → Q t → Q (Invites.forget_update world net k a id t)
  unfolding remove_net_transaction find_and_remove_transaction_id
  forget_update-Q a id t h = elim (Bool-cases (is_empty id)) [ inl e ↦ rw e h | inr e ↦ rw e h ]

  respond_to_update-Q :
      (a irq : ℕ) (t : Thread) → Q t → OnState Q (respond_to_update world net k a irq t)
  unfolding respond_to_update
  respond_to_update-Q a irq t h =
      bind-OnOption (λ x. Q x.1) (λ x. Q x.1)
        (Invites.update_over world net k irq (open_tport net irq) t) _
        (update_over-Q irq (open_tport net irq) t h)
        λ x hx. forget_update-Q a (x.1.objects a).core.update_transaction_id x.1 hx

  -- An INVITE

  start_asked-Q :
      (a : ℕ) (o : Option SessionExpires) (t : Thread)
      → Q t
      → Q (Invites.start_asked world net k a o t)
  start_asked-Q a none t h = h
  start_asked-Q a (some se) t h =
      elim (Bool-cases
        (text_eq (Invites.asked_refresher world net k se.refresher) (codes "none"))) [
          | inl e ↦ rw e h
          | inr e ↦ rw e (
              start_session_timer-Q world net k t0 a (Invites.at_least_90 world net k se.delta)
                (Invites.refresher_for world net k
                  (Invites.asked_refresher world net k se.refresher))
                t h)
        ]

  start_session-Q :
      (a irq : ℕ) (o : Option SessionExpires) (t : Thread)
      → Q t
      → Q (Invites.start_session world net k a irq o t)
  start_session-Q a irq none t h = start_asked-Q a (net.session_expires irq) t h
  start_session-Q a irq (some se) t h =
      start_session_timer-Q world net k t0 a (Invites.at_least_90 world net k se.delta)
        (Invites.replied_refresher world net k se.refresher) t h

  set_session-Q : (a irq : ℕ) (t : Thread) → Q t → Q (set_session world net k a irq t)
  unfolding set_session
  set_session-Q a irq t h = elim (Bool-cases (k.code == 200 && is_invite (net.method irq))) [
    | inl e ↦ rw e (start_session-Q a irq k.session_expires t h)
    | inr e ↦ rw e h
  ]

  keep_reliable-Q :
      (iip : Iip) (irq : ℕ) (o : Option ℕ) (t : Thread)
      → Q t
      → OnState Q (Invites.keep_reliable world net k iip irq o t)
  keep_reliable-Q iip irq none t h = h
  keep_reliable-Q iip irq (some rel) t h =
      bind-any (λ x. Q x.1) (add_reliable_to iip (some rel) t.invites) _ λ invites. h

  wait_for_ack-Q :
      (a tp irq : ℕ) (t : Thread) → Q t → Q (Invites.wait_for_ack world net k a tp irq t)
  wait_for_ack-Q a tp irq t h = elim (Bool-cases (world.is_dgram tp)) [
    | inl e ↦ rw e h
    | inr e ↦ rw e h
  ]

  accept_invite-Q :
      (a tp irq : ℕ) (t : Thread) → Q t → OnOption Q (accept_invite world net k a tp irq t)
  unfolding accept_invite
  accept_invite-Q a tp irq t h =
      bind-OnOption Q Q (add_dialog world a t) _ (add_dialog-Q world net k t0 a t h)
        λ u hu. wait_for_ack-Q a tp irq u hu

  ended_by-Q :
      (clear : Bool) (o : Option Thread)
      → OnOption Q o
      → OnState Q (Invites.ended_by world net k clear o)
  ended_by-Q clear none h = tt
  ended_by-Q clear (some t) h = h

  accept_subscribe-Q :
      (a : ℕ) (t : Thread)
      → Q t
      → OnOption Q (if k.code == 202 || k.code == 200 then add_dialog world a t else some t)
  accept_subscribe-Q a t h = elim (Bool-cases (k.code == 202 || k.code == 200)) [
    | inl e ↦ rw e (add_dialog-Q world net k t0 a t h)
    | inr e ↦ rw e h
  ]

  after_answer-Q :
      (a tp irq : ℕ) (t : Thread) → Q t → OnState Q (Invites.after_answer world net k a tp irq t)
  after_answer-Q a tp irq t h = elim (Bool-cases (is_subscribe (net.method irq))) [
    | inl e ↦ rw e (ended_by-Q true _ (accept_subscribe-Q a t h))
    | inr e ↦ elim (Bool-cases (is_invite (net.method irq) && k.code == 200)) [
      | inl ok ↦ rw (e, ok) (ended_by-Q false _ (accept_invite-Q a tp irq t h))
      | inr other ↦ rw (e, other) h
    ]
  ]

  send_answer-Q :
      (a tp irq : ℕ) (t : Thread) → Q t → OnState Q (Invites.send_answer world net k a tp irq t)
  send_answer-Q a tp irq t h = elim (Bool-cases (net.treply irq)) [
    | inl e ↦ rw e (after_answer-Q a tp irq (did (replied irq k.code) t) h)
    | inr e ↦ rw e h
  ]

  answer_from-Q :
      (iip : Iip) (a tp irq : ℕ) (o : Option Local) (t : Thread)
      → Q t
      → OnState Q (Invites.answer_from world net k iip a tp irq o t)
  answer_from-Q iip a tp irq none t h = tt
  answer_from-Q iip a tp irq (some l) t h =
      let contact = in_brackets net (contact_for net irq l) in
      let t1 = on_dialog a (Invites.note_answer world net k contact) t in
      let t2 = set_session world net k a irq t1 in
      elim (Bool-cases (Invites.is_reliable world net k irq)) [
        | inl e ↦
            rw e (keep_reliable-Q iip irq (net.reliable_treply irq) t2 (set_session-Q a irq t1 h))
        | inr e ↦ rw e (send_answer-Q a tp irq t2 (set_session-Q a irq t1 h))
      ]

  answer_over-Q :
      (iip : Iip) (a irq : ℕ) (id : Text) (o : Option ℕ) (t : Thread)
      → Q t
      → OnState Q (Invites.answer_over world net k iip a irq id o t)
  answer_over-Q iip a irq id none t h = h
  answer_over-Q iip a irq id (some tp) t h = elim (Bool-cases (is_some (find_dialog_by_id id t))) [
    | inl e ↦ rw e h
    | inr e ↦ rw e (answer_from-Q iip a tp irq (net.find_transport tp) t h)
  ]

  answer_invite-Q :
      (iip : Iip) (a irq : ℕ) (r : Text × Thread)
      → Q r.1
      → OnState Q (Invites.answer_invite world net k iip a irq r)
  answer_invite-Q iip a irq (id, t) h =
      bind-OnOption (λ x. Q x.1) (λ x. Q x.1)
        (Invites.answer_over world net k iip a irq id (open_tport net irq) t) _
        (answer_over-Q iip a irq id (open_tport net irq) t h) λ x hx. hx

  respond_to_irq-Q :
      (iip : Iip) (a irq : ℕ) (t : Thread)
      → Q t
      → OnState Q (respond_to_irq world net k iip a irq t)
  unfolding respond_to_irq
  respond_to_irq-Q iip a irq t h = elim (Bool-cases (leb 200 (t.objects a).sip_status)) [
    | inl e ↦ rw e h
    | inr e ↦ rw e (answer_invite-Q iip a irq (dialog_id a t) (dialog_id-Q world net k t0 a t h))
  ]

  respond_to_invite-Q :
      (iip : Iip) (a : ℕ) (o : Option ℕ) (t : Thread)
      → Q t
      → OnState Q (Invites.respond_to_invite world net k iip a o t)
  respond_to_invite-Q iip a none t h = tt
  respond_to_invite-Q iip a (some irq) t h = respond_to_irq-Q iip a irq t h

  update_or_invite-Q :
      (iip : Iip) (a : ℕ) (o : Option ℕ) (t : Thread)
      → Q t
      → OnState Q (Invites.update_or_invite world net k iip a o t)
  update_or_invite-Q iip a none t h = respond_to_invite-Q iip a iip.irq t h
  update_or_invite-Q iip a (some irq) t h =
      if-OnState Q k.cseq_is_update (respond_to_update world net k a irq t)
        (Invites.respond_to_invite world net k iip a iip.irq t) (respond_to_update-Q a irq t h)
        (respond_to_invite-Q iip a iip.irq t h)

  respond_to_dialog-Q :
      (iip : Iip) (o : Option ℕ) (t : Thread)
      → Q t
      → OnState Q (Invites.respond_to_dialog world net k iip o t)
  respond_to_dialog-Q iip none t h = tt
  respond_to_dialog-Q iip (some a) t h = update_or_invite-Q iip a (t.objects a).core.irq_update t h

  pub respond_to_iip-Q :
      (iip : Iip) (t : Thread) → Q t → OnState Q (respond_to_iip world net k iip t)
  unfolding respond_to_iip
  respond_to_iip-Q iip t h = respond_to_dialog-Q iip iip.dialog t h
