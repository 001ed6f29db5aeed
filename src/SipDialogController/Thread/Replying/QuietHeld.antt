-- ===== src/SipDialogController/Thread/Replying/QuietHeld.antt =====
-- The answer to a request that waited (`doRespondToSipRequest` of src/sip-dialog-controller.cpp) posts
-- nothing to clients.
use drachtio_server.Common.{
  ℕ, Bool, true, false, not, ◌&&◌, Option, none, some, List, [], ltb, is_empty, is_some, Text,
  Bool-cases, inl, inr,
}
use drachtio_server.DrachtioController
use drachtio_server.DrachtioController.{
  Caches, cache_tport_for_subscription, flush_tport_for_subscription,
}
use drachtio_server.SipDialogController.Thread.{Thread, of_caches, find_dialog_by_leg}
use drachtio_server.SipDialogController.Thread.Steps.{World}
use drachtio_server.SipDialogController.Thread.Clients.{did_all-clients}
use drachtio_server.SipDialogController.Thread.Replying.{
  Reply, Local, Sent, Incoming, is_invite, open_tport,
}
use drachtio_server.SipDialogController.Thread.Replying.Dialogs
use drachtio_server.SipDialogController.Thread.Replying.Dialogs.{respond_to_waiting}
use drachtio_server.SipDialogController.Thread.Replying.Quiet.{
  SamePosts, OnState, bind-OnOption, same, try_reply-Q, dialog_id-Q,
}

module _ (world : World) (net : Incoming) (k : Reply) (t0 : Thread) where
  abbrev Q : Thread → Type 0
  Q t = SamePosts t0.clients t.clients

  -- A request that waited

  keep_caches-Q :
      (t : Thread) (r : Caches × List DrachtioController.Effect)
      → Q t
      → Q (Dialogs.keep_caches world net k t r)
  keep_caches-Q t (caches, effects) h =
      same world net k t0 t (Dialogs.keep_caches world net k t (caches, effects))
        (did_all-clients of_caches effects (record t { caches = caches })) h

  cache_peer-Q :
      (tp : ℕ) (peer : Option Text × Option Text) (secs : ℕ) (t : Thread)
      → Q t
      → Q (Dialogs.cache_peer world net k tp peer secs t)
  cache_peer-Q tp (user, host) secs t h = elim (Bool-cases (ltb 0 secs)) [
    | inl e ↦ rw e (
        keep_caches-Q t
          (cache_tport_for_subscription (Dialogs.or_empty user) host k.now secs tp t.caches) h)
    | inr e ↦ rw e (keep_caches-Q t (flush_tport_for_subscription user host t.caches) h)
  ]

  cache_response-Q :
      (irq tp : ℕ) (peer : Option Text × Option Text) (o : Option Sent) (t : Thread)
      → Q t
      → Q (Dialogs.cache_response world net k irq tp peer o t).1
  cache_response-Q irq tp peer none t h = h
  cache_response-Q irq tp peer (some s) t h =
      cache_peer-Q tp peer (Dialogs.granted world net k irq s) t h

  cache_contact-Q :
      (irq : ℕ) (tp : Option ℕ) (peer : Option (Option Text × Option Text)) (t : Thread)
      → Q t
      → Q (Dialogs.cache_contact world net k irq tp peer t).1
  cache_contact-Q irq none peer t h = h
  cache_contact-Q irq (some tp) none t h = h
  cache_contact-Q irq (some tp) (some peer) t h = elim (Bool-cases (world.is_dgram tp)) [
    | inl e ↦ rw e h
    | inr e ↦ rw e (cache_response-Q irq tp peer (net.response irq) t h)
  ]

  after_reply-Q :
      (irq : ℕ) (tp : Option ℕ) (r : Option Text × Thread)
      → Q r.1
      → Q (Dialogs.after_reply world net k irq tp r).1
  unfolding Dialogs.after_reply
  after_reply-Q irq tp (some why, t) h = h
  after_reply-Q irq tp (none, t) h = elim (Bool-cases (Dialogs.caches_peer world net k irq)) [
    | inl e ↦ rw e (cache_contact-Q irq tp (net.contact irq) t h)
    | inr e ↦ rw e h
  ]

  reply_from-Q :
      (irq : ℕ) (l : Option Local) (t : Thread) → Q t → Q (Dialogs.reply_from world net k irq l t).1
  reply_from-Q irq none t h = h
  reply_from-Q irq (some l) t h = try_reply-Q world net k t0 irq k.code t h

  reply_over-Q :
      (irq : ℕ) (tp : Option ℕ) (t : Thread) → Q t → Q (Dialogs.reply_over world net k irq tp t).1
  reply_over-Q irq none t h = h
  reply_over-Q irq (some tp) t h = reply_from-Q irq (net.find_transport tp) t h

  release_in-Q :
      (irq : ℕ) (problem : Option Text) (o : Option (Option ℕ)) (t : Thread)
      → Q t
      → OnState Q (Dialogs.release_in world net k irq problem o t)
  release_in-Q irq problem none t h = h
  release_in-Q irq problem (some none) t h = tt
  release_in-Q irq problem (some (some a)) t h =
      elim (Bool-cases
        (is_invite (net.method irq) && (not (is_empty k.body) && not (is_some problem)))) [
          | inl e ↦ rw e (dialog_id-Q world net k t0 a t h)
          | inr e ↦ rw e (dialog_id-Q world net k t0 a t h)
        ]

  release_leg-Q :
      (irq : ℕ) (problem : Option Text) (o : Option ℕ) (t : Thread)
      → Q t
      → OnState Q (elim o [
        | none ↦ some ([], t)
        | some leg ↦ Dialogs.release_in world net k irq problem (find_dialog_by_leg leg t) t
      ])
  release_leg-Q irq problem none t h = h
  release_leg-Q irq problem (some leg) t h = release_in-Q irq problem (find_dialog_by_leg leg t) t h

  release-Q :
      (irq : ℕ) (existing : Bool) (problem : Option Text) (t : Thread)
      → Q t
      → OnState Q (Dialogs.release world net k irq existing problem t)
  release-Q irq false problem t h = h
  release-Q irq true problem t h = release_leg-Q irq problem (net.leg irq) t h

  pub respond_to_waiting-Q :
      (irq : ℕ) (existing : Bool) (t : Thread)
      → Q t
      → OnState Q (respond_to_waiting world net k irq existing t)
  unfolding respond_to_waiting
  respond_to_waiting-Q irq existing t h =
      let tp = open_tport net irq in
      let r = Dialogs.after_reply world net k irq tp (Dialogs.reply_over world net k irq tp t) in
      bind-OnOption (λ x. Q x.1) (λ x. Q x.1) (Dialogs.release world net k irq existing r.0 r.1) _
        (release-Q irq existing r.0 r.1 (after_reply-Q irq tp _ (reply_over-Q irq tp t h)))
        λ x hx. hx
