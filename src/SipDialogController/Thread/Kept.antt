-- ===== src/SipDialogController/Thread/Kept.antt =====
-- What the shared steps of src/sip-dialog-controller.cpp leave alone: the requests that wait for an
-- application, and the answers that were sent.
use drachtio_server.Common.{
  ℕ, ◌≡◌, refl, Bool, true, false, ◌&&◌, ◌||◌, Option, none, some, List, [], ◌∷◌, ◌++◌, ◌==◌, leb,
  Text, codes, arith, ◌∙◌,
}
use drachtio_server.InvitesInProgress
use drachtio_server.InvitesInProgress.{clear, Iip}
use drachtio_server.SipDialog
use drachtio_server.SipDialog.{SipDialog}
use drachtio_server.SipDialogController.Thread.{
  Thread, Effect, replied, did, did_all, on_core, settle_core, of_dialog, dialog_id, clear_rip,
}
use drachtio_server.SipDialogController.Thread.Steps.{
  World, remove_timer, clear_sip_timers, settle_invite, settle_invites, clear_invite, clear_timer_g,
  clear_timer_h, clear_invite_irq, route_to_app,
}
use drachtio_server.ClientController.Routing.{SipRequest}

-- A final reply to the request.
abbrev pub is_answer : ℕ → Effect → Bool
is_answer irq (replied i status) = i == irq && leb 200 status
is_answer irq e = false

abbrev pub answered : ℕ → List Effect → Bool
answered irq [] = false
answered irq (e ∷ es) = is_answer irq e || answered irq es

pub answered-append :
    (irq : ℕ) (es fs : List Effect) → answered irq (es ++ fs) ≡ (answered irq es || answered irq fs)
answered-append irq [] fs = refl
answered-append irq (e ∷ es) fs = ground (arith, answered-append irq es fs)

-- The same requests wait, and no answer is taken back.
unfoldable pub Kept : ℕ → Thread → Thread → Type 0
Kept irq t t' =
    (t'.irqs ≡ t.irqs) × (answered irq t.effects ≡ true → answered irq t'.effects ≡ true)

module _ (irq : ℕ) where
  pub Kept-refl : (t : Thread) → Kept irq t t
  unfolding Kept
  Kept-refl t = (refl, λ h. h)

  pub Kept-trans : (t u v : Thread) → Kept irq t u → Kept irq u v → Kept irq t v
  unfolding Kept
  Kept-trans t u v (e, h) (f, k) = (f ∙ e, λ x. k (h x))

  pub did-Kept : (e : Effect) (t : Thread) → Kept irq t (did e t)
  unfolding Kept
  did-Kept e t = (refl, λ h. ground (arith, answered-append irq t.effects (e ∷ [])))

  pub did_all-Kept :
      {A : Type 0} (f : A → Effect) (es : List A) (t : Thread) → Kept irq t (did_all f es t)
  did_all-Kept f [] t = Kept-refl t
  did_all-Kept f (e ∷ es) t =
      Kept-trans t (did (f e) t) (did_all f es (did (f e) t)) (did-Kept (f e) t)
        (did_all-Kept f es (did (f e) t))

  -- What changes neither table nor log.
  pub same-Kept : (t t' : Thread) → t'.irqs ≡ t.irqs → t'.effects ≡ t.effects → Kept irq t t'
  unfolding Kept
  same-Kept t t' e f = (e, λ h. rw f h)

  pub settle_core-Kept :
      (a : ℕ) (r : SipDialog × List SipDialog.Effect) (t : Thread) → Kept irq t (settle_core a r t)
  settle_core-Kept a (core, effects) t =
      Kept-trans t (on_core a (λ c. core) t) (settle_core a (core, effects) t)
        (same-Kept t (on_core a (λ c. core) t) refl refl)
        (did_all-Kept of_dialog effects (on_core a (λ c. core) t))

  pub remove_timer-Kept :
      (queue : Text) (h : Option ℕ) (t : Thread) → Kept irq t (remove_timer queue h t)
  remove_timer-Kept queue none t = Kept-refl t
  remove_timer-Kept queue (some h) t = did-Kept _ t

  pub clear_sip_timers-Kept : (a : ℕ) (t : Thread) → Kept irq t (clear_sip_timers a t)
  unfolding clear_sip_timers
  clear_sip_timers-Kept a t =
      let t0 = remove_timer (codes "timerG") (t.objects a).core.timer_g t in
      let t1 = clear_timer_g a t0 in
      let t2 = remove_timer (codes "timerH") (t1.objects a).timer_h t1 in
      Kept-trans t t1 (clear_invite_irq a (clear_timer_h a t2))
        (Kept-trans t t0 t1 (remove_timer-Kept _ _ t) (same-Kept t0 t1 refl refl))
        (Kept-trans t1 t2 (clear_invite_irq a (clear_timer_h a t2)) (remove_timer-Kept _ _ t1)
          (same-Kept t2 (clear_invite_irq a (clear_timer_h a t2)) refl refl))

  settle_invite-Kept : (e : InvitesInProgress.Effect) (t : Thread) → Kept irq t (settle_invite e t)
  settle_invite-Kept (InvitesInProgress.invite_irq_cleared a) t =
      same-Kept t (clear_invite_irq a t) refl refl
  settle_invite-Kept (InvitesInProgress.reliable_destroyed r) t = did-Kept _ t
  settle_invite-Kept (InvitesInProgress.incoming_destroyed i) t = did-Kept _ t
  settle_invite-Kept InvitesInProgress.timer_started t = did-Kept _ t
  settle_invite-Kept InvitesInProgress.timer_destroyed t = did-Kept _ t
  settle_invite-Kept (InvitesInProgress.cancel_timeout_notified id) t = did-Kept _ t

  settle_invites-Kept :
      (es : List InvitesInProgress.Effect) (t : Thread) → Kept irq t (settle_invites es t)
  settle_invites-Kept [] t = Kept-refl t
  settle_invites-Kept (e ∷ es) t =
      Kept-trans t (settle_invite e t) (settle_invites es (settle_invite e t))
        (settle_invite-Kept e t) (settle_invites-Kept es (settle_invite e t))

  pub clear_invite-Kept : (iip : Iip) (t : Thread) → Kept irq t (clear_invite iip t)
  unfolding clear_invite
  clear_invite-Kept iip t =
      let u = record t { invites = (clear iip t.invites).0 } in
      Kept-trans t u (clear_invite iip t) (same-Kept t u refl refl)
        (settle_invites-Kept (clear iip t.invites).1 u)

  pub clear_rip-Kept : (orq : ℕ) (t : Thread) → Kept irq t (clear_rip orq t)
  unfolding clear_rip Kept
  clear_rip-Kept orq t = (
    refl,
    λ h. ground (arith, answered-append irq t.effects (Effect.outgoing_destroyed orq ∷ [])),
  )

  pub dialog_id-Kept : (a : ℕ) (t : Thread) → Kept irq t (dialog_id a t).1
  unfolding dialog_id
  dialog_id-Kept a t = same-Kept t (dialog_id a t).1 refl refl

  pub route_to_app-Kept :
      (world : World) (raw meta transaction : Text) (sip : SipRequest) (a : ℕ) (t : Thread)
      → Kept irq t (route_to_app world raw meta transaction sip a t).1
  unfolding route_to_app dialog_id
  route_to_app-Kept world raw meta transaction sip a t =
      same-Kept t (route_to_app world raw meta transaction sip a t).1 refl refl
