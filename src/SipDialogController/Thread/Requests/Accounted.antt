-- ===== src/SipDialogController/Thread/Requests/Accounted.antt =====
-- No request inside a dialog is lost (`processRequestInsideDialog` of src/sip-dialog-controller.cpp).
use drachtio_server.Common.{
  ℕ, ◌≡◌, ◌≢◌, inl, inr, refl, ap, subst, ◌∙◌, Bool, true, false, ◌&&◌, ◌||◌, Option, none, some,
  List, [], ◌∷◌, ◌++◌, ltb, arith, Bool-cases, is_some,
}
use drachtio_server.Common.Dict
use drachtio_server.SipDialog
use drachtio_server.SipDialog.{
  SipDialog, set_update_irq, cancel_session_timer, are_we_refresher, set_session_timer,
}
use drachtio_server.SipDialogController.Thread.{
  Thread, Effect, handled_statelessly, did, settle_core, find_dialog_by_leg, SessionExpires,
}
use drachtio_server.SipDialogController.Thread.Steps.{World, start_session_timer, route_to_app}
use drachtio_server.SipDialogController.Thread.Kept.{answered, settle_core-Kept, route_to_app-Kept}
use drachtio_server.SipDialogController.Thread.Requests.Frames.{
  Posted, Frame, Frame-trans, enter_request-Frame, renew_session-Frame, route_to_app-Posted,
}
use drachtio_server.SipDialogController.Thread.Requests.{
  Returned, status_rc, zero_rc, Request, refresher_of, destroy_irq, route_default, may_be_stateless,
  is_update, is_invite, enter_request, renew_session, restart_session, stop_session_timer,
  settle_canceled, remove_incoming, after_session, default_of, process_default,
}
use drachtio_server.SipDialogController.Thread.Requests.Held.{
  handed_over, Accounted, Kept-irqs, Yields, hold-Accounted, answered_by_reply,
  early_update-Accounted,
}

handed_over-append :
    (irq : ℕ) (es fs : List Effect)
    → handed_over irq (es ++ fs) ≡ (handed_over irq es || handed_over irq fs)
handed_over-append irq [] fs = refl
handed_over-append irq (e ∷ es) fs = ground (arith, handed_over-append irq es fs)

route_default-Accounted :
    (world : World) (stateless : Returned) (r : Request) (t : Thread) (a : ℕ) (routed : Bool)
    (u : Thread)
    → find_dialog_by_leg r.leg t ≡ some (some a)
    → (u.objects a).sip_status ≡ (t.objects a).sip_status
    → Posted t.clients.posted r routed u.clients.posted
    → Dict.find world.uuid u.irqs ≡ none
    → Yields (Accounted world r t) (route_default world stateless r a (routed, u))
unfolding route_default
route_default-Accounted world stateless r t a true u f s p h =
    hold-Accounted world r t a true u f s p h
route_default-Accounted world stateless r t a false u f s p h =
    elim (Bool-cases (ltb (u.objects a).sip_status 200)) [
      | inr later ↦ rw later (hold-Accounted world r t a false u f s p h)
      | inl early ↦ elim (Bool-cases (may_be_stateless r.method)) [
        | inl yes_it_may ↦ (
          (
            stateless,
            destroy_irq r.irq (did (handled_statelessly r.irq) (remove_incoming a world.uuid u)),
          ),
          rw (early, yes_it_may) refl,
          inr (
              inr (
                inl (
                  ground (
                    arith,
                    handed_over-append r.irq u.effects (handled_statelessly r.irq ∷ []),
                    handed_over-append r.irq (u.effects ++ handled_statelessly r.irq ∷ [])
                        (Effect.incoming_destroyed r.irq ∷ []),
                  ),
                  yes_it_may,
                ))),
        )
        | inr not_stateless ↦ elim (Bool-cases (is_update r.method)) [
          | inl updating ↦
              let (res, e, kept) = early_update-Accounted world r t a u f (p, s) h in
              (res, rw (early, not_stateless, updating) e, kept)
          | inr other ↦
              let (res, e, kept) = hold-Accounted world r t a false u f s p h in
              (res, rw (early, not_stateless, other) e, kept)
        ]
      ]
    ]

settle_canceled-irqs :
    (irq a : ℕ) (o : Option (SipDialog × List SipDialog.Effect)) (t : Thread)
    → (settle_canceled a o t).irqs ≡ t.irqs
settle_canceled-irqs irq a none t = refl
settle_canceled-irqs irq a (some r) t =
    Kept-irqs irq t (settle_core a r t) (settle_core-Kept irq a r t)

-- The first step with a session timer keeps what waits, and where it ends the request it has answered.
Renewed : Request → Thread → Bool × Thread → Type 0
Renewed r t (done, u) = (u.irqs ≡ t.irqs) × (done ≡ true → answered r.irq u.effects ≡ true)

restart_session-Renewed :
    (world : World) (r : Request) (a : ℕ) (we_refresh : Bool) (o : Option SessionExpires)
    (t : Thread)
    → Renewed r t (restart_session world r a we_refresh o t)
unfolding Renewed start_session_timer
restart_session-Renewed world r a we_refresh none t = (refl, λ h. cc)
restart_session-Renewed world r a we_refresh (some se) t =
    elim (Bool-cases (ltb se.delta (t.objects a).min_se)) [
      | inl small ↦ rw small (refl, λ h. answered_by_reply r.irq 422 t refl)
      | inr enough ↦ rw enough (
          let renewed =
            set_session_timer se.delta (refresher_of se.refresher we_refresh) world.random
              (t.objects a).core in
          (
            Kept-irqs r.irq t (settle_core a renewed t) (settle_core-Kept r.irq a renewed t),
            λ h. cc,
          ))
    ]

renew_session-Renewed :
    (world : World) (r : Request) (a : ℕ) (t : Thread) → Renewed r t (renew_session world r a t)
unfolding renew_session Renewed
renew_session-Renewed world r a t = elim (Bool-cases (is_invite r.method || is_update r.method)) [
  | inl with_timer ↦ rw with_timer (
      let (e, h) =
        restart_session-Renewed world r a
          (is_some (t.objects a).core.timer_session_refresh && are_we_refresher (t.objects a).core)
          r.session_expires (stop_session_timer a t) in
      (e ∙ settle_canceled-irqs r.irq a (cancel_session_timer (t.objects a).core) t, h))
  | inr without_one ↦ rw without_one (refl, λ h. cc)
]

enter_request-irqs :
    (world : World) (r : Request) (a : ℕ) (t : Thread) → (enter_request world r a t).irqs ≡ t.irqs
enter_request-irqs world r a t = ground arith

after_session-Accounted :
    (world : World) (stateless : Returned) (r : Request) (t : Thread) (a : ℕ) (t1 : Thread)
    (u : Bool × Thread)
    → find_dialog_by_leg r.leg t ≡ some (some a)
    → Renewed r t1 u
    → Frame a t u.1
    → Dict.find world.uuid t1.irqs ≡ none
    → Yields (Accounted world r t) (after_session world stateless r a u)
unfolding Renewed
after_session-Accounted world stateless r t a t1 (true, u) f (e, k) fr h =
    ((zero_rc, u), refl, inl (k refl))
after_session-Accounted world stateless r t a t1 (false, u) f (e, k) (p, s) h =
    let v = route_to_app world r.raw r.meta world.uuid r.sip a u in
    let (posted, status) = route_to_app-Posted world r world.uuid a u in
    route_default-Accounted world stateless r t a v.0 v.1 f (status ∙ s)
      (subst (λ old. Posted old r v.0 v.1.clients.posted) p posted)
      (ap (Dict.find world.uuid) (
          Kept-irqs r.irq u v.1 (route_to_app-Kept r.irq world r.raw r.meta world.uuid r.sip a u)
          ∙ e)
        ∙ h)

default_of-Accounted :
    (world : World) (stateless : Returned) (r : Request) (o : Option (Option ℕ)) (t : Thread)
    → find_dialog_by_leg r.leg t ≡ o
    → o ≢ some none
    → Dict.find world.uuid t.irqs ≡ none
    → Yields (Accounted world r t) (default_of world stateless r o t)
default_of-Accounted world stateless r none t f n h =
    ((status_rc 481, t), refl, inr (inr (inr (refl, f))))
default_of-Accounted world stateless r (some none) t f n h = absurd (n refl)
default_of-Accounted world stateless r (some (some a)) t f n h =
    let u = enter_request world r a t in
    after_session-Accounted world stateless r t a u (renew_session world r a u) f
      (renew_session-Renewed world r a u)
      (Frame-trans a t u (renew_session world r a u).1 (enter_request-Frame world r a t)
        (renew_session-Frame world r a u))
      (ap (Dict.find world.uuid) (enter_request-irqs world r a t) ∙ h)

-- A request inside a dialog that is neither ACK nor CANCEL, whose dialog is no null pointer and whose
-- new transaction id is not in use: the handler finishes, and then one of these holds. The request has a
-- final reply. Or its irq is kept under the transaction id, and the request has been posted to a client,
-- once and nothing else, to answer it; or its irq is kept, it is no BYE, and its dialog had no final
-- status when it came (the code then keeps it even where no client was found). Or it was handed to
-- processMessageStatelessly, and its method is one of those for which this is done. Or its leg has no
-- dialog, and the handler returns 481 for the stack to answer.
pub process_default-Accounted :
    (world : World) (stateless : Returned) (r : Request) (t : Thread)
    → find_dialog_by_leg r.leg t ≢ some none
    → Dict.find world.uuid t.irqs ≡ none
    → Yields (Accounted world r t) (process_default world stateless r t)
unfolding process_default
process_default-Accounted world stateless r t n h =
    default_of-Accounted world stateless r (find_dialog_by_leg r.leg t) t refl n h
