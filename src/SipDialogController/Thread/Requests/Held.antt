-- ===== src/SipDialogController/Thread/Requests/Held.antt =====
-- What becomes of a request inside a dialog once it has been routed: it is answered, or held for an
-- application (`processRequestInsideDialog` of src/sip-dialog-controller.cpp).
use drachtio_server.Common.{
  ℕ, ◌≡◌, ◌⊎◌, inl, inr, refl, ap, sym, subst, ◌∙◌, Bool, true, false, not, ◌&&◌, ◌||◌, Option,
  none, some, List, [], ◌∷◌, ◌++◌, ◌==◌, leb, ltb, Text, arith, Bool-cases, is_some,
}
use drachtio_server.Common.Dict
use drachtio_server.InvitesInProgress.{Iip}
use drachtio_server.SipDialog
use drachtio_server.SipDialog.{
  SipDialog, set_update_irq, cancel_session_timer, are_we_refresher, set_session_timer,
}
use drachtio_server.SipDialog.Stable.{sd_clear_leg}
use drachtio_server.ClientController.Routing.{route_request_inside_invite}
use drachtio_server.ClientController.Transactions.{remove_app_transaction}
use drachtio_server.SipDialogController.Thread.{
  Thread, Rip, Effect, on_core, handled_statelessly, replied, on_clients, find_rip_by_orq,
  clear_rip, add_incoming_request_transaction, find_and_remove_transaction_id, find_dialog_by_leg,
  dialog_id,
}
use drachtio_server.SipDialogController.Thread.Steps.{World, clear_sip_timers, clear_invite}
use drachtio_server.SipDialogController.Thread.Kept.{
  answered, answered-append, Kept, Kept-refl, Kept-trans, same-Kept, clear_sip_timers-Kept,
  clear_invite-Kept, clear_rip-Kept,
}
use drachtio_server.SipDialogController.Thread.Requests.Frames.{
  Posted, Frame, on_core-status, clear_sip_timers-clients, give_up_invite-posted,
  route_request_inside_invite-Posted,
}
use drachtio_server.SipDialogController.Thread.Requests.{
  Returned, status_rc, zero_rc, Request, reply, destroy_irq, give_up_rip, give_up_orq,
  give_up_invite, leave_to_app, end_dialog, hold, early_update, may_be_stateless, is_bye,
  ends_subscription,
}

abbrev pub is_handed : ℕ → Effect → Bool
is_handed irq (handled_statelessly i) = i == irq
is_handed irq e = false

abbrev pub handed_over : ℕ → List Effect → Bool
handed_over irq [] = false
handed_over irq (e ∷ es) = is_handed irq e || handed_over irq es

-- The dialog of the request had no final status yet, and the request is no BYE.
abbrev pub IsEarly : Request → Thread → Type 0
IsEarly r t =
    (a : ℕ) × (find_dialog_by_leg r.leg t ≡ some (some a))
    × (ltb (t.objects a).sip_status 200 ≡ true)
    × (is_bye r.method ≡ false)

-- The irq is kept, and the request itself was posted to a client, once, since the first state, or else
-- the dialog was an early one.
abbrev pub IsHeld : World → Request → Thread → Thread → Type 0
IsHeld world r t u =
    (Dict.find world.uuid u.irqs ≡ some r.irq)
    × (Posted t.clients.posted r true u.clients.posted ⊎ IsEarly r t)

-- A request that came in the first state is answered, or held, or was handed over, or the stack is told
-- to answer it.
abbrev pub Accounted : World → Request → Thread → Returned × Thread → Type 0
Accounted world r t (rc, u) =
    (answered r.irq u.effects ≡ true)
    ⊎ IsHeld world r t u
    ⊎ ((handed_over r.irq u.effects ≡ true) × (may_be_stateless r.method ≡ true))
    ⊎ ((rc ≡ status_rc 481) × (find_dialog_by_leg r.leg t ≡ none))

module _ (irq : ℕ) where
  give_up_rip-Kept : (orq : ℕ) (o : Option Rip) (t : Thread) → Kept irq t (give_up_rip orq o t)
  give_up_rip-Kept orq none t = Kept-refl irq t
  give_up_rip-Kept orq (some rip) t =
      let u = on_clients (remove_app_transaction rip.transaction_id) t in
      Kept-trans irq t u (clear_rip orq u) (same-Kept irq t u refl refl) (clear_rip-Kept irq orq u)

  give_up_orq-Kept : (o : Option ℕ) (t : Thread) → Kept irq t (give_up_orq o t)
  give_up_orq-Kept none t = Kept-refl irq t
  give_up_orq-Kept (some orq) t = give_up_rip-Kept orq (find_rip_by_orq orq t) t

  give_up_invite-Kept : (o : Option Iip) (t : Thread) → Kept irq t (give_up_invite o t)
  give_up_invite-Kept none t = Kept-refl irq t
  give_up_invite-Kept (some iip) t =
      Kept-trans irq t (clear_invite iip t) (give_up_invite (some iip) t)
        (clear_invite-Kept irq iip t) (give_up_orq-Kept iip.orq (clear_invite iip t))

pub Kept-irqs : (irq : ℕ) (t u : Thread) → Kept irq t u → u.irqs ≡ t.irqs
unfolding Kept
Kept-irqs irq t u (e, k) = e

-- Answered or held, while a call of an application tells whether the request was posted.
Waits : World → Request → Thread → Thread → Type 0
Waits world r t u = (answered r.irq u.effects ≡ true) ⊎ IsHeld world r t u

leave_to_app-Waits :
    (world : World) (r : Request) (t : Thread) (routed : Bool) (u : Thread)
    → Dict.find world.uuid u.irqs ≡ some r.irq
    → Posted t.clients.posted r routed u.clients.posted
    → Waits world r t (leave_to_app world r routed u)
unfolding Waits find_and_remove_transaction_id
leave_to_app-Waits world r t false u h p = inl (
    ground (
      arith,
      answered-append r.irq u.effects (replied r.irq 481 ∷ []),
      answered-append r.irq (u.effects ++ replied r.irq 481 ∷ [])
          (Effect.incoming_destroyed r.irq ∷ []),
    ))
leave_to_app-Waits world r t true u h p = elim (Bool-cases (is_bye r.method)) [
  | inl e ↦ rw e (inr (h, inl p))
  | inr e ↦ rw e (inr (h, inl p))
]

-- Giving up what else is in progress changes neither.
give_up-Waits :
    (world : World) (r : Request) (t : Thread) (o : Option Iip) (u : Thread)
    → Waits world r t u
    → Waits world r t (give_up_invite o u)
unfolding Waits Kept
give_up-Waits world r t o u (inl h) = inl ((give_up_invite-Kept r.irq o u).1 h)
give_up-Waits world r t o u (inr (h, inl (c, transaction, dialog, p))) = inr (
  ap (Dict.find world.uuid) (give_up_invite-Kept r.irq o u).0 ∙ h,
  inl (c, transaction, dialog, give_up_invite-posted o u ∙ p),
)
give_up-Waits world r t o u (inr (h, inr early)) =
    inr (ap (Dict.find world.uuid) (give_up_invite-Kept r.irq o u).0 ∙ h, inr early)

end_dialog-Waits :
    (world : World) (r : Request) (t : Thread) (a : ℕ) (routed : Bool) (u : Thread)
    → Dict.find world.uuid u.irqs ≡ some r.irq
    → Posted t.clients.posted r routed u.clients.posted
    → Waits world r t (end_dialog world r a routed u)
unfolding end_dialog
end_dialog-Waits world r t a routed u h p =
    let u1 = clear_sip_timers a u in
    let u2 = record u1 { dialogs = sd_clear_leg r.leg u1.dialogs } in
    let u3 = leave_to_app world r routed u2 in
    give_up-Waits world r t _ u3 (
      leave_to_app-Waits world r t routed u2
        (ap (Dict.find world.uuid) (Kept-irqs r.irq u u1 (clear_sip_timers-Kept r.irq a u)) ∙ h)
        (subst (λ c. Posted t.clients.posted r routed c.posted) (sym (clear_sip_timers-clients a u))
          p))

-- What a handler gives, and what holds of it.
abbrev pub Yields : (Returned × Thread → Type 0) → Option (Returned × Thread) → Type 0
Yields P o = (res : Returned × Thread) × (o ≡ some res) × P res

Waits-Accounted :
    (world : World) (r : Request) (t : Thread) (rc : Returned) (u : Thread)
    → Waits world r t u
    → Accounted world r t (rc, u)
unfolding Waits
Waits-Accounted world r t rc u (inl h) = inl h
Waits-Accounted world r t rc u (inr h) = inr (inl h)

or-first : (a b : Bool) → (a || b) ≡ false → a ≡ false
or-first a b h = ground (arith, h)

add-held :
    (irq : ℕ) (id : Text) (t : Thread)
    → Dict.find id t.irqs ≡ none
    → Dict.find id (add_incoming_request_transaction irq id t).irqs ≡ some irq
unfolding add_incoming_request_transaction
add-held irq id t h = ground (arith, Dict.find-insert_self id irq t.irqs)

answered_then_destroyed :
    (irq status : ℕ) (t : Thread)
    → leb 200 status ≡ true
    → answered irq (destroy_irq irq (reply irq status t)).effects ≡ true
answered_then_destroyed irq status t h = ground (
  arith,
  answered-append irq t.effects (replied irq status ∷ []),
  answered-append irq (t.effects ++ replied irq status ∷ []) (Effect.incoming_destroyed irq ∷ []),
)

-- Left to itself without an application only before there is a final status.
left-IsEarly :
    (world : World) (r : Request) (t : Thread) (a : ℕ) (routed : Bool) (u : Thread)
    → find_dialog_by_leg r.leg t ≡ some (some a)
    → (u.objects a).sip_status ≡ (t.objects a).sip_status
    → Posted t.clients.posted r routed u.clients.posted
    → (not routed && (leb 200 (u.objects a).sip_status && not (is_bye r.method))) ≡ false
    → is_bye r.method ≡ false
    → Posted t.clients.posted r true u.clients.posted ⊎ IsEarly r t
left-IsEarly world r t a true u f s p k b = inl p
left-IsEarly world r t a false u f s p k b = inr (a, f, ground (arith, s, k, b), b)

pub hold-Accounted :
    (world : World) (r : Request) (t : Thread) (a : ℕ) (routed : Bool) (u : Thread)
    → find_dialog_by_leg r.leg t ≡ some (some a)
    → (u.objects a).sip_status ≡ (t.objects a).sip_status
    → Posted t.clients.posted r routed u.clients.posted
    → Dict.find world.uuid u.irqs ≡ none
    → Yields (Accounted world r t) (hold world r a routed u)
unfolding hold add_incoming_request_transaction
hold-Accounted world r t a routed u f s p h =
    let held = add-held r.irq world.uuid u h in
    let u1 = add_incoming_request_transaction r.irq world.uuid u in
    elim (Bool-cases (not routed && (leb 200 (u.objects a).sip_status && not (is_bye r.method)))) [
      | inl refused ↦ (
        (zero_rc, destroy_irq r.irq (reply r.irq 481 u)),
        rw refused refl,
        inl (answered_then_destroyed r.irq 481 u refl),
      )
      | inr kept ↦ elim (Bool-cases (is_bye r.method || ends_subscription r (u.objects a))) [
        | inl ends ↦ (
          (zero_rc, end_dialog world r a routed u1),
          rw (kept, ends) refl,
          Waits-Accounted world r t zero_rc _ (end_dialog-Waits world r t a routed u1 held p),
        )
        | inr goes_on ↦ (
          (zero_rc, u1),
          rw (kept, goes_on) refl,
          inr (
              inl (
                held,
                left-IsEarly world r t a routed u f s p kept
                    (or-first (is_bye r.method) (ends_subscription r (u.objects a)) goes_on),
              )),
        )
      ]
    ]

pub answered_by_reply :
    (irq status : ℕ) (t : Thread)
    → leb 200 status ≡ true
    → answered irq (reply irq status t).effects ≡ true
answered_by_reply irq status t h =
    ground (arith, answered-append irq t.effects (replied irq status ∷ []))

pub early_update-Accounted :
    (world : World) (r : Request) (t : Thread) (a : ℕ) (u : Thread)
    → find_dialog_by_leg r.leg t ≡ some (some a)
    → Frame a t u
    → Dict.find world.uuid u.irqs ≡ none
    → Yields (Accounted world r t) (early_update world r a u)
unfolding dialog_id
early_update-Accounted world r t a u f (p, s) h =
    elim (Bool-cases (is_some (u.objects a).core.irq_update)) [
      | inl busy ↦
          ((zero_rc, reply r.irq 500 u), rw busy refl, inl (answered_by_reply r.irq 500 u refl))
      | inr free ↦ rw free (
          let u1 = on_core a (set_update_irq r.irq world.uuid) u in
          let (id, core) = SipDialog.get_dialog_id (u1.objects a).core in
          let u2 = on_core a (λ c. core) u1 in
          let transaction = (u2.objects a).core.transaction_id in
          let v =
            route_request_inside_invite world.live world.random r.raw r.meta transaction id
              u2.clients in
          let posted = route_request_inside_invite-Posted world r transaction id u2.clients in
          hold-Accounted world r t a v.0 (record u2 { clients = v.1 }) f
            (on_core-status a (λ c. core) u1
              ∙ (on_core-status a (set_update_irq r.irq world.uuid) u ∙ s))
            (subst (λ old. Posted old r v.0 v.1.posted) p posted) h)
    ]
