-- ===== src/SipDialogController/Thread/Requests/Frames.antt =====
-- What the steps of `processRequestInsideDialog` (src/sip-dialog-controller.cpp) post to applications, and
-- that they leave the status of the dialog alone.
use mathlib.Core.List.{append-nil}
use drachtio_server.Common.{
  ℕ, ◌≡◌, refl, sym, ◌∙◌, ap, subst, Bool, true, false, ◌&&◌, ◌||◌, Option, none, some, or_else,
  is_some, List, [], ◌∷◌, ◌++◌, ◌==◌, ltb, if◌then◌else◌, if-cases, Text, codes,
}
use drachtio_server.InvitesInProgress.{Iip}
use drachtio_server.SipDialog
use drachtio_server.SipDialog.{
  SipDialog, set_update_irq, cancel_session_timer, are_we_refresher, set_session_timer,
}
use drachtio_server.ClientController.{Post, sip_message, Controller, post}
use drachtio_server.ClientController.Transactions.{
  remove_app_transaction, find_client_for_net_transaction, find_client_for_app_transaction,
}
use drachtio_server.ClientController.Dialogs.{find_client_for_dialog}
use drachtio_server.ClientController.Routing.{find_client_for_request, route_request_inside_invite}
use drachtio_server.ClientController.Routing.Requests.{
  delivered, route_request_inside_dialog-delivers,
}
use drachtio_server.SipDialogController.Thread.{
  Thread, Dialog, Rip, Effect, did, did_all, on_core, of_dialog, settle_core, find_rip_by_orq,
  clear_rip, SessionExpires, dialog_id,
}
use drachtio_server.SipDialogController.Thread.Steps.{
  World, remove_timer, clear_sip_timers, clear_timer_g, clear_invite, start_session_timer,
  route_to_app,
}
use drachtio_server.SipDialogController.Thread.Clients.{
  clear_invite_found-clients, settle_core-clients,
}
use drachtio_server.SipDialogController.Thread.Requests.{
  Request, refresher_of, give_up_rip, give_up_orq, give_up_invite, enter_request, renew_session,
  restart_session, stop_session_timer, settle_canceled, is_invite, is_update, is_bye, reply,
  add_incoming,
}

-- The request itself has been posted, once and last, to some client; or nothing has been posted.
abbrev pub Posted : List (ℕ × Post) → Request → Bool → List (ℕ × Post) → Type 0
Posted old r true new =
    (c : ℕ) × (transaction : Text) × (dialog : Text) × (new
      ≡ old ++ (c, sip_message transaction dialog r.raw r.meta) ∷ [])
Posted old r false new = new ≡ old

-- Nothing is posted, and the dialog at this address has the same status.
abbrev pub Frame : ℕ → Thread → Thread → Type 0
Frame a t u =
    (u.clients.posted ≡ t.clients.posted) × ((u.objects a).sip_status ≡ (t.objects a).sip_status)

pub Frame-trans : (a : ℕ) (t u v : Thread) → Frame a t u → Frame a u v → Frame a t v
Frame-trans a t u v (p, s) (q, z) = (q ∙ p, z ∙ s)

pub on_core-status :
    (a : ℕ) (f : SipDialog → SipDialog) (t : Thread)
    → ((on_core a f t).objects a).sip_status ≡ (t.objects a).sip_status
on_core-status a f t =
    if-cases (λ (d : Dialog). d.sip_status ≡ (t.objects a).sip_status) (a == a) _ _ (λ e. refl)
      (λ e. refl)

did_all-objects :
    {A : Type 0} (f : A → Effect) (es : List A) (t : Thread) → (did_all f es t).objects ≡ t.objects
did_all-objects f [] t = refl
did_all-objects f (e ∷ es) t = did_all-objects f es (did (f e) t)

settle_core-Frame :
    (a : ℕ) (r : SipDialog × List SipDialog.Effect) (t : Thread) → Frame a t (settle_core a r t)
settle_core-Frame a (core, effects) t = (
  ap (λ c. c.posted) (settle_core-clients a (core, effects) t),
  ap (λ o. (o a).sip_status) (did_all-objects of_dialog effects (on_core a (λ c. core) t))
      ∙ on_core-status a (λ c. core) t,
)

settle_canceled-Frame :
    (a : ℕ) (o : Option (SipDialog × List SipDialog.Effect)) (t : Thread)
    → Frame a t (settle_canceled a o t)
settle_canceled-Frame a none t = (refl, refl)
settle_canceled-Frame a (some r) t = settle_core-Frame a r t

add_incoming-Frame : (a : ℕ) (id : Text) (t : Thread) → Frame a t (add_incoming a id t)
add_incoming-Frame a id t = (
  refl,
  if-cases (λ (d : Dialog). d.sip_status ≡ (t.objects a).sip_status) (a == a) _ _ (λ e. refl)
      (λ e. refl),
)

pub enter_request-Frame :
    (world : World) (r : Request) (a : ℕ) (t : Thread) → Frame a t (enter_request world r a t)
enter_request-Frame world r a t =
    let t1 = if is_invite r.method then reply r.irq 100 t else t in
    let first : Frame a t t1 =
      if-cases (Frame a t) (is_invite r.method) _ _ (λ e. (refl, refl)) (λ e. (refl, refl)) in
    if-cases (Frame a t) (is_bye r.method) _ _ (λ e. first)
      (λ e.
        Frame-trans a t t1 (add_incoming a world.uuid t1) first
          (add_incoming-Frame a world.uuid t1))

restart_session-Frame :
    (world : World) (r : Request) (a : ℕ) (we_refresh : Bool) (o : Option SessionExpires)
    (t : Thread)
    → Frame a t (restart_session world r a we_refresh o t).1
unfolding start_session_timer
restart_session-Frame world r a we_refresh none t = (refl, refl)
restart_session-Frame world r a we_refresh (some se) t =
    if-cases (λ (x : Bool × Thread). Frame a t x.1) (ltb se.delta (t.objects a).min_se) _ _
      (λ e. (refl, refl))
      (λ e.
        settle_core-Frame a
          (set_session_timer se.delta (refresher_of se.refresher we_refresh) world.random
            (t.objects a).core)
          t)

pub renew_session-Frame :
    (world : World) (r : Request) (a : ℕ) (t : Thread) → Frame a t (renew_session world r a t).1
unfolding renew_session
renew_session-Frame world r a t =
    let t1 = stop_session_timer a t in
    let ours =
      is_some (t.objects a).core.timer_session_refresh && are_we_refresher (t.objects a).core in
    if-cases (λ (x : Bool × Thread). Frame a t x.1) (is_invite r.method || is_update r.method) _ _
      (λ e.
        Frame-trans a t t1 (restart_session world r a ours r.session_expires t1).1
          (settle_canceled-Frame a (cancel_session_timer (t.objects a).core) t)
          (restart_session-Frame world r a ours r.session_expires t1))
      (λ e. (refl, refl))

remove_timer-clients :
    (queue : Text) (h : Option ℕ) (t : Thread) → (remove_timer queue h t).clients ≡ t.clients
remove_timer-clients queue none t = refl
remove_timer-clients queue (some h) t = refl

pub clear_sip_timers-clients : (a : ℕ) (t : Thread) → (clear_sip_timers a t).clients ≡ t.clients
unfolding clear_sip_timers
clear_sip_timers-clients a t =
    let t0 = remove_timer (codes "timerG") (t.objects a).core.timer_g t in
    let t1 = clear_timer_g a t0 in
    remove_timer-clients (codes "timerH") (t1.objects a).timer_h t1
    ∙ remove_timer-clients (codes "timerG") (t.objects a).core.timer_g t

give_up_rip-posted :
    (orq : ℕ) (o : Option Rip) (t : Thread)
    → (give_up_rip orq o t).clients.posted ≡ t.clients.posted
unfolding remove_app_transaction clear_rip
give_up_rip-posted orq none t = refl
give_up_rip-posted orq (some rip) t = refl

give_up_orq-posted :
    (o : Option ℕ) (t : Thread) → (give_up_orq o t).clients.posted ≡ t.clients.posted
give_up_orq-posted none t = refl
give_up_orq-posted (some orq) t = give_up_rip-posted orq (find_rip_by_orq orq t) t

pub give_up_invite-posted :
    (o : Option Iip) (t : Thread) → (give_up_invite o t).clients.posted ≡ t.clients.posted
unfolding clear_invite
give_up_invite-posted none t = refl
give_up_invite-posted (some iip) t =
    give_up_orq-posted iip.orq (clear_invite iip t)
    ∙ ap (λ c. c.posted) (clear_invite_found-clients (some iip) t)

-- The value of a call that posts to the client it finds.
delivered-Posted :
    (old new : List (ℕ × Post)) (world : World) (r : Request) (transaction dialog : Text)
    (found : Option ℕ) (b : Bool)
    → b ≡ is_some found
    → new ≡ old ++ delivered world.live world.random r.raw r.meta transaction r.sip dialog found
    → Posted old r b new
delivered-Posted old new world r transaction dialog none b e p =
    subst (λ x. Posted old r x new) (sym e) (p ∙ append-nil old)
delivered-Posted old new world r transaction dialog (some c) b e p =
    subst (λ x. Posted old r x new) (sym e) (c, transaction, dialog, p)

pub route_to_app-Posted :
    (world : World) (r : Request) (transaction : Text) (a : ℕ) (t : Thread)
    → let v = route_to_app world r.raw r.meta transaction r.sip a t in
      Posted t.clients.posted r v.0 v.1.clients.posted
      × ((v.1.objects a).sip_status ≡ (t.objects a).sip_status)
unfolding route_to_app dialog_id
route_to_app-Posted world r transaction a t =
    let (id, core) = SipDialog.get_dialog_id (t.objects a).core in
    let (value, posts, owner) =
      route_request_inside_dialog-delivers world.live world.random r.raw r.meta transaction r.sip id
        t.clients in
    (
      delivered-Posted t.clients.posted _ world r transaction id
          (find_client_for_request world.live world.random r.raw r.meta transaction r.sip id
            t.clients)
          _ value posts,
      on_core-status a (λ c. core) t,
    )

found-Posted :
    (r : Request) (transaction dialog : Text) (o : Option ℕ) (s : Controller)
    → let v = elim o as (λ x. Bool × Controller) [
      | none ↦ (false, s)
      | some c ↦ (true, post c (sip_message transaction dialog r.raw r.meta) s)
    ] in
      Posted s.posted r v.0 v.1.posted
unfolding post
found-Posted r transaction dialog none s = refl
found-Posted r transaction dialog (some c) s = (c, transaction, dialog, refl)

pub route_request_inside_invite-Posted :
    (world : World) (r : Request) (transaction dialog : Text) (s : Controller)
    → let v =
        route_request_inside_invite world.live world.random r.raw r.meta transaction dialog s in
      Posted s.posted r v.0 v.1.posted
unfolding route_request_inside_invite
route_request_inside_invite-Posted world r transaction dialog s =
    found-Posted r transaction dialog
      (or_else (find_client_for_dialog world.live world.random dialog s) (
        or_else (find_client_for_net_transaction world.live transaction s)
          (find_client_for_app_transaction world.live transaction s)))
      s
