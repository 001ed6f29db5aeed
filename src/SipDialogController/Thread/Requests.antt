-- ===== src/SipDialogController/Thread/Requests.antt =====
-- Requests of the network inside dialogs: `processRequestInsideDialog` of
-- src/sip-dialog-controller.cpp.
pub mod Frames
pub mod Held
pub mod Accounted
pub mod Late
use drachtio_server.Common.{
  ℕ, Bool, true, false, not, ◌&&◌, ◌||◌, Option, none, some, List, [], ◌∷◌, ◌++◌, ◌==◌, leb, ltb,
  if◌then◌else◌, is_empty, is_some, keep_if, Text, text_eq, codes, has_substring, ◌>>=◌,
}
use drachtio_server.SipDialog
use drachtio_server.SipDialog.{
  SipDialog, SessionRefresher, we_are_refresher, they_are_refresher, are_we_refresher,
  cancel_session_timer, set_update_irq,
}
use drachtio_server.SipDialog.Stable.{sd_clear_leg}
use drachtio_server.InvitesInProgress.{Iip, find_by_leg, find_by_transaction_id}
use drachtio_server.DrachtioController.{find_tport_for_subscription}
use drachtio_server.ClientController.{Controller, post, new_request}
use drachtio_server.ClientController.Routing.{
  SipRequest, route_ack_request_inside_dialog, route_request_inside_invite, is_terminated,
}
use drachtio_server.ClientController.Transactions.{
  find_client_for_net_transaction, remove_app_transaction,
}
use drachtio_server.SipDialogController.Thread.{
  Thread, Dialog, Rip, Method, invite, ack, cancel, bye, options, register, info, prack, update,
  message, subscribe, notify, refer, publish, other_method, Effect, replied, replied_statelessly,
  handled_statelessly, pending_canceled, incoming_destroyed, timer_added, run_timeout_bye, did,
  on_clients, on_core, with_clients, settle_core, dialog_id, SessionExpires, find_dialog_by_leg,
  find_rip_by_orq, clear_rip, add_incoming_request_transaction, find_and_remove_transaction_id,
}
use drachtio_server.SipDialogController.Thread.Steps.{
  World, Target, clear_sip_timers, clear_invite, clear_invite_leg, current_tport_for_dialog,
  tport_of_dialog, route_to_app, tell_bye, start_session_timer,
}

-- What the handlers return to the stack.
pub data Returned : Type 0 where
  zero_rc minus_one : Returned
  status_rc : ℕ → Returned

-- A request inside a dialog: its leg, its irq, and what is read of its message.
pub record Request : Type 0 where
  pub leg : ℕ
  pub irq : ℕ
  pub method : Method
  pub sip : SipRequest
  pub session_expires : Option SessionExpires
  pub raw : Text
  pub meta : Text

abbrev pub is_invite : Method → Bool
is_invite m = elim m [ invite ↦ true | _ ↦ false ]

abbrev pub is_bye : Method → Bool
is_bye m = elim m [ bye ↦ true | _ ↦ false ]

abbrev pub is_update : Method → Bool
is_update m = elim m [ update ↦ true | _ ↦ false ]

abbrev pub is_notify : Method → Bool
is_notify m = elim m [ notify ↦ true | _ ↦ false ]

abbrev pub reply : ℕ → ℕ → Thread → Thread
reply irq status t = did (replied irq status) t

abbrev pub destroy_irq : ℕ → Thread → Thread
destroy_irq irq t = did (incoming_destroyed irq) t

-- The ids of the requests that an application has to answer are a set.
abbrev pub has_id : Text → List Text → Bool
has_id id [] = false
has_id id (i ∷ ids) = text_eq i id || has_id id ids

abbrev pub add_incoming : ℕ → Text → Thread → Thread
add_incoming a id t =
    on_core a
      (λ c. record c {
        incoming_transaction_ids =
            if has_id id c.incoming_transaction_ids
            then c.incoming_transaction_ids
            else id ∷ c.incoming_transaction_ids;
      })
      t

abbrev pub remove_incoming : ℕ → Text → Thread → Thread
remove_incoming a id t =
    on_core a
      (λ c. record c {
        incoming_transaction_ids = keep_if (λ i. not (text_eq i id)) c.incoming_transaction_ids;
      })
      t

-- ACK

abbrev pub ack_to_app : World → Request → Text → ℕ → Thread → Thread
ack_to_app world r transaction a t =
    let (id, t1) = dialog_id a t in
    let (routed, t2) = with_clients t1 (
      route_ack_request_inside_dialog world.live world.random r.raw r.meta transaction
        (t1.objects a).core.transaction_id id t1.clients) in
    destroy_irq r.irq t2

-- Without an invite in progress it may be the ACK of a re-INVITE.
abbrev pub ack_of_dialog : World → Request → Option (Option ℕ) → Thread → Option (Returned × Thread)
ack_of_dialog world r none t = some (minus_one, destroy_irq r.irq t)
ack_of_dialog world r (some none) t = none
ack_of_dialog world r (some (some a)) t =
    some (zero_rc, ack_to_app world r world.uuid a (clear_sip_timers a t))

abbrev pub ack_of_invite : World → Request → Iip → Option ℕ → Thread → Option (Returned × Thread)
ack_of_invite world r iip none t = none
ack_of_invite world r iip (some a) t =
    some
      (zero_rc, ack_to_app world r iip.transaction_id a (clear_sip_timers a (clear_invite iip t)))

abbrev pub ack_found : World → Request → Option Iip → Thread → Option (Returned × Thread)
ack_found world r none t = ack_of_dialog world r (find_dialog_by_leg r.leg t) t
ack_found world r (some iip) t = ack_of_invite world r iip iip.dialog t

unfoldable pub process_ack : World → Request → Thread → Option (Returned × Thread)
unfolding clear_sip_timers clear_invite find_dialog_by_leg find_by_leg dialog_id
process_ack world r t = ack_found world r (find_by_leg r.leg t.invites) t

-- Any request but ACK and CANCEL

-- The session timer of a re-INVITE or an UPDATE: who refreshes by the header, where a header without a
-- refresher leaves it to the far end if we were the refresher.
abbrev pub refresher_of : Option Text → Bool → SessionRefresher
refresher_of none we_refresh = if we_refresh then they_are_refresher else we_are_refresher
refresher_of (some who) we_refresh =
    if text_eq who (codes "uac") then they_are_refresher else we_are_refresher

abbrev pub settle_canceled : ℕ → Option (SipDialog × List SipDialog.Effect) → Thread → Thread
settle_canceled a none t = t
settle_canceled a (some r) t = settle_core a r t

abbrev pub stop_session_timer : ℕ → Thread → Thread
stop_session_timer a t = settle_canceled a (cancel_session_timer (t.objects a).core) t

-- True where the interval is too small, which is answered.
abbrev pub restart_session :
    World → Request → ℕ → Bool → Option SessionExpires → Thread → Bool × Thread
restart_session world r a we_refresh none t = (false, t)
restart_session world r a we_refresh (some se) t =
    if ltb se.delta (t.objects a).min_se
    then (true, reply r.irq 422 t)
    else (false, start_session_timer world a se.delta (refresher_of se.refresher we_refresh) t)

unfoldable pub renew_session : World → Request → ℕ → Thread → Bool × Thread
unfolding start_session_timer cancel_session_timer
renew_session world r a t =
    if is_invite r.method || is_update r.method
    then restart_session world r a
        (is_some (t.objects a).core.timer_session_refresh && are_we_refresher (t.objects a).core)
        r.session_expires (stop_session_timer a t)
    else (false, t)

-- Those that are handled as if they came outside of a dialog.
abbrev pub may_be_stateless : Method → Bool
may_be_stateless m = elim m [
  | notify ↦ true
  | options ↦ true
  | info ↦ true
  | message ↦ true
  | publish ↦ true
  | subscribe ↦ true
  | _ ↦ false
]

abbrev pub ends_subscription : Request → Dialog → Bool
ends_subscription r d =
    is_notify r.method && (not d.is_invite_dialog && is_terminated r.sip.subscription_state)

-- A BYE while a re-INVITE of ours is unanswered: both are given up.
abbrev pub give_up_rip : ℕ → Option Rip → Thread → Thread
give_up_rip orq none t = t
give_up_rip orq (some rip) t =
    clear_rip orq (on_clients (remove_app_transaction rip.transaction_id) t)

abbrev pub give_up_orq : Option ℕ → Thread → Thread
give_up_orq none t = t
give_up_orq (some orq) t = give_up_rip orq (find_rip_by_orq orq t) t

abbrev pub give_up_invite : Option Iip → Thread → Thread
give_up_invite none t = t
give_up_invite (some iip) t = give_up_orq iip.orq (clear_invite iip t)

-- Without an application the request is answered here, and with one a BYE that it leaves alone is
-- given up after 32 seconds.
abbrev pub leave_to_app : World → Request → Bool → Thread → Thread
leave_to_app world r routed t =
    if not routed
    then destroy_irq r.irq (find_and_remove_transaction_id world.uuid (reply r.irq 481 t)).1
    else if is_bye r.method
    then did (timer_added (codes "general-sip") (run_timeout_bye world.uuid) 32000) t
    else t

unfoldable pub end_dialog : World → Request → ℕ → Bool → Thread → Thread
unfolding clear_sip_timers clear_invite find_rip_by_orq clear_rip find_and_remove_transaction_id
    find_by_transaction_id
end_dialog world r a routed t =
    let t1 = clear_sip_timers a t in
    let t2 = leave_to_app world r routed (record t1 { dialogs = sd_clear_leg r.leg t1.dialogs }) in
    give_up_invite (find_by_transaction_id (t2.objects a).core.transaction_id t2.invites) t2

-- Where an application has the request, or it is left until one answers.
unfoldable pub hold : World → Request → ℕ → Bool → Thread → Option (Returned × Thread)
unfolding add_incoming_request_transaction end_dialog
hold world r a routed t =
    if not routed && (leb 200 (t.objects a).sip_status && not (is_bye r.method))
    then some (zero_rc, destroy_irq r.irq (reply r.irq 481 t))
    else let t1 = add_incoming_request_transaction r.irq world.uuid t in
      some (
        zero_rc,
        if is_bye r.method || ends_subscription r (t.objects a)
            then end_dialog world r a routed t1
            else t1,
      )

-- An UPDATE before the INVITE is answered goes by the INVITE; there may be one at a time.
abbrev pub early_update : World → Request → ℕ → Thread → Option (Returned × Thread)
early_update world r a t =
    if is_some (t.objects a).core.irq_update
    then some (zero_rc, reply r.irq 500 t)
    else let t1 = on_core a (set_update_irq r.irq world.uuid) t in
      let (id, t2) = dialog_id a t1 in
      let (routed, t3) = with_clients t2 (
        route_request_inside_invite world.live world.random r.raw r.meta
          (t2.objects a).core.transaction_id id t2.clients) in
      hold world r a routed t3

-- `stateless` is what processMessageStatelessly returns.
unfoldable pub route_default :
    World → Returned → Request → ℕ → Bool × Thread → Option (Returned × Thread)
unfolding hold set_update_irq dialog_id
route_default world stateless r a (routed, t) =
    if not routed && ltb (t.objects a).sip_status 200
    then if may_be_stateless r.method
      then some (
        stateless,
        destroy_irq r.irq (did (handled_statelessly r.irq) (remove_incoming a world.uuid t)),
      )
      else if is_update r.method
      then early_update world r a t
      else hold world r a routed t
    else hold world r a routed t

abbrev pub enter_request : World → Request → ℕ → Thread → Thread
enter_request world r a t =
    let t1 = if is_invite r.method then reply r.irq 100 t else t in
    if is_bye r.method then t1 else add_incoming a world.uuid t1

abbrev pub after_session :
    World → Returned → Request → ℕ → Bool × Thread → Option (Returned × Thread)
after_session world stateless r a (true, t) = some (zero_rc, t)
after_session world stateless r a (false, t) =
    route_default world stateless r a (route_to_app world r.raw r.meta world.uuid r.sip a t)

abbrev pub default_of :
    World → Returned → Request → Option (Option ℕ) → Thread → Option (Returned × Thread)
default_of world stateless r none t = some (status_rc 481, t)
default_of world stateless r (some none) t = none
default_of world stateless r (some (some a)) t =
    after_session world stateless r a (renew_session world r a (enter_request world r a t))

unfoldable pub process_default : World → Returned → Request → Thread → Option (Returned × Thread)
unfolding renew_session route_default route_to_app find_dialog_by_leg
process_default world stateless r t = default_of world stateless r (find_dialog_by_leg r.leg t) t

-- CANCEL

-- What the request controller has of a CANCEL: the transaction id of a pending INVITE.
abbrev pub tell_cancel : World → Request → Text → Thread → Thread
tell_cancel world r id t = elim (find_client_for_net_transaction world.live id t.clients) [
  | none ↦ t
  | some c ↦ on_clients (post c (new_request id r.raw r.meta)) t
]

abbrev pub cancel_pending : World → Request → Text → Thread → Thread
cancel_pending world r id t =
    did (replied_statelessly 487)
      (did (pending_canceled id) (did (replied_statelessly 200) (tell_cancel world r id t)))

-- A far end that has registered a connection keeps it; another is followed to its current one.
abbrev pub follow_unless_registered :
    World → ℕ → Option Target → Option Text → Option Text → Thread → Thread
follow_unless_registered world a target user none t = t
follow_unless_registered world a target user (some host) t =
    if is_some (find_tport_for_subscription user host t.caches)
    then t
    else (current_tport_for_dialog world a target t).1

abbrev pub bye_target : World → ℕ → Option Target → Thread → Thread
bye_target world a none t = (tport_of_dialog world a t).1
bye_target world a (some target) t =
    follow_unless_registered world a (some target) target.user target.host
      (tport_of_dialog world a t).1

-- Without a `break` the code goes on to the default case.
abbrev pub cancel_answered :
    World → Returned → Request → Option (Option ℕ) → Thread → Option (Returned × Thread)
cancel_answered world stateless r none t = some (status_rc 481, t)
cancel_answered world stateless r (some none) t = none
cancel_answered world stateless r (some (some a)) t =
    let t1 = reply r.irq 481 (clear_sip_timers a t) in
    let t2 = bye_target world a (world.remote_target r.leg) t1 in
    tell_bye world a r.leg (world.create r.leg bye) t2 >>= λ t3.
    process_default world stateless r
      (clear_invite_leg r.leg (record t3 { dialogs = sd_clear_leg r.leg t3.dialogs }))

abbrev pub cancel_of :
    World → Returned → Request → Option Text → Thread → Option (Returned × Thread)
cancel_of world stateless r none t =
    cancel_answered world stateless r (find_dialog_by_leg r.leg t) t
cancel_of world stateless r (some id) t = some (zero_rc, cancel_pending world r id t)

unfoldable pub process_cancel :
    World → Returned → Request → Option Text → Thread → Option (Returned × Thread)
unfolding process_default clear_sip_timers clear_invite_leg find_dialog_by_leg
process_cancel world stateless r pending t = cancel_of world stateless r pending t

-- `pending` is what PendingRequestController finds for a CANCEL.
unfoldable pub process_request_inside_dialog :
    World → Returned → Option Text → Request → Thread → Option (Returned × Thread)
unfolding process_ack process_cancel process_default
process_request_inside_dialog world stateless pending r t = elim r.method [
  | ack ↦ process_ack world r t
  | cancel ↦ process_cancel world stateless r pending t
  | _ ↦ process_default world stateless r t
]
