-- ===== src/SipDialogController/Thread/Invites.antt =====
-- INVITEs that are being answered, and the timers of their answers: `processCancelOrAck`,
-- `processPrack`, `retransmitFinalResponse`, `endRetransmitFinalResponse`, `timeoutBye` and
-- `clearDanglingIncomingRequests` of src/sip-dialog-controller.cpp.
use drachtio_server.Common.{ℕ, Option, none, some, List, [], ◌∷◌, Text, codes}
use drachtio_server.InvitesInProgress.{Iip, find_by_irq, find_by_reliable, destroy_reliable, modify}
use drachtio_server.SipDialog.{bump_timer_g, set_timer_g}
use drachtio_server.SipDialog.Stable.{sd_clear_id, sd_clear_leg}
use drachtio_server.ClientController.Dialogs.{add_dialog_for_transaction}
use drachtio_server.ClientController.Transactions.{remove_net_transaction}
use drachtio_server.ClientController.Routing.{
  route_ack_request_inside_dialog, route_request_inside_invite,
}
use drachtio_server.SipDialogController.Thread.{
  Thread, Method, ack, cancel, bye, reply_retransmitted, timer_added, of_invite,
  run_retransmit_final_response, did, did_all, on_clients, on_core, with_clients, dialog_id,
  find_and_remove_transaction_id, add_incoming_request_transaction,
}
use drachtio_server.SipDialogController.Thread.Steps.{
  World, Outgoing, remove_timer, clear_timer_g, clear_timer_h, clear_invite_irq, clear_sip_timers,
  clear_invite, clear_invite_leg, route_to_app, tell_bye, tport_of_dialog,
}
use drachtio_server.SipDialogController.Thread.Requests.{
  Returned, zero_rc, minus_one, Request, destroy_irq,
}

-- Without a message a final response was never acknowledged.
abbrev pub end_unacknowledged : Option Iip → Thread → Option (Returned × Thread)
end_unacknowledged none t = some (minus_one, t)
end_unacknowledged (some iip) t = elim iip.dialog [
  | none ↦ none
  | some a ↦ some (minus_one, clear_invite iip (clear_sip_timers a t))
]

abbrev pub cancel_to_app : World → Request → Iip → ℕ → Thread → Thread
cancel_to_app world r iip a t =
    let (id, t1) = dialog_id a t in
    let (routed, t2) = with_clients t1 (
      route_request_inside_invite world.live world.random r.raw r.meta iip.transaction_id id
        t1.clients) in
    clear_invite iip (on_clients (remove_net_transaction iip.transaction_id) t2)

abbrev pub cancel_found : World → Request → Option Iip → Thread → Option (Returned × Thread)
cancel_found world r none t = some (zero_rc, t)
cancel_found world r (some iip) t = elim iip.dialog [
  | none ↦ some (zero_rc, t)
  | some a ↦ some (zero_rc, cancel_to_app world r iip a t)
]

abbrev pub ack_to_app : World → Request → ℕ → Thread → Thread
ack_to_app world r a t =
    let (id, t1) = dialog_id a t in
    (with_clients t1 (
      route_ack_request_inside_dialog world.live world.random r.raw r.meta world.uuid
        (t1.objects a).core.transaction_id id t1.clients)).1

abbrev pub ack_found : World → Request → Option Iip → Thread → Option (Returned × Thread)
ack_found world r none t = some (zero_rc, t)
ack_found world r (some iip) t = elim iip.dialog [
  | none ↦ none
  | some a ↦ some (zero_rc, ack_to_app world r a (clear_sip_timers a (clear_invite iip t)))
]

abbrev pub by_method : World → Request → Method → Option Iip → Thread → Option (Returned × Thread)
by_method world r cancel iip t = cancel_found world r iip t
by_method world r ack iip t = ack_found world r iip t
by_method world r m iip t = some (zero_rc, t)

-- For the irq of an INVITE, with the request or without one.
unfoldable pub process_cancel_or_ack :
    World → ℕ → Option Request → Thread → Option (Returned × Thread)
unfolding find_by_irq clear_invite clear_sip_timers dialog_id
process_cancel_or_ack world irq none t = end_unacknowledged (find_by_irq (some irq) t.invites) t
process_cancel_or_ack world irq (some r) t =
    by_method world r r.method (find_by_irq (some irq) t.invites) t

abbrev pub log_destroyed : ℕ → Iip → Thread → Thread
log_destroyed rel iip t = did_all of_invite (destroy_reliable rel iip).1 t

-- The object in the set is changed in place.
abbrev pub forget_reliable : ℕ → Iip → Thread → Thread
forget_reliable rel iip t =
    log_destroyed rel iip
      (record t { invites = modify (λ e. (destroy_reliable rel e).0) iip.transaction_id t.invites })

abbrev pub prack_of : World → ℕ → Request → Iip → Option ℕ → Thread → Option Thread
prack_of world rel r iip none t = none
prack_of world rel r iip (some a) t =
    let (id, t1) = dialog_id a t in
    let t2 =
      on_clients
        (add_dialog_for_transaction world.live world.random (t1.objects a).core.transaction_id id)
        t1 in
    let (routed, t3) = route_to_app world r.raw r.meta world.uuid r.sip a t2 in
    some (add_incoming_request_transaction r.irq world.uuid (forget_reliable rel iip t3))

abbrev pub prack_found : World → ℕ → Request → Option Iip → Thread → Option Thread
prack_found world rel r none t = some t
prack_found world rel r (some iip) t = prack_of world rel r iip iip.dialog t

-- `none` is the failed assertion that the invite in progress has its dialog.
unfoldable pub process_prack : World → ℕ → Request → Thread → Option Thread
unfolding find_by_reliable dialog_id route_to_app add_incoming_request_transaction destroy_reliable
process_prack world rel r t = prack_found world rel r (find_by_reliable rel t.invites) t

-- Timer G: the 200 OK is sent again, unless the INVITE has been acknowledged. `t1` and `t2` are
-- NTA_SIP_T1 and NTA_SIP_T2.
abbrev pub stop_retransmitting : ℕ → Thread → Thread
stop_retransmitting a t =
    let u = clear_timer_g a t in
    clear_invite_irq a (clear_timer_h a (remove_timer (codes "timerH") (u.objects a).timer_h u))

abbrev pub retransmit_again : World → ℕ → ℕ → ℕ → ℕ → Thread → Thread
retransmit_again world t1 t2 a irq t =
    let (ms, core) = bump_timer_g t2 (t.objects a).core in
    let u = on_core a (λ c. core) (did (reply_retransmitted irq) t) in
    on_core a (set_timer_g t1 world.new_timer)
      (did (timer_added (codes "timerG") (run_retransmit_final_response a) ms) u)

abbrev pub retransmit_on : World → ℕ → ℕ → ℕ → Option ℕ → Thread → Thread
retransmit_on world t1 t2 a none t = stop_retransmitting a t
retransmit_on world t1 t2 a (some irq) t = retransmit_again world t1 t2 a irq t

unfoldable pub retransmit_final_response : World → ℕ → ℕ → ℕ → Thread → Thread
unfolding bump_timer_g set_timer_g
retransmit_final_response world t1 t2 a t = retransmit_on world t1 t2 a (t.objects a).invite_irq t

-- Timer H: no ACK has come.
abbrev pub give_up_call : World → ℕ → ℕ → Option Outgoing → Thread → Thread
give_up_call world a leg none t = record t { dialogs = sd_clear_leg leg t.dialogs }
give_up_call world a leg (some out) t = elim (tell_bye world a leg (some out) t) [
  | none ↦ t
  | some u ↦ record u { dialogs = sd_clear_leg leg u.dialogs }
]

abbrev pub end_on_leg : World → ℕ → Option ℕ → Thread → Thread
end_on_leg world a none t =
    let (id, u) = dialog_id a t in record u { dialogs = sd_clear_id id u.dialogs }
end_on_leg world a (some leg) t =
    let (tp, u) = tport_of_dialog world a t in give_up_call world a leg (world.create leg bye) u

abbrev pub clear_invite_of : Option ℕ → Thread → Thread
clear_invite_of none t = clear_invite_leg 0 t
clear_invite_of (some leg) t = clear_invite_leg leg t

unfoldable pub end_retransmit_final_response : World → ℕ → Thread → Thread
unfolding clear_invite_leg tport_of_dialog route_to_app dialog_id
end_retransmit_final_response world a t =
    let leg = (t.objects a).core.leg in
    let u = clear_timer_g a (remove_timer (codes "timerG") (t.objects a).core.timer_g t) in
    end_on_leg world a leg (clear_invite_of leg (clear_invite_irq a (clear_timer_h a u)))

-- What an application has left unanswered is dropped.
abbrev pub drop_held : Text → Option ℕ → Thread → Thread
drop_held id none t = t
drop_held id (some irq) t = destroy_irq irq (on_clients (remove_net_transaction id) t)

unfoldable pub timeout_bye : Text → Thread → Thread
unfolding find_and_remove_transaction_id
timeout_bye id t = let (irq, u) = find_and_remove_transaction_id id t in drop_held id irq u

abbrev pub drop_dangling : Text → Option ℕ → Thread → Thread
drop_dangling id none t = on_clients (remove_net_transaction id) t
drop_dangling id (some irq) t = destroy_irq irq (on_clients (remove_net_transaction id) t)

unfoldable pub clear_dangling_incoming_requests : List Text → Thread → Thread
unfolding find_and_remove_transaction_id
clear_dangling_incoming_requests [] t = t
clear_dangling_incoming_requests (id ∷ ids) t =
    let (irq, u) = find_and_remove_transaction_id id t in
    clear_dangling_incoming_requests ids (drop_dangling id irq u)
