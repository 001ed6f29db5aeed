-- ===== src/SipDialogController/Thread/Steps.antt =====
-- What the handlers of `SipDialogController` (src/sip-dialog-controller.cpp and .hpp) share: timers,
-- invites in progress, transports, the messages that go to applications, and the end of a dialog.
use drachtio_server.Common.{
  ℕ, Bool, Option, none, some, List, [], ◌∷◌, ◌==◌, if◌then◌else◌, is_empty, Text, codes, ◌>>=◌,
}
use drachtio_server.SipDialog
use drachtio_server.SipDialog.{
  SipDialog, get_tport, set_tport, set_session_timer, SessionRefresher, we_are_refresher,
  they_are_refresher,
}
use drachtio_server.SipDialog.Stable.{Stored, sd_insert, sd_clear}
use drachtio_server.InvitesInProgress
use drachtio_server.InvitesInProgress.{Iip, clear, find_by_leg}
use drachtio_server.SipDialogController.TimerD
use drachtio_server.DrachtioController
use drachtio_server.DrachtioController.{get_tport_for_contact_alias}
use drachtio_server.ClientController.{Live}
use drachtio_server.ClientController.Dialogs.{add_dialog_for_transaction}
use drachtio_server.ClientController.Transactions.{remove_app_transaction}
use drachtio_server.ClientController.Routing.{SipRequest, route_request_inside_dialog}
use drachtio_server.SipDialogController.Thread.{
  Thread, Method, bye, requested, outgoing_destroyed, timer_removed, of_invite, did, on_clients,
  with_clients, on_dialog, on_core, settle_core, dialog_id,
}

-- A request that the stack makes for us: its handle, and its message as applications are told of it.
pub record Outgoing : Type 0 where
  pub orq : ℕ
  pub raw : Text
  pub meta : Text
  pub sip : SipRequest

-- The Contact of the far end of a dialog, as the stack keeps it for a leg.
pub record Target : Type 0 where
  pub user : Option Text
  pub host : Option Text
  pub port : Text

-- What the surroundings answer while a handler runs: the clients that are connected, `rand`, a uuid, the
-- handle of a new timer, and what the stack knows and makes.
pub record World : Type 0 where
  pub live : Live
  pub random : ℕ
  pub uuid : Text
  pub new_timer : ℕ
  pub dialog_stack : SipDialog.Stack
  pub contact_stack : DrachtioController.Stack
  pub ack_stack : TimerD.Stack
  pub leg_by_call_id : Text → Option ℕ
  pub create : ℕ → Method → Option Outgoing
  pub create_cancel : ℕ → Option Outgoing
  pub has_route : ℕ → Bool
  pub remote_target : ℕ → Option Target
  pub is_dgram : ℕ → Bool

-- A timer that runs is removed from its queue.
abbrev pub remove_timer : Text → Option ℕ → Thread → Thread
remove_timer queue none t = t
remove_timer queue (some h) t = did (timer_removed queue h) t

abbrev pub clear_timer_g : ℕ → Thread → Thread
clear_timer_g a t = on_core a (λ c. record c { timer_g = none }) t

abbrev pub clear_timer_h : ℕ → Thread → Thread
clear_timer_h a t = on_dialog a (λ d. record d { timer_h = none }) t

abbrev pub clear_invite_irq : ℕ → Thread → Thread
clear_invite_irq a t = on_dialog a (λ d. record d { invite_irq = none }) t

unfoldable pub clear_sip_timers : ℕ → Thread → Thread
clear_sip_timers a t =
    let t1 = clear_timer_g a (remove_timer (codes "timerG") (t.objects a).core.timer_g t) in
    let t2 = clear_timer_h a (remove_timer (codes "timerH") (t1.objects a).timer_h t1) in
    clear_invite_irq a t2

-- What IIP_Clear asks: the dialog forgets the irq of its INVITE.
abbrev pub settle_invite : InvitesInProgress.Effect → Thread → Thread
settle_invite (InvitesInProgress.invite_irq_cleared a) t = clear_invite_irq a t
settle_invite e t = did (of_invite e) t

abbrev pub settle_invites : List InvitesInProgress.Effect → Thread → Thread
settle_invites [] t = t
settle_invites (e ∷ es) t = settle_invites es (settle_invite e t)

abbrev pub after_clear : List Iip × List InvitesInProgress.Effect → Thread → Thread
after_clear (invites, effects) t = settle_invites effects (record t { invites = invites })

unfoldable pub clear_invite : Iip → Thread → Thread
clear_invite iip t = after_clear (clear iip t.invites) t

abbrev pub clear_invite_found : Option Iip → Thread → Thread
clear_invite_found none t = t
clear_invite_found (some iip) t = after_clear (clear iip t.invites) t

unfoldable pub clear_invite_leg : ℕ → Thread → Thread
clear_invite_leg leg t = clear_invite_found (find_by_leg leg t.invites) t

-- A null pointer is 0.
abbrev pub or_null : Option ℕ → ℕ
or_null none = 0
or_null (some h) = h

abbrev pub stored_of : ℕ → Text → SipDialog → Stored
stored_of a id c = record { address = a; leg = or_null c.leg; dialog_id = id; role = c.role }

module _ (world : World) where
  -- `none` where the stack knows no leg of the Call-ID: a failed assertion.
  unfoldable pub add_dialog : ℕ → Thread → Option Thread
  unfolding dialog_id
  add_dialog a t =
      let (id, t1) = dialog_id a t in
      let core = (t1.objects a).core in
      world.leg_by_call_id core.call_id >>= λ leg. some (
        on_clients (add_dialog_for_transaction world.live world.random core.transaction_id id)
          (record t1 { dialogs = sd_insert (stored_of a id core) t1.dialogs }))

  abbrev pub settle_tport :
      ℕ → Option ℕ × SipDialog × List SipDialog.Effect → Thread → Option ℕ × Thread
  settle_tport a (tp, core, effects) t = (tp, settle_core a (core, effects) t)

  unfoldable pub tport_of_dialog : ℕ → Thread → Option ℕ × Thread
  tport_of_dialog a t = settle_tport a (get_tport world.dialog_stack (t.objects a).core) t

  unfoldable pub pin_tport : ℕ → ℕ → Thread → Thread
  pin_tport a tp t = settle_core a (set_tport world.dialog_stack tp (t.objects a).core) t

  -- The connection that was found, if it is another one, is the dialog's from now on.
  abbrev pub move_tport : ℕ → ℕ → Option ℕ → Thread → Option ℕ × Thread
  move_tport a tp none t = (some tp, t)
  move_tport a tp (some current) t =
      if current == tp then (some tp, t) else (some current, pin_tport a current t)

  abbrev pub follow_alias : ℕ → ℕ → Option Text → Text → Thread → Option ℕ × Thread
  follow_alias a tp none port t = (some tp, t)
  follow_alias a tp (some host) port t =
      let name = (t.objects a).core.transport in
      if is_empty name.host
      then (some tp, t)
      else let (current, caches) =
          get_tport_for_contact_alias world.contact_stack tp name.proto name.host host port
            t.caches in
        move_tport a tp current (record t { caches = caches })

  abbrev pub follow_target : ℕ → Option Target → Option ℕ × Thread → Option ℕ × Thread
  follow_target a target (none, t) = (none, t)
  follow_target a none (some tp, t) = (some tp, t)
  follow_target a (some target) (some tp, t) = follow_alias a tp target.host target.port t

  unfoldable pub current_tport_for_dialog : ℕ → Option Target → Thread → Option ℕ × Thread
  unfolding pin_tport tport_of_dialog
  current_tport_for_dialog a target t = follow_target a target (tport_of_dialog a t)

  -- A request inside a dialog goes to the application that has it.
  unfoldable pub route_to_app : Text → Text → Text → SipRequest → ℕ → Thread → Bool × Thread
  unfolding dialog_id
  route_to_app raw meta transaction sip a t =
      let (id, t1) = dialog_id a t in
      with_clients t1
        (route_request_inside_dialog world.live world.random raw meta transaction sip id t1.clients)

  -- The application is told of a BYE of our own, which no one waits for.
  abbrev pub tell_bye : ℕ → ℕ → Option Outgoing → Thread → Option Thread
  tell_bye a leg none t = none
  tell_bye a leg (some out) t =
      let t1 = did (requested leg bye out.orq) t in
      let (routed, t2) = route_to_app out.raw out.meta (codes "unsolicited") out.sip a t1 in
      some (did (outgoing_destroyed out.orq) t2)

  abbrev pub bye_on_leg : ℕ → Option ℕ → Thread → Option Thread
  bye_on_leg a none t = some t
  bye_on_leg a (some leg) t =
      let (tp, t1) = tport_of_dialog a t in tell_bye a leg (world.create leg bye) t1

  abbrev pub forget_dialog : ℕ → Thread → Thread
  forget_dialog a t = record t { dialogs = sd_clear a t.dialogs }

  -- `none` where the stack makes no BYE: its message is read through a null pointer.
  unfoldable pub notify_terminate_stale_dialog : ℕ → Thread → Option Thread
  unfolding tport_of_dialog route_to_app
  notify_terminate_stale_dialog a t =
      bye_on_leg a (t.objects a).core.leg t >>= λ t1. some (forget_dialog a t1)

  unfoldable pub notify_cancel_timeout_reached : Iip → Thread → Thread
  unfolding clear_invite
  notify_cancel_timeout_reached iip t =
      clear_invite iip (on_clients (remove_app_transaction iip.transaction_id) t)

  -- A session timer as a header asks for it.
  unfoldable pub start_session_timer : ℕ → ℕ → SessionRefresher → Thread → Thread
  start_session_timer a secs who t =
      settle_core a (set_session_timer secs who world.random (t.objects a).core) t
