-- ===== src/SipDialogController/Thread/Responses.antt =====
-- Responses inside dialogs: `processResponseInsideDialog`, `processResponseToRefreshingReinvite` and
-- `notifyRefreshDialog` of src/sip-dialog-controller.cpp.
pub mod Refresh
use drachtio_server.Common.{
  ℕ, Bool, true, false, not, ◌&&◌, ◌||◌, Option, none, some, List, [], ◌∷◌, ◌==◌, ltb,
  if◌then◌else◌, is_empty, Text, text_eq, codes, ◌>>=◌,
}
use drachtio_server.Common.Dict.{Dict}
use drachtio_server.SipDialog.{SessionRefresher, we_are_refresher, they_are_refresher}
use drachtio_server.SipDialog.Stable.{sd_clear_id}
use drachtio_server.SipDialogController.TimerD
use drachtio_server.SipDialogController.TimerD.{TimerDHandler, add_invite}
use drachtio_server.SipDialogController.Liveness
use drachtio_server.SipDialogController.Liveness.{Answer, Tport, track_tport_liveness}
use drachtio_server.ClientController.Routing.{route_response_inside_transaction}
use drachtio_server.SipDialogController.Thread.{
  Thread, Dialog, Rip, Method, invite, bye, ack, Effect, requested, outgoing_destroyed, of_acks,
  of_liveness, did, did_all, with_clients, SessionExpires, find_rip_by_orq, clear_rip, add_rip,
  find_dialog_by_leg, find_dialog_by_id, dialog_id,
}
use drachtio_server.SipDialogController.Thread.Steps.{
  World, Outgoing, or_null, notify_terminate_stale_dialog, start_session_timer, tport_of_dialog,
}

-- A response inside a dialog: its request, its status, the method of its CSeq, its Call-ID, its
-- Session-Expires and whether it has a Contact, its texts for the application, and what
-- `trackTportLiveness` reads.
pub record Response : Type 0 where
  pub orq : ℕ
  pub status : ℕ
  pub method_name : Text
  pub call_id : Text
  pub session_expires : Option SessionExpires
  pub has_contact : Bool
  pub raw : Text
  pub meta : Text
  pub answer : Answer
  pub tport : Option Tport

-- We refresh unless the header names the far end.
abbrev pub uac_refresher : Option Text → SessionRefresher
uac_refresher none = we_are_refresher
uac_refresher (some who) =
    if text_eq who (codes "uac") then we_are_refresher else they_are_refresher

abbrev pub note_counts : Thread → Dict ℕ × List Liveness.Effect → Thread
note_counts t (counts, effects) = did_all of_liveness effects (record t { counts = counts })

-- `limit` is the configured number of timeouts.
unfoldable pub track : ℕ → Answer → Option Tport → Thread → Thread
track limit answer tport t = note_counts t (track_tport_liveness limit answer tport t.counts)

abbrev pub keep_ack_state : Thread → TimerDHandler × List TimerD.Effect → Thread
keep_ack_state t (acks, effects) = did_all of_acks effects (record t { acks = acks })

module _ (world : World) where
  -- `none` is the failed assertion of TimerDHandler::addInvite.
  unfoldable pub start_timer_d : ℕ → Thread → Option Thread
  start_timer_d orq t = add_invite world.ack_stack orq t.acks >>= λ r. some (keep_ack_state t r)

  abbrev pub dgram_of : Option ℕ → Bool
  dgram_of none = false
  dgram_of (some tp) = world.is_dgram tp

  -- The dialog of the leg that the stack has for the Call-ID; none where there is none, and
  -- `some none` for an invite in progress without a dialog.
  abbrev pub dialog_by_call_id : Text → Thread → Option (Option ℕ)
  dialog_by_call_id call_id t = elim (world.leg_by_call_id call_id) [
    | none ↦ none
    | some leg ↦ find_dialog_by_leg leg t
  ]

  abbrev pub restart_for : Option (Option ℕ) → SessionExpires → Thread → Option Thread
  restart_for none se t = some t
  restart_for (some none) se t = none
  restart_for (some (some a)) se t =
      some (start_session_timer world a se.delta (uac_refresher se.refresher) t)

  abbrev pub restart_timer : Text → Option SessionExpires → Thread → Option Thread
  restart_timer call_id none t = some t
  restart_timer call_id (some se) t = restart_for (dialog_by_call_id call_id t) se t

  -- A 200 to a re-INVITE: timer D over udp, and the session timer.
  unfoldable pub on_reinvite_ok : Response → Thread → Option Thread
  unfolding start_timer_d find_dialog_by_leg start_session_timer
  on_reinvite_ok r t =
      (if dgram_of (world.dialog_stack.outgoing_transport r.orq)
        then start_timer_d r.orq t
        else some t)
      >>= restart_timer r.call_id r.session_expires

  abbrev pub is_challenge : ℕ → Bool
  is_challenge status = status == 407 || status == 401

  -- `none` is the failed assertion that the request has its dialog's id.
  unfoldable pub clear_dialog_for : Rip → Response → Thread → Option Thread
  clear_dialog_for rip r t =
      if not rip.clear_dialog_on_response
      then some t
      else if text_eq r.method_name (codes "BYE") && is_challenge r.status
      then some t
      else if is_empty rip.dialog_id
      then none
      else some (record t { dialogs = sd_clear_id rip.dialog_id t.dialogs })

  abbrev pub respond_to_rip : Response → Option Rip → Thread → Option Thread
  respond_to_rip r none t = some (did (outgoing_destroyed r.orq) t)
  respond_to_rip r (some rip) t =
      let (routed, t1) = with_clients t (
        route_response_inside_transaction world.live r.raw r.meta rip.transaction_id r.status
          r.method_name rip.dialog_id t.clients) in
      (if text_eq r.method_name (codes "INVITE") && r.status == 200
        then on_reinvite_ok r t1
        else some t1)
      >>= clear_dialog_for rip r
      >>= λ t2. some (clear_rip r.orq t2)

  unfoldable pub process_response_inside_dialog : ℕ → Response → Thread → Option Thread
  unfolding on_reinvite_ok clear_dialog_for find_rip_by_orq track
  process_response_inside_dialog limit r t =
      let t1 = track limit r.answer r.tport t in respond_to_rip r (find_rip_by_orq r.orq t1) t1

  -- The refreshing re-INVITE.

  abbrev pub end_refresh : ℕ → Option Thread → Option Thread
  end_refresh orq o = o >>= λ t. some (clear_rip orq t)

  abbrev pub tear_down : Option ℕ → Thread → Option Thread
  tear_down none t = some t
  tear_down (some a) t = notify_terminate_stale_dialog world a t

  abbrev pub refreshed : ℕ → Option SessionExpires → Thread → Thread
  refreshed a none t = t
  refreshed a (some se) t = start_session_timer world a se.delta (uac_refresher se.refresher) t

  abbrev pub send_ack : ℕ → Option ℕ → Thread → Thread
  send_ack leg none t = t
  send_ack leg (some orq) t = did (outgoing_destroyed orq) (did (requested leg ack orq) t)

  abbrev pub orq_of : Option Outgoing → Option ℕ
  orq_of none = none
  orq_of (some out) = some out.orq

  abbrev pub acknowledge : ℕ → Bool → Thread → Thread
  acknowledge a false t = t
  acknowledge a true t =
      let (tp, t1) = tport_of_dialog world a t in
      let leg = or_null (t1.objects a).core.leg in send_ack leg (orq_of (world.create leg ack)) t1

  -- The interval of the request, if it is known, and else that of the dialog; 0 is no timer.
  abbrev pub interval_of : Option ℕ → Dialog → ℕ
  interval_of none d = d.core.session_expires_secs
  interval_of (some secs) d = secs

  abbrev pub rearm : ℕ → Option ℕ → Thread → Thread
  rearm a asked t =
      let secs = interval_of asked (t.objects a) in
      if secs == 0 then t else start_session_timer world a secs we_are_refresher t

  -- `asked` is the interval in the Session-Expires of the re-INVITE.
  abbrev pub refresh_done : Response → Option ℕ → Option ℕ → Thread → Option Thread
  refresh_done r asked none t = some t
  refresh_done r asked (some a) t =
      if r.status == 200
      then some (acknowledge a r.has_contact (refreshed a r.session_expires t))
      else if r.status == 491
      then some (rearm a asked t)
      else notify_terminate_stale_dialog world a t

  abbrev pub refresh_answered : Option Response → ℕ → Option ℕ → Option Rip → Thread → Option Thread
  refresh_answered o orq asked none t = some (did (outgoing_destroyed orq) t)
  refresh_answered none orq asked (some rip) t =
      end_refresh orq (tear_down (find_dialog_by_id rip.dialog_id t) t)
  refresh_answered (some r) orq asked (some rip) t =
      if ltb r.status 200
      then some t
      else end_refresh orq (refresh_done r asked (find_dialog_by_id rip.dialog_id t) t)

  -- No response stands for a timeout.
  unfoldable pub process_response_to_refreshing_reinvite :
      ℕ → Answer → Option Tport → Option Response → ℕ → Option ℕ → Thread → Option Thread
  unfolding find_rip_by_orq clear_rip track
  process_response_to_refreshing_reinvite limit answer tport o orq asked t =
      let t1 = track limit answer tport t in
      refresh_answered o orq asked (find_rip_by_orq orq t1) t1

  -- The time to refresh a session has come.
  abbrev pub refresh_sent : ℕ → ℕ → Option Outgoing → Thread → Option Thread
  refresh_sent a leg none t = notify_terminate_stale_dialog world a t
  refresh_sent a leg (some out) t =
      let (id, t1) = dialog_id a (did (requested leg invite out.orq) t) in
      some (
        add_rip out.orq
          (record {
            transaction_id = world.uuid;
            dialog_id = id;
            dlg = none;
            clear_dialog_on_response = false;
          })
          t1)

  abbrev pub refresh_on : ℕ → Option ℕ → Thread → Option Thread
  refresh_on a none t = notify_terminate_stale_dialog world a t
  refresh_on a (some leg) t =
      if (t.objects a).core.session_expires_secs == 0
      then none
      else let (tp, t1) = tport_of_dialog world a t in
        refresh_sent a leg (world.create leg invite) t1

  -- `none` is the failed assertion that the dialog has an interval.
  unfoldable pub notify_refresh_dialog : ℕ → Thread → Option Thread
  unfolding dialog_id add_rip
  notify_refresh_dialog a t = refresh_on a (t.objects a).core.leg t
