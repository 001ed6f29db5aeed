-- ===== src/SipDialog/Tests.antt =====
-- A dialog with a session timer, and its transport.
use drachtio_server.Common.{
  ℕ, ◌+◌, ◌*◌, ◌≤◌, ◌<◌, ◌≡◌, refl, false, none, some, [], ◌∷◌, arith, ◌==◌, text_eq, codes,
}
use drachtio_server.SipTransport.{TportName}
use drachtio_server.SipDialog.{
  we_are_uac, no_refresher, we_are_refresher, ahead, past, SipDialog, timer_set, refresh_notified,
  tport_ref, tport_unref, outgoing_destroyed, Stack, session_duration, set_session_timer,
  do_session_timer_handling, check_tport_state, set_tport, get_tport,
}
use drachtio_server.SipDialog.SessionTimer.{set_session_timer-refreshes}
use drachtio_server.SipDialog.Stable.{Stored, sd_insert, sd_size}

abbrev name : TportName
name = record { host = codes "1.2.3.4"; port = codes "5060"; proto = codes "tcp" }

abbrev dialog : SipDialog
dialog = record {
  role = we_are_uac;
  call_id = codes "x";
  local_tag = codes "l";
  remote_tag = codes "r";
  dialog_id = codes "x;from-tag=l";
  transaction_id = codes "t";
  leg = some 1;
  tp = some 4;
  transport = name;
  orq = some 2;
  orq_ack = some 3;
  destroy_ack_on_close = false;
  refresher = no_refresher;
  session_expires_secs = 0;
  timer_session_refresh = none;
  pp_self = false;
  timer_g = none;
  duration_timer_g = 0;
  irq_update = none;
  update_transaction_id = [];
  incoming_transaction_ids = [];
}

-- Transport 4 is closed, and the ACK went out on 5.
abbrev stack : Stack
stack = record {
  is_closed = λ tp. tp == 4;
  tport_name = λ tp. name;
  outgoing_transport = λ orq. some 5;
}

moved : get_tport stack dialog ≡ (
  some 5,
  record dialog { tp = some 5; orq_ack = none },
  tport_unref 4 ∷ tport_ref 5 ∷ tport_unref 5 ∷ outgoing_destroyed 3 ∷ [],
)
unfolding get_tport check_tport_state set_tport
moved = refl

-- A session of 5 seconds: the timer would have gone off 2.5 seconds ago.
short_session : session_duration 5 we_are_refresher 0 ≡ past 2500
unfolding session_duration
short_session = refl

abbrev stored : Stored
stored = record { address = 1; leg = 1; dialog_id = codes "a"; role = we_are_uac }

same_leg :
    sd_insert
      (record { address = 2; leg = 1; dialog_id = codes "b"; role = we_are_uac })
      (sd_insert stored [])
    ≡ stored ∷ []
unfolding sd_insert text_eq
same_leg = refl

sizes : sd_size (stored ∷ []) ≡ (1, 1, 0)
unfolding sd_size
sizes = refl

set_session_timer-refreshes_example :
    (t : ℕ) × ((set_session_timer 90 we_are_refresher 7 dialog).1 ≡ timer_set (ahead t) ∷ [])
    × (90 * 500 ≤ t + 5000)
    × (t < 90 * 500 + 5000)
    × (t < 90 * 1000)
    × ((d' : SipDialog) × (do_session_timer_handling
            (set_session_timer 90 we_are_refresher 7 dialog).0
          ≡ some (d', refresh_notified dialog.dialog_id ∷ []))
        × (d'.timer_session_refresh ≡ none))
set_session_timer-refreshes_example = set_session_timer-refreshes 90 7 dialog (omega arith)
