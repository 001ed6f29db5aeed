-- ===== src/SipDialog.antt =====
-- src/sip-dialog.cpp and sip-dialog.hpp: a dialog, its session timer and its transport, and the set of
-- dialogs that are established. Handles of the SIP stack are numbers. The constructors, which read the
-- parts of a message, are left out.
pub mod SessionTimer
pub mod Stable
mod Tests
use drachtio_server.Common.{
  ℕ, zero, suc, ◌+◌, ◌-◌, ◌*◌, ◌/◌, ◌%◌, ◌^◌, Bool, true, false, not, ◌&&◌, ◌||◌, Option, none,
  some, List, [], ◌∷◌, ◌++◌, ◌==◌, ltb, leb, if◌then◌else◌, is_empty, is_some, Text, text_eq, codes,
}
use drachtio_server.SipTransport.{TportName}

pub data DialogType : Type 0 where
  we_are_uac we_are_uas : DialogType

pub data SessionRefresher : Type 0 where
  no_refresher we_are_refresher they_are_refresher : SessionRefresher

-- A su_duration_t: a time to come, in milliseconds, or one that has passed.
pub data Duration : Type 0 where
  ahead : ℕ → Duration
  past : ℕ → Duration

-- `timer_session_refresh` is the time for which the timer was set, and `pp_self` whether the pointer
-- that it is given is there.
pub record SipDialog : Type 0 where
  pub role : DialogType
  pub call_id : Text
  pub local_tag : Text
  pub remote_tag : Text
  pub dialog_id : Text
  pub transaction_id : Text
  pub leg : Option ℕ
  pub tp : Option ℕ
  pub transport : TportName
  pub orq : Option ℕ
  pub orq_ack : Option ℕ
  pub destroy_ack_on_close : Bool
  pub refresher : SessionRefresher
  pub session_expires_secs : ℕ
  pub timer_session_refresh : Option Duration
  pub pp_self : Bool
  pub timer_g : Option ℕ
  pub duration_timer_g : ℕ
  pub irq_update : Option ℕ
  pub update_transaction_id : Text
  pub incoming_transaction_ids : List Text

-- What is asked of the stack and of other parts. `refresh_notified` is the call of
-- `notifyRefreshDialog` of the dialog controller, which sends a re-INVITE, and `stale_notified` that of
-- `notifyTerminateStaleDialog`: neither is a message to the application.
pub data Effect : Type 0 where
  tport_ref tport_unref : ℕ → Effect
  timer_set : Duration → Effect
  timer_destroyed : Effect
  refresh_notified stale_notified : Text → Effect
  outgoing_destroyed leg_destroyed timer_d_stopped : ℕ → Effect
  incoming_cleared : List Text → Effect
  net_transaction_removed : Text → Effect

abbrev pub dialog_id_of : SipDialog → Text
dialog_id_of d =
    d.call_id
    ++ codes ";from-tag="
    ++ elim d.role [ we_are_uac ↦ d.local_tag | we_are_uas ↦ d.remote_tag ]

-- The id is made at the first call and kept.
unfoldable pub get_dialog_id : SipDialog → Text × SipDialog
get_dialog_id d =
    if is_empty d.dialog_id
    then (dialog_id_of d, record d { dialog_id = dialog_id_of d })
    else (d.dialog_id, d)

abbrev pub are_we_refresher : SipDialog → Bool
are_we_refresher d = elim d.refresher [
  | no_refresher ↦ false
  | we_are_refresher ↦ true
  | they_are_refresher ↦ false
]

-- `none` is the failed assertion.
unfoldable pub cancel_session_timer : SipDialog → Option (SipDialog × List Effect)
cancel_session_timer d = elim d.timer_session_refresh [
  | none ↦ none
  | some t ↦ some (
    record d { timer_session_refresh = none; refresher = no_refresher; session_expires_secs = 0 },
    timer_destroyed ∷ [],
  )
]

abbrev pub minus_5000 : ℕ → Duration
minus_5000 d = if ltb d 5000 then past (5000 - d) else ahead (d - 5000)

-- The refresher's timer goes off about halfway through the interval; `random` is what `rand` gives.
unfoldable pub session_duration : ℕ → SessionRefresher → ℕ → Duration
session_duration n_secs no_refresher random = ahead (n_secs * 1000)
session_duration n_secs they_are_refresher random = ahead (n_secs * 1000)
session_duration n_secs we_are_refresher random = minus_5000 (n_secs * 1000 / 2 + random % 10000)

abbrev pub stopped : SipDialog → List Effect
stopped d = elim d.timer_session_refresh [ none ↦ [] | some t ↦ timer_destroyed ∷ [] ]

unfoldable pub set_session_timer : ℕ → SessionRefresher → ℕ → SipDialog → SipDialog × List Effect
unfolding session_duration
set_session_timer n_secs who random d =
    let duration = session_duration n_secs who random in
    (
      record d {
        refresher = who;
        session_expires_secs = n_secs;
        timer_session_refresh = some duration;
        pp_self = true;
      },
      stopped d ++ timer_set duration ∷ [],
    )

unfoldable pub do_session_timer_handling : SipDialog → Option (SipDialog × List Effect)
do_session_timer_handling d =
    if not d.pp_self
    then none
    else some (
      record d {
        pp_self = false;
        timer_session_refresh = none;
        refresher = no_refresher;
        session_expires_secs = 0;
      },
      (if are_we_refresher d then refresh_notified d.dialog_id else stale_notified d.dialog_id)
          ∷ [],
    )

-- What the stack tells of its transports: whether one is closed, its name, and the transport of an
-- outgoing request, if it has one by now.
pub record Stack : Type 0 where
  pub is_closed : ℕ → Bool
  pub tport_name : ℕ → TportName
  pub outgoing_transport : ℕ → Option ℕ

abbrev pub release : Option ℕ → List Effect
release none = []
release (some tp) = tport_unref tp ∷ []

module _ (stack : Stack) where
  abbrev pub is_gone : Option ℕ → Bool
  is_gone none = false
  is_gone (some tp) = stack.is_closed tp

  unfoldable pub check_tport_state : SipDialog → SipDialog × List Effect
  check_tport_state d = if is_gone d.tp then (record d { tp = none }, release d.tp) else (d, [])

  unfoldable pub set_tport : ℕ → SipDialog → SipDialog × List Effect
  set_tport tp d = (
    record d { tp = some tp; transport = stack.tport_name tp },
    release d.tp ++ tport_ref tp ∷ [],
  )

  abbrev pub adopt : ℕ → ℕ → SipDialog → Option ℕ × SipDialog × List Effect
  adopt ack tp d =
      if stack.is_closed tp
      then (none, record d { orq_ack = none }, tport_unref tp ∷ outgoing_destroyed ack ∷ [])
      else let (d', effects) = set_tport tp d in
        (
          some tp,
          record d' { orq_ack = none },
          effects ++ tport_unref tp ∷ outgoing_destroyed ack ∷ [],
        )

  abbrev pub from_ack : SipDialog → Option ℕ → Option ℕ × SipDialog × List Effect
  from_ack d none = (none, d, [])
  from_ack d (some ack) = elim (stack.outgoing_transport ack) [
    | none ↦ (none, d, [])
    | some tp ↦ adopt ack tp d
  ]

  abbrev pub tport_of : SipDialog × List Effect → Option ℕ × SipDialog × List Effect
  tport_of (d, effects) = elim d.tp [
    | some tp ↦ (some tp, d, effects)
    | none ↦ let (found, d', more) = from_ack d d.orq_ack in (found, d', effects ++ more)
  ]

  unfoldable pub get_tport : SipDialog → Option ℕ × SipDialog × List Effect
  unfolding check_tport_state set_tport
  get_tport d = tport_of (check_tport_state d)

-- NTA_SIP_T1 and NTA_SIP_T2 are `t1` and `t2`.
unfoldable pub set_timer_g : ℕ → ℕ → SipDialog → SipDialog
set_timer_g t1 handle d = record d {
  timer_g = some handle;
  duration_timer_g = if d.duration_timer_g == 0 then t1 else d.duration_timer_g;
}

unfoldable pub bump_timer_g : ℕ → SipDialog → ℕ × SipDialog
bump_timer_g t2 d =
    let twice = d.duration_timer_g * 2 % 2 ^ 32 in
    let next = if ltb t2 twice then t2 else twice in (next, record d { duration_timer_g = next })

unfoldable pub set_update_irq : ℕ → Text → SipDialog → SipDialog
set_update_irq irq id d = record d { irq_update = some irq; update_transaction_id = id }

unfoldable pub clear_update_irq : SipDialog → SipDialog
clear_update_irq d = record d { irq_update = none; update_transaction_id = [] }

abbrev pub on_some : (ℕ → Effect) → Option ℕ → List Effect
on_some f none = []
on_some f (some h) = f h ∷ []

abbrev pub is_uac : SipDialog → Bool
is_uac d = elim d.role [ we_are_uac ↦ true | we_are_uas ↦ false ]

-- The destructor; `none` is the failed assertion that the session timer has its pointer.
unfoldable pub destroy : SipDialog → Option (List Effect)
destroy d =
    if is_some d.timer_session_refresh && not d.pp_self
    then none
    else some (
        stopped d
        ++ on_some leg_destroyed d.leg
        ++ release d.tp
        ++ (if is_uac d then on_some timer_d_stopped d.orq else [])
        ++ (if d.destroy_ack_on_close then on_some outgoing_destroyed d.orq_ack else [])
        ++ on_some outgoing_destroyed d.orq
        ++ incoming_cleared d.incoming_transaction_ids
          ∷ net_transaction_removed d.transaction_id
          ∷ [])
