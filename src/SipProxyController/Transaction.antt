-- ===== src/SipProxyController/Transaction.antt =====
-- `ProxyCore::ClientTransaction` of src/sip-proxy-controller.cpp: the state machine of one request sent
-- on. `none` is a failed assertion or an exception that no one catches.
use drachtio_server.Common.{
  ℕ, ◌*◌, Bool, true, false, ◌||◌, Option, none, some, List, [], ◌∷◌, ltb, if◌then◌else◌, is_some,
}
use drachtio_server.SipProxyController.{
  State, not_started, trying, calling, proceeding, completed, terminated, is_state,
  ClientTransaction, is_invite, Effect, cancel_sent,
}

-- NTA_SIP_T1 and NTA_SIP_T4 of the SIP stack, in milliseconds.
pub record Times : Type 0 where
  pub t1 : ℕ
  pub t4 : ℕ

abbrev pub timer_c_msecs : ℕ
timer_c_msecs = 185000

abbrev pub timer_d_msecs : ℕ
timer_d_msecs = 30000

module _ (times : Times) (provisional_timeout : ℕ) where
  -- The timers of a new state, for an INVITE.
  unfoldable pub enter_invite : State → ClientTransaction → Option ClientTransaction
  enter_invite not_started c = some c
  enter_invite trying c = some c
  enter_invite calling c =
      if is_some c.timer_a || (is_some c.timer_b || is_some c.timer_c)
      then none
      else some (record c {
        timer_a = some times.t1;
        duration_timer_a = times.t1;
        timer_b = some (times.t1 * 64);
        timer_c = some timer_c_msecs;
        timer_provisional =
            if ltb 0 provisional_timeout then some provisional_timeout else c.timer_provisional;
      })
  enter_invite proceeding c =
      some (record c { timer_a = none; timer_b = none; timer_provisional = none })
  enter_invite completed c = some (record c {
    timer_a = none;
    timer_b = none;
    timer_c = none;
    timer_provisional = none;
    timer_d = some timer_d_msecs;
  })
  enter_invite terminated c =
      some (record c { timer_a = none; timer_b = none; timer_c = none; timer_provisional = none })

  -- The same for other requests.
  unfoldable pub enter_other : State → ClientTransaction → Option ClientTransaction
  enter_other not_started c = some c
  enter_other calling c = some c
  enter_other trying c =
      if is_some c.timer_e || is_some c.timer_f
      then none
      else some (record c {
        timer_e = some times.t1;
        duration_timer_a = times.t1;
        timer_f = some (64 * times.t1);
      })
  enter_other proceeding c = some (record c { timer_e = none })
  enter_other completed c =
      some (record c { timer_e = none; timer_f = none; timer_k = some times.t4 })
  enter_other terminated c = some (record c { timer_e = none; timer_f = none; timer_k = none })

  unfoldable pub set_state : State → ClientTransaction → Option ClientTransaction
  unfolding enter_invite enter_other
  set_state state c =
      if is_state state c.state
      then some c
      else if is_invite c
      then enter_invite state (record c { state = state })
      else enter_other state (record c { state = state })

  -- The first three timers go; the last three calls name the others but pass timer C again.
  abbrev pub stop_timers : ClientTransaction → ClientTransaction
  stop_timers c = record c { timer_a = none; timer_b = none; timer_c = none }

  abbrev pub mark_canceled : Option ClientTransaction → Option (ClientTransaction × List Effect)
  mark_canceled none = none
  mark_canceled (some c) = some (record c { canceled = true }, [])

  abbrev pub no_effects : Option ClientTransaction → Option (ClientTransaction × List Effect)
  no_effects none = none
  no_effects (some c) = some (c, [])

  -- `sends` tells whether the CANCEL can be made and sent.
  unfoldable pub cancel_in :
      Bool → State → ClientTransaction → Option (ClientTransaction × List Effect)
  unfolding set_state
  cancel_in sends calling c = mark_canceled (set_state completed c)
  cancel_in sends not_started c = no_effects (set_state terminated c)
  cancel_in sends trying c = some (c, [])
  cancel_in sends proceeding c =
      if sends
      then some (record c { canceled = true }, cancel_sent c.target c.branch ∷ [])
      else some (c, [])
  cancel_in sends completed c = some (c, [])
  cancel_in sends terminated c = some (c, [])

  unfoldable pub cancel_request :
      Bool → ClientTransaction → Option (ClientTransaction × List Effect)
  unfolding cancel_in
  cancel_request sends c = cancel_in sends c.state (stop_timers c)

-- A transaction that is to be sent anew. The timer for a provisional response is not stopped.
unfoldable pub reinit_state : ClientTransaction → ClientTransaction
reinit_state c = record c {
  state = not_started;
  transmit_count = 0;
  sip_status = 0;
  canceled = false;
  final_response = none;
  timer_a = none;
  timer_b = none;
  timer_c = none;
  timer_d = none;
  timer_e = none;
  timer_f = none;
  timer_k = none;
}
