-- ===== src/SipDialog/SessionTimer.antt =====
-- When the session timer goes off.
use drachtio_server.Common.{
  ℕ, ◌+◌, ◌-◌, ◌*◌, ◌/◌, ◌%◌, ◌≤◌, ◌<◌, ◌≡◌, refl, false, none, some, [], ◌∷◌, ◌++◌, arith, ltb,
}
use drachtio_server.SipDialog.{
  we_are_refresher, ahead, SipDialog, timer_set, refresh_notified, stopped, session_duration,
  set_session_timer, do_session_timer_handling,
}

-- Where we refresh a session of 11 seconds at least, the timer goes off within 5 seconds of half the
-- interval, and before the session expires, whatever the random number; and the dialog controller is
-- then asked, once, to refresh the dialog (`notifyRefreshDialog`), and the timer is no longer set.
pub set_session_timer-refreshes :
    (n_secs random : ℕ) (d : SipDialog)
    → 11 ≤ n_secs
    → (t : ℕ) × ((set_session_timer n_secs we_are_refresher random d).1
        ≡ stopped d ++ timer_set (ahead t) ∷ [])
      × (n_secs * 500 ≤ t + 5000)
      × (t < n_secs * 500 + 5000)
      × (t < n_secs * 1000)
      × ((d' : SipDialog) × (do_session_timer_handling
              (set_session_timer n_secs we_are_refresher random d).0
            ≡ some (d', refresh_notified d.dialog_id ∷ []))
          × (d'.timer_session_refresh ≡ none))
unfolding set_session_timer session_duration do_session_timer_handling
set_session_timer-refreshes n_secs random d l =
    let half : n_secs * 1000 / 2 ≡ n_secs * 500 = omega arith in
    let long : ltb (n_secs * 1000 / 2 + random % 10000) 5000 ≡ false = ground (arith, half) in
    (
      n_secs * 1000 / 2 + random % 10000 - 5000,
      rw long refl,
      omega (arith, half),
      omega (arith, half),
      omega (arith, half),
      (_, refl, refl),
    )
