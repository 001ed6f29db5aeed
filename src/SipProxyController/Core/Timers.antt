-- ===== src/SipProxyController/Core/Timers.antt =====
-- What the core does when a timer of a client transaction goes off (`timerA` to `timerK` and
-- `timerProvisional` of src/sip-proxy-controller.cpp). The client stands between those `before` and
-- those `after` it. `none` is a failed assertion, as everywhere.
pub mod Untried
use drachtio_server.Common.{
  ℕ, Bool, true, false, not, ◌||◌, Option, none, some, List, [], ◌∷◌, ◌++◌, if◌then◌else◌, ◌>>=◌,
}
use drachtio_server.SipProxyController.{
  State, trying, calling, proceeding, completed, terminated, is_state, ClientTransaction, Effect,
}
use drachtio_server.SipProxyController.Transaction.{set_state, cancel_request}
use drachtio_server.SipProxyController.Sending.{retransmit_request}
use drachtio_server.SipProxyController.Server.{generate_response}
use drachtio_server.SipProxyController.Core.{Setting, ProxyCore, emit, remove_terminated}
use drachtio_server.SipProxyController.Core.Search.{start_more, conclude}

module _ (s : Setting) (before : List ClientTransaction) (c : ClientTransaction)
    (after : List ClientTransaction) (core : ProxyCore) where
  abbrev pub put : ClientTransaction → ProxyCore
  put c' = record core { clients = before ++ c' ∷ after }

  abbrev pub put_sent : Bool × ClientTransaction × List Effect → ProxyCore
  put_sent (sent, c', effects) = emit effects (put c')

  -- The client goes to a state, and those that have terminated are removed.
  unfoldable pub leave_to : State → ClientTransaction → Option ProxyCore
  unfolding set_state remove_terminated
  leave_to state c' = set_state s.times s.provisional_timeout state c' >>= λ c''.
      some (remove_terminated false (put c''))

  unfoldable pub retransmit : ClientTransaction → Option ProxyCore
  unfolding retransmit_request
  retransmit c' =
      retransmit_request s.times s.provisional_timeout s.network s.request c' >>= λ sent.
      some (put_sent sent)

  unfoldable pub timer_a : Option ProxyCore
  unfolding retransmit
  timer_a = if is_state calling c.state then retransmit (record c { timer_a = none }) else none

  unfoldable pub timer_b : Option ProxyCore
  unfolding leave_to conclude
  timer_b =
      if is_state calling c.state
      then leave_to terminated (record c { timer_b = none }) >>= conclude s
      else none

  -- The CANCEL that is sent where a response has come.
  abbrev pub cancel_late : ClientTransaction → Option (ClientTransaction × List Effect)
  cancel_late c' =
      if is_state proceeding c'.state
      then cancel_request s.times s.provisional_timeout (s.sends_cancel c'.target) c'
      else some (c', [])

  unfoldable pub timer_c : Option ProxyCore
  unfolding set_state remove_terminated conclude cancel_request
  timer_c =
      if is_state proceeding c.state || is_state calling c.state
      then (cancel_late (record c { timer_c = none }) >>= λ (c', effects).
          set_state s.times s.provisional_timeout terminated c' >>= λ c''. conclude s (
            remove_terminated false
              (emit (generate_response 408 core.server) (emit effects (put c'')))))
      else none

  unfoldable pub timer_d : Option ProxyCore
  unfolding leave_to
  timer_d =
      if is_state completed c.state then leave_to terminated (record c { timer_d = none }) else none

  unfoldable pub timer_e : Option ProxyCore
  unfolding retransmit
  timer_e = if is_state trying c.state then retransmit (record c { timer_e = none }) else none

  unfoldable pub timer_f : Option ProxyCore
  unfolding leave_to
  timer_f = leave_to terminated (record c { timer_f = none })

  unfoldable pub timer_k : Option ProxyCore
  unfolding leave_to
  timer_k =
      if is_state completed c.state then leave_to terminated (record c { timer_k = none }) else none

  unfoldable pub timer_provisional : Option ProxyCore
  unfolding set_state remove_terminated conclude
  timer_provisional =
      if is_state calling c.state
      then (set_state s.times s.provisional_timeout completed
            (record c { timer_provisional = none })
          >>= λ c'.
              start_more s (remove_terminated false (record (put c') { canceled = true }))
              >>= conclude s)
      else none
