-- ===== src/SipProxyController/Sending/Retransmissions.antt =====
-- Retransmissions of an INVITE: when timer A goes off.
use drachtio_server.Common.{
  ℕ, zero, suc, ◌+◌, ◌≡◌, true, Option, none, some, ltb, if◌then◌else◌, ◌>>=◌,
}
use drachtio_server.SipProxyController.{calling, ClientTransaction, is_invite}
use drachtio_server.SipProxyController.Transaction.{Times}
use drachtio_server.SipProxyController.Sending.{Request, Network, has_transport, retransmit_request}

-- An INVITE that awaits its first response, sent directly.
pub record IsCalling (n : Network) (c : ClientTransaction) : Type 0 where
  pub state : c.state ≡ calling
  pub invite : is_invite c ≡ true
  pub direct : n.outbound_proxy ≡ none
  pub transport : has_transport n c.target ≡ true

-- Timer A goes off `count` times from `now` on, before `until`, at which timer B ends the transaction;
-- the time of the last one, and the transaction then. There is none where timer B comes first.
unfoldable pub firings :
    Times → ℕ → Network → Request → ℕ → ℕ → ℕ → ClientTransaction → Option (ℕ × ClientTransaction)
firings times p n q until zero now c = some (now, c)
firings times p n q until (suc count) now c = elim c.timer_a [
  | none ↦ none
  | some d ↦
      let next =
        retransmit_request times p n q (record c { timer_a = none }) >>= λ (b, c', effects).
        firings times p n q until count (now + d) c' in
      if ltb (now + d) until then next else none
]

-- The transaction after one more transmission.
abbrev again : ℕ → ClientTransaction → ClientTransaction
again d c = record c {
  transmit_count = c.transmit_count + 1;
  duration_timer_a = d;
  timer_a = some d;
}
