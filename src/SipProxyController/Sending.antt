-- ===== src/SipProxyController/Sending.antt =====
-- `forwardRequest`, `retransmitRequest` and `forwardPrack` of `ProxyCore::ClientTransaction`
-- (src/sip-proxy-controller.cpp): what a transaction sends.
pub mod Retransmissions
use drachtio_server.Common.{
  ℕ, zero, suc, ◌+◌, ◌*◌, ◌%◌, ◌^◌, ◌≡◌, Bool, true, false, not, ◌&&◌, ◌||◌, Option, none, some,
  or_else, List, [], ◌∷◌, ◌++◌, ◌==◌, if◌then◌else◌, is_empty, is_some, Text, text_eq, codes,
  has_substring, ◌>>=◌,
}
use drachtio_server.Drachtio.Messages.{SipMethod, method_prack}
use drachtio_server.SipProxyController.{
  not_started, trying, calling, terminated, is_state, is_method, ClientTransaction, is_invite,
  Effect, request_sent, prack_sent, cdr_written,
}
use drachtio_server.SipProxyController.Transaction.{Times, set_state}

-- The request as it came in: its method, its uri as `url_e` prints it and whether that is of the schemes
-- sip or sips.
pub record Request : Type 0 where
  pub method : SipMethod
  pub uri : Text
  pub is_sip_uri : Bool

-- What sending asks of other parts: the outbound proxy of the configuration, whether a uri is one of this
-- server's, the transports by which a target is reached over a protocol, and whether the stack takes a
-- message with a branch for a route.
pub record Network : Type 0 where
  pub outbound_proxy : Option Text
  pub is_local_uri : Text → Bool
  pub find_transport : Text → Option Text → Bool
  pub sends : Text → Text → Bool

-- The request uri is replaced where it is one of this server's.
abbrev pub request_uri : Network → Request → Text → Text
request_uri n q target = if q.is_sip_uri && n.is_local_uri q.uri then target else q.uri

-- The second attempt is over tcp, where the target names no transport.
abbrev pub has_transport : Network → Text → Bool
has_transport n target =
    n.find_transport target none
    || (not (has_substring (codes "transport=") target)
        && n.find_transport target (some (codes "tcp")))

-- The value returned, the transaction, and what was sent.
abbrev pub Sent : Type 0
Sent = Bool × ClientTransaction × List Effect

module _ (times : Times) (provisional_timeout : ℕ) (n : Network) (q : Request) where
  -- A first transmission has a branch of its own, `branch`; `none` is a failed assertion.
  unfoldable pub start_sending : Text → ClientTransaction → Option ClientTransaction
  unfolding set_state
  start_sending branch c =
      if not (is_state not_started c.state)
      then some (record c { transmit_count = c.transmit_count + 1 })
      else if not (c.transmit_count == 0)
      then none
      else let c' = record c { transmit_count = 1; branch = branch; method = q.method } in
        set_state times provisional_timeout (if is_invite c' then calling else trying) c'

  abbrev pub attempt_cdr : ClientTransaction → List Effect
  attempt_cdr c = if c.transmit_count == 1 && is_invite c then cdr_written 0 ∷ [] else []

  abbrev pub sent_on : Text → Option ClientTransaction → Option Sent
  sent_on route none = none
  sent_on route (some c) = some (true, record c { sip_status = 503 }, [])

  -- With the route chosen.
  unfoldable pub transmit : Text → ClientTransaction → Option Sent
  unfolding set_state
  transmit route c =
      if not (has_transport n c.target)
      then some (false, c, [])
      else if n.sends route c.branch
      then some (true, c, request_sent route c.branch (request_uri n q c.target) ∷ attempt_cdr c)
      else sent_on route (set_state times provisional_timeout terminated c)

  -- `none` is also the exception for an outbound proxy without a target.
  abbrev pub route_and_transmit : ClientTransaction → Option Sent
  route_and_transmit c = elim n.outbound_proxy [
    | none ↦ transmit c.target c
    | some proxy ↦ if is_empty c.target then none else transmit proxy c
  ]

  unfoldable pub forward_request : Text → ClientTransaction → Option Sent
  unfolding start_sending transmit
  forward_request branch c = start_sending branch c >>= route_and_transmit

  -- The retransmission timer is set again, for the time doubled as a 32-bit int.
  abbrev pub set_again : Sent → Sent
  set_again (false, c, effects) = (false, c, effects)
  set_again (true, c, effects) =
      if is_invite c
      then (true, record c { timer_a = some c.duration_timer_a }, effects)
      else (true, record c { timer_e = some c.duration_timer_a }, effects)

  unfoldable pub retransmit_request : ClientTransaction → Option Sent
  unfolding forward_request
  retransmit_request c =
      forward_request [] (record c { duration_timer_a = c.duration_timer_a * 2 % 2 ^ 32 })
      >>= λ sent. some (set_again sent)

-- `rack` tells whether the request has a RAck header; `branch` is new.
unfoldable pub forward_prack :
    Network → Bool → SipMethod → Text → Text → ClientTransaction → Option Sent
forward_prack n rack method route branch c =
    if not (rack && (is_method method_prack method && not (c.rseq == 0)))
    then none
    else if n.sends route branch
    then some (true, record c { branch_prack = branch }, prack_sent branch c.rseq ∷ [])
    else some (false, record c { branch_prack = branch }, [])
