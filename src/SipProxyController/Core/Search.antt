-- ===== src/SipProxyController/Core/Search.antt =====
-- `startRequests`, `processResponse`, `forwardPrack` and `forwardRequest` of `ProxyCore`
-- (src/sip-proxy-controller.cpp): targets are tried, and messages go to the clients that they concern.
use drachtio_server.Common.{
  ℕ, suc, Bool, true, false, not, ◌&&◌, ◌||◌, Option, none, some, List, [], ◌∷◌, ◌++◌, ◌==◌, ltb,
  if◌then◌else◌, Text, ◌>>=◌,
}
use drachtio_server.Drachtio.Messages.{SipMethod}
use drachtio_server.SipProxyController.{not_started, is_state, Response, ClientTransaction, Effect}
use drachtio_server.SipProxyController.Responses
use drachtio_server.SipProxyController.Responses.{Verdict, not_mine, taken}
use drachtio_server.SipProxyController.Sending
use drachtio_server.SipProxyController.Sending.{Request, Sent}
use drachtio_server.SipProxyController.Server.{get_replaced_rseq}
use drachtio_server.SipProxyController.Core.{
  Setting, ProxyCore, is_calling_or_proceeding, emit, exhausted_all_targets, remove_terminated,
  perform_all,
}
use drachtio_server.SipProxyController.Core.Choice.{forward_best_response}

-- What a round over the targets leaves: the clients, what was sent, how many were started, and how many
-- branches have been made.
pub record Started : Type 0 where
  pub clients : List ClientTransaction
  pub effects : List Effect
  pub count : ℕ
  pub drawn : ℕ

abbrev pub passed : ClientTransaction → Started → Started
passed c t = record t { clients = c ∷ t.clients }

-- A client was tried; `t` is what became of the others.
abbrev pub tried : Bool → ClientTransaction → List Effect → Started → Started
tried sent c effects t = record t {
  clients = c ∷ t.clients;
  effects = effects ++ t.effects;
  count = if sent then suc t.count else t.count;
}

abbrev pub untouched : ℕ → List ClientTransaction → Started
untouched drawn clients = record { clients = clients; effects = []; count = 0; drawn = drawn }

abbrev pub is_challenge : Response → Bool
is_challenge r = (r.status == 401 || r.status == 407) && r.has_challenge

abbrev pub target_of : Option Text → Text
target_of none = []
target_of (some target) = target

abbrev pub was_handled : Option Text → Bool
was_handled none = false
was_handled (some target) = true

module _ (s : Setting) where
  unfoldable pub start_clients : ℕ → List ClientTransaction → Option Started
  start_clients drawn [] = some (untouched drawn [])
  start_clients drawn (c ∷ clients) =
      let rest = start_clients drawn clients in
      let others = start_clients (suc drawn) clients in
      if is_state not_started c.state
      then (Sending.forward_request s.times s.provisional_timeout s.network s.request
            (s.new_branch drawn) c
          >>= λ (sent, c', effects).
              if sent && s.is_serial
              then some (tried sent c' effects (untouched (suc drawn) clients))
              else others >>= λ t. some (tried sent c' effects t))
      else rest >>= λ t. some (passed c t)

  -- The number of clients started, and the core.
  unfoldable pub start_requests : ProxyCore → Option (ℕ × ProxyCore)
  unfolding start_clients
  start_requests core =
      if not core.searching
      then some (0, core)
      else start_clients core.drawn core.clients >>= λ t.
          some (t.count, emit t.effects (record core { clients = t.clients; drawn = t.drawn }))

  abbrev pub start_more : ProxyCore → Option ProxyCore
  start_more core = start_requests core >>= λ (count, core'). some core'

  -- if( m_searching && exhaustedAllTargets() ) forwardBestResponse() ;
  unfoldable pub conclude : ProxyCore → Option ProxyCore
  unfolding exhausted_all_targets forward_best_response
  conclude core =
      if core.searching && exhausted_all_targets core
      then forward_best_response s core
      else some core

  -- The response is offered to the clients in turn; `before` are those that did not take it. The target
  -- of the client that took it is returned.
  unfoldable pub offer :
      Response
      → List ClientTransaction
      → List ClientTransaction
      → ProxyCore
      → Option (Option Text × ProxyCore)
  offer r before [] core = some (none, core)
  offer r before (c ∷ clients) core =
      let rest = offer r (before ++ c ∷ []) clients core in
      Responses.process_response s.times s.provisional_timeout s.follow_redirects
        (s.sends_cancel c.target) r c
      >>= λ verdict. elim verdict [
        | not_mine ↦ rest
        | taken c' actions ↦
            perform_all s c.target actions (record core { clients = before ++ c' ∷ clients })
            >>= λ core'. some (some c.target, core')
      ]

  -- After the response: a challenge that the application answers ends the search; else more targets are
  -- tried, and the best response is sent when none is left.
  unfoldable pub after_response : Response → Option Text → ProxyCore → Option ProxyCore
  unfolding remove_terminated forward_best_response start_requests conclude
  after_response r target core =
      if is_challenge r && s.add_challenge r (target_of target)
      then forward_best_response s (remove_terminated true core)
      else let core' = remove_terminated false core in
        (if ltb 200 r.status then start_more core' else some core') >>= conclude

  unfoldable pub process_response : Response → ProxyCore → Option (Bool × ProxyCore)
  unfolding offer after_response
  process_response r core = offer r [] core.clients core >>= λ (target, core').
      after_response r target core' >>= λ core''. some (was_handled target, core'')

-- The first client that passes a test is given a message.
unfoldable pub forward_first :
    (ClientTransaction → Bool)
    → (ClientTransaction → Option Sent)
    → List ClientTransaction
    → Option (Bool × List ClientTransaction × List Effect)
forward_first p f [] = some (false, [], [])
forward_first p f (c ∷ clients) =
    let rest = forward_first p f clients in
    if p c
    then (f c >>= λ (sent, c', effects). some (true, c' ∷ clients, effects))
    else rest >>= λ (found, clients', effects). some (found, c ∷ clients', effects)

abbrev pub with_clients :
    ProxyCore → Option (Bool × List ClientTransaction × List Effect) → Option (Bool × ProxyCore)
with_clients core none = none
with_clients core (some (found, clients, effects)) =
    some (found, emit effects (record core { clients = clients }))

-- A PRACK goes to the first client whose last reliable response has the number that was replaced. `rack`
-- is the number in its RAck header.
unfoldable pub forward_prack :
    Setting → ℕ → SipMethod → Text → Text → ProxyCore → Option (Bool × ProxyCore)
unfolding forward_first
forward_prack s rack method route branch core =
    let rseq = get_replaced_rseq core.server rack in
    with_clients core (
      forward_first (λ c. rseq == c.rseq) (Sending.forward_prack s.network true method route branch)
        core.clients)

-- A request within the transaction goes to the first client that awaits a response.
unfoldable pub forward_request : Setting → Request → ProxyCore → Option (Bool × ProxyCore)
unfolding forward_first
forward_request s q core = with_clients core (
    forward_first is_calling_or_proceeding
      (Sending.forward_request s.times s.provisional_timeout s.network q []) core.clients)
