-- ===== src/SipProxyController/Core/Choice.antt =====
-- `bestResponseOrder` and `ProxyCore::forwardBestResponse` (src/sip-proxy-controller.cpp): which final
-- response goes upstream when no target is left.
use drachtio_server.Common.{
  ℕ, ◌≡◌, refl, sym, Bool, true, false, not, ◌&&◌, ◌||◌, Option, none, some, List, [], ◌∷◌, arith,
  ◌==◌, ◌≤◌, leb, le→leb, lt→leb-false, if◌then◌else◌, codes,
}
use drachtio_server.SipProxyController.{completed, is_state, ClientTransaction, api_response}
use drachtio_server.SipProxyController.Server.{generate_response}
use drachtio_server.SipProxyController.Core.{Setting, ProxyCore, emit, core_forward_response}

-- The cases of the switches: 401, 407, 415, 420 and 484.
unfoldable pub is_preferred : ℕ → Bool
is_preferred status =
    status == 401 || (status == 407 || (status == 415 || (status == 420 || status == 484)))

abbrev pub in_class : ℕ → ℕ → ℕ → Bool
in_class low high status = leb low status && leb status high

-- For two clients that have completed, by the order of RFC 3261, 16.7.6.
unfoldable pub best_status : ℕ → ℕ → Bool
best_status a b =
    if leb 600 a
    then true
    else if leb 600 b
    then false
    else if is_preferred a
    then true
    else if is_preferred b
    then false
    else if in_class 400 499 a
    then true
    else if in_class 400 499 b
    then false
    else if in_class 500 599 a
    then true
    else if in_class 500 599 b
    then false
    else true

unfoldable pub best_response_order : ClientTransaction → ClientTransaction → Bool
unfolding best_status
best_response_order c d =
    if is_state completed c.state && not (is_state completed d.state)
    then true
    else if not (is_state completed c.state) && is_state completed d.state
    then false
    else if is_state completed c.state && is_state completed d.state
    then best_status c.sip_status d.sip_status
    else true

abbrev pub send_done : Setting → ProxyCore → ProxyCore
send_done s core = if s.full_response then emit (api_response (codes "done") ∷ []) core else core

abbrev pub send_408 : ProxyCore → ProxyCore
send_408 core = emit (generate_response 408 core.server) core

abbrev pub send_first : Setting → ProxyCore → List ClientTransaction → Option ProxyCore
send_first s core [] = some (send_408 core)
send_first s core (c ∷ clients) =
    if not (is_state completed c.state) || c.sip_status == 0
    then some (send_408 core)
    else elim c.final_response [ none ↦ none | some r ↦ some (core_forward_response s r core) ]

abbrev pub forward_sorted : Setting → ProxyCore → Option (List ClientTransaction) → Option ProxyCore
forward_sorted s core none = none
forward_sorted s core (some clients) =
    elim (send_first s (record core { searching = false; clients = clients }) clients) [
      | none ↦ none
      | some core' ↦ some (send_done s core')
    ]

-- There is no result where the sort is undefined behaviour, as it may be for two clients or more: the
-- comparison is no strict weak order.
unfoldable pub forward_best_response : Setting → ProxyCore → Option ProxyCore
unfolding core_forward_response
forward_best_response s core = forward_sorted s core (s.sort best_response_order core.clients)

-- The preference of a response: 6xx, then those that ask for something that the caller can give, then
-- 4xx, 5xx and the others.
unfoldable pub status_preference : ℕ → ℕ
status_preference status =
    if leb 600 status
    then 0
    else if is_preferred status
    then 1
    else if in_class 400 499 status
    then 2
    else if in_class 500 599 status
    then 3
    else 4

-- Last come the clients that have not completed.
unfoldable pub preference : ClientTransaction → ℕ
preference c = if is_state completed c.state then status_preference c.sip_status else 5

best_status-preference :
    (a b : ℕ) → best_status a b ≡ leb (status_preference a) (status_preference b)
unfolding best_status status_preference
best_status-preference a b = ground arith

status_preference-le : (a : ℕ) → status_preference a ≤ 4
unfolding status_preference
status_preference-le a = ground arith

order-preference :
    (p q : Bool) (a b : ℕ)
    → (if p && not q
        then true
        else if not p && q
        then false
        else if p && q
        then best_status a b
        else true)
      ≡ leb (if p then status_preference a else 5) (if q then status_preference b else 5)
order-preference true true a b = best_status-preference a b
order-preference true false a b =
    sym (le→leb (status_preference a) 5 (omega (arith, status_preference-le a)))
order-preference false true a b =
    sym (lt→leb-false 5 (status_preference b) (omega (arith, status_preference-le b)))
order-preference false false a b = refl

-- The comparison that sorts the clients is "at most" on the preference of their responses, so that it
-- also holds of a client and itself.
pub best_response_order-preference :
    (c d : ClientTransaction) → best_response_order c d ≡ leb (preference c) (preference d)
unfolding best_response_order preference
best_response_order-preference c d =
    order-preference (is_state completed c.state) (is_state completed d.state) c.sip_status
      d.sip_status
