-- ===== src/SipProxyController/Core.antt =====
-- `ProxyCore` of src/sip-proxy-controller.cpp: the client transactions of a request together. `none` is a
-- failed assertion or an exception, as in the transactions.
pub mod Choice
pub mod Search
pub mod Timers
pub mod Success
use drachtio_server.Common.{
  ℕ, suc, ◌+◌, ◌≡◌, Bool, true, false, not, ◌&&◌, ◌||◌, Option, none, some, List, [], ◌∷◌, ◌++◌,
  ◌==◌, ltb, leb, if◌then◌else◌, is_empty, is_some, keep_if, Text, text_eq, codes, ◌>>=◌,
}
use drachtio_server.Drachtio.Messages.{SipMethod}
use drachtio_server.SipProxyController.{
  State, not_started, calling, proceeding, completed, terminated, is_state, Response,
  ClientTransaction, new_transaction, Effect, api_response,
}
use drachtio_server.SipProxyController.Transaction.{Times, cancel_request}
use drachtio_server.SipProxyController.Responses.{
  Action, act, cancel_others, add_targets, report, forward, Verdict, not_mine, taken, is_success,
}
use drachtio_server.SipProxyController.Sending.{Request, Network, Sent}
use drachtio_server.SipProxyController.Server.{
  ServerTransaction, get_replaced_rseq, forward_response, generate_response,
}

-- What stays the same while a request is proxied: the timers, the network, the request, the options of
-- the application, and what other code answers: whether the stack takes a CANCEL and a response, a random
-- number, the n-th branch that is made, whether a request is to be sent again with credentials, how
-- `std::sort` orders by a comparison (none where that is undefined behaviour), and what a member that is not initialised holds.
pub record Setting : Type 0 where
  pub times : Times
  pub network : Network
  pub request : Request
  pub full_response : Bool
  pub follow_redirects : Bool
  pub is_serial : Bool
  pub provisional_timeout : ℕ
  pub sends_cancel : Text → Bool
  pub sends_response : Response → Bool
  pub random : ℕ
  pub new_branch : ℕ → Text
  pub add_challenge : Response → Text → Bool
  pub sort :
      (ClientTransaction → ClientTransaction → Bool)
      → List ClientTransaction
      → Option (List ClientTransaction)
  pub memory : ℕ

-- `drawn` counts the branches made, `removed` is set when the core is taken out of the controller, and
-- `sent` is what has been done to the outside, in order.
pub record ProxyCore : Type 0 where
  pub clients : List ClientTransaction
  pub server : ServerTransaction
  pub searching : Bool
  pub canceled : Bool
  pub removed : Bool
  pub drawn : ℕ
  pub sent : List Effect

abbrev pub is_calling_or_proceeding : ClientTransaction → Bool
is_calling_or_proceeding c = is_state calling c.state || is_state proceeding c.state

abbrev pub emit : List Effect → ProxyCore → ProxyCore
emit effects core = record core { sent = core.sent ++ effects }

abbrev pub find_client :
    (ClientTransaction → Bool) → List ClientTransaction → Option ClientTransaction
find_client p [] = none
find_client p (c ∷ clients) = if p c then some c else find_client p clients

unfoldable pub exhausted_all_targets : ProxyCore → Bool
exhausted_all_targets core = not (is_some (find_client is_calling_or_proceeding core.clients))

unfoldable pub all_clients_are_terminated : List ClientTransaction → Bool
all_clients_are_terminated [] = true
all_clients_are_terminated (c ∷ clients) =
    (is_state completed c.state || is_state terminated c.state)
    && all_clients_are_terminated clients

abbrev pub stays : Bool → ClientTransaction → Bool
stays also_not_started c =
    not (is_state terminated c.state || (also_not_started && is_state not_started c.state))

-- The core is taken out of the controller when no client is left.
unfoldable pub remove_terminated : Bool → ProxyCore → ProxyCore
remove_terminated also_not_started core =
    let clients = keep_if (stays also_not_started) core.clients in
    record core { clients = clients; removed = core.removed || is_empty clients }

-- New client transactions for the targets of a redirect, each with a branch of its own.
abbrev pub new_clients : Setting → ℕ → List Text → List ClientTransaction
new_clients s drawn [] = []
new_clients s drawn (target ∷ targets) =
    new_transaction target (s.new_branch drawn) s.memory s.memory
    ∷ new_clients s (suc drawn) targets

abbrev pub count : List Text → ℕ
count [] = 0
count (t ∷ targets) = suc (count targets)

unfoldable pub initialize_transactions : Setting → List Text → ServerTransaction → ℕ → ProxyCore
initialize_transactions s targets server drawn = record {
  clients = new_clients s drawn targets;
  server = server;
  searching = true;
  canceled = false;
  removed = false;
  drawn = drawn + count targets;
  sent = [];
}

-- They go after the first client with the target, which must be there.
unfoldable pub insert_after :
    Text → List ClientTransaction → List ClientTransaction → Option (List ClientTransaction)
insert_after target fresh [] = none
insert_after target fresh (c ∷ clients) =
    let rest = insert_after target fresh clients in
    if text_eq target c.target
    then some (c ∷ fresh ++ clients)
    else rest >>= λ clients'. some (c ∷ clients')

unfoldable pub add_client_transactions : Setting → List Text → Text → ProxyCore → Option ProxyCore
unfolding insert_after
add_client_transactions s targets target core =
    insert_after target (new_clients s core.drawn targets) core.clients >>= λ clients.
    some (record core { clients = clients; drawn = core.drawn + count targets })

-- Each client is asked to cancel.
unfoldable pub cancel_all :
    Setting → List ClientTransaction → Option (List ClientTransaction × List Effect)
cancel_all s [] = some ([], [])
cancel_all s (c ∷ clients) =
    cancel_request s.times s.provisional_timeout (s.sends_cancel c.target) c >>= λ (c', effects).
    cancel_all s clients >>= λ (clients', more). some (c' ∷ clients', effects ++ more)

unfoldable pub cancel_outstanding_requests : Setting → ProxyCore → Option ProxyCore
unfolding cancel_all
cancel_outstanding_requests s core = cancel_all s core.clients >>= λ (clients, effects).
    some (emit effects (record core { searching = false; clients = clients }))

unfoldable pub notify_forwarded_200ok : Setting → ProxyCore → Option ProxyCore
unfolding cancel_outstanding_requests remove_terminated
notify_forwarded_200ok s core =
    cancel_outstanding_requests s (record core { searching = false }) >>= λ core'.
    some (remove_terminated true core')

abbrev pub respond_upstream : Bool × ServerTransaction × List Effect → ProxyCore → ProxyCore
respond_upstream (ok, server, effects) core = emit effects (record core { server = server })

unfoldable pub core_forward_response : Setting → Response → ProxyCore → ProxyCore
core_forward_response s r core =
    respond_upstream (forward_response (s.sends_response r) s.random core.server r) core

-- The answers to an application that wants all final responses.
unfoldable pub report_final : Setting → ℕ → ProxyCore → ProxyCore
unfolding exhausted_all_targets
report_final s status core =
    if s.full_response
    then emit
        (api_response (codes "continue")
          ∷ (if is_success status || (core.canceled && exhausted_all_targets core)
              then api_response (codes "done") ∷ []
              else []))
        core
    else core

-- What a client transaction asks of the core.
unfoldable pub perform : Setting → Text → Action → ProxyCore → Option ProxyCore
unfolding notify_forwarded_200ok add_client_transactions report_final core_forward_response
perform s target (act e) core = some (emit (e ∷ []) core)
perform s target cancel_others core = notify_forwarded_200ok s core
perform s target (add_targets targets) core = add_client_transactions s targets target core
perform s target (report status) core = some (report_final s status core)
perform s target (forward r) core = some (core_forward_response s r core)

unfoldable pub perform_all : Setting → Text → List Action → ProxyCore → Option ProxyCore
perform_all s target [] core = some core
perform_all s target (a ∷ actions) core = perform s target a core >>= perform_all s target actions
