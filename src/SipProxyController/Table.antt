-- ===== src/SipProxyController/Table.antt =====
-- `SipProxyController` of src/sip-proxy-controller.cpp: the proxied requests by the identifier of their
-- transaction, and the challenges that wait for credentials. `none` is a failed assertion in a core.
pub mod Cancel
use drachtio_server.Common.{
  ℕ, zero, suc, ◌+◌, ◌-◌, ◌*◌, ◌%◌, ◌^◌, Bool, true, false, not, ◌&&◌, ◌||◌, Option, none, some,
  List, [], ◌∷◌, ◌++◌, ◌==◌, if◌then◌else◌, is_empty, is_some, length, ltb, keep_if, Text, text_eq,
  codes, has_substring, ◌>>=◌,
}
use drachtio_server.Common.Dict
use drachtio_server.Common.Dict.{Dict}
use drachtio_server.Drachtio.Messages.{
  SipMethod, method_invite, method_ack, method_prack, method_cancel, method_bye, method_info,
}
use drachtio_server.SipTransport.{read_digits}
use drachtio_server.SipTransport.Texts.{digits}
use drachtio_server.SipProxyController.{
  is_method, Response, Effect, api_response, response_generated, response_forwarded, discarded,
  cdr_written, request_sent,
}
use drachtio_server.SipProxyController.Sending.{Request}
use drachtio_server.SipProxyController.Server.{
  ServerTransaction, is_retransmission, generate_response,
}
use drachtio_server.SipProxyController.Core.{
  Setting, ProxyCore, emit, initialize_transactions, cancel_outstanding_requests,
}
use drachtio_server.SipProxyController.Core.Search
use drachtio_server.SipProxyController.Core.Search.{start_requests}

-- What is read of a message: its method and the name of that in CSeq, whether it is a request, its
-- Call-ID, its CSeq number as printed, the branches of its first and its second Via, the realm and the
-- nonce of a challenge or of credentials, its Max-Forwards, and what it is as a response or a request.
pub record Message : Type 0 where
  pub method : SipMethod
  pub method_name : Text
  pub is_request : Bool
  pub call_id : Text
  pub cseq : Text
  pub branch : Option Text
  pub next_branch : Option Text
  pub credentials : Option (Text × Text)
  pub max_forwards : Option ℕ
  pub response : Response
  pub request : Request

-- A proxied request: its core, and what stays the same for it.
pub record Proxy : Type 0 where
  pub core : ProxyCore
  pub setting : Setting

pub record Challenge : Type 0 where
  pub realm : Text
  pub remote_address : Text
  pub handle : ℕ

-- `timers` are the timers of the challenges: a handle, and the nonce.
pub record Controller : Type 0 where
  pub proxies : Dict Proxy
  pub challenges : Dict Challenge
  pub timers : List (ℕ × Text)

abbrev pub branch_text : Option Text → Text
branch_text none = []
branch_text (some branch) = codes "|" ++ branch

-- For a response the branch is that of the second Via, which was the first of the request.
unfoldable pub make_unique_id : Message → Text
make_unique_id m =
    m.call_id
    ++ codes "|"
    ++ (if m.is_request && is_method method_cancel m.method then codes "INVITE" else m.method_name)
    ++ codes "|"
    ++ m.cseq
    ++ branch_text (if m.is_request then m.branch else m.next_branch)

abbrev pub get_proxy : Message → Controller → Option Proxy
get_proxy m c = Dict.find (make_unique_id m) c.proxies

-- Any proxy whose identifier has the Call-ID in it.
abbrev pub search_call_id : Text → Dict Proxy → Option (Text × Proxy)
search_call_id call_id [] = none
search_call_id call_id ((id, p) ∷ proxies) =
    if has_substring call_id id then some (id, p) else search_call_id call_id proxies

unfoldable pub get_proxy_by_call_id : Message → Controller → Option (Text × Proxy)
get_proxy_by_call_id m c = search_call_id m.call_id c.proxies

unfoldable pub is_proxying_request : Message → Controller → Bool
unfolding make_unique_id
is_proxying_request m c = is_some (get_proxy m c)

unfoldable pub remove_proxy : Text → Controller → Controller
remove_proxy id c = record c { proxies = Dict.erase id c.proxies }

-- A core that has no client left has taken itself out of the table; what it has sent is passed on.
unfoldable pub keep_core : Text → Proxy → ProxyCore → Controller → Controller × List Effect
unfolding remove_proxy
keep_core id p core c = (
  if core.removed then remove_proxy id c else record c {
    proxies = Dict.assign id (record p { core = record core { sent = [] } }) c.proxies;
  },
  core.sent,
)

-- ^(\d+)(ms|s)$; another text leaves the timeout as it was.
unfoldable pub set_provisional_timeout : Text → ℕ → ℕ
set_provisional_timeout t old =
    let (number, unit) = digits t in
    if is_empty number
    then old
    else if text_eq unit (codes "ms")
    then read_digits 0 number
    else if text_eq unit (codes "s")
    then read_digits 0 number * 1000 % 2 ^ 32
    else old

-- What the application asked for, as the stack's thread gets it.
pub record ProxyData : Type 0 where
  pub client_msg_id : Text
  pub transaction_id : Text
  pub provisional_timeout : Text
  pub destinations : List Text

-- The rows up to the first empty one.
abbrev pub get_destinations : List Text → List Text
get_destinations [] = []
get_destinations (d ∷ rows) =
    let rest = get_destinations rows in if is_empty d then [] else d ∷ rest

-- The core of a new proxied request.
unfoldable pub new_proxy : Setting → ProxyData → List Text → Message → Proxy
unfolding initialize_transactions set_provisional_timeout
new_proxy s d destinations m = record {
  core =
      initialize_transactions s destinations
        (record { method = m.method; canceled = false; sip_status = 0; rseq = 0; replaced = [] }) 0;
  setting = record s {
    request = m.request;
    provisional_timeout = set_provisional_timeout d.provisional_timeout 0;
  };
}

abbrev pub store_challenge : Text → Text → Text → ℕ → Controller → Controller
store_challenge realm nonce target handle c = record c {
  challenges =
      Dict.insert nonce (record { realm = realm; remote_address = target; handle = handle })
        c.challenges;
  timers = (handle, nonce) ∷ c.timers;
}

-- `handle` is that of the new timer.
unfoldable pub add_challenge : ℕ → Message → Text → Controller → Bool × Controller
add_challenge handle m target c = elim m.credentials [
  | none ↦ (false, c)
  | some (realm, nonce) ↦ (true, store_challenge realm nonce target handle c)
]

abbrev pub answer : Text → Text → Option Challenge → Controller → Option Text × Controller
answer realm nonce none c = (none, c)
answer realm nonce (some challenge) c =
    if text_eq challenge.realm realm
    then (
      some challenge.remote_address,
      record c {
        challenges = Dict.erase nonce c.challenges;
        timers = keep_if (λ t. not (t.0 == challenge.handle)) c.timers;
      },
    )
    else (none, c)

-- The target that sent the challenge, if the request answers one.
unfoldable pub is_response_to_challenge : Message → Controller → Option Text × Controller
is_response_to_challenge m c = elim m.credentials [
  | none ↦ (none, c)
  | some (realm, nonce) ↦ answer realm nonce (Dict.find nonce c.challenges) c
]

unfoldable pub timeout_challenge : Text → Controller → Controller
timeout_challenge nonce c = record c { challenges = Dict.erase nonce c.challenges }

-- An answer to the application and a response to the request, which is not proxied.
abbrev pub reject : Text → ℕ → Text → Controller → Controller × List Effect
reject id status text c =
    (remove_proxy id c, api_response text ∷ response_generated status ∷ cdr_written status ∷ [])

-- An entry that is there stays.
abbrev pub store_new : Text → Proxy → ProxyCore → Controller → Controller × List Effect
store_new id p core c =
    if is_some (Dict.find id c.proxies) then (c, core.sent) else keep_core id p core c

abbrev pub started : Text → Proxy → Controller → ℕ × ProxyCore → Controller × List Effect
started id p c (zero, core) =
    let (c', effects) = reject id 500 (codes "error proxying request to ") c in
    (c', core.sent ++ effects)
started id p c (suc n, core) =
    let (c', effects) = store_new id p core c in
    (c', effects ++ (if p.setting.full_response then [] else api_response (codes "done") ∷ []))

abbrev pub start_proxy : Text → Proxy → Controller → Option (Controller × List Effect)
start_proxy id p c = start_requests p.setting p.core >>= λ result. some (started id p c result)

abbrev pub no_hops_left : Message → Bool
no_hops_left m = elim m.max_forwards [ none ↦ false | some n ↦ n == 0 ]

abbrev pub targets : Option Text → List Text → List Text
targets none destinations = destinations
targets (some target) destinations = target ∷ []

-- `pending` is the request that was held for the transaction, if there is one.
unfoldable pub do_proxy :
    Setting → ProxyData → Option Message → Controller → Option (Controller × List Effect)
unfolding make_unique_id new_proxy is_response_to_challenge
do_proxy s d none c =
    some (c, api_response (codes "Unknown transaction id: " ++ d.transaction_id) ∷ [])
do_proxy s d (some m) c =
    let (target, c') = is_response_to_challenge m c in
    let id = make_unique_id m in
    if no_hops_left m
    then some
        (reject id 483 (codes "Rejected with 483 Too Many Hops due to Max-Forwards value of 0") c')
    else start_proxy id (new_proxy s d (targets target (get_destinations d.destinations)) m) c'

-- A response that no client takes is sent upstream as it is.
abbrev pub pass_on : Message → Bool → List Effect
pass_on m handled =
    if handled then [] else response_forwarded m.response.status m.response.rseq ∷ []

abbrev pub respond_in : Message → Proxy → Controller → Option (Bool × Controller × List Effect)
respond_in m p c = Search.process_response p.setting m.response p.core >>= λ (handled, core).
    let (c', effects) = keep_core (make_unique_id m) p core c in
    some (true, c', effects ++ pass_on m handled)

-- Whether the response belongs to a proxied request. Responses to a PRACK do not get to a core.
unfoldable pub process_response : Message → Controller → Option (Bool × Controller × List Effect)
unfolding make_unique_id keep_core
process_response m c =
    if is_method method_prack m.method
    then some (true, c, pass_on m false)
    else elim (get_proxy m c) [ none ↦ some (false, c, []) | some p ↦ respond_in m p c ]

-- 200 to the CANCEL, 487 to the INVITE, and the clients are cancelled.
unfoldable pub cancel_core : Setting → ProxyCore → Option ProxyCore
unfolding cancel_outstanding_requests
cancel_core s core = cancel_outstanding_requests s (
    emit (response_generated 200 ∷ generate_response 487 core.server)
      (record core { canceled = true; server = record core.server { canceled = true } }))

abbrev pub in_core :
    Text → Proxy → Controller → Option ProxyCore → Option (Bool × Controller × List Effect)
in_core id p c none = none
in_core id p c (some core) = let (c', effects) = keep_core id p core c in some (true, c', effects)

abbrev pub drop_request : Bool → Controller → Option (Bool × Controller × List Effect)
drop_request handled c = some (handled, c, discarded 0 ∷ [])

abbrev pub request_in : Message → Proxy → Controller → Option (Bool × Controller × List Effect)
request_in m p c =
    if is_method method_ack m.method
    then drop_request true c
    else if is_retransmission p.core.server m.method
    then drop_request false c
    else if is_method method_cancel m.method
    then in_core (make_unique_id m) p c (cancel_core p.setting p.core)
    else if is_method method_info m.method
    then in_core (make_unique_id m) p c
        (Search.forward_request p.setting m.request p.core >>= λ (found, core). some core)
    else some (true, c, [])

unfoldable pub process_request_without_route_header :
    Message → Controller → Option (Bool × Controller × List Effect)
unfolding make_unique_id keep_core cancel_core
process_request_without_route_header m c = elim (get_proxy m c) [
  | none ↦ drop_request false c
  | some p ↦ request_in m p c
]

abbrev pub prack_in :
    Message → ℕ → Text → Text → Controller → Text × Proxy → Option (Bool × Controller × List Effect)
prack_in m rack route branch c (id, p) = in_core id p c (
    Search.forward_prack p.setting rack m.method route branch p.core >>= λ (found, core). some core)

-- A PRACK has a number `rack`, and is sent on for a route with a new branch. Another request is sent
-- where there is a transport for its next hop, and the stack takes it.
unfoldable pub process_request_with_route_header :
    Message
    → (rack : ℕ) → (route branch : Text) → (has_transport sends : Bool) → Controller
    → Option (Bool × Controller × List Effect)
unfolding keep_core get_proxy_by_call_id
process_request_with_route_header m rack route branch has_transport sends c =
    let cdr = if is_method method_bye m.method then cdr_written 0 ∷ [] else [] in
    if is_method method_prack m.method
    then elim (get_proxy_by_call_id m c) [
      | none ↦ drop_request true c
      | some found ↦ prack_in m rack route branch c found
    ]
    else if not (has_transport && sends)
    then some (false, c, cdr)
    else some (true, c, cdr ++ request_sent route [] m.request.uri ∷ cdr)

unfoldable pub is_terminating_response : ℕ → Bool
is_terminating_response status = status == 200 || (status == 486 || status == 603)
