-- ===== src/SipProxyController/Tests.antt =====
-- Proxied requests on concrete values.
mod Proxied
use mathlib.Core.List.{Memᴰ}
use Prim.{tt}
use drachtio_server.Common.{
  ℕ, zero, suc, ◌%◌, ◌≤◌, ◌<◌, ◌≡◌, refl, sym, ap, ◌∙◌, Bool, true, false, not, ◌&&◌, ◌||◌, Option,
  none, some, List, [], ◌∷◌, ◌++◌, arith, ◌==◌, ltb, leb, if◌then◌else◌, Text, text_eq, codes,
  ◌>>=◌, is_some, Bool-cases, inl, inr,
}
use drachtio_server.Drachtio.Messages.{SipMethod, method_unknown, method_invite}
use drachtio_server.SipProxyController.{
  State, not_started, calling, proceeding, completed, terminated, is_state, Response,
  ClientTransaction, Effect, request_sent, cdr_written, cancel_sent, response_generated,
}
use drachtio_server.SipProxyController.Transaction.{
  Times, enter_invite, set_state, cancel_in, cancel_request,
}
use drachtio_server.SipProxyController.Responses
use drachtio_server.SipProxyController.Responses.Assertions.{
  SoundVerdict, process_response-IsSound, process_response-canceled,
}
use drachtio_server.SipProxyController.Sending
use drachtio_server.SipProxyController.Sending.{Request, Network}
use drachtio_server.SipProxyController.Server.{
  ServerTransaction, number_response, get_replaced_rseq, generate_response,
}
use drachtio_server.SipProxyController.Server.Numbering.{AreUpTo, number_response-get_replaced_rseq}
use drachtio_server.SipProxyController.Core.{
  remove_terminated, exhausted_all_targets, Setting, ProxyCore, emit, core_forward_response,
}
use drachtio_server.SipProxyController.Core.Choice.{
  best_response_order, preference, send_done, forward_best_response, best_response_order-preference,
}
use drachtio_server.SipProxyController.Core.Search.{conclude, start_clients, start_requests}
use drachtio_server.SipProxyController.Core.Timers.{timer_b, timer_c}
use drachtio_server.SipProxyController.Core.Timers.Untried.{timer_b_untried}

abbrev pub times : Times
times = record { t1 = 500; t4 = 4000 }

abbrev fresh : ClientTransaction
fresh = record {
  target = codes "sip:a";
  branch = codes "z9a";
  branch_prack = [];
  method = method_unknown;
  state = not_started;
  sip_status = 0;
  canceled = false;
  transmit_count = 0;
  duration_timer_a = 0;
  rseq = 0;
  final_response = none;
  timer_a = none;
  timer_b = none;
  timer_c = none;
  timer_d = none;
  timer_provisional = none;
  timer_e = none;
  timer_f = none;
  timer_k = none;
}

abbrev pub calling_one : ClientTransaction
calling_one = record fresh {
  method = method_invite;
  state = calling;
  transmit_count = 1;
  duration_timer_a = 500;
  timer_a = some 500;
  timer_b = some 32000;
  timer_c = some 185000;
}

abbrev pub proceeding_one : ClientTransaction
proceeding_one = record calling_one {
  state = proceeding;
  sip_status = 180;
  timer_a = none;
  timer_b = none;
}

abbrev pub ringing : Response
ringing = record {
  status = 180;
  method = method_invite;
  via_branch = codes "z9a";
  rseq = some 7;
  contacts = [];
  has_challenge = false;
}

abbrev refused : Response
refused = record ringing { status = 486; rseq = none }

abbrev refused_one : ClientTransaction
refused_one = record proceeding_one {
  state = completed;
  sip_status = 486;
  final_response = some refused;
  timer_c = none;
  timer_d = some 30000;
}

abbrev pub request : Request
request = record { method = method_invite; uri = codes "sip:b"; is_sip_uri = true }

abbrev network : Network
network = record {
  outbound_proxy = none;
  is_local_uri = λ uri. true;
  find_transport = λ target transport. true;
  sends = λ route branch. true;
}

-- Nothing is said of the order of two.
abbrev sort :
    (ClientTransaction → ClientTransaction → Bool)
    → List ClientTransaction
    → Option (List ClientTransaction)
sort le [] = some []
sort le (c ∷ []) = some (c ∷ [])
sort le (c ∷ d ∷ cs) = none

abbrev pub setting : Setting
setting = record {
  times = times;
  network = network;
  request = request;
  full_response = false;
  follow_redirects = false;
  is_serial = true;
  provisional_timeout = 0;
  sends_cancel = λ target. true;
  sends_response = λ r. true;
  random = 41;
  new_branch = λ n. n ∷ [];
  add_challenge = λ r target. false;
  sort = sort;
  memory = 0;
}

abbrev pub server : ServerTransaction
server = record {
  method = method_invite;
  canceled = false;
  sip_status = 0;
  rseq = 0;
  replaced = [];
}

abbrev pub core_of : List ClientTransaction → ProxyCore
core_of clients = record {
  clients = clients;
  server = server;
  searching = true;
  canceled = false;
  removed = false;
  drawn = 5;
  sent = [];
}

-- `fresh` when it has been sent, with the branch that was made for it.
abbrev started_one : ClientTransaction
started_one = record calling_one { branch = 5 ∷ [] }

abbrev started_effects : List Effect
started_effects = request_sent fresh.target (5 ∷ []) fresh.target ∷ cdr_written 0 ∷ []

-- Timer C ends the only client: the caller gets two final responses.
timer_c_twice :
    timer_c setting [] proceeding_one [] (core_of (proceeding_one ∷ []))
    ≡ some (record (core_of []) {
      searching = false;
      removed = true;
      sent =
          cancel_sent proceeding_one.target proceeding_one.branch
          ∷ response_generated 408
          ∷ cdr_written 408
          ∷ response_generated 408
          ∷ cdr_written 408
          ∷ [];
    })
unfolding timer_c set_state enter_invite cancel_request cancel_in remove_terminated conclude
    exhausted_all_targets forward_best_response generate_response
timer_c_twice = refl

-- The witnesses of the theorems.
process_response-IsSound_example :
    SoundVerdict (Responses.process_response times 0 false true ringing calling_one)
process_response-IsSound_example =
    process_response-IsSound times 0 false true ringing calling_one
      (record { invite = refl; live = refl; started = refl; armed = (refl, refl) }) refl

process_response-canceled_example :
    (c' : ClientTransaction) × (cancel_request times 0 true proceeding_one
      ≡ some (c', cancel_sent proceeding_one.target proceeding_one.branch ∷ []))
    × (Responses.process_response times 0 false true ringing c' ≡ none)
unfolding text_eq
process_response-canceled_example =
    process_response-canceled times 0 false true ringing proceeding_one refl refl refl refl
      (omega arith) (omega arith)

number_response-get_replaced_rseq_example :
    (s' : ServerTransaction) × (r' : Response) × (number_response 41 server ringing ≡ (s', r'))
    × (r'.rseq ≡ some s'.rseq)
    × (get_replaced_rseq s' s'.rseq ≡ 7)
    × ((k : ℕ) → k ≤ 0 → get_replaced_rseq s' k ≡ get_replaced_rseq server k)
    × AreUpTo s'.rseq s'.replaced
number_response-get_replaced_rseq_example =
    number_response-get_replaced_rseq 41 7 server ringing (λ k l. refl) refl (omega arith)
      (omega arith)

best_response_order-preference_example :
    best_response_order refused_one calling_one
    ≡ leb (preference refused_one) (preference calling_one)
best_response_order-preference_example = best_response_order-preference refused_one calling_one

start_serial :
    start_requests setting (core_of (calling_one ∷ fresh ∷ fresh ∷ []))
    ≡ some (
      1,
      emit started_effects
          (record (core_of []) { clients = calling_one ∷ started_one ∷ fresh ∷ []; drawn = 6 }),
    )
unfolding start_requests start_clients Sending.forward_request Sending.start_sending
    Sending.transmit set_state enter_invite
start_serial = refl

timer_b_untried_example :
    (core' : ProxyCore) × (timer_b setting [] calling_one
        (fresh ∷ [])
        (core_of (calling_one ∷ fresh ∷ []))
      ≡ some core')
    × (core'.sent ≡ generate_response 408 server)
    × (core'.clients ≡ fresh ∷ [])
    × (start_requests setting core' ≡ some (0, core'))
timer_b_untried_example =
    timer_b_untried setting calling_one fresh (core_of (calling_one ∷ fresh ∷ [])) refl refl refl
      refl refl (record { nothing = refl; one = λ c. refl })
