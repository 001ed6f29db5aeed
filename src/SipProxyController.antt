-- ===== src/SipProxyController.antt =====
-- src/sip-proxy-controller.cpp and sip-proxy-controller.hpp: a request is proxied to one target or
-- several; each target has a client transaction, and the request itself a server transaction.
-- Here are the states that these keep; the children model what happens to them.
pub mod Transaction
pub mod Responses
pub mod Sending
pub mod Server
pub mod Core
pub mod Table
mod Tests
use drachtio_server.Common.{
  ℕ, ◌≡◌, Bool, true, false, not, Option, none, some, List, [], ◌∷◌, ◌==◌, Text,
}
use drachtio_server.Drachtio.Messages.{
  SipMethod, method_invalid, method_unknown, method_invite, method_ack, method_prack, method_cancel,
  method_bye, method_options, method_register, method_info, method_update, method_message,
  method_subscribe, method_notify, method_refer, method_publish,
}

-- ProxyCore::ClientTransaction::State_t
pub data State : Type 0 where
  not_started trying calling proceeding completed terminated : State

-- The enumerators are compared as the numbers that they are.
abbrev pub state_code : State → ℕ
state_code not_started = 0
state_code trying = 1
state_code calling = 2
state_code proceeding = 3
state_code completed = 4
state_code terminated = 5

abbrev pub method_code : SipMethod → ℕ
method_code method_invalid = 0
method_code method_unknown = 1
method_code method_invite = 2
method_code method_ack = 3
method_code method_prack = 4
method_code method_cancel = 5
method_code method_bye = 6
method_code method_options = 7
method_code method_register = 8
method_code method_info = 9
method_code method_update = 10
method_code method_message = 11
method_code method_subscribe = 12
method_code method_notify = 13
method_code method_refer = 14
method_code method_publish = 15

abbrev pub is_state : State → State → Bool
is_state a b = state_code a == state_code b

abbrev pub is_method : SipMethod → SipMethod → Bool
is_method a b = method_code a == method_code b

-- What is read of a response: its status, the method of its CSeq header, the branch of its first Via,
-- its RSeq, its contacts as `url_e` prints them, and whether it carries a challenge.
pub record Response : Type 0 where
  pub status : ℕ
  pub method : SipMethod
  pub via_branch : Text
  pub rseq : Option ℕ
  pub contacts : List Text
  pub has_challenge : Bool

-- A timer is the time for which it was set, or none where its handle is NULL.
pub record ClientTransaction : Type 0 where
  pub target : Text
  pub branch : Text
  pub branch_prack : Text
  pub method : SipMethod
  pub state : State
  pub sip_status : ℕ
  pub canceled : Bool
  pub transmit_count : ℕ
  pub duration_timer_a : ℕ
  pub rseq : ℕ
  pub final_response : Option Response
  pub timer_a : Option ℕ
  pub timer_b : Option ℕ
  pub timer_c : Option ℕ
  pub timer_d : Option ℕ
  pub timer_provisional : Option ℕ
  pub timer_e : Option ℕ
  pub timer_f : Option ℕ
  pub timer_k : Option ℕ

-- `m_rseq` and `m_durationTimerA` are not initialised: they are what was there.
unfoldable pub new_transaction : Text → Text → ℕ → ℕ → ClientTransaction
new_transaction target branch rseq duration = record {
  target = target;
  branch = branch;
  branch_prack = [];
  method = method_unknown;
  state = not_started;
  sip_status = 0;
  canceled = false;
  transmit_count = 0;
  duration_timer_a = duration;
  rseq = rseq;
  final_response = none;
  timer_a = none;
  timer_b = none;
  timer_c = none;
  timer_d = none;
  timer_provisional = none;
  timer_e = none;
  timer_f = none;
  timer_k = none;
}

abbrev pub is_invite : ClientTransaction → Bool
is_invite c = is_method method_invite c.method

-- What a transaction or the core does to the outside: a request with its route, branch and uri, a
-- CANCEL, an ACK, a PRACK, a message dropped, a record for accounting, a response sent upstream with its
-- RSeq, a response made here, and an answer to the application.
pub data Effect : Type 0 where
  request_sent : Text → Text → Text → Effect
  cancel_sent : Text → Text → Effect
  ack_sent : ℕ → Effect
  prack_sent : Text → ℕ → Effect
  discarded : ℕ → Effect
  cdr_written : ℕ → Effect
  response_forwarded : ℕ → Option ℕ → Effect
  response_generated : ℕ → Effect
  api_response : Text → Effect
