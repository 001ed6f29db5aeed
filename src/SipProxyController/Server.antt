-- ===== src/SipProxyController/Server.antt =====
-- `ProxyCore::ServerTransaction` (src/sip-proxy-controller.cpp): the responses sent upstream, and the
-- numbers that it gives to reliable provisional ones. The cache of transports for subscriptions and the
-- statistics are left out.
pub mod Numbering
use drachtio_server.Common.{
  ℕ, ◌+◌, ◌%◌, ◌^◌, Bool, true, false, not, ◌&&◌, Option, none, some, List, [], ◌∷◌, ◌==◌, ltb, leb,
  if◌then◌else◌, is_some,
}
use drachtio_server.Drachtio.Messages.{SipMethod, method_invite}
use drachtio_server.SipProxyController.{
  is_method, Response, Effect, cdr_written, response_forwarded, response_generated,
}

-- `method` is that of the request; `replaced` is m_mapAleg2BlegRseq.
pub record ServerTransaction : Type 0 where
  pub method : SipMethod
  pub canceled : Bool
  pub sip_status : ℕ
  pub rseq : ℕ
  pub replaced : List (ℕ × ℕ)

abbrev pub find_rseq : ℕ → List (ℕ × ℕ) → Option ℕ
find_rseq k [] = none
find_rseq k ((j, original) ∷ m) = if j == k then some original else find_rseq k m

-- `std::unordered_map::insert`: an entry that is there stays.
abbrev pub insert_rseq : ℕ → ℕ → List (ℕ × ℕ) → List (ℕ × ℕ)
insert_rseq k original m = if is_some (find_rseq k m) then m else (k, original) ∷ m

-- 0 for a number that was not given here.
unfoldable pub get_replaced_rseq : ServerTransaction → ℕ → ℕ
get_replaced_rseq s rseq = elim (find_rseq rseq s.replaced) [ none ↦ 0 | some original ↦ original ]

unfoldable pub is_retransmission : ServerTransaction → SipMethod → Bool
is_retransmission s method = is_method method s.method

-- m_rseq as it is before it is raised; `random` is what `su_random` gives.
abbrev pub first_rseq : ℕ → ℕ → ℕ
first_rseq random rseq = if rseq == 0 then random else rseq

abbrev pub with_number : ℕ → ℕ → ServerTransaction → Response → ServerTransaction × Response
with_number next original s r = (
  record s { rseq = next; replaced = insert_rseq next original s.replaced },
  record r { rseq = some next },
)

-- A reliable provisional response gets a number of its own.
unfoldable pub number_response : ℕ → ServerTransaction → Response → ServerTransaction × Response
number_response random s r = elim r.rseq [
  | none ↦ (s, r)
  | some original ↦
      if ltb r.status 200
      then with_number ((first_rseq random s.rseq + 1) % 2 ^ 32) original s r
      else (s, r)
]

abbrev pub is_final_again : ServerTransaction → Response → Bool
is_final_again s r = leb 200 s.sip_status && leb 200 r.status

abbrev pub note_status : ServerTransaction → Response → ServerTransaction
note_status s r = if is_final_again s r then s else record s { sip_status = r.status }

abbrev pub response_cdr : ServerTransaction → Response → List Effect
response_cdr s r =
    if not (is_final_again s r) && (is_method method_invite r.method && leb 200 r.status)
    then cdr_written r.status ∷ []
    else []

abbrev pub send_numbered :
    Bool → ServerTransaction × Response → Bool × ServerTransaction × List Effect
send_numbered sends (s, r) =
    if sends
    then (true, note_status s r, response_forwarded r.status r.rseq ∷ response_cdr s r)
    else (false, s, [])

-- `sends` tells whether the stack takes the response.
unfoldable pub forward_response :
    Bool → ℕ → ServerTransaction → Response → Bool × ServerTransaction × List Effect
unfolding number_response
forward_response sends random s r = send_numbered sends (number_response random s r)

unfoldable pub generate_response : ℕ → ServerTransaction → List Effect
generate_response status s =
    if is_method method_invite s.method && leb 200 status
    then response_generated status ∷ cdr_written status ∷ []
    else response_generated status ∷ []
