-- ===== src/Client/Framing.antt =====
-- The framing of messages on a client connection: `BaseClient::readMessageLength`,
-- `Client::read_handler` and `Client::send` of src/client.cpp. Each message travels as its length in
-- decimal, '#', and its bytes.
-- Boost is a parameter: `append` is `circular_buffer::insert` at the end and `lexical_cast` that to
-- `unsigned int`. The handling of a whole message is the parameter `Handler`.
pub mod Numerals
pub mod Header
pub mod Stream
pub mod Delivery
pub mod Limits
mod Tests
use drachtio_server.Common.{
  ℕ, zero, suc, ◌+◌, ◌≤◌, ◌<◌, ◌^◌, ◌≡◌, arith, Bool, true, false, not, ◌&&◌, Option, none, some,
  List, [], ◌∷◌, ◌++◌, ltb, leb, ◌==◌, if◌then◌else◌, length, take, drop, is_empty, Text, codes,
  has_substring,
}
use Numerals.{to_string}

-- m_buffer(12228)
abbrev pub capacity : ℕ
capacity = 12228

-- std::array<char, 8192> m_readBuf
abbrev pub read_size : ℕ
read_size = 8192

pub record Boost : Type 0 where
  pub append : Text → Text → Text
  pub lexical_cast : Text → Option ℕ

-- What the code relies on: nothing is lost while the buffer has room, the buffer never outgrows its
-- capacity, and a cast reads back what `std::to_string` writes.
pub record BoostLaws (b : Boost) : Type 0 where
  pub append_fits :
      (old new : Text) → length old + length new ≤ capacity → b.append old new ≡ old ++ new
  pub append_bounded : (old new : Text) → length (b.append old new) ≤ capacity
  pub lexical_cast-to_string : (n : ℕ) → n < 4294967296 → b.lexical_cast (to_string n) ≡ some n

-- How the loop of `readMessageLength` over the characters ends, with the digits that it took:
-- at a '#', at the end of the buffer, or by the exception.
pub data Scan : Type 0 where
  ended : Text → Text → Scan
  cut : Text → Scan
  malformed : Scan

abbrev pub is_digit : ℕ → Bool
is_digit c = leb b'0' c && leb c b'9'

-- `ch` holds the first `i` digits; the sixth character that is no '#' is one too many.
unfoldable pub scan : Text → Text → Scan
scan ch [] = cut ch
scan ch (c ∷ rest) =
    let more = scan (ch ++ c ∷ []) rest in
    if c == b'#'
    then ended ch rest
    else if not (is_digit c)
    then malformed
    else if length (ch ++ c ∷ []) == 6
    then malformed
    else more

-- The result of `readMessageLength`: `len`, the value returned and the buffer left. `invalid` is the
-- `std::runtime_error`, `bad_cast` the exception of `lexical_cast`, which is none, and `underflow`
-- a call on an empty buffer, which C++ leaves undefined.
pub data LengthRead : Type 0 where
  length_read : ℕ → Bool → Text → LengthRead
  invalid bad_cast underflow : LengthRead

cast_length : Text → Option ℕ → LengthRead
cast_length rest none = bad_cast
cast_length rest (some len) = length_read len (not (is_empty rest)) rest

after_scan : Boost → Scan → LengthRead
unfolding cast_length
after_scan b (ended ch rest) = cast_length rest (b.lexical_cast ch)
after_scan b (cut ch) = length_read 0 false ch
after_scan b malformed = invalid

unfoldable pub read_message_length : Boost → Text → LengthRead
unfolding scan after_scan
read_message_length b [] = underflow
read_message_length b (c ∷ buffer) = after_scan b (scan [] (c ∷ buffer))

-- The result of `processClientMessage`: the response and whether to go on, or a runtime error.
pub data Processed (S : Type 0) : Type 0 where
  done : S → Text → Bool → Processed S
  thrown : S → Processed S

-- What the connection calls of the controller: `processClientMessage`, `outboundReady`, `leave`.
pub record Handler (S : Type 0) : Type 0 where
  pub process : S → Text → Processed S
  pub outbound_ready : S → S
  pub leave : S → S

-- `app` is the state that the handler works on, `sent` the texts written to the socket.
pub record Session (S : Type 0) : Type 0 where
  pub buffer : Text
  pub message_length : ℕ
  pub is_outbound : Bool
  pub app : S
  pub sent : List Text

-- After `read_handler`: the next read is under way, or the client was told to leave, or an exception
-- that it does not catch went up to `ClientController::threadFunc` and no read is under way.
pub data Outcome (S : Type 0) : Type 0 where
  reading : Session S → Outcome S
  left : S → List Text → Outcome S
  escaped : S → List Text → Outcome S
  undefined : Outcome S
  out_of_fuel : Outcome S

-- One round of the loop over full messages.
pub data Round (S : Type 0) : Type 0 where
  next : Session S → Round S
  stop : Outcome S → Round S

-- to_string(len) + "#" + msg, as `send` and `read_handler` write it
unfoldable pub frame : Text → Text
frame msg = to_string (length msg) ++ b'#' ∷ msg

-- An empty response is not written.
unfoldable pub respond : Text → List Text → List Text
unfolding frame
respond [] sent = sent
respond (c ∷ msg) sent = sent ++ frame (c ∷ msg) ∷ []

module _ {S : Type 0} (h : Handler S) where
  fail : Session S → Outcome S
  fail s = left (h.leave s.app) s.sent

  -- An outbound client that has authenticated is told of the request that it was called for.
  unfoldable pub note_ready : Bool → Text → S → S
  note_ready is_outbound msg a =
      if is_outbound && has_substring (codes "|authenticate|") msg then h.outbound_ready a else a

-- m_buffer.size() >= m_nMessageLength && m_nMessageLength > 0
abbrev pub has_message : {S : Type 0} → Session S → Bool
has_message s = leb s.message_length (length s.buffer) && ltb 0 s.message_length

module _ {S : Type 0} (b : Boost) (h : Handler S) where
  -- Where a length was read: go on, read again, leave, or let the exception pass.
  take_length : Session S → LengthRead → Round S
  unfolding fail
  take_length s (length_read len true rest) =
      next (record s { buffer = rest; message_length = len })
  take_length s (length_read len false rest) =
      stop (reading (record s { buffer = rest; message_length = len }))
  take_length s invalid = stop (fail h s)
  take_length s bad_cast = stop (escaped s.app s.sent)
  take_length s underflow = stop undefined

  -- reload for next message
  reload : Session S → Round S
  unfolding take_length read_message_length
  reload s =
      if is_empty s.buffer
      then next (record s { message_length = 0 })
      else take_length s (read_message_length b s.buffer)

  after_process : Session S → Text → Processed S → Round S
  unfolding fail reload
  after_process s msg (thrown a) = stop (fail h (record s { app = a }))
  after_process s msg (done a response false) =
      stop (fail h (record s { app = a; sent = respond response s.sent }))
  after_process s msg (done a response true) = reload (record s {
    buffer = drop s.message_length s.buffer;
    app = note_ready h s.is_outbound msg a;
    sent = respond response s.sent;
  })

  pub message_round : Session S → Round S
  unfolding after_process
  message_round s =
      let msg = take s.message_length s.buffer in after_process s msg (h.process s.app msg)

  pub drain : ℕ → Session S → Outcome S
  unfolding message_round
  drain zero s = out_of_fuel
  drain (suc fuel) s = elim (has_message s) [
    | false ↦ reading s
    | true ↦ elim (message_round s) [ next s' ↦ drain fuel s' | stop o ↦ o ]
  ]

  pub drain-reading :
      (fuel : ℕ) (s : Session S) → has_message s ≡ false → drain (suc fuel) s ≡ reading s
  unfolding drain
  drain-reading fuel s e = rw (e, drain)

  pub drain-next :
      (fuel : ℕ) (s s' : Session S)
      → has_message s ≡ true
      → message_round s ≡ next s'
      → drain (suc fuel) s ≡ drain fuel s'
  unfolding drain
  drain-next fuel s s' e p = rw (e, drain) (rw p)

  pub drain-stop :
      (fuel : ℕ) (s : Session S) (o : Outcome S)
      → has_message s ≡ true
      → message_round s ≡ stop o
      → drain (suc fuel) s ≡ o
  unfolding drain
  drain-stop fuel s o e p = rw (e, drain) (rw p)

  pub drain-idle :
      (fuel : ℕ) (s : Session S) → 0 < fuel → s.message_length ≡ 0 → drain fuel s ≡ reading s
  drain-idle zero s l e = absurd (omega arith)
  drain-idle (suc fuel) s l e = drain-reading fuel s (ground arith)

  -- Each round takes a byte at least, so this fuel is enough.
  start_drain : Round S → Outcome S
  unfolding drain
  start_drain (next s) = drain (suc (length s.buffer)) s
  start_drain (stop o) = o

  -- No error: the bytes read are appended; at the start of a message its length is read first.
  pub read_handler : Session S → Text → Outcome S
  unfolding start_drain take_length read_message_length
  read_handler s chunk =
      let s' = record s { buffer = b.append s.buffer chunk } in
      if s.message_length == 0
      then start_drain (take_length s' (read_message_length b s'.buffer))
      else start_drain (next s')

  -- An error code from the socket.
  pub read_error : Session S → Outcome S
  unfolding fail
  read_error s = fail h s

  -- One call for each completed read, while reads are under way.
  pub feed : Session S → List Text → Outcome S
  unfolding read_handler
  feed s [] = reading s
  feed s (chunk ∷ chunks) = elim (read_handler s chunk) [
    | reading s' ↦ feed s' chunks
    | left a sent ↦ left a sent
    | escaped a sent ↦ escaped a sent
    | undefined ↦ undefined
    | out_of_fuel ↦ out_of_fuel
  ]
