-- ===== src/Client/Framing/Stream.antt =====
-- A connection's stream of framed messages, what a session has taken of it, and one round.
use drachtio_server.Common.{ℕ, ◌≤◌, ◌<◌, ◌≡◌, Bool, true, false, List, [], ◌∷◌, ◌++◌, length, Text}
use drachtio_server.Client.Framing.{
  Handler, Session, Outcome, reading, left, Round, next, stop, done, thrown, note_ready, respond,
}
use drachtio_server.Client.Framing.Numerals.{to_string}

-- The bytes of a list of messages, as a client sends them.
unfoldable pub encode_all : List Text → Text
encode_all [] = []
encode_all (m ∷ ms) = to_string (length m) ++ b'#' ∷ (m ++ encode_all ms)

-- The messages that the buffer has room for, whatever is read at once.
abbrev pub message_limit : ℕ
message_limit = 4036

abbrev pub AllSized : List Text → Type 0
AllSized [] = Unit {0}
AllSized (m ∷ ms) = (0 < length m) × (length m ≤ message_limit) × AllSized ms

-- No more than the digits of the next header.
abbrev pub IsShort : Text → List Text → Type 0
IsShort buffer [] = length buffer ≤ 0
IsShort buffer (m ∷ ms) = length buffer ≤ length (to_string (length m))

-- What handling the messages one by one comes to: the reference for `feed`.
module _ {S : Type 0} (h : Handler S) where
  abbrev pub idle : Bool → S → List Text → Session S
  idle out a sent = record {
    buffer = [];
    message_length = 0;
    is_outbound = out;
    app = a;
    sent = sent;
  }

  unfoldable pub deliver : Bool → S → List Text → List Text → Outcome S
  deliver out a sent [] = reading (idle out a sent)
  deliver out a sent (m ∷ ms) = elim (h.process a m) [
    | thrown a' ↦ left (h.leave a') sent
    | done a' response go ↦ elim go [
      | true ↦ deliver out (note_ready h out m a') (respond response sent) ms
      | false ↦ left (h.leave a') (respond response sent)
    ]
  ]

  -- What is left of the stream: the buffer, `future`, and the messages that these make up.
  pub data Rest (future buffer : Text) (n : ℕ) : List Text → Type 0 where
    at_header :
        {ms : List Text}
        → n ≡ 0
        → buffer ++ future ≡ encode_all ms
        → IsShort buffer ms
        → Rest future buffer n ms
    in_message :
        {m : Text} {ms : List Text}
        → n ≡ length m
        → buffer ++ future ≡ m ++ encode_all ms
        → length buffer < length m
        → Rest future buffer n (m ∷ ms)

  abbrev pub deliver_rest : Session S → List Text → Outcome S
  deliver_rest s ms = deliver s.is_outbound s.app s.sent ms

  -- How a read comes out, when delivering all messages one by one comes to `target`.
  pub data Progress (future : Text) (target : Outcome S) (o : Outcome S) : Type 0 where
    more :
        (s : Session S) (ms : List Text)
        → o ≡ reading s
        → AllSized ms
        → Rest future s.buffer s.message_length ms
        → deliver_rest s ms ≡ target
        → Progress future target o
    ended :
        (a : S) (sent : List Text)
        → o ≡ left a sent
        → target ≡ left a sent
        → Progress future target o

  -- How a round comes out: `fuel` more rounds are enough.
  pub data RoundProgress (future : Text) (target : Outcome S) (fuel : ℕ) (r : Round S)
      : Type 0 where
    stopped :
        (o : Outcome S) → r ≡ stop o → Progress future target o → RoundProgress future target fuel r
    drained :
        (s : Session S) (ms : List Text)
        → r ≡ next s
        → s.message_length ≡ 0
        → AllSized ms
        → Rest future s.buffer s.message_length ms
        → deliver_rest s ms ≡ target
        → 0 < fuel
        → RoundProgress future target fuel r
    going :
        (s : Session S) (m : Text) (ms : List Text)
        → r ≡ next s
        → s.message_length ≡ length m
        → AllSized (m ∷ ms)
        → s.buffer ++ future ≡ m ++ encode_all ms
        → deliver_rest s (m ∷ ms) ≡ target
        → length s.buffer < fuel
        → RoundProgress future target fuel r
