-- ===== src/Client/Framing/Tests.antt =====
-- A circular buffer and a cast that meet `BoostLaws`, and runs of a connection over them.
use native.Mathlib.Nat.{pow-suc, zero-add}
use drachtio_server.Common.{
  ℕ, zero, suc, ◌+◌, ◌-◌, ◌*◌, ◌/◌, ◌%◌, ◌^◌, ◌≤◌, ◌<◌, ◌≡◌, refl, ◌∙◌, true, false, Option, none,
  some, List, [], ◌∷◌, ◌++◌, arith, ◌==◌, leb, leb→le, leb-false→lt, not, if◌then◌else◌, length,
  length-append, length-drop, drop, Text, codes, Bool-cases, inl, inr, has_substring, text_eq,
}
use drachtio_server.Client.Framing.{
  Boost, BoostLaws, capacity, is_digit, Handler, Processed, done, Session, reading, feed, respond,
  note_ready,
}
use drachtio_server.Client.Framing.Numerals.{to_string, digits_from}
use drachtio_server.Client.Framing.Stream.{encode_all, deliver, idle}
use drachtio_server.Client.Framing.Delivery.{feed-eq-deliver}
use drachtio_server.Client.Framing.Limits.{feed-stalled}

parse_digits : ℕ → Text → Option ℕ
parse_digits value [] = some value
parse_digits value (c ∷ s) =
    let rest = parse_digits (10 * value + (c - 48)) s in if is_digit c then rest else none

-- The oldest bytes are overwritten.
overwrite : Text → Text → Text
overwrite old new = drop (length old + length new - capacity) (old ++ new)

sample_cast : Text → Option ℕ
sample_cast [] = none
sample_cast (c ∷ s) = parse_digits 0 (c ∷ s)

abbrev sample : Boost
sample = record { append = overwrite; lexical_cast = sample_cast }

parse_digits-digit :
    (value d : ℕ) (s : Text)
    → d < 10
    → parse_digits value ((48 + d) ∷ s) ≡ parse_digits (10 * value + d) s
unfolding parse_digits
parse_digits-digit value d s h =
    let digit : is_digit (48 + d) ≡ true = ground arith in
    let back : 48 + d - 48 ≡ d = omega arith in rw (digit, back)

digits_from-small :
    (fuel n : ℕ) (acc : Text) → n < 10 → digits_from (suc fuel) n acc ≡ (48 + n) ∷ acc
unfolding digits_from
digits_from-small fuel n acc h =
    let last : n / 10 ≡ 0 = omega arith in let same : n % 10 ≡ n = omega arith in rw (last, same)

digits_from-more :
    (fuel n : ℕ) (acc : Text)
    → 10 ≤ n
    → digits_from (suc fuel) n acc ≡ digits_from fuel (n / 10) ((48 + n % 10) ∷ acc)
unfolding digits_from
digits_from-more fuel n acc h =
    let more : (n / 10 == 0) ≡ false = ground arith in rw (more, digits_from)

parse_digits-digits_from :
    (fuel n : ℕ) (acc : Text)
    → n < 10 ^ fuel
    → parse_digits 0 (digits_from fuel n acc) ≡ parse_digits n acc
parse_digits-digits_from zero n acc h =
    let e : n ≡ 0 = omega arith in rw e (unfold digits_from in refl)
parse_digits-digits_from (suc fuel) n acc h = elim (Bool-cases (leb 10 n)) [
  | inr small ↦
      let l : n < 10 = leb-false→lt 10 n small in
      rw (digits_from-small fuel n acc l, parse_digits-digit 0 n acc l, zero-add)
  | inl large ↦
      let whole : 10 * (n / 10) + n % 10 ≡ n = omega arith in
      rw (
        digits_from-more fuel n acc (leb→le 10 n large),
        parse_digits-digits_from fuel (n / 10) ((48 + n % 10) ∷ acc)
            (omega (arith, pow-suc 10 fuel)),
        parse_digits-digit (n / 10) (n % 10) acc (omega arith),
        whole,
      )
]

length-digits_from : (fuel n : ℕ) (acc : Text) → length acc < length (digits_from (suc fuel) n acc)
unfolding digits_from
length-digits_from zero n acc = ground arith
length-digits_from (suc fuel) n acc =
    ground (arith, length-digits_from fuel (n / 10) ((48 + n % 10) ∷ acc))

sample_cast-parse : (s : Text) → 0 < length s → sample_cast s ≡ parse_digits 0 s
unfolding sample_cast
sample_cast-parse [] h = absurd (omega arith)
sample_cast-parse (c ∷ s) h = refl

sample_cast-to_string : (n : ℕ) → n < 4294967296 → sample_cast (to_string n) ≡ some n
unfolding to_string parse_digits
sample_cast-to_string n h =
    sample_cast-parse (digits_from 10 n []) (length-digits_from 9 n [])
    ∙ parse_digits-digits_from 10 n [] (omega arith)

overwrite_fits :
    (old new : Text) → length old + length new ≤ capacity → overwrite old new ≡ old ++ new
unfolding overwrite
overwrite_fits old new h =
    let none_lost : length old + length new - capacity ≡ 0 = omega arith in rw none_lost

overwrite_bounded : (old new : Text) → length (overwrite old new) ≤ capacity
unfolding overwrite
overwrite_bounded old new =
    omega
      (arith, length-drop (length old + length new - capacity) (old ++ new), length-append old new)

abbrev sample_laws : BoostLaws sample
sample_laws = record {
  append_fits = overwrite_fits;
  append_bounded = overwrite_bounded;
  lexical_cast-to_string = sample_cast-to_string;
}

-- A handler that keeps the messages, answers "ping" by "pong" and leaves at "quit".
echo : List Text → Text → Processed (List Text)
echo seen msg =
    done (seen ++ msg ∷ []) (if text_eq msg (codes "ping") then codes "pong" else [])
      (not (text_eq msg (codes "quit")))

abbrev echo_handler : Handler (List Text)
echo_handler = record { process = echo; outbound_ready = λ s. s; leave = λ s. s }

abbrev two_messages : List Text
two_messages = codes "hello" ∷ codes "ping" ∷ []

-- The stream "5#hello4#ping", cut within a header and within a message.
abbrev cuts : List Text
cuts = codes "5" ∷ codes "#he" ∷ codes "llo4" ∷ codes "#" ∷ codes "pin" ∷ codes "g" ∷ []

stream : ◌≡◌ {A = Text} (codes "5#hello4#ping") (encode_all two_messages)
unfolding encode_all to_string
stream = refl

feed-eq-deliver_example :
    feed sample echo_handler (idle echo_handler false [] []) cuts
    ≡ deliver echo_handler false [] [] two_messages
feed-eq-deliver_example =
    feed-eq-deliver sample echo_handler sample_laws false [] two_messages cuts (omega arith)
      (omega arith) stream

two_delivered :
    deliver echo_handler false [] [] two_messages
    ≡ reading (idle echo_handler false two_messages (codes "4#pong" ∷ []))
unfolding deliver echo note_ready respond to_string text_eq has_substring
two_delivered = refl

abbrev announced : Session (List Text)
announced = record { buffer = []; message_length = 20000; is_outbound = false; app = []; sent = [] }

feed-stalled_example :
    (t : Session (List Text)) × (feed sample echo_handler announced cuts ≡ reading t)
    × (t.app ≡ [])
    × (t.sent ≡ [])
    × (t.message_length ≡ 20000)
feed-stalled_example = feed-stalled sample echo_handler sample_laws announced cuts (omega arith)
