-- ===== src/Client/Framing/Delivery.antt =====
-- Reading in chunks is the same as handling the messages one by one.
use mathlib.Core.List.{append-nil, append_assoc}
use drachtio_server.Common.{
  ℕ, zero, suc, ◌+◌, ◌≤◌, ◌<◌, ◌≡◌, refl, sym, ap, ◌∙◌, inl, inr, Bool, true, false, List, [], ◌∷◌,
  ◌++◌, arith, length, length-append, take, drop, Text, Bool-cases, leb, ◌==◌, leb-false→lt, leb→le,
  append_split, take-append, drop-append,
}
use drachtio_server.Client.Framing.{
  Boost, BoostLaws, LengthRead, read_message_length, Handler, Session, Outcome, reading, capacity,
  read_size, Round, Processed, done, thrown, take_length, reload, note_ready, after_process,
  message_round, has_message, respond, fail, drain, drain-idle, drain-reading, drain-next,
  drain-stop, start_drain, read_handler, feed,
}
use drachtio_server.Client.Framing.Numerals.{to_string, length-to_string-le}
use drachtio_server.Client.Framing.Header.{HeaderRead, early, found, read_message_length-HeaderRead}
use drachtio_server.Client.Framing.Stream.{
  idle, encode_all, AllSized, deliver, deliver_rest, Rest, at_header, in_message, Progress, more,
  ended, RoundProgress, stopped, drained, going, IsShort,
}

IsShort-nil : (ms : List Text) → IsShort [] ms
IsShort-nil [] = omega arith
IsShort-nil (m ∷ ms) = omega arith

module _ {S : Type 0} (b : Boost) (h : Handler S) (laws : BoostLaws b) (future : Text) where
  take_length-RoundProgress :
      (target : Outcome S) (fuel : ℕ) (s : Session S) (m : Text) (ms : List Text) (r : LengthRead)
      → AllSized (m ∷ ms)
      → deliver_rest h s (m ∷ ms) ≡ target
      → s.buffer ++ future ≡ encode_all (m ∷ ms)
      → length s.buffer ≤ fuel
      → HeaderRead m (m ++ encode_all ms) future s.buffer r
      → RoundProgress h future target fuel (take_length b h s r)
  unfolding take_length
  take_length-RoundProgress target fuel s m ms r z d e l (early short p) = rw p (
      stopped _ refl
        (more (record s { message_length = 0 }) (m ∷ ms) refl z (at_header refl e short) d))
  take_length-RoundProgress target fuel s m ms r z d e l (found [] t k p) = rw p (
      stopped _ refl (
        more (record s { buffer = []; message_length = length m }) (m ∷ ms) refl z
          (in_message refl t z.0) d))
  take_length-RoundProgress target fuel s m ms r z d e l (found (c ∷ tail) t k p) = rw p (
      going (record s { buffer = c ∷ tail; message_length = length m }) m ms refl refl z t d
        (omega arith))

  reload-RoundProgress :
      (target : Outcome S) (fuel : ℕ) (s : Session S) (buffer : Text) (ms : List Text)
      → AllSized ms
      → deliver_rest h s ms ≡ target
      → buffer ++ future ≡ encode_all ms
      → length buffer < fuel
      → RoundProgress h future target fuel (reload b h (record s { buffer = buffer }))
  unfolding reload encode_all
  reload-RoundProgress target fuel s [] ms z d e l =
      drained (record s { buffer = []; message_length = 0 }) ms refl refl z
        (at_header refl e (IsShort-nil ms)) d (omega arith)
  reload-RoundProgress target fuel s (c ∷ buffer) [] z d e l = cc
  reload-RoundProgress target fuel s (c ∷ buffer) (m ∷ ms) z d e l =
      take_length-RoundProgress target fuel (record s { buffer = c ∷ buffer }) m ms _ z d e
        (omega arith)
        (read_message_length-HeaderRead b laws m (m ++ encode_all ms) future c buffer
          (omega (arith, z.1)) e)

  after_process-RoundProgress :
      (fuel : ℕ) (s : Session S) (m tail : Text) (ms : List Text) (p : Processed S)
      → AllSized (m ∷ ms)
      → drop s.message_length s.buffer ≡ tail
      → h.process s.app m ≡ p
      → tail ++ future ≡ encode_all ms
      → length tail < fuel
      → RoundProgress h future (deliver_rest h s (m ∷ ms)) fuel (after_process b h s m p)
  unfolding after_process deliver fail
  after_process-RoundProgress fuel s m tail ms (thrown a) z d e t l =
      stopped _ refl (ended (h.leave a) s.sent refl (rw (e, deliver)))
  after_process-RoundProgress fuel s m tail ms (done a response false) z d e t l =
      stopped _ refl (ended (h.leave a) (respond response s.sent) refl (rw (e, deliver)))
  after_process-RoundProgress fuel s m tail ms (done a response true) z d e t l =
      rw (d, e, deliver)
        (reload-RoundProgress _ fuel
          (record s { app = note_ready h s.is_outbound m a; sent = respond response s.sent }) tail
          ms z.2 refl t l)

  message_round-RoundProgress :
      (fuel : ℕ) (s : Session S) (m : Text) (ms : List Text)
      → AllSized (m ∷ ms)
      → s.message_length ≡ length m
      → s.buffer ++ future ≡ m ++ encode_all ms
      → length m ≤ length s.buffer
      → length s.buffer ≤ fuel
      → RoundProgress h future (deliver_rest h s (m ∷ ms)) fuel (message_round b h s)
  unfolding message_round
  message_round-RoundProgress fuel s m ms z n e l k =
      let (tail, p, q) = append_split s.buffer future m (encode_all ms) e l in
      let taken : take s.message_length s.buffer ≡ m = rw (n, p) (take-append m tail) in
      rw taken (
        after_process-RoundProgress fuel s m tail ms _ z (rw (n, p) (drop-append m tail)) refl q
          (omega (arith, ap length p, length-append m tail, z.0)))

  drain-Progress :
      (fuel : ℕ) (s : Session S) (m : Text) (ms : List Text)
      → AllSized (m ∷ ms)
      → s.message_length ≡ length m
      → s.buffer ++ future ≡ m ++ encode_all ms
      → length s.buffer < fuel
      → Progress h future (deliver_rest h s (m ∷ ms)) (drain b h fuel s)
  unfolding drain
  drain-Progress zero s m ms z n e l = absurd (omega arith)
  drain-Progress (suc fuel) s m ms z n e l = elim (Bool-cases (leb (length m) (length s.buffer))) [
    | inr few ↦
        rw (drain-reading b h fuel s (rw n (rw few)))
          (more s (m ∷ ms) refl z (in_message n e (leb-false→lt _ _ few)) refl)
    | inl full ↦
        let ready : has_message s ≡ true = rw n (rw full (ground (arith, z.0))) in
        elim (message_round-RoundProgress fuel s m ms z n e (leb→le _ _ full) (omega arith)) [
          | stopped o p q ↦ rw (drain-stop b h fuel s o ready p) q
          | drained s' ms' p n' z' r d k ↦
              more s' ms' (drain-next b h fuel s s' ready p ∙ drain-idle b h fuel s' k n') z' r d
          | going s' m' ms' p n' z' e' d k ↦
              rw (drain-next b h fuel s s' ready p, ← d) (drain-Progress fuel s' m' ms' z' n' e' k)
        ]
  ]

  start_drain-Progress :
      (target : Outcome S) (fuel : ℕ) (r : Round S)
      → RoundProgress h future target fuel r
      → Progress h future target (start_drain b h r)
  unfolding start_drain
  start_drain-Progress target fuel r (stopped o p q) = rw p q
  start_drain-Progress target fuel r (drained s ms p n z i d k) =
      more s ms (rw p (drain-idle b h (suc (length s.buffer)) s (omega arith) n)) z i d
  start_drain-Progress target fuel r (going s m ms p n z e d k) =
      rw (p, ← d) (drain-Progress (suc (length s.buffer)) s m ms z n e (omega arith))

  header-Progress :
      (s : Session S) (ms : List Text) (buffer : Text)
      → 0 < length buffer
      → AllSized ms
      → buffer ++ future ≡ encode_all ms
      → Progress h future (deliver_rest h s ms) (
          start_drain b h
            (take_length b h (record s { buffer = buffer }) (read_message_length b buffer)))
  unfolding encode_all
  header-Progress s ms [] l z e = absurd (omega arith)
  header-Progress s [] (c ∷ buffer) l z e = cc
  header-Progress s (m ∷ ms) (c ∷ buffer) l z e = start_drain-Progress _ (length (c ∷ buffer)) _ (
      take_length-RoundProgress _ (length (c ∷ buffer)) (record s { buffer = c ∷ buffer }) m ms _ z
        refl e (omega arith)
        (read_message_length-HeaderRead b laws m (m ++ encode_all ms) future c buffer
          (omega (arith, z.1)) e))

  room :
      (buffer chunk : Text) (n : ℕ) (ms : List Text)
      → AllSized ms
      → Rest h (chunk ++ future) buffer n ms
      → length chunk ≤ read_size
      → length buffer + length chunk ≤ capacity
  room buffer chunk n [] z (at_header e f k) l = omega arith
  room buffer chunk n (m ∷ ms) z (at_header e f k) l =
      omega (arith, length-to_string-le (length m), z.1)
  room buffer chunk n _ z (in_message e f k) l = omega (arith, z.1)

  appended :
      (buffer chunk whole : Text)
      → buffer ++ (chunk ++ future) ≡ whole
      → (buffer ++ chunk) ++ future ≡ whole
  appended buffer chunk whole e = append_assoc buffer chunk future ∙ e

  read_handler-Progress :
      (s : Session S) (chunk : Text) (ms : List Text)
      → 0 < length chunk
      → length chunk ≤ read_size
      → AllSized ms
      → Rest h (chunk ++ future) s.buffer s.message_length ms
      → Progress h future (deliver_rest h s ms) (read_handler b h s chunk)
  unfolding read_handler
  read_handler-Progress s chunk ms p l z (at_header n e k) =
      rw
        (
          n,
          laws.append_fits s.buffer chunk
              (room s.buffer chunk s.message_length ms z (at_header n e k) l),
        )
        (header-Progress s ms (s.buffer ++ chunk) (omega (arith, length-append s.buffer chunk)) z
          (appended s.buffer chunk _ e))
  read_handler-Progress s chunk _ p l z (in_message {m} {ms} n e k) =
      let started : (s.message_length == 0) ≡ false = ground (arith, z.0) in
      rw
        (
          started,
          laws.append_fits s.buffer chunk
              (room s.buffer chunk s.message_length (m ∷ ms) z (in_message n e k) l),
        )
        (start_drain-Progress _ (suc (length (s.buffer ++ chunk))) _ (
          going (record s { buffer = s.buffer ++ chunk }) m ms refl n z
            (appended s.buffer chunk _ e) refl (omega arith)))

-- The chunks of a stream as the socket returns them: none is empty, and each fits `m_readBuf`.
abbrev pub AllReads : List Text → Type 0
AllReads [] = Unit {0}
AllReads (c ∷ cs) = (0 < length c) × (length c ≤ read_size) × AllReads cs

abbrev pub concat : List Text → Text
concat [] = []
concat (c ∷ cs) = c ++ concat cs

module _ {S : Type 0} (b : Boost) (h : Handler S) (laws : BoostLaws b) where
  all_taken :
      (s : Session S) (ms : List Text)
      → AllSized ms
      → Rest h [] s.buffer s.message_length ms
      → reading s ≡ deliver_rest h s ms
  unfolding deliver encode_all
  all_taken s [] z (at_header n e k) =
      let gone : s.buffer ≡ [] = sym (append-nil s.buffer) ∙ e in ground (arith, n, gone)
  all_taken s (m ∷ ms) z (at_header n e k) = absurd (
      omega (
        arith,
        ap length e,
        length-append s.buffer [],
        length-append (to_string (length m)) (b'#' ∷ (m ++ encode_all ms)),
      ))
  all_taken s _ z (in_message {m} {ms} n e k) =
      absurd
        (omega (arith, ap length e, length-append s.buffer [], length-append m (encode_all ms)))

  feed-Rest :
      (chunks : List Text) (s : Session S) (ms : List Text)
      → AllReads chunks
      → AllSized ms
      → Rest h (concat chunks) s.buffer s.message_length ms
      → feed b h s chunks ≡ deliver_rest h s ms
  unfolding feed
  feed-Rest [] s ms c z r = all_taken s ms z r
  feed-Rest (chunk ∷ chunks) s ms (p, l, c) z r =
      elim (read_handler-Progress b h laws (concat chunks) s chunk ms p l z r) [
        | more s' ms' e z' r' d ↦ rw (e, feed, ← d) (feed-Rest chunks s' ms' c z' r')
        | ended a sent e d ↦ rw (e, feed) (sym d)
      ]

  -- A client sends messages of at most 4036 bytes, none empty, each framed by its length. However the
  -- socket cuts the stream into reads of 1 to 8192 bytes, the connection ends as if the messages had
  -- been handled one by one: in order, each once, up to the first that makes it leave; and if none
  -- does, it ends with an empty buffer, at the start of a message.
  pub feed-eq-deliver :
      (is_outbound : Bool) (app : S) (ms chunks : List Text)
      → AllSized ms
      → AllReads chunks
      → concat chunks ≡ encode_all ms
      → feed b h (idle h is_outbound app []) chunks ≡ deliver h is_outbound app [] ms
  feed-eq-deliver is_outbound app ms chunks z c e =
      feed-Rest chunks (idle h is_outbound app []) ms c z (at_header refl e (IsShort-nil ms))
