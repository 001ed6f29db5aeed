-- ===== src/Client/Framing/Header.antt =====
-- `readMessageLength` on a buffer that is the start of a well-formed header and what follows it.
use mathlib.Core.List.{append-nil, append_assoc}
use drachtio_server.Common.{
  ℕ, ◌+◌, ◌≤◌, ◌<◌, ◌≡◌, sym, ap, ◌∙◌, false, not, [], ◌∷◌, ◌++◌, arith, length, length-append,
  is_empty, Text,
}
use drachtio_server.Client.Framing.{
  Boost, BoostLaws, Scan, ended, cut, scan, LengthRead, length_read, after_scan,
  read_message_length,
}
use drachtio_server.Client.Framing.Numerals.{
  AllDigits, to_string, to_string-AllDigits, length-to_string-le,
}

head_eq : {a b : ℕ} {s t : Text} → ◌≡◌ {A = Text} (a ∷ s) (b ∷ t) → a ≡ b
head_eq e = cc

tail_eq : {a b : ℕ} {s t : Text} → ◌≡◌ {A = Text} (a ∷ s) (b ∷ t) → s ≡ t
tail_eq e = cc

-- Some of `digits`, '#' and `rest` have arrived, in `have`; the others are to come.
pub data Arrived (digits rest future : Text) (have : Text) (ch : Text) : Scan → Type 0 where
  incomplete :
      length have ≤ length digits
      → {r : Scan} → r ≡ cut (ch ++ have)
      → Arrived digits rest future have ch r
  whole :
      (tail : Text)
      → tail ++ future ≡ rest
      → length tail < length have
      → {r : Scan} → r ≡ ended (ch ++ digits) tail
      → Arrived digits rest future have ch r

Arrived-push :
    (digits rest future have ch : Text) (x c : ℕ) {r : Scan}
    → c ≡ x
    → Arrived digits rest future have (ch ++ x ∷ []) r
    → Arrived (x ∷ digits) rest future (c ∷ have) ch r
Arrived-push digits rest future have ch x c p (incomplete l e) =
    incomplete (omega arith) (rw p (e ∙ ap cut (append_assoc ch (x ∷ []) have)))
Arrived-push digits rest future have ch x c p (whole tail t l e) =
    whole tail t (omega arith) (e ∙ ap (λ z. ended z tail) (append_assoc ch (x ∷ []) digits))

-- A digit is taken while there is room for it.
scan-digit :
    (ch have : Text) (x : ℕ)
    → b'0' ≤ x
    → x ≤ b'9'
    → length ch < 5
    → scan ch (x ∷ have) ≡ scan (ch ++ x ∷ []) have
unfolding scan
scan-digit ch have x lo hi l = ground (arith, length-append ch (x ∷ []))

scan-Arrived :
    (digits rest future have ch : Text)
    → AllDigits digits
    → length ch + length digits ≤ 5
    → have ++ future ≡ digits ++ b'#' ∷ rest
    → Arrived digits rest future have ch (scan ch have)
unfolding scan
scan-Arrived digits rest future [] ch d l e =
    incomplete (omega arith) (ap cut (sym (append-nil ch)))
scan-Arrived [] rest future (c ∷ have) ch d l e =
    whole have (tail_eq e) (omega arith) (ground (arith, head_eq e, append-nil ch))
scan-Arrived (x ∷ digits) rest future (c ∷ have) ch d l e =
    let p : c ≡ x = head_eq e in
    rw (scan-digit ch have c (omega arith) (omega arith) (omega arith)) (
      Arrived-push digits rest future have ch x c p (
        rw p (
          scan-Arrived digits rest future have (ch ++ x ∷ []) d.2
            (omega (arith, length-append ch (x ∷ []))) (tail_eq e))))

-- How a read of the length ends when `have` is the start of the header of a message and `future` is to
-- come: too early, with all of it put back; or with the length, and the rest of the buffer.
pub data HeaderRead (message rest future have : Text) (r : LengthRead) : Type 0 where
  early :
      length have ≤ length (to_string (length message))
      → r ≡ length_read 0 false have
      → HeaderRead message rest future have r
  found :
      (tail : Text)
      → tail ++ future ≡ rest
      → length tail < length have
      → r ≡ length_read (length message) (not (is_empty tail)) tail
      → HeaderRead message rest future have r

module _ (b : Boost) (laws : BoostLaws b) where
  of_Arrived :
      (message rest future have : Text)
      → length message < 100000
      → {r : Scan} → Arrived (to_string (length message)) rest future have [] r
      → HeaderRead message rest future have (after_scan b r)
  unfolding after_scan
  of_Arrived message rest future have l (incomplete s e) = early s (rw e)
  of_Arrived message rest future have l (whole tail t s e) =
      found tail t s (rw (e, laws.lexical_cast-to_string (length message) (omega arith)))

  pub read_message_length-HeaderRead :
      (message rest future : Text) (c : ℕ) (have : Text)
      → length message < 100000
      → (c ∷ have) ++ future ≡ to_string (length message) ++ b'#' ∷ rest
      → HeaderRead message rest future (c ∷ have) (read_message_length b (c ∷ have))
  unfolding read_message_length
  read_message_length-HeaderRead message rest future c have l e =
      of_Arrived message rest future (c ∷ have) l (
        scan-Arrived (to_string (length message)) rest future (c ∷ have) []
          (to_string-AllDigits (length message))
          (omega (arith, length-to_string-le (length message))) e)
