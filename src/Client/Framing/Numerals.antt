-- ===== src/Client/Framing/Numerals.antt =====
-- `std::to_string` for the lengths of messages.
use native.Mathlib.Nat.{pow-suc}
use drachtio_server.Common.{
  ℕ, zero, suc, ◌+◌, ◌/◌, ◌%◌, ◌^◌, ◌≤◌, ◌<◌, ◌≡◌, refl, [], ◌∷◌, arith, ◌==◌, if◌then◌else◌,
  length, Text, codes,
}

-- The digits of `n` before `acc`; `fuel` bounds their number.
unfoldable pub digits_from : ℕ → ℕ → Text → Text
digits_from zero n acc = acc
digits_from (suc fuel) n acc =
    let rest = digits_from fuel (n / 10) ((b'0' + n % 10) ∷ acc) in
    if n / 10 == 0 then (b'0' + n % 10) ∷ acc else rest

-- A length is an `int`, which has ten digits at most.
unfoldable pub to_string : ℕ → Text
unfolding digits_from
to_string n = digits_from 10 n []

abbrev pub AllDigits : Text → Type 0
AllDigits [] = Unit {0}
AllDigits (c ∷ s) = (b'0' ≤ c) × (c ≤ b'9') × AllDigits s

digits_from-AllDigits :
    (fuel n : ℕ) (acc : Text) → AllDigits acc → AllDigits (digits_from fuel n acc)
unfolding digits_from
digits_from-AllDigits zero n acc h = h
digits_from-AllDigits (suc fuel) n acc h =
    ground (arith, digits_from-AllDigits fuel (n / 10) ((b'0' + n % 10) ∷ acc))

pub to_string-AllDigits : (n : ℕ) → AllDigits (to_string n)
unfolding to_string
to_string-AllDigits n = digits_from-AllDigits 10 n [] tt

length-digits_from-le :
    (k fuel n : ℕ) (acc : Text)
    → n < 10 ^ suc k
    → length (digits_from fuel n acc) ≤ suc k + length acc
unfolding digits_from
length-digits_from-le k zero n acc h = omega arith
length-digits_from-le zero (suc fuel) n acc h = ground (arith)
length-digits_from-le (suc k) (suc fuel) n acc h = ground (
  arith,
  length-digits_from-le k fuel (n / 10) ((b'0' + n % 10) ∷ acc) (omega (arith, pow-suc 10 (suc k))),
)

pub length-to_string-le : (n : ℕ) → n < 100000 → length (to_string n) ≤ 5
unfolding to_string
length-to_string-le n h = length-digits_from-le 4 10 n [] h

to_string_runs : to_string 4096 ≡ codes "4096"
unfolding to_string
to_string_runs = refl
