-- ===== src/Drachtio/Addresses.antt =====
-- `isRfc1918` of src/drachtio.cpp. Tokens and numbers are Boost's, and parameters.
use drachtio_server.Common.{
  ℕ, Bool, false, ◌&&◌, ◌||◌, Option, none, some, List, [], ◌∷◌, ◌==◌, ltb, Text,
}

-- The numbers of a host; none where one of its parts is no number.
unfoldable pub numbers : (Text → Option ℕ) → List Text → Option (List ℕ)
numbers number [] = some []
numbers number (t ∷ ts) =
    let rest = numbers number ts in
    elim (number t) [ none ↦ none | some n ↦ elim rest [ none ↦ none | some ns ↦ some (n ∷ ns) ] ]

-- The test of the second number of class B is the code's.
abbrev pub is_private : List ℕ → Bool
is_private (a ∷ b ∷ c ∷ d ∷ []) =
    a == 10 || ((a == 172 && (ltb 15 b || ltb b 32)) || (a == 192 && b == 168))
is_private ns = false

unfoldable pub is_rfc1918 : (Text → List Text) → (Text → Option ℕ) → Text → Bool
unfolding numbers
is_rfc1918 tokens number host = elim (numbers number (tokens host)) [
  | none ↦ false
  | some ns ↦ is_private ns
]
