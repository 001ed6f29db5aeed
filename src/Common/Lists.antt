-- ===== src/Common/Lists.antt =====
-- Lists measured by native numbers, under the library's names.
use Prim.Native.Nat.{ℕ, zero, suc, ◌+◌, ◌-◌, ◌≤◌, ◌<◌}
use mathlib.Core.Path.{◌≡◌, refl, ap}
use mathlib.Core.Bool.{Bool, true, false}
use mathlib.Core.List.{List, [], ◌∷◌, ◌++◌}
use mathlib.Core.Option.{Option, none, some}
use native.Mathlib.Omega.{arith}
use drachtio_server.Common.Tests.{if◌then◌else◌}

module _ {ℓ} {A : Type ℓ} where
  abbrev pub length : List A → ℕ
  length [] = 0
  length (x ∷ xs) = suc (length xs)

  abbrev pub take : ℕ → List A → List A
  take zero xs = []
  take (suc n) [] = []
  take (suc n) (x ∷ xs) = x ∷ take n xs

  abbrev pub drop : ℕ → List A → List A
  drop zero xs = xs
  drop (suc n) [] = []
  drop (suc n) (x ∷ xs) = drop n xs

  abbrev pub get_elem? : List A → ℕ → Option A
  get_elem? [] i = none
  get_elem? (x ∷ xs) zero = some x
  get_elem? (x ∷ xs) (suc i) = get_elem? xs i

  abbrev pub is_empty : List A → Bool
  is_empty [] = true
  is_empty (x ∷ xs) = false

  -- The entries that pass a test.
  abbrev pub keep_if : (A → Bool) → List A → List A
  keep_if p [] = []
  keep_if p (x ∷ xs) = if p x then x ∷ keep_if p xs else keep_if p xs

  pub length-append : (xs ys : List A) → length (xs ++ ys) ≡ length xs + length ys
  length-append [] ys = omega arith
  length-append (x ∷ xs) ys = omega (arith, length-append xs ys)

  pub length-drop : (n : ℕ) (xs : List A) → length (drop n xs) ≡ length xs - n
  length-drop zero xs = omega arith
  length-drop (suc n) [] = omega arith
  length-drop (suc n) (x ∷ xs) = omega (arith, length-drop n xs)

  pub get_elem?-some : (xs : List A) (i : ℕ) → i < length xs → (x : A) × (get_elem? xs i ≡ some x)
  get_elem?-some [] i l = absurd (omega arith)
  get_elem?-some (x ∷ xs) zero l = (x, refl)
  get_elem?-some (x ∷ xs) (suc i) l = get_elem?-some xs i (omega arith)

  pub get_elem?-drop :
      (n : ℕ) (xs : List A) (x : A) (rest : List A)
      → drop n xs ≡ x ∷ rest
      → (get_elem? xs n ≡ some x) × (drop (suc n) xs ≡ rest)
  get_elem?-drop zero [] x rest e = cc
  get_elem?-drop zero (y ∷ xs) x rest e = (cc, cc)
  get_elem?-drop (suc n) [] x rest e = cc
  get_elem?-drop (suc n) (y ∷ xs) x rest e = get_elem?-drop n xs x rest e

  pub take-append-drop : (n : ℕ) (xs : List A) → take n xs ++ drop n xs ≡ xs
  take-append-drop zero xs = refl
  take-append-drop (suc n) [] = refl
  take-append-drop (suc n) (x ∷ xs) = ap (◌∷◌ x) (take-append-drop n xs)

  pub take-append : (xs ys : List A) → take (length xs) (xs ++ ys) ≡ xs
  take-append [] ys = refl
  take-append (x ∷ xs) ys = ap (◌∷◌ x) (take-append xs ys)

  pub drop-append : (xs ys : List A) → drop (length xs) (xs ++ ys) ≡ ys
  drop-append [] ys = refl
  drop-append (x ∷ xs) ys = drop-append xs ys

  -- One list cut in two ways: the longer first part is the shorter one and more.
  pub append_split :
      (have future part rest : List A)
      → have ++ future ≡ part ++ rest
      → length part ≤ length have
      → (tail : List A) × (have ≡ part ++ tail) × (tail ++ future ≡ rest)
  append_split have future [] rest e l = (have, refl, e)
  append_split [] future (x ∷ part) rest e l = absurd (omega arith)
  append_split (y ∷ have) future (x ∷ part) rest e l =
      let (tail, p, q) = append_split have future part rest (cc) (omega arith) in (tail, cc, q)

  pub length-keep_if-le : (p : A → Bool) (xs : List A) → length (keep_if p xs) ≤ length xs
  length-keep_if-le p [] = omega arith
  length-keep_if-le p (x ∷ xs) = ground (arith, length-keep_if-le p xs)

  pub keep_if-keep_if : (p : A → Bool) (xs : List A) → keep_if p (keep_if p xs) ≡ keep_if p xs
  keep_if-keep_if p [] = refl
  keep_if-keep_if p (x ∷ xs) = ground (arith, keep_if-keep_if p xs)

-- `std::sort` by a comparison, where none is undefined behaviour: of at most one element nothing is
-- compared and nothing moved, whatever the comparison.
pub record SortsFew {ℓ} {A : Type ℓ} (sort : List A → Option (List A)) : Type ℓ where
  pub nothing : sort [] ≡ some []
  pub one : (x : A) → sort (x ∷ []) ≡ some (x ∷ [])
