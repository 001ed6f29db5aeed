-- ===== src/Common/Handles.antt =====
-- `std::unordered_map` with pointers as keys, as an association list over the numbers that stand for
-- them. `insert` keeps an entry that is there.
use Prim.Native.Nat.{ℕ}
use mathlib.Core.Path.{◌≡◌}
use mathlib.Core.List.{List, [], ◌∷◌}
use mathlib.Core.Option.{Option, none, some}
use native.Mathlib.Omega.{arith}
use drachtio_server.Common.Tests.{if◌then◌else◌, ◌==◌}

abbrev pub Handles {ℓ} : Type ℓ → Type ℓ
Handles V = List (ℕ × V)

module _ {ℓ} {V : Type ℓ} where
  unfoldable pub find : ℕ → Handles V → Option V
  find k [] = none
  find k ((j, v) ∷ m) = if j == k then some v else find k m

  unfoldable pub erase : ℕ → Handles V → Handles V
  erase k [] = []
  erase k ((j, v) ∷ m) = if j == k then erase k m else (j, v) ∷ erase k m

  unfoldable pub insert : ℕ → V → Handles V → Handles V
  unfolding find
  insert k v m = elim (find k m) [ none ↦ (k, v) ∷ m | some w ↦ m ]

  pub find-erase :
      (k j : ℕ) (m : Handles V) → find j (erase k m) ≡ (if k == j then none else find j m)
  unfolding find erase
  find-erase k j [] = ground arith
  find-erase k j ((i, w) ∷ m) = ground (arith, find-erase k j m)

  pub find-erase_self : (k : ℕ) (m : Handles V) → find k (erase k m) ≡ none
  find-erase_self k m = ground (arith, find-erase k k m)
