-- ===== src/Common/Dict.antt =====
-- `std::unordered_map` with string keys, as an association list. The program never depends on the
-- order of the entries. `insert` keeps an entry that is there; `assign` is `m[k] = v`.
use mathlib.Core.Path.{◌≡◌}
use mathlib.Core.Logic.{◌≢◌, ◌⊎◌}
use mathlib.Core.List.{List, [], ◌∷◌}
use mathlib.Core.Option.{Option, none, some}
use native.Mathlib.Omega.{arith}
use drachtio_server.Common.Tests.{if◌then◌else◌, or_else}
use drachtio_server.Common.Texts.{Text, text_eq, text_eq_iff, text_eq_self}

abbrev pub Dict {ℓ} : Type ℓ → Type ℓ
Dict V = List (Text × V)

module _ {ℓ} {V : Type ℓ} where
  unfoldable pub find : Text → Dict V → Option V
  find k [] = none
  find k ((j, v) ∷ m) = if text_eq j k then some v else find k m

  unfoldable pub erase : Text → Dict V → Dict V
  erase k [] = []
  erase k ((j, v) ∷ m) = if text_eq j k then erase k m else (j, v) ∷ erase k m

  unfoldable pub insert : Text → V → Dict V → Dict V
  unfolding find
  insert k v m = elim (find k m) [ none ↦ (k, v) ∷ m | some w ↦ m ]

  unfoldable pub assign : Text → V → Dict V → Dict V
  unfolding erase
  assign k v m = (k, v) ∷ erase k m

  pub find-erase :
      (k j : Text) (m : Dict V) → find j (erase k m) ≡ (if text_eq k j then none else find j m)
  unfolding find erase
  find-erase k j [] = ground arith
  find-erase k j ((i, w) ∷ m) =
      ground (arith, text_eq_iff k j, text_eq_iff i k, text_eq_iff i j, find-erase k j m)

  pub find-insert :
      (k j : Text) (v : V) (m : Dict V)
      → find j (insert k v m) ≡ (if text_eq k j then or_else (find j m) (some v) else find j m)
  unfolding find insert
  find-insert k j v m = ground (arith, text_eq_iff k j)

  pub find-assign :
      (k j : Text) (v : V) (m : Dict V)
      → find j (assign k v m) ≡ (if text_eq k j then some v else find j m)
  unfolding find assign
  find-assign k j v m = ground (arith, find-erase k j m)

  pub find-erase_self : (k : Text) (m : Dict V) → find k (erase k m) ≡ none
  find-erase_self k m = rw (find-erase k k m, text_eq_self k)

  pub find-erase_ne : (k j : Text) (m : Dict V) → j ≢ k → find j (erase k m) ≡ find j m
  find-erase_ne k j m n = ground (arith, find-erase k j m, text_eq_iff k j)

  pub find-insert_ne : (k j : Text) (v : V) (m : Dict V) → j ≢ k → find j (insert k v m) ≡ find j m
  find-insert_ne k j v m n = ground (arith, find-insert k j v m, text_eq_iff k j)

  -- A new key gets its value; a key that is there keeps its own.
  pub find-insert_self :
      (k : Text) (v : V) (m : Dict V) → find k (insert k v m) ≡ or_else (find k m) (some v)
  find-insert_self k v m = rw (find-insert k k v m, text_eq_self k)

  pub find-insert_old :
      (k j : Text) (v w : V) (m : Dict V) → find j m ≡ some w → find j (insert k v m) ≡ some w
  find-insert_old k j v w m e = ground (arith, find-insert k j v m)

  -- An entry after inserting a new key is the new one or an old one.
  pub find-insert_cases :
      (k j : Text) (v w : V) (m : Dict V)
      → find k m ≡ none
      → find j (insert k v m) ≡ some w
      → ((k ≡ j) × (v ≡ w)) ⊎ (find j m ≡ some w)
  find-insert_cases k j v w m n e = ground (arith, find-insert k j v m, text_eq_iff k j)

  -- An entry after erasing a key is an old one of another key.
  pub find-erase_cases :
      (k j : Text) (w : V) (m : Dict V)
      → find j (erase k m) ≡ some w
      → (j ≢ k) × (find j m ≡ some w)
  find-erase_cases k j w m e = ground (arith, find-erase k j m, text_eq_iff k j)
