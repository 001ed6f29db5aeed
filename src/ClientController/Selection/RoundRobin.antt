-- ===== src/ClientController/Selection/RoundRobin.antt =====
-- The turns that the candidates of one verb and tag take.
use mathlib.Core.List.{append-nil, map-append}
use native.Mathlib.Nat.{mod-eq_of_lt, mod_self, suc-add, zero-add}
use native.Mathlib.Numerals.{add-one}
use drachtio_server.Common.{
  ℕ, zero, suc, ◌+◌, ◌<◌, ◌%◌, ◌≡◌, refl, sym, ap, ap₂, take-append-drop, ◌∙◌, drop-append, Option,
  some, List, [], ◌∷◌, ◌++◌, map, length, length-append, take, drop, length-drop, Text, text_eq_iff,
  get_elem?-drop, arith,
}
use drachtio_server.Common.Dict
use drachtio_server.ClientController.{Controller, Live}
use drachtio_server.ClientController.Selection.{select_client, offset_key, offset_at, to_lower}
use drachtio_server.ClientController.Selection.Candidates.{
  candidates, choose, pruned, select_client-choose, candidates-pruned, choose-request_types,
}

-- That many selections in a row, for the same keyword and tag.
pub select_times : ℕ → Live → Text → Option Text → Controller → List (Option ℕ) × Controller
select_times zero live keyword tag s = ([], s)
select_times (suc n) live keyword tag s =
    let (c, t) = select_client live keyword tag s in
    let (cs, u) = select_times n live keyword tag t in (c ∷ cs, u)

choose-turn :
    (cs : List ℕ) (key : Text) (s : Controller) (n c : ℕ) (rest : List ℕ)
    → offset_at key s % length cs ≡ n
    → drop n cs ≡ c ∷ rest
    → ((choose cs key s).0 ≡ some c) × (offset_at key (choose cs key s).1 ≡ n + 1)
choose-turn [] key s n c rest e d = absurd (omega (arith, ap length d, length-drop {A = ℕ} n []))
choose-turn (b ∷ cs) key s n c rest e d =
    let (found, _) = get_elem?-drop n (b ∷ cs) c rest d in
    (
      rw e found,
      ground (
        arith,
        text_eq_iff key key,
        Dict.find-assign key key (offset_at key s % length (b ∷ cs) + 1) s.offsets,
      ),
    )

module _ (live : Live) (keyword : Text) (tag : Option Text) where
  abbrev key : Text
  key = offset_key (map to_lower keyword) tag

  abbrev candidates_of : Controller → List ℕ
  candidates_of s = candidates live (map to_lower keyword) tag s.request_types

  -- One selection, where the offset points at a candidate.
  select_client-turn :
      (s : Controller) (n : ℕ) (c : ℕ) (rest : List ℕ)
      → offset_at key s % length (candidates_of s) ≡ n
      → drop n (candidates_of s) ≡ c ∷ rest
      → let r = select_client live keyword tag s in
        (r.0 ≡ some c) × (candidates_of r.1 ≡ candidates_of s) × (offset_at key r.1 ≡ n + 1)
  select_client-turn s n c rest e d =
      let t = pruned live (map to_lower keyword) s in
      rw (select_client-choose live keyword tag s) (
        (choose-turn (candidates_of s) key t n c rest e d).0,
        rw (choose-request_types (candidates_of s) key t)
            (candidates-pruned live (map to_lower keyword) (map to_lower keyword) tag s),
        (choose-turn (candidates_of s) key t n c rest e d).1,
      )

  -- As many selections as candidates are left from the offset on.
  select_times-run :
      (xs rest : List ℕ) (s : Controller) (n : ℕ)
      → offset_at key s % length (candidates_of s) ≡ n
      → drop n (candidates_of s) ≡ xs ++ rest
      → 0 < length xs
      → let r = select_times (length xs) live keyword tag s in
        (r.0 ≡ map some xs)
        × (candidates_of r.1 ≡ candidates_of s)
        × (offset_at key r.1 ≡ n + length xs)
  unfolding select_times
  select_times-run [] rest s n e d l = absurd (omega arith)
  select_times-run (x ∷ []) rest s n e d l =
      let (a, b, c) = select_client-turn s n x rest e d in (ap (λ r. r ∷ []) a, b, c)
  select_times-run (x ∷ y ∷ xs) rest s n e d l =
      let t = (select_client live keyword tag s).1 in
      let (a, b, c) = select_client-turn s n x (y ∷ (xs ++ rest)) e d in
      let fits : n + 1 < length (candidates_of s) =
        omega (arith, ap length d, length-drop n (candidates_of s)) in
      let e' : offset_at key t % length (candidates_of t) ≡ n + 1 = rw (b, c) (mod-eq_of_lt fits) in
      let d' : drop (n + 1) (candidates_of t) ≡ y ∷ (xs ++ rest) =
        rw (b, add-one) (get_elem?-drop n (candidates_of s) x (y ∷ (xs ++ rest)) d).1 in
      let (a', b', c') = select_times-run (y ∷ xs) rest t (n + 1) e' d' (omega arith) in
      (cc, b' ∙ b, omega arith)

  select_times-add :
      (m n : ℕ) (s : Controller)
      → let r = select_times m live keyword tag s in
        let q = select_times n live keyword tag r.1 in
        select_times (m + n) live keyword tag s ≡ (r.0 ++ q.0, q.1)
  unfolding select_times
  select_times-add zero n s = rw zero-add
  select_times-add (suc m) n s =
      rw (suc-add) (rw (select_times-add m n (select_client live keyword tag s).1))

  -- The selections after the last candidate start with the first.
  select_times-wrapped :
      (ys xs : List ℕ) (s : Controller)
      → candidates_of s ≡ ys ++ xs
      → offset_at key s ≡ length (candidates_of s)
      → (select_times (length ys) live keyword tag s).0 ≡ map some ys
  unfolding select_times
  select_times-wrapped [] xs s e o = refl
  select_times-wrapped (y ∷ ys) xs s e o =
      (select_times-run (y ∷ ys) xs s 0
        (ap (λ (t : ℕ). t % length (candidates_of s)) o ∙ mod_self (length (candidates_of s))) e
        (omega arith)).0

  select_times-split :
      (s : Controller) (ys xs : List ℕ)
      → candidates_of s ≡ ys ++ xs
      → offset_at key s % length (candidates_of s) ≡ length ys
      → 0 < length xs
      → (select_times (length xs + length ys) live keyword tag s).0 ≡ map some (xs ++ ys)
  select_times-split s ys xs e o l =
      let at : drop (length ys) (candidates_of s) ≡ xs ++ [] =
        rw (e, append-nil) (drop-append ys xs) in
      let (a, b, c) = select_times-run xs [] s (length ys) o at l in
      let t = (select_times (length xs) live keyword tag s).1 in
      let total : offset_at key t ≡ length (candidates_of t) =
        rw b (omega (arith, c, ap length e, length-append ys xs)) in
      rw (select_times-add (length xs) (length ys) s, map-append)
        (ap₂ ◌++◌ a (select_times-wrapped ys xs t (b ∙ e) total))

  rotate-nil :
      (n : ℕ) (s : Controller)
      → (select_times 0 live keyword tag s).0 ≡ map some (drop n [] ++ take n [])
  unfolding select_times
  rotate-nil zero s = refl
  rotate-nil (suc n) s = refl

  rotate :
      (s : Controller) (cs : List ℕ) (n : ℕ)
      → candidates_of s ≡ cs
      → offset_at key s % length cs ≡ n
      → (select_times (length cs) live keyword tag s).0 ≡ map some (drop n cs ++ take n cs)
  rotate s [] n e o = rotate-nil n s
  rotate s (c ∷ cs) n e o =
      let whole = take-append-drop n (c ∷ cs) in
      let size = length-append (take n (c ∷ cs)) (drop n (c ∷ cs)) in
      let left : length (c ∷ cs) ≡ length (drop n (c ∷ cs)) + length (take n (c ∷ cs)) =
        omega (arith, ap length whole, size) in
      let before : length (take n (c ∷ cs)) ≡ n =
        omega (arith, ap length whole, size, length-drop n (c ∷ cs)) in
      rw left (
        select_times-split s (take n (c ∷ cs)) (drop n (c ∷ cs)) (e ∙ sym whole) (rw (before, e) o)
          (omega (arith, left, before)))

  -- As many selections in a row as there are candidates give each of them once: those from the offset
  -- on, in the order of the table, and then those before it.
  pub select_times-rotate :
      (s : Controller)
      → let cs = candidates_of s in
        let n = offset_at key s % length cs in
        (select_times (length cs) live keyword tag s).0 ≡ map some (drop n cs ++ take n cs)
  select_times-rotate s = rotate s (candidates_of s) _ refl refl
