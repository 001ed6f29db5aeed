-- ===== src/TimerQueue/Remove.antt =====
-- What `remove` does to the first entry of a queue.
use Prim.{tt}
use drachtio_server.Common.{
  ℕ, ◌-◌, ◌≡◌, refl, ◌∙◌, Bool, true, false, not, ◌&&◌, Option, none, some, List, [], ◌∷◌, arith,
  ◌==◌, if◌then◌else◌, is_some, Bool-cases, inl, inr,
}
use drachtio_server.TimerQueue.{TimerQueue, points_to, new_head, reset_for, removed, remove}
use drachtio_server.TimerQueue.Chain.{Holds, Segment-write}

reset_for-Holds :
    (o next : Option ℕ) (q : TimerQueue) (xs : List ℕ) → Holds q xs → Holds (reset_for o next q) xs
reset_for-Holds none next q xs holds = record {
  chain = holds.chain;
  counted = holds.counted;
  distinct = holds.distinct;
}
reset_for-Holds (some a) next q xs holds = elim (Bool-cases (points_to next a)) [
  | inl e ↦
      rw e (record { chain = holds.chain; counted = holds.counted; distinct = holds.distinct })
  | inr e ↦ rw e holds
]

-- The queue without its first entry, before the `su_timer` is set.
abbrev without_first : Option ℕ → TimerQueue → TimerQueue
without_first next q = let q' = new_head next q in record q' { length = q'.length - 1 }

without_first-Holds :
    (a : ℕ) (xs : List ℕ) (q : TimerQueue)
    → Holds q (a ∷ xs)
    → Holds (without_first (q.heap a).next q) xs
without_first-Holds a [] q holds =
    let (c0, c1, (c2, c3)) = holds.chain in
    rw c2 (record { chain = (refl, refl); counted = omega (arith, holds.counted); distinct = tt })
without_first-Holds a (b ∷ xs) q holds =
    let (c0, c1, (c2, c3, c4)) = holds.chain in
    let ((n, ns), (m, d)) = holds.distinct in
    let e : (b == b) ≡ true = ground arith in
    rw c2 (record {
      chain = (
        refl,
        rw e refl,
        rw e (Segment-write b _ q.heap (some b) (q.heap b).next q.tail none xs m c4),
      );
      counted = omega (arith, holds.counted);
      distinct = (m, d);
    })

if-true : {A : Type 0} (b : Bool) (x y : A) → b ≡ true → (if b then x else y) ≡ x
if-true b x y e = rw e refl

if-false : {A : Type 0} (b : Bool) (x y : A) → b ≡ false → (if b then x else y) ≡ y
if-false b x y e = rw e refl

-- The assertion on the length holds where the first entry is the only one.
assertion-passed :
    (a : ℕ) (xs : List ℕ) (q : TimerQueue)
    → Holds q (a ∷ xs)
    → (not (is_some (q.heap a).next) && not (q.length == 1)) ≡ false
assertion-passed a [] q holds = rw (holds.chain.2.0, holds.counted) refl
assertion-passed a (b ∷ xs) q holds = rw holds.chain.2.0 refl

-- Removing the first entry of a queue leaves the entries after it, and fails no assertion.
pub remove-first :
    (a : ℕ) (xs : List ℕ) (q : TimerQueue)
    → Holds q (a ∷ xs)
    → (q' : TimerQueue) × (remove a q ≡ some q') × Holds q' xs
unfolding remove
remove-first a xs q holds =
    let e : (a == a) ≡ true = ground arith in
    let r = removed a (new_head (q.heap a).next q) in
    (
      r,
      if-true (points_to q.head a) _ _ (rw (holds.chain.0, e) refl)
          ∙ if-false (not (is_some (q.heap a).next) && not (q.length == 1)) none (some r)
              (assertion-passed a xs q holds),
      reset_for-Holds (new_head (q.heap a).next q).head ((new_head (q.heap a).next q).heap a).next
          (without_first (q.heap a).next q) xs (without_first-Holds a xs q holds),
    )
