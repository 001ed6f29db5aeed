-- ===== src/TimerQueue/Add.antt =====
-- What `add` does to a queue that is not empty, at its end and on a tie with its end.
use Prim.{Unit, tt}
use drachtio_server.Common.{
  ℕ, zero, suc, ◌<◌, ◌≤◌, ◌≡◌, ◌≢◌, refl, sym, ap, ◌∙◌, true, false, Option, none, some, List, [],
  ◌∷◌, ◌++◌, arith, ◌==◌, ltb, if◌then◌else◌, length-append, subst,
}
use drachtio_server.TimerQueue.{
  Entry, Heap, write, set_next, set_prev, TimerQueue, find_later, append, place, counted, points_to,
  add,
}
use drachtio_server.TimerQueue.Chain.{NotIn, NoDup, Segment, Holds, write_other, Segment-write}

NotIn-snoc : (x a : ℕ) (xs : List ℕ) → NotIn x xs → a ≢ x → NotIn x (xs ++ a ∷ [])
NotIn-snoc x a [] n m = (m, tt)
NotIn-snoc x a (y ∷ xs) (n, ns) m = (n, NotIn-snoc x a xs ns m)

NoDup-snoc : (a : ℕ) (xs : List ℕ) → NoDup xs → NotIn a xs → NoDup (xs ++ a ∷ [])
NoDup-snoc a [] d n = (tt, tt)
NoDup-snoc a (x ∷ xs) (m, d) (n, ns) = (NotIn-snoc x a xs m (λ e. n (sym e)), NoDup-snoc a xs d ns)

-- The last entry is among the entries.
last-ne :
    (h : Heap) (x t : ℕ) (prev p next : Option ℕ) (y : ℕ) (ys : List ℕ)
    → Segment h prev p (some t) next (y ∷ ys)
    → NotIn x (y ∷ ys)
    → t ≢ x
last-ne h x t prev p next y [] (s0, s1, (s2, s3)) (n, ns) = ground (arith, s3)
last-ne h x t prev p next y (z ∷ ys) (s0, s1, s) (n, ns) =
    last-ne h x t (some y) (h y).next next z ys s ns

append-Segment :
    (a t : ℕ) (h : Heap) (prev p : Option ℕ) (x : ℕ) (xs : List ℕ)
    → Segment h prev p (some t) none (x ∷ xs)
    → NoDup (x ∷ xs)
    → NotIn a (x ∷ xs)
    → (h a).next ≡ none
    → Segment
        (set_next t (some a) (set_prev a (some t) h))
        prev
        p
        (some a)
        none
        (x ∷ (xs ++ a ∷ []))
append-Segment a t h prev p x [] (s0, s1, (s2, s3)) d (n, ns) e =
    let q : t ≡ x = ground (arith, s3) in
    let e1 : (x == x) ≡ true = ground arith in
    let e2 : (x == a) ≡ false = ground arith in
    let e3 : (a == x) ≡ false = ground arith in
    let e4 : (a == a) ≡ true = ground arith in
    rw (q, e1, e2, e3, e4) (s0, s1, (refl, refl, (e, refl)))
append-Segment a t h prev p x (y ∷ ys) (s0, s1, s) (m, d) (n, ns) e =
    let k : t ≢ x = last-ne h x t (some x) (h x).next none y ys s m in
    let e1 : (x == t) ≡ false = ground arith in
    let e2 : (x == a) ≡ false = ground arith in
    rw (e1, e2) (s0, s1, append-Segment a t h (some x) (h x).next y ys s d ns e)

-- All entries go off at the time given or before it.
abbrev pub NoLater : ℕ → Heap → List ℕ → Type 0
NoLater when h [] = Unit {0}
NoLater when h (x ∷ xs) = ((h x).when ≤ when) × NoLater when h xs

find_later-none :
    (fuel when : ℕ) (h : Heap) (prev p last : Option ℕ) (xs : List ℕ)
    → Segment h prev p last none xs
    → NoLater when h xs
    → find_later fuel h when p ≡ none
unfolding find_later
find_later-none zero when h prev p last xs s l = refl
find_later-none (suc fuel) when h prev p last [] (s0, s1) l = rw s0 refl
find_later-none (suc fuel) when h prev p last (x ∷ xs) (s0, s1, s) (l, ls) =
    let e : ltb when (h x).when ≡ false = ground arith in
    rw (s0, e) (find_later-none fuel when h (some x) (h x).next last xs s ls)

NoLater-write :
    (a when : ℕ) (e : Entry) (h : Heap) (xs : List ℕ)
    → NotIn a xs
    → NoLater when h xs
    → NoLater when (write a e h) xs
NoLater-write a when e h [] n l = tt
NoLater-write a when e h (x ∷ xs) (n, ns) (l, ls) =
    rw (write_other a x e h n) (l, NoLater-write a when e h xs ns ls)

place-append :
    (a when first t : ℕ) (q : TimerQueue)
    → q.head ≡ some first
    → q.tail ≡ some t
    → (q.heap t).when < when
    → place a when q ≡ some (append a t q)
unfolding place
place-append a when first t q h e l =
    let b : ltb (q.heap t).when when ≡ true = ground arith in rw (h, e, b) refl

place-tie :
    (a when first t : ℕ) (q : TimerQueue)
    → q.head ≡ some first
    → q.tail ≡ some t
    → when ≤ (q.heap t).when
    → find_later q.length q.heap when (some first) ≡ none
    → place a when q ≡ none
unfolding place
place-tie a when first t q h e l f =
    let b : ltb (q.heap t).when when ≡ false = ground arith in rw (h, e, b, f) refl

abbrev new_entry : ℕ → ℕ → Entry
new_entry callback when = record { when = when; next = none; prev = none; callback = callback }

-- A timer that goes off after the last one of a queue that is not empty is put at its end: the queue
-- holds the entries it held and then the new one, and the `su_timer` is left as it was set. The new
-- entry's address is none of those in the queue.
pub add-append :
    (a callback when t x : ℕ) (xs : List ℕ) (q : TimerQueue)
    → Holds q (x ∷ xs)
    → NotIn a (x ∷ xs)
    → q.tail ≡ some t
    → (q.heap t).when < when
    → (q' : TimerQueue) × (add a callback when q ≡ some q')
      × Holds q' (x ∷ (xs ++ a ∷ []))
      × (q'.alarm ≡ q.alarm)
unfolding add
add-append a callback when t x xs q holds n e l =
    let s = subst (λ o. Segment q.heap none q.head o none (x ∷ xs)) e holds.chain in
    let m = last-ne q.heap a t none q.head none x xs s n in
    let e1 : (t == a) ≡ false = ground arith in
    let e2 : (x == a) ≡ false = ground (arith, n.0) in
    let e3 : (a == a) ≡ true = ground arith in
    let h = write a (new_entry callback when) q.heap in
    let w =
      Segment-write a (new_entry callback when) q.heap none q.head (some t) none (x ∷ xs) n s in
    let later : (h t).when < when = rw e1 l in
    (
      _,
      ap (counted a when) (place-append a when x t (record q { heap = h }) holds.chain.0 e later),
      record {
        chain = append-Segment a t h none q.head x xs w holds.distinct n (rw e3 refl);
        counted = omega (arith, holds.counted, length-append xs (a ∷ []));
        distinct = NoDup-snoc a (x ∷ xs) holds.distinct n;
      },
      ap (λ o. if points_to o a then some when else q.alarm) holds.chain.0
          ∙ ap (λ b. if b then some when else q.alarm) e2,
    )

-- A timer that goes off at the very time of the last one, in a queue whose entries all go off by then,
-- fails the assertion at the end of the loop: it is neither after the last one nor before any.
pub add-tie :
    (a callback when t x : ℕ) (xs : List ℕ) (q : TimerQueue)
    → Holds q (x ∷ xs)
    → NotIn a (x ∷ xs)
    → q.tail ≡ some t
    → (q.heap t).when ≡ when
    → NoLater when q.heap (x ∷ xs)
    → add a callback when q ≡ none
unfolding add
add-tie a callback when t x xs q holds n e l late =
    let s = subst (λ o. Segment q.heap none q.head o none (x ∷ xs)) e holds.chain in
    let m = last-ne q.heap a t none q.head none x xs s n in
    let e1 : (t == a) ≡ false = ground arith in
    let h = write a (new_entry callback when) q.heap in
    let w =
      Segment-write a (new_entry callback when) q.heap none (some x) q.tail none (x ∷ xs) n
        (subst (λ o. Segment q.heap none o q.tail none (x ∷ xs)) holds.chain.0 holds.chain) in
    let earlier : when ≤ (h t).when = rw e1 (omega (arith, l)) in
    ap (counted a when) (
      place-tie a when x t (record q { heap = h }) holds.chain.0 e earlier
        (find_later-none q.length when h none (some x) q.tail (x ∷ xs) w
          (NoLater-write a when (new_entry callback when) q.heap (x ∷ xs) n late)))
