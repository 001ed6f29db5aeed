-- ===== src/TimerQueue/Expiry.antt =====
-- What `doTimer` does to a queue whose first entry has expired.
use Prim.{tt}
use drachtio_server.Common.{
  ℕ, suc, ◌+◌, ◌<◌, ◌≡◌, ◌≢◌, refl, ap, ◌∙◌, true, false, Option, none, some, List, [], ◌∷◌, arith,
  ◌==◌, ltb, if◌then◌else◌, length,
}
use drachtio_server.TimerQueue.{
  Heap, set_next, set_prev, TimerQueue, Expired, expire_entry, expire, callbacks, finish, set_for,
  set_alarm, do_timer,
}
use drachtio_server.TimerQueue.Chain.{NotIn, Segment, Holds, Segment-write}

abbrev pub start : TimerQueue → Expired
start q = record { queue = q; bounds = none }

-- The entry taken out first points nowhere, so the loop ends after it.
expire-once :
    (fuel now a : ℕ) (q : TimerQueue)
    → (q.heap a).when < now
    → expire (suc (suc fuel)) now (some a) (start q) ≡ some (expire_entry a (start q))
unfolding expire expire_entry
expire-once fuel now a q l =
    let e : ltb (q.heap a).when now ≡ true = ground arith in
    let e' : (a == a) ≡ true = ground arith in rw (e, e') refl

-- Taking the first entry out of a chain: the queue holds the others, and the entry's own callback
-- stays.
abbrev Took : ℕ → List ℕ → TimerQueue → Expired → Type 0
Took a xs q s =
    Holds s.queue xs
    × ((s.queue.heap a).callback ≡ (q.heap a).callback)
    × ((s.queue.heap a).next ≡ none)
    × (s.bounds ≡ some (a, a))

chain-left :
    (a b : ℕ) (xs : List ℕ) (h : Heap) (tail : Option ℕ)
    → b ≢ a
    → NotIn a xs
    → NotIn b xs
    → Segment h (some b) (h b).next tail none xs
    → Segment
        (set_next a none (set_prev a none (set_prev b none h)))
        none
        (some b)
        tail
        none
        (b ∷ xs)
chain-left a b xs h tail n ns m s =
    let h1 = set_prev b none h in
    let h2 = set_prev a none h1 in
    let e : (b == a) ≡ false = ground arith in
    let e' : (b == b) ≡ true = ground arith in
    (
      refl,
      rw (e, e') refl,
      rw (e, e')
          (Segment-write a _ h2 (some b) (h b).next tail none xs ns (
            Segment-write a _ h1 (some b) (h b).next tail none xs ns
              (Segment-write b _ h (some b) (h b).next tail none xs m s))),
    )

took :
    (a : ℕ) (xs : List ℕ) (q : TimerQueue)
    → Holds q (a ∷ xs)
    → Took a xs q (expire_entry a (start q))
unfolding expire_entry
took a [] q holds =
    let (c0, c1, (c2, c3)) = holds.chain in
    let e : (a == a) ≡ true = ground arith in
    rw (c2, e)
      (
        record { chain = (refl, refl); counted = omega (arith, holds.counted); distinct = tt },
        refl,
        refl,
        refl,
      )
took a (b ∷ xs) q holds =
    let (c0, c1, (c2, c3, c4)) = holds.chain in
    let ((n, ns), (m, d)) = holds.distinct in
    let e : (a == a) ≡ true = ground arith in
    let e' : (a == b) ≡ false = ground arith in
    (
      rw c2 (record {
        chain = chain-left a b xs q.heap q.tail n ns m c4;
        counted = omega (arith, holds.counted);
        distinct = (m, d);
      }),
      rw (c2, e, e') refl,
      rw (c2, e) refl,
      refl,
    )

finish-one :
    (n a : ℕ) (xs : List ℕ) (s : Expired)
    → Holds s.queue xs
    → (s.queue.heap a).next ≡ none
    → s.bounds ≡ some (a, a)
    → finish (suc (suc n)) (some s) ≡ some ((s.queue.heap a).callback ∷ [], set_alarm s.queue)
unfolding callbacks
finish-one n a [] s holds e f = rw (holds.chain.0, holds.counted, f, e) refl
finish-one n a (b ∷ xs) s holds e f = rw (holds.chain.0, f, e) refl

set_for-Holds : (o : Option ℕ) (q : TimerQueue) (xs : List ℕ) → Holds q xs → Holds (set_for o q) xs
set_for-Holds none q xs holds = holds
set_for-Holds (some a) q xs holds = record {
  chain = holds.chain;
  counted = holds.counted;
  distinct = holds.distinct;
}

set_for-first :
    (o : Option ℕ) (q : TimerQueue) (b : ℕ)
    → o ≡ q.head
    → (set_for o q).head ≡ some b
    → (set_for o q).alarm ≡ some ((set_for o q).heap b).when
set_for-first none q b e h = cc
set_for-first (some a) q b e h =
    let n : a ≡ b = ground (arith, e ∙ h) in ap (λ c. some (q.heap c).when) n

-- The queue that is left.
abbrev pub after : ℕ → TimerQueue → TimerQueue
after a q = set_alarm (expire_entry a (start q)).queue

pub after-Holds : (a : ℕ) (xs : List ℕ) (q : TimerQueue) → Holds q (a ∷ xs) → Holds (after a q) xs
after-Holds a xs q holds =
    let s = (expire_entry a (start q)).queue in set_for-Holds s.head s xs (took a xs q holds).0

pub do_timer-after :
    (now a : ℕ) (xs : List ℕ) (q : TimerQueue)
    → Holds q (a ∷ xs)
    → q.in_timer ≡ false
    → (q.heap a).when < now
    → do_timer now q ≡ some ((q.heap a).callback ∷ [], after a q)
unfolding do_timer callbacks
do_timer-after now a xs q holds i l =
    let (h, c, n, f) = took a xs q holds in
    let s = expire_entry a (start q) in
    let e : q.length + 1 ≡ suc (suc (length xs)) = omega (arith, holds.counted) in
    let r = expire-once (length xs) now a q l in
    let go : Option ℕ → Option (List ℕ × TimerQueue) =
      λ o. finish (q.length + 1) (expire (q.length + 1) now o (start q)) in
    ap (λ t. if t then some ([], q) else elim q.head [ none ↦ none | some a ↦ go (some a) ]) i
    ∙ ap (λ o. elim o [ none ↦ none | some a ↦ go (some a) ]) holds.chain.0
    ∙ ap (λ n. finish n (expire n now (some a) (start q))) e
    ∙ ap (finish (suc (suc (length xs)))) r
    ∙ finish-one (length xs) a xs s h n f
    ∙ ap (λ k. some (k ∷ [], set_alarm s.queue)) c

-- Where no run is under way and the first entry has expired, `doTimer` runs its callback and no other,
-- even where more entries have expired: the queue then holds the entries after it, and if there are
-- any, the `su_timer` is set for the first of these.
pub do_timer-expired :
    (now a : ℕ) (xs : List ℕ) (q : TimerQueue)
    → Holds q (a ∷ xs)
    → q.in_timer ≡ false
    → (q.heap a).when < now
    → (q' : TimerQueue) × (do_timer now q ≡ some ((q.heap a).callback ∷ [], q'))
      × Holds q' xs
      × ((b : ℕ) → q'.head ≡ some b → q'.alarm ≡ some (q'.heap b).when)
do_timer-expired now a xs q holds i l =
    let s = (expire_entry a (start q)).queue in
    (
      after a q,
      do_timer-after now a xs q holds i l,
      after-Holds a xs q holds,
      λ b. set_for-first s.head s b refl,
    )
