-- ===== src/TimerQueue/Runs.antt =====
-- Runs of `doTimer` one after the other, as the `su_timer` makes them while it is set for a time that
-- has passed.
use Prim.{Unit, tt}
use drachtio_server.Common.{
  ℕ, zero, suc, ◌-◌, ◌<◌, ◌≡◌, refl, ap, ◌∙◌, false, Option, none, some, List, [], ◌∷◌, ◌++◌, arith,
  ◌==◌, length, Bool-cases, inl, inr,
}
use drachtio_server.TimerQueue.{
  Heap, set_next, set_prev, TimerQueue, new_head, expire_entry, set_for, do_timer,
}
use drachtio_server.TimerQueue.Chain.{Holds}
use drachtio_server.TimerQueue.Expiry.{start, after, after-Holds, do_timer-after}

-- The same entries but for their pointers.
abbrev pub SameTimers : Heap → Heap → Type 0
SameTimers h h' = (x : ℕ) → ((h' x).when ≡ (h x).when) × ((h' x).callback ≡ (h x).callback)

set_next-SameTimers : (a : ℕ) (p : Option ℕ) (h : Heap) → SameTimers h (set_next a p h)
set_next-SameTimers a p h x = elim (Bool-cases (x == a)) [
  | inl e ↦ let n : a ≡ x = ground arith in rw (e, n) (refl, refl)
  | inr e ↦ rw e (refl, refl)
]

set_prev-SameTimers : (a : ℕ) (p : Option ℕ) (h : Heap) → SameTimers h (set_prev a p h)
set_prev-SameTimers a p h x = elim (Bool-cases (x == a)) [
  | inl e ↦ let n : a ≡ x = ground arith in rw (e, n) (refl, refl)
  | inr e ↦ rw e (refl, refl)
]

new_head-SameTimers : (o : Option ℕ) (q : TimerQueue) → SameTimers q.heap (new_head o q).heap
new_head-SameTimers none q x = (refl, refl)
new_head-SameTimers (some b) q x = set_prev-SameTimers b none q.heap x

expire_entry-SameTimers :
    (a : ℕ) (q : TimerQueue) → SameTimers q.heap (expire_entry a (start q)).queue.heap
unfolding expire_entry
expire_entry-SameTimers a q x =
    let q' = new_head (q.heap a).next (record q { length = q.length - 1 }) in
    let u = set_next-SameTimers a none (set_prev a none q'.heap) x in
    let v = set_prev-SameTimers a none q'.heap x in
    let w = new_head-SameTimers (q.heap a).next (record q { length = q.length - 1 }) x in
    (u.0 ∙ v.0 ∙ w.0, u.1 ∙ v.1 ∙ w.1)

set_for-SameTimers : (o : Option ℕ) (q : TimerQueue) → SameTimers q.heap (set_for o q).heap
set_for-SameTimers none q x = (refl, refl)
set_for-SameTimers (some a) q x = (refl, refl)

after-SameTimers : (a : ℕ) (q : TimerQueue) → SameTimers q.heap (after a q).heap
after-SameTimers a q x =
    let s = (expire_entry a (start q)).queue in
    let u = set_for-SameTimers s.head s x in
    let v = expire_entry-SameTimers a q x in (u.0 ∙ v.0, u.1 ∙ v.1)

new_head-in_timer : (o : Option ℕ) (q : TimerQueue) → (new_head o q).in_timer ≡ q.in_timer
new_head-in_timer none q = refl
new_head-in_timer (some b) q = refl

set_for-in_timer : (o : Option ℕ) (q : TimerQueue) → (set_for o q).in_timer ≡ q.in_timer
set_for-in_timer none q = refl
set_for-in_timer (some a) q = refl

after-in_timer : (a : ℕ) (q : TimerQueue) → (after a q).in_timer ≡ q.in_timer
unfolding expire_entry
after-in_timer a q =
    let s = (expire_entry a (start q)).queue in
    set_for-in_timer s.head s
    ∙ new_head-in_timer (q.heap a).next (record q { length = q.length - 1 })

-- The callbacks of `n` runs, and the queue that they leave.
pub after_run : Option (List ℕ × TimerQueue) → List ℕ → Option (List ℕ × TimerQueue)
after_run none cs = none
after_run (some (ds, q)) cs = some (cs ++ ds, q)

unfoldable pub runs : ℕ → ℕ → TimerQueue → Option (List ℕ × TimerQueue)
unfolding after_run
runs zero now q = some ([], q)
runs (suc n) now q = elim (do_timer now q) [
  | none ↦ none
  | some (cs, q') ↦ after_run (runs n now q') cs
]

abbrev pub AllBefore : ℕ → Heap → List ℕ → Type 0
AllBefore now h [] = Unit {0}
AllBefore now h (x ∷ xs) = ((h x).when < now) × AllBefore now h xs

AllBefore-same :
    (now : ℕ) (h h' : Heap) (xs : List ℕ)
    → SameTimers h h'
    → AllBefore now h xs
    → AllBefore now h' xs
AllBefore-same now h h' [] same l = tt
AllBefore-same now h h' (x ∷ xs) same (l, ls) =
    (omega (arith, (same x).0, l), AllBefore-same now h h' xs same ls)

abbrev pub callbacks_of : Heap → List ℕ → List ℕ
callbacks_of h [] = []
callbacks_of h (x ∷ xs) = (h x).callback ∷ callbacks_of h xs

callbacks_of-same :
    (h h' : Heap) (xs : List ℕ) → SameTimers h h' → callbacks_of h' xs ≡ callbacks_of h xs
callbacks_of-same h h' [] same = refl
callbacks_of-same h h' (x ∷ xs) same =
    rw ((same x).1) (ap (◌∷◌ (h x).callback) (callbacks_of-same h h' xs same))

-- While nothing is added or removed and no run is under way, as many runs as there are entries, all of
-- which have expired, call each callback once, in the order of the queue, and leave the queue empty.
pub runs-all :
    (now : ℕ) (xs : List ℕ) (q : TimerQueue)
    → Holds q xs
    → q.in_timer ≡ false
    → AllBefore now q.heap xs
    → (q' : TimerQueue) × (runs (length xs) now q ≡ some (callbacks_of q.heap xs, q')) × Holds q' []
unfolding runs after_run
runs-all now [] q holds i l = (q, refl, holds)
runs-all now (a ∷ xs) q holds i (l, ls) =
    let same = after-SameTimers a q in
    let (q', e, h) =
      runs-all now xs (after a q) (after-Holds a xs q holds) (after-in_timer a q ∙ i)
        (AllBefore-same now q.heap (after a q).heap xs same ls) in
    (
      q',
      ap (λ r. elim r [ none ↦ none | some (cs, t) ↦ after_run (runs (length xs) now t) cs ])
            (do_timer-after now a xs q holds i l)
          ∙ ap (λ r. after_run r ((q.heap a).callback ∷ [])) e
          ∙ ap (λ ds. some ((q.heap a).callback ∷ ds, q'))
              (callbacks_of-same q.heap (after a q).heap xs same),
      h,
    )
