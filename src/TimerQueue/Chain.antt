-- ===== src/TimerQueue/Chain.antt =====
-- What the pointers of a queue say: the list of its entries, from the first to the last.
use Prim.{Unit}
use drachtio_server.Common.{
  ℕ, ◌≡◌, ◌≢◌, false, Option, none, some, List, [], ◌∷◌, arith, ◌==◌, length,
}
use drachtio_server.TimerQueue.{Entry, Heap, write, TimerQueue}

abbrev pub NotIn : ℕ → List ℕ → Type 0
NotIn a [] = Unit {0}
NotIn a (x ∷ xs) = (x ≢ a) × NotIn a xs

abbrev pub NoDup : List ℕ → Type 0
NoDup [] = Unit {0}
NoDup (x ∷ xs) = NotIn x xs × NoDup xs

-- From the pointer `p`, whose entry points back to `prev`, the entries are these; the last of them,
-- or `prev` where there is none, is `last`, and its pointer on is `next`.
abbrev pub Segment : Heap → Option ℕ → Option ℕ → Option ℕ → Option ℕ → List ℕ → Type 0
Segment h prev p last next [] = (p ≡ next) × (last ≡ prev)
Segment h prev p last next (a ∷ xs) =
    (p ≡ some a) × ((h a).prev ≡ prev) × Segment h (some a) (h a).next last next xs

-- The queue has these entries, each once, and counts them.
pub record Holds (q : TimerQueue) (xs : List ℕ) : Type 0 where
  pub chain : Segment q.heap none q.head q.tail none xs
  pub counted : q.length ≡ length xs
  pub distinct : NoDup xs

pub write_other : (a x : ℕ) (e : Entry) (h : Heap) → x ≢ a → write a e h x ≡ h x
write_other a x e h n = let b : (x == a) ≡ false = ground arith in rw b

-- Writing an entry elsewhere.
pub Segment-write :
    (a : ℕ) (e : Entry) (h : Heap) (prev p last next : Option ℕ) (xs : List ℕ)
    → NotIn a xs
    → Segment h prev p last next xs
    → Segment (write a e h) prev p last next xs
Segment-write a e h prev p last next [] n s = s
Segment-write a e h prev p last next (x ∷ xs) (n, ns) (s0, s1, s2) =
    rw (write_other a x e h n) (s0, s1, Segment-write a e h (some x) (h x).next last next xs ns s2)
