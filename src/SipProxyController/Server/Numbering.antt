-- ===== src/SipProxyController/Server/Numbering.antt =====
-- The numbers of reliable provisional responses: what a PRACK's number is turned back into.
use native.Mathlib.Nat.{mod-eq_of_lt}
use drachtio_server.Common.{
  ℕ, ◌+◌, ◌%◌, ◌^◌, ◌≤◌, ◌<◌, ◌≡◌, refl, true, false, none, some, List, ◌∷◌, arith, ◌==◌, lt→ltb,
}
use drachtio_server.SipProxyController.{Response}
use drachtio_server.SipProxyController.Server.{
  ServerTransaction, find_rseq, get_replaced_rseq, first_rseq, number_response,
}

-- The numbers given so far go up to `last`.
abbrev pub AreUpTo : ℕ → List (ℕ × ℕ) → Type 0
AreUpTo last m = (k : ℕ) → last < k → find_rseq k m ≡ none

find_rseq_self : (k v : ℕ) (m : List (ℕ × ℕ)) → find_rseq k ((k, v) ∷ m) ≡ some v
find_rseq_self k v m = let e : (k == k) ≡ true = ground arith in rw e refl

-- A reliable provisional response is sent upstream with the next number, which a PRACK for that number
-- is turned back from into the number it came with; the numbers given before keep their originals.
-- The number must fit the 32 bits.
pub number_response-get_replaced_rseq :
    (random original : ℕ) (s : ServerTransaction) (r : Response)
    → AreUpTo s.rseq s.replaced
    → r.rseq ≡ some original
    → r.status < 200
    → first_rseq random s.rseq + 1 < 2 ^ 32
    → (s' : ServerTransaction) × (r' : Response) × (number_response random s r ≡ (s', r'))
      × (r'.rseq ≡ some s'.rseq)
      × (get_replaced_rseq s' s'.rseq ≡ original)
      × ((k : ℕ) → k ≤ s.rseq → get_replaced_rseq s' k ≡ get_replaced_rseq s k)
      × AreUpTo s'.rseq s'.replaced
unfolding number_response get_replaced_rseq
number_response-get_replaced_rseq random original s r u e l w =
    let next : ℕ = first_rseq random s.rseq + 1 in
    let m : next % 2 ^ 32 ≡ next = mod-eq_of_lt w in
    let above : s.rseq < next = ground arith in
    let fresh : find_rseq next s.replaced ≡ none = u next above in
    (
      record s { rseq = next; replaced = (next, original) ∷ s.replaced },
      record r { rseq = some next },
      rw (e, lt→ltb r.status 200 l, m, fresh) refl,
      refl,
      rw (get_replaced_rseq, find_rseq_self next original s.replaced) refl,
      (λ k k-le. let n : (next == k) ≡ false = ground arith in rw (get_replaced_rseq, n) refl),
      (λ k lt-k. let n : (next == k) ≡ false = ground arith in rw (n, u k (omega arith)) refl),
    )
