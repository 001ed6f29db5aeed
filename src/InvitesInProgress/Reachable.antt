-- ===== src/InvitesInProgress/Reachable.antt =====
-- What the calls of src/invite-in-progress.cpp keep: a transaction id stands for one entry.
use mathlib.Core.List.{Memᴰ}
use Prim.{Unit, tt}
use drachtio_server.Common.{
  ℕ, ◌≡◌, refl, sym, ap, ◌∙◌, subst, Bool, true, false, not, Option, none, some, List, [], ◌∷◌,
  ◌++◌, arith, ◌==◌, is_some, keep_if, if-cases, Bool-cases, inl, inr, Text, text_eq, text_eq_iff,
  text_eq_self,
}
use drachtio_server.InvitesInProgress.{
  Iip, Effect, find_entry, find_by_transaction_id, insert, modify, clear, add_reliable,
  destroy_reliable, has, destroy_all_reliables, modify_found, add_reliable_to, destroy_reliable_of,
}

-- The states that calls lead to, from the empty set.
pub data Reachable : List Iip → Type 0 where
  start : Reachable []
  inserted : (e : Iip) (s : List Iip) → Reachable s → Reachable (insert e s)
  cleared : (e : Iip) (s : List Iip) → Reachable s → Reachable (clear e s).0
  reliable_added :
      (e : Iip) (rel : Option ℕ) (s s' : List Iip)
      → Reachable s
      → add_reliable_to e rel s ≡ some s'
      → Reachable s'
  reliable_destroyed :
      (e : Iip) (rel : ℕ) (s s' : List Iip)
      → Reachable s
      → destroy_reliable_of e rel s ≡ some s'
      → Reachable s'

-- No entry has the id.
abbrev Lacks : Text → List Iip → Type 0
Lacks id [] = Unit {0}
Lacks id (e ∷ s) = (text_eq e.transaction_id id ≡ false) × Lacks id s

-- No two entries have an id in common.
abbrev Distinct : List Iip → Type 0
Distinct [] = Unit {0}
Distinct (e ∷ s) = Lacks e.transaction_id s × Distinct s

find-Lacks :
    (id : Text) (s : List Iip)
    → is_some (find_entry (λ e. text_eq e.transaction_id id) s) ≡ false
    → Lacks id s
find-Lacks id [] f = tt
find-Lacks id (e ∷ s) f = elim (Bool-cases (text_eq e.transaction_id id)) [
  | inl q ↦ absurd (ground (arith, rw q at f))
  | inr q ↦ (q, find-Lacks id s (rw q at f))
]

text_eq_flip : (s t : Text) → text_eq s t ≡ false → text_eq t s ≡ false
text_eq_flip s t e = ground (arith, text_eq_iff s t, text_eq_iff t s)

Lacks-append :
    (id : Text) (s : List Iip) (e : Iip)
    → Lacks id s
    → text_eq e.transaction_id id ≡ false
    → Lacks id (s ++ e ∷ [])
Lacks-append id [] e l q = (q, tt)
Lacks-append id (x ∷ s) e (p, l) q = (p, Lacks-append id s e l q)

append-Distinct :
    (s : List Iip) (e : Iip) → Distinct s → Lacks e.transaction_id s → Distinct (s ++ e ∷ [])
append-Distinct [] e d l = (tt, tt)
append-Distinct (x ∷ s) e (m, d) (q, l) = (
  Lacks-append x.transaction_id s e m (text_eq_flip x.transaction_id e.transaction_id q),
  append-Distinct s e d l,
)

keep_if-Lacks : (p : Iip → Bool) (id : Text) (s : List Iip) → Lacks id s → Lacks id (keep_if p s)
keep_if-Lacks p id [] l = tt
keep_if-Lacks p id (e ∷ s) (q, l) =
    if-cases (Lacks id) (p e) _ _ (λ h. (q, keep_if-Lacks p id s l)) (λ h. keep_if-Lacks p id s l)

keep_if-Distinct : (p : Iip → Bool) (s : List Iip) → Distinct s → Distinct (keep_if p s)
keep_if-Distinct p [] d = tt
keep_if-Distinct p (e ∷ s) (l, d) =
    if-cases Distinct (p e) _ _
      (λ h. (keep_if-Lacks p e.transaction_id s l, keep_if-Distinct p s d))
      (λ h. keep_if-Distinct p s d)

-- Changes leave the id as it is.
abbrev KeepsId : (Iip → Iip) → Text → Type 0
KeepsId f id =
    (e : Iip) → text_eq e.transaction_id id ≡ true → (f e).transaction_id ≡ e.transaction_id

modify-Lacks :
    (f : Iip → Iip) (id id' : Text) (s : List Iip)
    → KeepsId f id
    → Lacks id' s
    → Lacks id' (modify f id s)
modify-Lacks f id id' [] k l = tt
modify-Lacks f id id' (e ∷ s) k (q, l) =
    if-cases (Lacks id') (text_eq e.transaction_id id) _ _
      (λ h. (ap (λ x. text_eq x id') (k e h) ∙ q, l)) (λ h. (q, modify-Lacks f id id' s k l))

modify-Distinct :
    (f : Iip → Iip) (id : Text) (s : List Iip)
    → KeepsId f id
    → Distinct s
    → Distinct (modify f id s)
modify-Distinct f id [] k d = tt
modify-Distinct f id (e ∷ s) k (l, d) =
    if-cases Distinct (text_eq e.transaction_id id) _ _
      (λ h. (subst (λ x. Lacks x s) (sym (k e h)) l, d))
      (λ h. (modify-Lacks f id e.transaction_id s k l, modify-Distinct f id s k d))

abbrev DistinctIn : Option (List Iip) → Type 0
DistinctIn none = Unit {0}
DistinctIn (some s) = Distinct s

modify_found-Distinct :
    (f : Iip → Iip) (id : Text) (s : List Iip)
    → KeepsId f id
    → Distinct s
    → DistinctIn (modify_found f id s)
unfolding modify_found
modify_found-Distinct f id s k d =
    if-cases DistinctIn (is_some (find_entry (λ e. text_eq e.transaction_id id) s)) _ _
      (λ h. modify-Distinct f id s k d) (λ h. tt)

add_reliable-KeepsId : (rel : Option ℕ) (id : Text) → KeepsId (add_reliable rel) id
unfolding add_reliable
add_reliable-KeepsId none id e h = refl
add_reliable-KeepsId (some rel) id e h = refl

destroy_reliable-KeepsId : (rel : ℕ) (id : Text) → KeepsId (λ x. (destroy_reliable rel x).0) id
unfolding destroy_reliable
destroy_reliable-KeepsId rel id e h =
    if-cases {A = Iip × List Effect} (λ x. x.0.transaction_id ≡ e.transaction_id)
      (has rel e.reliables) _ _ (λ q. refl) (λ q. refl)

Reachable-Distinct : (s : List Iip) → Reachable s → Distinct s
unfolding insert find_by_transaction_id clear destroy_all_reliables add_reliable_to
    destroy_reliable_of
Reachable-Distinct s start = tt
Reachable-Distinct s (inserted e s₀ r) =
    if-cases Distinct (is_some (find_by_transaction_id e.transaction_id s₀)) _ _
      (λ h. Reachable-Distinct s₀ r)
      (λ h. append-Distinct s₀ e (Reachable-Distinct s₀ r) (find-Lacks e.transaction_id s₀ h))
Reachable-Distinct s (cleared e s₀ r) =
    keep_if-Distinct (λ x. not (x.leg == e.leg)) _
      (modify-Distinct (λ x. (destroy_all_reliables e).0) e.transaction_id s₀
        (λ x h. sym ((text_eq_iff x.transaction_id e.transaction_id).0 h))
        (Reachable-Distinct s₀ r))
Reachable-Distinct s (reliable_added e rel s₀ s' r q) = subst DistinctIn q (
    modify_found-Distinct (add_reliable rel) e.transaction_id s₀
      (add_reliable-KeepsId rel e.transaction_id) (Reachable-Distinct s₀ r))
Reachable-Distinct s (reliable_destroyed e rel s₀ s' r q) = subst DistinctIn q (
    modify_found-Distinct (λ x. (destroy_reliable rel x).0) e.transaction_id s₀
      (destroy_reliable-KeepsId rel e.transaction_id) (Reachable-Distinct s₀ r))

Lacks-mem :
    (id : Text) (e : Iip) (s : List Iip)
    → Lacks id s
    → Memᴰ e s
    → text_eq e.transaction_id id ≡ false
Lacks-mem id e [] l m = elim m [ ]
Lacks-mem id e (x ∷ s) (q, l) (Memᴰ.head h) = ap (λ y. text_eq y.transaction_id id) h ∙ q
Lacks-mem id e (x ∷ s) (q, l) (Memᴰ.tail m) = Lacks-mem id e s l m

find-Distinct :
    (e : Iip) (s : List Iip)
    → Distinct s
    → Memᴰ e s
    → find_entry (λ x. text_eq x.transaction_id e.transaction_id) s ≡ some e
find-Distinct e [] d m = elim m [ ]
find-Distinct e (x ∷ s) d (Memᴰ.head h) =
    let q : text_eq x.transaction_id e.transaction_id ≡ true =
      ap (λ y. text_eq y.transaction_id e.transaction_id) (sym h) ∙ text_eq_self e.transaction_id in
    rw q (ap some (sym h))
find-Distinct e (x ∷ s) (l, d) (Memᴰ.tail m) =
    rw (text_eq_flip e.transaction_id x.transaction_id (Lacks-mem x.transaction_id e s l m))
      (find-Distinct e s d m)

-- However the set came about, an entry is the one that is found by its transaction id.
pub Reachable-find_by_transaction_id :
    (e : Iip) (s : List Iip)
    → Reachable s
    → Memᴰ e s
    → find_by_transaction_id e.transaction_id s ≡ some e
unfolding find_by_transaction_id
Reachable-find_by_transaction_id e s r = find-Distinct e s (Reachable-Distinct s r)
