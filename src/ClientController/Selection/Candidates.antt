-- ===== src/ClientController/Selection/Candidates.antt =====
-- The clients that can take a request: a reference list against which the two loops of
-- `selectClientForRequestOutsideDialog` are proved.
use mathlib.Core.List.{Mem, mem-cons_self, mem-cons_of_mem}
use drachtio_server.Common.{
  ℕ, zero, suc, ◌+◌, ◌%◌, ◌≡◌, ◌↔◌, ◌≢◌, refl, Bool, true, false, not, ◌&&◌, inl, inr, Option, none,
  some, List, [], ◌∷◌, ◌++◌, ◌==◌, if◌then◌else◌, keep_if, map, length, get_elem?, get_elem?-some,
  Text, text_eq, text_eq_iff, arith, Bool-cases,
}
use drachtio_server.Common.Dict
use drachtio_server.ClientController.{Controller, Live}
use drachtio_server.ClientController.Selection.{
  is_alive, is_client, matches_tag, prune, pick, select_from, select_client, offset_key, offset_at,
  no_longer_wants_requests, to_lower,
}

module _ (live : Live) (method : Text) (tag : Option Text) where
  abbrev pub is_candidate : Text × ℕ → Bool
  is_candidate e = text_eq e.0 method && matches_tag live tag e.1

  abbrev pub candidates : List (Text × ℕ) → List ℕ
  candidates [] = []
  candidates (e ∷ entries) = if is_candidate e then e.1 ∷ candidates entries else candidates entries

  pub pick-get_elem? :
      (entries : List (Text × ℕ)) (n : ℕ)
      → pick live method tag entries n ≡ get_elem? (candidates entries) n
  unfolding pick
  pick-get_elem? [] n = refl
  pick-get_elem? ((verb, c) ∷ entries) zero = ground (arith, pick-get_elem? entries 0)
  pick-get_elem? ((verb, c) ∷ entries) (suc n) =
      ground (arith, pick-get_elem? entries (suc n), pick-get_elem? entries n)

  pub prune-length :
      (entries : List (Text × ℕ)) → (prune live method tag entries).1 ≡ length (candidates entries)
  unfolding prune
  prune-length [] = refl
  prune-length ((verb, c) ∷ entries) = ground (arith, prune-length entries)

  -- Pruning takes out the entries of this verb whose client is gone, and no others.
  pub prune-keep_if :
      (entries : List (Text × ℕ))
      → (prune live method tag entries).0
        ≡ keep_if (λ e. not (text_eq e.0 method && not (is_alive live e.1))) entries
  unfolding prune
  prune-keep_if [] = refl
  prune-keep_if ((verb, c) ∷ entries) = ground (arith, prune-keep_if entries)

  pub candidates-append :
      (xs ys : List (Text × ℕ)) → candidates (xs ++ ys) ≡ candidates xs ++ candidates ys
  candidates-append [] ys = refl
  candidates-append (x ∷ xs) ys = ground (arith, candidates-append xs ys)

  -- The client has an entry for this verb, and is there with the tag.
  abbrev pub CanTake : List (Text × ℕ) → ℕ → Type 0
  CanTake entries c = (matches_tag live tag c ≡ true) × Mem (method, c) entries

  CanTake-first :
      (verb : Text) (d : ℕ) (entries : List (Text × ℕ)) (c : ℕ)
      → is_candidate (verb, d) ≡ true
      → ((m : ℕ) → get_elem? (candidates entries) m ≡ some c → CanTake entries c)
      → (n : ℕ) → get_elem? (d ∷ candidates entries) n ≡ some c
      → CanTake ((verb, d) ∷ entries) c
  CanTake-first verb d entries c fit ih zero e =
      let p : c ≡ d = cc in
      let v : verb ≡ method = ground (arith, text_eq_iff verb method) in
      let m : matches_tag live tag d ≡ true = ground arith in (rw p m, rw (p, v) mem-cons_self)
  CanTake-first verb d entries c fit ih (suc n) e =
      let (m, mem) = ih n e in (m, mem-cons_of_mem (verb, d) mem)

  pub candidates-CanTake :
      (entries : List (Text × ℕ)) (c n : ℕ)
      → get_elem? (candidates entries) n ≡ some c
      → CanTake entries c
  candidates-CanTake [] c n e = cc
  candidates-CanTake ((verb, d) ∷ entries) c n e = elim (Bool-cases (is_candidate (verb, d))) [
    | inr no_fit ↦
        let (m, mem) = candidates-CanTake entries c n (rw no_fit at e) in
        (m, mem-cons_of_mem (verb, d) mem)
    | inl fit ↦ CanTake-first verb d entries c fit (candidates-CanTake entries c) n (rw fit at e)
  ]

  -- Without the entries of a client, whatever their verb.
  candidates-without :
      (c : ℕ) (entries : List (Text × ℕ))
      → candidates (keep_if (λ e. not (is_client live c e.1)) entries)
        ≡ keep_if (λ d. not (d == c)) (candidates entries)
  candidates-without c [] = refl
  candidates-without c ((verb, d) ∷ entries) = ground (arith, candidates-without c entries)

-- Pruning for one verb leaves the candidates for every verb and tag.
pub candidates-prune :
    (live : Live) (method : Text) (tag : Option Text) (verb : Text) (tag' : Option Text)
    (entries : List (Text × ℕ))
    → candidates live verb tag' (prune live method tag entries).0
      ≡ candidates live verb tag' entries
unfolding prune
candidates-prune live method tag verb tag' [] = refl
candidates-prune live method tag verb tag' ((v, c) ∷ entries) =
    ground (arith, candidates-prune live method tag verb tag' entries)

-- The entries after a selection for the verb.
abbrev pub pruned : Live → Text → Controller → Controller
pruned live method s = record s {
  request_types =
      keep_if (λ e. not (text_eq e.0 method && not (is_alive live e.1))) s.request_types;
}

-- The reference: with no candidate nothing more happens; else it takes the one at the offset of this
-- verb and tag, wrapped round, and stores the place after it.
abbrev pub choose : List ℕ → Text → Controller → Option ℕ × Controller
choose [] key s = (none, s)
choose (c ∷ cs) key s =
    let offset = offset_at key s % length (c ∷ cs) in
    (get_elem? (c ∷ cs) offset, record s { offsets = Dict.assign key (offset + 1) s.offsets })

choose_lem :
    (cs : List ℕ) (key : Text) (s : Controller)
    → (if length cs == 0 then (none, s) else (
      get_elem? cs (offset_at key s % length cs),
      record s { offsets = Dict.assign key (offset_at key s % length cs + 1) s.offsets },
    ))
      ≡ choose cs key s
choose_lem [] key s = refl
choose_lem (c ∷ cs) key s = let e : (suc (length cs) == 0) ≡ false = ground arith in rw e

pub select_client-choose :
    (live : Live) (keyword : Text) (tag : Option Text) (s : Controller)
    → let method = map to_lower keyword in
      select_client live keyword tag s
      ≡ choose
          (candidates live method tag s.request_types)
          (offset_key method tag)
          (pruned live method s)
unfolding select_client select_from
select_client-choose live keyword tag s =
    rw
      (
        prune-length live (map to_lower keyword) tag s.request_types,
        pick-get_elem? live (map to_lower keyword) tag,
        candidates-prune live (map to_lower keyword) tag (map to_lower keyword) tag s.request_types,
        prune-keep_if live (map to_lower keyword) tag s.request_types,
      )
      (choose_lem (candidates live (map to_lower keyword) tag s.request_types)
        (offset_key (map to_lower keyword) tag) (pruned live (map to_lower keyword) s))

choose-none_iff :
    (cs : List ℕ) (key : Text) (s : Controller) → ((choose cs key s).0 ≡ none) ↔ (cs ≡ [])
choose-none_iff [] key s = ((λ _. refl), (λ _. refl))
choose-none_iff (c ∷ cs) key s =
    let (d, e) = get_elem?-some (c ∷ cs) (offset_at key s % length (c ∷ cs)) (omega arith) in
    ((λ n. cc), (λ n. cc))

-- No client is found exactly when none is there that registered the verb and has the tag.
pub select_client-none_iff :
    (live : Live) (keyword : Text) (tag : Option Text) (s : Controller)
    → ((select_client live keyword tag s).0 ≡ none)
      ↔ (candidates live (map to_lower keyword) tag s.request_types ≡ [])
select_client-none_iff live keyword tag s =
    rw (select_client-choose live keyword tag s)
      (choose-none_iff (candidates live (map to_lower keyword) tag s.request_types) _ _)

choose-some :
    (cs : List ℕ) (key : Text) (s : Controller) (c : ℕ)
    → (choose cs key s).0 ≡ some c
    → get_elem? cs (offset_at key s % length cs) ≡ some c
choose-some [] key s c e = cc
choose-some (d ∷ cs) key s c e = e

-- A client that is selected is connected, has the tag asked for, and has registered the verb, which is
-- the keyword in lower case.
pub select_client-CanTake :
    (live : Live) (keyword : Text) (tag : Option Text) (s : Controller) (c : ℕ)
    → (select_client live keyword tag s).0 ≡ some c
    → CanTake live (map to_lower keyword) tag s.request_types c
select_client-CanTake live keyword tag s c e =
    candidates-CanTake live (map to_lower keyword) tag s.request_types c _ (
      choose-some (candidates live (map to_lower keyword) tag s.request_types) _ _ c
        (rw (select_client-choose live keyword tag s) at e))

pub choose-request_types :
    (cs : List ℕ) (key : Text) (s : Controller)
    → (choose cs key s).1.request_types ≡ s.request_types
choose-request_types [] key s = refl
choose-request_types (c ∷ cs) key s = refl

choose-offset_at_ne :
    (cs : List ℕ) (key : Text) (s : Controller) (key' : Text)
    → key' ≢ key
    → offset_at key' (choose cs key s).1 ≡ offset_at key' s
choose-offset_at_ne [] key s key' n = refl
choose-offset_at_ne (c ∷ cs) key s key' n = ground (
  arith,
  text_eq_iff key key',
  Dict.find-assign key key' (offset_at key s % length (c ∷ cs) + 1) s.offsets,
)

pub candidates-pruned :
    (live : Live) (method verb : Text) (tag : Option Text) (s : Controller)
    → candidates live verb tag (pruned live method s).request_types
      ≡ candidates live verb tag s.request_types
candidates-pruned live method verb tag s =
    rw (← prune-keep_if live method none s.request_types)
      (candidates-prune live method none verb tag s.request_types)

-- A selection does not disturb the others: for each verb and tag the candidates stay the same, and so
-- does each offset but the one of this selection.
pub select_client-frame :
    (live : Live) (keyword : Text) (tag : Option Text) (s : Controller) (verb : Text)
    (tag' : Option Text)
    → let t = (select_client live keyword tag s).1 in
      (candidates live verb tag' t.request_types ≡ candidates live verb tag' s.request_types)
      × (offset_key verb tag' ≢ offset_key (map to_lower keyword) tag
          → offset_at (offset_key verb tag') t ≡ offset_at (offset_key verb tag') s)
select_client-frame live keyword tag s verb tag' =
    let method = map to_lower keyword in
    let cs = candidates live method tag s.request_types in
    rw
      (
        select_client-choose live keyword tag s,
        choose-request_types cs (offset_key method tag) (pruned live method s),
      )
      (
        candidates-pruned live method verb tag' s,
        choose-offset_at_ne cs (offset_key method tag) (pruned live method s)
            (offset_key verb tag'),
      )

choose-posted :
    (cs : List ℕ) (key : Text) (s : Controller)
    → ((choose cs key s).1.posted ≡ s.posted)
      × ((choose cs key s).1.net_transactions ≡ s.net_transactions)
choose-posted [] key s = (refl, refl)
choose-posted (c ∷ cs) key s = (refl, refl)

pub select_client-posted :
    (live : Live) (keyword : Text) (tag : Option Text) (s : Controller)
    → let t = (select_client live keyword tag s).1 in
      (t.posted ≡ s.posted) × (t.net_transactions ≡ s.net_transactions)
select_client-posted live keyword tag s =
    let method = map to_lower keyword in
    rw (select_client-choose live keyword tag s) (
      choose-posted (candidates live method tag s.request_types) (offset_key method tag)
        (pruned live method s))

-- `remove_route` names a verb, and takes the client's registrations for every verb away: what is left
-- for each verb and tag are the candidates other than this client, in their order.
pub no_longer_wants_requests-candidates :
    (live : Live) (c : ℕ) (verb : Text) (s : Controller) (method : Text) (tag : Option Text)
    → candidates live method tag (no_longer_wants_requests live c verb s).request_types
      ≡ keep_if (λ d. not (d == c)) (candidates live method tag s.request_types)
unfolding no_longer_wants_requests
no_longer_wants_requests-candidates live c verb s method tag =
    candidates-without live method tag c s.request_types
