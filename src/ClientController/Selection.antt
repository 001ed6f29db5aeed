-- ===== src/ClientController/Selection.antt =====
-- Which application gets a request outside a dialog: `wants_requests`, `no_longer_wants_requests` and
-- `selectClientForRequestOutsideDialog` of src/client-controller.cpp.
pub mod Candidates
pub mod RoundRobin
use drachtio_server.Common.{
  ℕ, zero, suc, ◌+◌, ◌-◌, ◌%◌, ◌≡◌, Bool, true, false, not, ◌&&◌, ◌||◌, Option, none, some, List,
  [], ◌∷◌, ◌++◌, ◌==◌, leb, if◌then◌else◌, is_empty, keep_if, map, Text, text_eq, codes,
}
use drachtio_server.Common.Dict
use drachtio_server.ClientController.{Controller, Client, Live, lock}

unfoldable pub wants_requests : ℕ → Text → Controller → Controller
wants_requests c verb s = record s {
  request_types = s.request_types ++ (verb, c) ∷ [];
  offsets = Dict.insert verb 0 s.offsets;
}

-- it->second.client() == client
abbrev pub is_client : Live → ℕ → ℕ → Bool
is_client live c d = elim (lock live d) [ none ↦ false | some e ↦ e == c ]

-- Every entry of the client goes, whatever its verb.
unfoldable pub no_longer_wants_requests : Live → ℕ → Text → Controller → Controller
no_longer_wants_requests live c verb s = record s {
  request_types = keep_if (λ e. not (is_client live c e.1)) s.request_types;
}

-- ::tolower in the C locale
unfoldable pub to_lower : ℕ → ℕ
to_lower c = if leb b'A' c && leb c b'Z' then c + 32 else c

abbrev pub has_tag : Text → List Text → Bool
has_tag tag [] = false
has_tag tag (t ∷ tags) = text_eq t tag || has_tag tag tags

abbrev pub is_alive : Live → ℕ → Bool
is_alive live c = elim (live c) [ none ↦ false | some client ↦ true ]

-- !tag || c->hasTag(tag), at a client that is there
abbrev pub matches_tag : Live → Option Text → ℕ → Bool
matches_tag live tag c = elim (live c) [
  | none ↦ false
  | some client ↦ elim tag [ none ↦ true | some t ↦ has_tag t client.tags ]
]

-- The first loop: the entries left after pruning, and nPossibles.
unfoldable pub prune : Live → Text → Option Text → List (Text × ℕ) → List (Text × ℕ) × ℕ
prune live method tag [] = ([], 0)
prune live method tag ((verb, c) ∷ entries) =
    let (kept, possibles) = prune live method tag entries in
    if not (text_eq verb method)
    then ((verb, c) ∷ kept, possibles)
    else if not (is_alive live c)
    then (kept, possibles)
    else if matches_tag live tag c
    then ((verb, c) ∷ kept, possibles + 1)
    else ((verb, c) ∷ kept, possibles)

-- The second loop.
unfoldable pub pick : Live → Text → Option Text → List (Text × ℕ) → ℕ → Option ℕ
pick live method tag [] offset = none
pick live method tag ((verb, c) ∷ entries) offset =
    let fits = text_eq verb method && matches_tag live tag c in
    if fits && offset == 0
    then some c
    else pick live method tag entries (if fits then offset - 1 else offset)

-- tag ? method_name + ":" + tag : method_name
abbrev pub offset_key : Text → Option Text → Text
offset_key method none = method
offset_key method (some tag) = method ++ b':' ∷ tag

-- m_map_of_request_type_offsets[offsetKey]
abbrev pub offset_at : Text → Controller → ℕ
offset_at key s = elim (Dict.find key s.offsets) [ none ↦ 0 | some n ↦ n ]

-- The search among the entries that pruning left, with its offset.
unfoldable pub select_from : Live → Text → Option Text → ℕ → Controller → Option ℕ × Controller
select_from live method tag possibles s =
    if possibles == 0
    then (none, s)
    else let key = offset_key method tag in
      let offset = offset_at key s % possibles in
      (
        pick live method tag s.request_types offset,
        record s { offsets = Dict.assign key (offset + 1) s.offsets },
      )

unfoldable pub select_client : Live → Text → Option Text → Controller → Option ℕ × Controller
unfolding select_from
select_client live keyword tag s =
    let method = map to_lower keyword in
    let (kept, possibles) = prune live method tag s.request_types in
    select_from live method tag possibles (record s { request_types = kept })
