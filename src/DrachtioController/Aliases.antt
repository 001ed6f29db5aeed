-- ===== src/DrachtioController/Aliases.antt =====
-- The table of contacts of `DrachtioController` (src/controller.cpp): what a peer advertised leads to
-- the connection of its last message, and the table stays within its size.
use drachtio_server.Common.{
  ℕ, ◌≡◌, ◌≤◌, ◌+◌, refl, sym, ap, ◌∙◌, subst, true, false, some, [], ◌∷◌, ◌++◌, map, is_some,
  length, Text, text_eq_self, arith,
}
use drachtio_server.Common.Dict
use drachtio_server.Common.Dict.{Dict}
use drachtio_server.SipTransport.{TportName}
use drachtio_server.SipTransport.Table.{to_lower}
use drachtio_server.DrachtioController.{
  Caches, ContactAliasTarget, Arrival, Stack, note_alias, target_of, max_aliases,
  make_contact_alias_key, cache_contact_alias, get_tport_for_contact_alias,
}

module _ {ℓ} {V : Type ℓ} where
  length-erase : (k : Text) (m : Dict V) → length (Dict.erase k m) ≤ length m
  unfolding Dict.erase
  length-erase k [] = ground arith
  length-erase k ((j, v) ∷ m) = ground (arith, length-erase k m)

  length-erase_found :
      (k : Text) (m : Dict V)
      → is_some (Dict.find k m) ≡ true
      → length (Dict.erase k m) + 1 ≤ length m
  unfolding Dict.erase Dict.find
  length-erase_found k [] e = ground arith
  length-erase_found k ((j, v) ∷ m) e = ground (arith, length-erase k m, length-erase_found k m)

-- The table holds at most as many entries as the code allows.
unfoldable pub IsBounded : Caches → Type 0
IsBounded c = length c.aliases ≤ max_aliases

find-note_alias :
    (key : Text) (name : TportName) (m : Dict ContactAliasTarget)
    → Dict.find key (note_alias key name m) ≡ some (target_of name)
unfolding note_alias Dict.find
find-note_alias key name m = ground (
  arith,
  Dict.find-assign key key (target_of name) m,
  Dict.find-insert_self key (target_of name) m,
  Dict.find-insert_self key (target_of name) [],
  text_eq_self key,
)

length-note_alias :
    (key : Text) (name : TportName) (m : Dict ContactAliasTarget)
    → length m ≤ max_aliases
    → length (note_alias key name m) ≤ max_aliases
unfolding note_alias Dict.assign Dict.insert Dict.find
length-note_alias key name m b = ground (arith, length-erase_found key m)

map-append : (f : ℕ → ℕ) (xs ys : Text) → map f (xs ++ ys) ≡ map f xs ++ map f ys
map-append f [] ys = refl
map-append f (x ∷ xs) ys = ap (◌∷◌ (f x)) (map-append f xs ys)

-- The key does not depend on the case of the protocol.
key-protocol :
    (proto proto' src host port : Text)
    → map to_lower proto ≡ map to_lower proto'
    → make_contact_alias_key proto src host port ≡ make_contact_alias_key proto' src host port
unfolding make_contact_alias_key
key-protocol proto proto' src host port e = simp (map-append to_lower, e)

-- A message by a connection that says where its peer is.
abbrev pub arrival_from : TportName → Text → Text → Arrival
arrival_from name host port = record {
  is_secondary = true;
  is_udp = false;
  name = some name;
  contact = some (host, port);
  is_register = false;
}

abbrev noted : TportName → Text → Text → Caches → Caches
noted name host port c = record c {
  aliases = note_alias (make_contact_alias_key name.proto name.host host port) name c.aliases;
}

cache_contact_alias-noted :
    (c : Caches) (name : TportName) (host port : Text)
    → c.contact_alias ≡ true
    → cache_contact_alias (arrival_from name host port) c ≡ noted name host port c
unfolding cache_contact_alias
cache_contact_alias-noted c name host port on = rw on refl

get_tport-found :
    (stack : Stack) (c : Caches) (t : ContactAliasTarget) (proto src host port : Text)
    (pinned tp : ℕ)
    → c.contact_alias ≡ true
    → Dict.find (make_contact_alias_key proto src host port) c.aliases ≡ some t
    → stack.tport_by_name pinned t.host t.port ≡ some tp
    → stack.is_secondary tp ≡ true
    → stack.parent tp ≡ stack.parent pinned
    → get_tport_for_contact_alias stack pinned proto src host port c ≡ (some tp, c)
unfolding get_tport_for_contact_alias
get_tport-found stack c t proto src host port pinned tp on found known second same =
    ground (arith, on, found, known, second, same)

-- After a message by a connection that is not udp and not a REGISTER, the table is within its size
-- again, and the contact that the message advertised leads to the connection: asked for from a transport
-- `pinned`, for a protocol equal up to case, with the same address and contact, the answer is the
-- connection `tp` that the stack knows by the peer's name, with the table unchanged, provided that `tp`
-- belongs to the same transport as `pinned`. Aliases must be switched on.
pub get_tport_for_contact_alias-cached :
    (stack : Stack) (c : Caches) (name : TportName) (proto host port : Text) (pinned tp : ℕ)
    → c.contact_alias ≡ true
    → IsBounded c
    → map to_lower proto ≡ map to_lower name.proto
    → stack.tport_by_name pinned name.host name.port ≡ some tp
    → stack.is_secondary tp ≡ true
    → stack.parent tp ≡ stack.parent pinned
    → let c' = cache_contact_alias (arrival_from name host port) c in
      IsBounded c'
      × (get_tport_for_contact_alias stack pinned proto name.host host port c' ≡ (some tp, c'))
unfolding IsBounded
get_tport_for_contact_alias-cached stack c name proto host port pinned tp on bound case known second
      same =
    let key = key-protocol proto name.proto name.host host port case in
    subst
      (λ c'.
        IsBounded c'
        × (get_tport_for_contact_alias stack pinned proto name.host host port c' ≡ (some tp, c')))
      (sym (cache_contact_alias-noted c name host port on))
      (
        length-note_alias _ name c.aliases bound,
        get_tport-found stack (noted name host port c) (target_of name) proto name.host host port
            pinned tp on
            (ap (λ k. Dict.find k (noted name host port c).aliases) key
              ∙ find-note_alias _ name c.aliases)
            known second same,
      )
