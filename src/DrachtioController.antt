-- ===== src/DrachtioController.antt =====
-- Two caches of `DrachtioController` (src/controller.cpp): the transports of subscribers that have no
-- address of their own, with ua-invalid.cpp, and the connections of peers by the contact that they
-- advertise.
pub mod Aliases
mod Tests
use drachtio_server.Common.{
  ℕ, ◌+◌, ◌≡◌, Bool, true, false, not, ◌&&◌, ◌||◌, Option, none, some, List, [], ◌∷◌, ◌++◌, map,
  ◌==◌, leb, ltb, take, ◌-◌, if◌then◌else◌, is_empty, is_some, length, Text, text_eq, codes,
}
use drachtio_server.Common.Dict
use drachtio_server.Common.Dict.{Dict}
use drachtio_server.SipTransport.{TportName}
use drachtio_server.SipTransport.Table.{to_lower}

abbrev pub uri_len : ℕ
uri_len = 256

pub record UaInvalidData : Type 0 where
  pub user : Text
  pub host : Text
  pub expires : ℕ
  pub tport : ℕ

pub record ContactAliasTarget : Type 0 where
  pub host : Text
  pub port : Text

-- References to transports that are taken and given up.
pub data Effect : Type 0 where
  tport_ref tport_unref : ℕ → Effect

pub record Caches : Type 0 where
  pub by_uri : Dict UaInvalidData
  pub contact_alias : Bool
  pub aliases : Dict ContactAliasTarget

-- The constructor, at the time `now`. A null user is an empty one here.
abbrev pub new_data : ℕ → Text → Text → ℕ → ℕ → UaInvalidData
new_data now user host expires tp = record {
  user = take (uri_len - 1) user;
  host = take (uri_len - 1) host;
  expires = now + expires;
  tport = tp;
}

unfoldable pub get_uri : UaInvalidData → Text
get_uri ua = if is_empty ua.user then ua.host else ua.user ++ codes "@" ++ ua.host

abbrev pub is_expired : ℕ → UaInvalidData → Bool
is_expired now ua = ltb ua.expires now

abbrev pub set_tport : ℕ → UaInvalidData → UaInvalidData × List Effect
set_tport tp ua =
    if tp == ua.tport
    then (ua, [])
    else (record ua { tport = tp }, tport_unref ua.tport ∷ tport_ref tp ∷ [])

abbrev pub extend_expires : ℕ → ℕ → UaInvalidData → UaInvalidData
extend_expires now expires ua = record ua { expires = now + expires }

abbrev pub store : Text → Caches → UaInvalidData × List Effect → Caches × List Effect
store uri c (ua, effects) = (record c { by_uri = Dict.assign uri ua c.by_uri }, effects)

-- The object made for the call takes a reference, and gives it up where the uri was there already.
abbrev pub stored : UaInvalidData → ℕ → ℕ → Caches → Option UaInvalidData → Caches × List Effect
stored made now expires c none =
    (record c { by_uri = Dict.insert (get_uri made) made c.by_uri }, tport_ref made.tport ∷ [])
stored made now expires c (some ua) =
    let (c', effects) =
      store (get_uri made) c (set_tport made.tport (extend_expires now expires ua)) in
    (c', tport_ref made.tport ∷ tport_unref made.tport ∷ effects)

-- `host` may be a null pointer.
unfoldable pub cache_tport_for_subscription :
    Text → Option Text → ℕ → ℕ → ℕ → Caches → Caches × List Effect
unfolding get_uri
cache_tport_for_subscription user none now expires tp c = (c, [])
cache_tport_for_subscription user (some host) now expires tp c =
    let made = new_data now user host expires tp in
    stored made now expires c (Dict.find (get_uri made) c.by_uri)

-- The key of the other two functions, for which a user that is there counts although it is empty.
abbrev pub uri_of : Option Text → Text → Text
uri_of none host = host
uri_of (some user) host = user ++ codes "@" ++ host

abbrev pub forget : Option UaInvalidData → List Effect
forget none = []
forget (some ua) = tport_unref ua.tport ∷ []

unfoldable pub flush_tport_for_subscription :
    Option Text → Option Text → Caches → Caches × List Effect
flush_tport_for_subscription user none c = (c, [])
flush_tport_for_subscription user (some host) c = (
  record c { by_uri = Dict.erase (uri_of user host) c.by_uri },
  forget (Dict.find (uri_of user host) c.by_uri),
)

unfoldable pub find_tport_for_subscription : Option Text → Text → Caches → Option UaInvalidData
find_tport_for_subscription user host c = Dict.find (uri_of user host) c.by_uri

-- The loop of processWatchdogTimer over the entries, at the time `now`.
unfoldable pub expire : ℕ → Dict UaInvalidData → Dict UaInvalidData × List Effect
expire now [] = ([], [])
expire now ((uri, ua) ∷ m) =
    let (kept, effects) = expire now m in
    if is_expired now ua
    then (kept, tport_unref ua.tport ∷ effects)
    else ((uri, ua) ∷ kept, effects)

unfoldable pub process_watchdog_timer : ℕ → Caches → Caches × List Effect
unfolding expire
process_watchdog_timer now c =
    let (kept, effects) = expire now c.by_uri in (record c { by_uri = kept }, effects)

-- What is read of a transport of the stack and of the message that came by it: whether it is a
-- connection, whether it is udp, its name, the host and the port of the Contact, and whether the message
-- is a REGISTER.
pub record Arrival : Type 0 where
  pub is_secondary : Bool
  pub is_udp : Bool
  pub name : Option TportName
  pub contact : Option (Text × Text)
  pub is_register : Bool

unfoldable pub make_contact_alias_key : Text → Text → Text → Text → Text
make_contact_alias_key proto src host port = map to_lower (
    proto
    ++ codes "|"
    ++ src
    ++ codes "|"
    ++ host
    ++ codes ":"
    ++ (if is_empty port then codes "0" else port))

abbrev pub max_aliases : ℕ
max_aliases = 10000

abbrev pub target_of : TportName → ContactAliasTarget
target_of name = record { host = name.host; port = name.port }

-- A new key may empty a full table first.
unfoldable pub note_alias : Text → TportName → Dict ContactAliasTarget → Dict ContactAliasTarget
note_alias key name aliases =
    if is_some (Dict.find key aliases)
    then Dict.assign key (target_of name) aliases
    else if leb max_aliases (length aliases)
    then Dict.insert key (target_of name) []
    else Dict.insert key (target_of name) aliases

abbrev pub note_contact : Option TportName → Option (Text × Text) → Caches → Caches
note_contact none contact c = c
note_contact (some name) none c = c
note_contact (some name) (some (host, port)) c = record c {
  aliases = note_alias (make_contact_alias_key name.proto name.host host port) name c.aliases;
}

unfoldable pub cache_contact_alias : Arrival → Caches → Caches
unfolding make_contact_alias_key note_alias
cache_contact_alias a c =
    if not c.contact_alias || (not a.is_secondary || (a.is_udp || a.is_register))
    then c
    else note_contact a.name a.contact c

-- What the stack knows: the open connection by the name of its peer, as seen from a transport; whether a
-- transport is a connection; and the transport that it belongs to.
pub record Stack : Type 0 where
  pub tport_by_name : ℕ → Text → Text → Option ℕ
  pub is_secondary : ℕ → Bool
  pub parent : ℕ → ℕ

module _ (stack : Stack) where
  -- The connection, if it is one still.
  abbrev pub only_live : Option ℕ → Option ℕ
  only_live none = none
  only_live (some tp) = if stack.is_secondary tp then some tp else none

  -- A connection that is gone is taken out of the table.
  abbrev pub use_live : ℕ → Text → Caches → Option ℕ → Option ℕ × Caches
  use_live pinned key c none = (none, record c { aliases = Dict.erase key c.aliases })
  use_live pinned key c (some tp) =
      (if stack.parent tp == stack.parent pinned then some tp else none, c)

  abbrev pub use_target : ℕ → Text → Caches → Option ContactAliasTarget → Option ℕ × Caches
  use_target pinned key c none = (none, c)
  use_target pinned key c (some t) =
      use_live pinned key c (only_live (stack.tport_by_name pinned t.host t.port))

  unfoldable pub get_tport_for_contact_alias :
      ℕ → Text → Text → Text → Text → Caches → Option ℕ × Caches
  unfolding make_contact_alias_key
  get_tport_for_contact_alias pinned proto src host port c =
      if c.contact_alias
      then use_target pinned (make_contact_alias_key proto src host port) c
          (Dict.find (make_contact_alias_key proto src host port) c.aliases)
      else (none, c)
