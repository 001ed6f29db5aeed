-- ===== src/SipTransport.antt =====
-- src/sip-transports.cpp and sip-transports.hpp: the transports on which the server listens. The handle
-- of a transport of the stack is a number, and the table of transports a list by handle; nothing depends
-- on its order but the order in which equally good transports are found.
pub mod Texts
pub mod Networks
pub mod Table
mod Tests
use Prim.Native.Nat.{bit_and}
use drachtio_server.Common.{
  ℕ, zero, suc, ◌+◌, ◌-◌, ◌*◌, ◌/◌, ◌%◌, ◌^◌, Bool, true, false, not, ◌&&◌, ◌||◌, Option, none,
  some, List, [], ◌∷◌, ◌++◌, ◌==◌, ltb, leb, if◌then◌else◌, is_empty, is_some, Text, text_eq, codes,
  starts_with, ◌>>=◌,
}
use drachtio_server.Drachtio.Uris.{Uri, UriPlatform, parse_sip_uri}

-- tp_name_t of the stack
pub record TportName : Type 0 where
  pub host : Text
  pub port : Text
  pub proto : Text

pub record SipTransport : Type 0 where
  pub contact : Text
  pub external_ip : Text
  pub local_net : Text
  pub network : Text
  pub netmask : ℕ
  pub range : ℕ
  pub uri : Uri
  pub dns_names : List Text
  pub tport : Option ℕ
  pub name : Option TportName

-- What other code gives: the searches for the parts of a uri, the number of an IPv4 address (`inet_pton` and `htonl`;
-- for another text, what was on the stack), and what a shift by 32 or more comes to, which C++ does not
-- say.
pub record Platform : Type 0 where
  pub uris : UriPlatform
  pub address : Text → ℕ
  pub wide_shift : ℕ → ℕ

abbrev pub has_external_ip : SipTransport → Bool
has_external_ip t = not (is_empty t.external_ip)

abbrev pub get_host : SipTransport → Text
get_host t = elim t.name [ none ↦ [] | some n ↦ n.host ]

abbrev pub get_port : SipTransport → Text
get_port t = elim t.name [ none ↦ [] | some n ↦ n.port ]

abbrev pub get_protocol : SipTransport → Text
get_protocol t = elim t.name [ none ↦ [] | some n ↦ n.proto ]

abbrev pub is_decimal : ℕ → Bool
is_decimal c = leb 48 c && leb c 57

-- [0-9\.]
abbrev pub is_address_char : ℕ → Bool
is_address_char c = is_decimal c || c == 46

abbrev pub all_address_chars : Text → Bool
all_address_chars [] = true
all_address_chars (c ∷ s) = is_address_char c && all_address_chars s

abbrev pub prepend : ℕ → Option (Text × Text) → Option (Text × Text)
prepend c none = none
prepend c (some (network, bits)) = some (c ∷ network, bits)

-- ^([0-9\.]*)\/(.*)$, for a text of one line
unfoldable pub split_net : Text → Option (Text × Text)
split_net [] = none
split_net (c ∷ s) =
    let rest = split_net s in
    if c == 47 then some ([], s) else if is_address_char c then prepend c rest else none

-- ::atoi, where the number fits an int
abbrev pub read_digits : ℕ → Text → ℕ
read_digits n [] = n
read_digits n (c ∷ s) =
    let more = read_digits (n * 10 + (c - 48)) s in if is_decimal c then more else n

abbrev pub skip_space : Text → Text
skip_space [] = []
skip_space (c ∷ s) =
    let rest = skip_space s in if c == 32 || leb 9 c && leb c 13 then rest else c ∷ s

-- as the uint32_t to which it is assigned
abbrev pub signed : Text → ℕ
signed [] = 0
signed (c ∷ s) =
    if c == 45
    then (2 ^ 32 - read_digits 0 s) % 2 ^ 32
    else if c == 43
    then read_digits 0 s % 2 ^ 32
    else read_digits 0 (c ∷ s) % 2 ^ 32

unfoldable pub atoi : Text → ℕ
atoi s = signed (skip_space s)

module _ (platform : Platform) where
  -- ~(~uint32_t(0) >> netbits)
  unfoldable pub mask_of : ℕ → ℕ
  mask_of netbits =
      2 ^ 32
      - 1
      - (if ltb netbits 32 then (2 ^ 32 - 1) / 2 ^ netbits else platform.wide_shift netbits)

  -- `none` is the exception for a contact, an external address or a network that is not well-formed.
  unfoldable pub init : SipTransport → Option SipTransport
  unfolding split_net mask_of atoi parse_sip_uri
  init t = parse_sip_uri platform.uris t.contact >>= λ uri.
      if not (all_address_chars t.external_ip)
      then none
      else if is_empty t.local_net
      then some (record t { uri = uri })
      else (split_net t.local_net >>= λ (network, bits).
          some (record t {
            uri = uri;
            range = platform.address network;
            netmask = mask_of (atoi bits);
          }))

  unfoldable pub is_in_network : Text → SipTransport → Bool
  is_in_network address t =
      not (t.netmask == 0)
      && bit_and (platform.address address) t.netmask == bit_and t.range t.netmask

  unfoldable pub should_advertise_public : Text → SipTransport → Bool
  unfolding is_in_network
  should_advertise_public address t = has_external_ip t && not (is_in_network address t)

  -- The network that an address is taken to be in, where none is configured.
  abbrev pub default_net : Text → Option (Text × Text)
  default_net host =
      if text_eq host (codes "127.0.0.1")
      then some (codes "127.0.0.1", codes "32")
      else if starts_with (codes "192.168.0.") host
      then some (codes "192.168.0.0", codes "24")
      else if starts_with (codes "172.16.") host
      then some (codes "172.16.0.0", codes "16")
      else if starts_with (codes "10.") host
      then some (codes "10.0.0.0", codes "8")
      else none

  abbrev pub with_net : SipTransport → Option (Text × Text) → SipTransport
  with_net t none = t
  with_net t (some (network, bits)) = record t {
    range = platform.address network;
    netmask = mask_of (atoi bits);
    network = network;
    local_net = network ++ codes "/" ++ bits;
  }

  unfoldable pub with_default_net : SipTransport → SipTransport
  unfolding mask_of atoi
  with_default_net t =
      if is_empty t.local_net
      then with_net t (default_net (if has_external_ip t then t.external_ip else get_host t))
      else t
