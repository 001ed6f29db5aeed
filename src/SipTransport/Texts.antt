-- ===== src/SipTransport/Texts.antt =====
-- What a transport is called, and which addresses are its own (src/sip-transports.cpp).
use drachtio_server.Common.{
  ℕ, zero, suc, Bool, false, not, ◌&&◌, ◌||◌, Option, none, some, List, [], ◌∷◌, ◌++◌, map, ◌==◌,
  if◌then◌else◌, is_empty, is_some, Text, text_eq, codes, has_substring, ◌>>=◌,
}
use drachtio_server.RequestRouter.{to_upper}
use drachtio_server.SipTransport.{
  SipTransport, Platform, has_external_ip, get_host, get_port, get_protocol, is_decimal,
  is_in_network,
}

-- proto/host:port
abbrev pub host_port : Text → SipTransport → Text
host_port host t = get_protocol t ++ codes "/" ++ host ++ codes ":" ++ get_port t

abbrev pub more_names : List Text → Text
more_names [] = []
more_names (d ∷ names) = codes ", " ++ d ++ more_names names

-- The counter `i` is raised twice for each name, which leaves the commas right.
abbrev pub dns_text : List Text → Text
dns_text [] = []
dns_text (d ∷ names) = codes " dns names: " ++ d ++ more_names names

abbrev pub configured : SipTransport → Text
configured t =
    codes "("
    ++ t.contact
    ++ codes ", external-ip: "
    ++ t.external_ip
    ++ codes ", local-net: "
    ++ t.local_net
    ++ codes ")"
    ++ dns_text t.dns_names

unfoldable pub get_description : Bool → SipTransport → Text
get_description short_version t =
    if is_some t.tport
    then if short_version
      then host_port (get_host t) t
      else host_port (get_host t) t ++ codes " " ++ configured t
    else configured t

-- `none` is the failed assertion.
unfoldable pub get_hostport : SipTransport → Option Text
get_hostport t =
    if is_some t.tport
    then some (host_port (if has_external_ip t then t.external_ip else get_host t) t)
    else none

unfoldable pub get_local_hostport : SipTransport → Text
get_local_hostport t = if is_some t.tport then host_port (get_host t) t else []

abbrev pub param_text : Text × Text → Text
param_text (k, v) = codes ";" ++ k ++ (if is_empty v then [] else codes "=" ++ v)

abbrev pub params_text : List (Text × Text) → Text
params_text [] = []
params_text (p ∷ params) = param_text p ++ params_text params

abbrev pub port_text : Text → Text
port_text port = if is_empty port then [] else codes ":" ++ port

unfoldable pub get_bindable_contact_uri : SipTransport → Text
get_bindable_contact_uri t =
    t.uri.scheme
    ++ codes ":"
    ++ (if has_external_ip t then t.external_ip else t.uri.hostpart)
    ++ port_text t.uri.port
    ++ params_text t.uri.params
    ++ (if has_external_ip t then codes ";maddr=" ++ t.uri.hostpart else [])

abbrev pub user_text : Text → Text
user_text user = if is_empty user then [] else user ++ codes "@"

abbrev pub transport_text : Text → Text
transport_text proto =
    if is_empty proto || text_eq proto (codes "udp") then [] else codes ";transport=" ++ proto

unfoldable pub get_contact_uri : Bool → SipTransport → Text
get_contact_uri use_external_ip t =
    let outside = use_external_ip && not (is_empty t.external_ip) in
    t.uri.scheme
    ++ codes ":"
    ++ user_text t.uri.userpart
    ++ (if is_some t.tport
        then (if outside then t.external_ip else get_host t)
          ++ port_text (get_port t)
          ++ transport_text (get_protocol t)
        else (if outside then t.external_ip else t.uri.hostpart)
          ++ port_text t.uri.port
          ++ params_text t.uri.params)

-- The host, port and transport of a Via header towards a remote host, if that is known.
unfoldable pub make_via : Platform → Option Text → SipTransport → Text × Text × Text
unfolding is_in_network
make_via platform remote t =
    let is_in_subnet : Bool = elim remote [
      | none ↦ false
      | some host ↦ is_in_network platform host t
    ] in
    let proto = get_protocol t in
    (
      if has_external_ip t && not is_in_subnet then t.external_ip else get_host t,
      get_port t,
      codes "SIP/2.0/" ++ map to_upper (if is_empty proto then codes "UDP" else proto),
    )

unfoldable pub is_ip_v6 : SipTransport → Bool
is_ip_v6 t =
    is_some t.tport
    && has_substring (codes "[") (get_host t)
    && has_substring (codes "]") (get_host t)

unfoldable pub is_localhost : SipTransport → Bool
is_localhost t =
    is_some t.tport
    && (text_eq (get_host t) (codes "127.0.0.1") || text_eq (get_host t) (codes "[::1]"))

abbrev pub any_eq : Text → List Text → Bool
any_eq host [] = false
any_eq host (d ∷ names) = text_eq d host || any_eq host names

unfoldable pub is_local : Text → SipTransport → Bool
is_local host t =
    text_eq (get_host t) host
    || text_eq t.uri.hostpart host
    || has_external_ip t && text_eq t.external_ip host
    || any_eq host t.dns_names

-- The digits at the front of a text, and the rest.
abbrev pub digits : Text → Text × Text
digits [] = ([], [])
digits (c ∷ s) = let rest = digits s in if is_decimal c then (c ∷ rest.0, rest.1) else ([], c ∷ s)

abbrev pub after_dot : Text → Option Text
after_dot [] = none
after_dot (c ∷ s) = if c == 46 then some s else none

abbrev pub octet : Text → Option (Text × Text)
octet s = if is_empty (digits s).0 then none else some (digits s)

-- ^(\d+)\.(\d+)\.(\d+)\.(\d+): `n` more octets that a dot follows, and one.
unfoldable pub octets : ℕ → Text → Option (List Text)
octets zero s = octet s >>= λ (o, rest). some (o ∷ [])
octets (suc n) s =
    octet s >>= λ (o, rest). after_dot rest >>= λ t. octets n t >>= λ os. some (o ∷ os)

abbrev pub common : List Text → List Text → ℕ
common [] mine = 0
common (o ∷ them) [] = 0
common (o ∷ them) (o' ∷ mine) = let rest = common them mine in if text_eq o o' then suc rest else 0

abbrev pub count_common : Option (List Text) → Option (List Text) → ℕ
count_common none mine = 0
count_common (some them) none = 0
count_common (some them) (some mine) = common them mine

unfoldable pub get_octet_match_count : Text → SipTransport → ℕ
unfolding octets
get_octet_match_count address t = count_common (octets 3 address) (octets 3 (get_host t))
