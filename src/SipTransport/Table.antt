-- ===== src/SipTransport/Table.antt =====
-- The table of transports (the static methods of src/sip-transports.cpp).
pub mod Suitable
use drachtio_server.Common.{
  ℕ, suc, ◌+◌, ◌-◌, ◌≡◌, Bool, true, false, not, ◌&&◌, ◌||◌, Option, none, some, List, [], ◌∷◌,
  ◌++◌, map, ◌==◌, ltb, leb, if◌then◌else◌, is_empty, is_some, or_else, keep_if, Text, text_eq,
  codes, has_substring, ◌>>=◌,
}
use drachtio_server.Drachtio.Uris.{Uri, parse_sip_uri}
use drachtio_server.SipTransport.{
  TportName, SipTransport, Platform, has_external_ip, get_port, get_protocol, init, is_in_network,
  with_default_net,
}
use drachtio_server.SipTransport.Texts.{
  get_hostport, get_local_hostport, is_ip_v6, is_localhost, is_local, any_eq, get_octet_match_count,
}

-- m_mapTport2SipTransport and m_masterTransport.
pub record Transports : Type 0 where
  pub by_tport : List (ℕ × SipTransport)
  pub master : SipTransport

abbrev pub find : ℕ → List (ℕ × SipTransport) → Option SipTransport
find tp [] = none
find tp ((k, t) ∷ ts) = if k == tp then some t else find tp ts

abbrev pub values : List (ℕ × SipTransport) → List SipTransport
values [] = []
values ((k, t) ∷ ts) = t ∷ values ts

-- A copy of a configuration is read anew; it has no transport of the stack.
unfoldable pub copy_of : Platform → SipTransport → Option SipTransport
unfolding init
copy_of platform config =
    init platform (record config { network = []; range = 0; tport = none; name = none })

abbrev pub on_tport : ℕ → TportName → SipTransport → SipTransport
on_tport tp name t = record t { tport = some tp; name = some name }

-- The transports of the stack that are not in the table are added to it.
unfoldable pub add_each :
    Platform
    → SipTransport
    → List (ℕ × TportName)
    → List (ℕ × SipTransport)
    → Option (List (ℕ × SipTransport))
unfolding copy_of with_default_net
add_each platform config [] table = some table
add_each platform config ((tp, name) ∷ tports) table =
    if is_some (find tp table)
    then add_each platform config tports table
    else copy_of platform config >>= λ t.
        add_each platform config tports
          ((tp, with_default_net platform (on_tport tp name t)) ∷ table)

-- `first` is the transport of the stack that comes before all others.
unfoldable pub add_transports :
    Platform → SipTransport → ℕ → List (ℕ × TportName) → Transports → Option Transports
unfolding copy_of add_each
add_transports platform config first tports s = copy_of platform config >>= λ t.
    add_each platform config tports s.by_tport >>= λ table.
    some (record { by_tport = table; master = record t { tport = some first } })

-- `parent` is that of a transport of the stack. `none` is the failed assertion.
unfoldable pub find_transport : (ℕ → ℕ) → ℕ → Transports → Option SipTransport
find_transport parent tp s = or_else (find tp s.by_tport) (find (parent (parent tp)) s.by_tport)

abbrev pub to_lower : ℕ → ℕ
to_lower c = if leb 65 c && leb c 90 then c + 32 else c

abbrev pub named_transport : List (Text × Text) → Option Text
named_transport [] = none
named_transport ((k, v) ∷ params) =
    if text_eq k (codes "transport") then some v else named_transport params

abbrev pub either : Option Text → Text → Text
either none t = t
either (some t) t' = t

-- What is looked for: the host, the protocol (or none, if empty), whether the remote host names it, and
-- whether an IPv6 address is wanted.
pub record Wanted : Type 0 where
  pub host : Text
  pub proto : Text
  pub is_explicit : Bool
  pub ip_v6 : Bool

abbrev pub wanted_of : Text → Text → Option Uri → Wanted
wanted_of remote proto none = record {
  host = remote;
  proto = map to_lower proto;
  is_explicit = false;
  ip_v6 = has_substring (codes "[") remote && has_substring (codes "]") remote;
}
wanted_of remote proto (some uri) = record {
  host = uri.hostpart;
  proto = map to_lower (either (named_transport uri.params) proto);
  is_explicit = is_some (named_transport uri.params);
  ip_v6 = has_substring (codes "[") remote && has_substring (codes "]") remote;
}

abbrev pub fits_address : Wanted → SipTransport → Bool
fits_address w t = not ((w.ip_v6 && not (is_ip_v6 t)) || (not w.ip_v6 && is_ip_v6 t))

abbrev pub fits_protocol : Wanted → SipTransport → Bool
fits_protocol w t = is_empty w.proto || text_eq (get_protocol t) w.proto

-- The order in which candidates are preferred.
unfoldable pub is_before : Platform → Text → SipTransport → SipTransport → Bool
unfolding is_in_network is_localhost get_octet_match_count
is_before platform host a b =
    if is_in_network platform host a
    then true
    else if is_in_network platform host b
    then false
    else if ltb (get_octet_match_count host b) (get_octet_match_count host a)
    then true
    else if ltb (get_octet_match_count host a) (get_octet_match_count host b)
    then false
    else if has_external_ip a
    then true
    else if has_external_ip b
    then false
    else if is_localhost a
    then false
    else true

abbrev pub has_tport_and_name : SipTransport → Bool
has_tport_and_name t = is_some t.tport && is_some t.name

abbrev pub candidates : Wanted → Transports → List SipTransport
candidates w s = keep_if (fits_protocol w) (keep_if (fits_address w) (values s.by_tport))

abbrev pub choose : Wanted → SipTransport → List SipTransport → Option SipTransport
choose w master [] = if not w.is_explicit && has_tport_and_name master then some master else none
choose w master (t ∷ ts) = some t

-- `sort` is what `std::sort` makes of a list by a comparison, or none where that is undefined behaviour,
-- as it may be for a comparison that is no strict weak order; then there is no result.
unfoldable pub find_appropriate_transport :
    Platform
    → ((SipTransport → SipTransport → Bool) → List SipTransport → Option (List SipTransport))
    → Text
    → Text
    → Transports
    → Option (Option SipTransport)
unfolding is_before parse_sip_uri
find_appropriate_transport platform sort remote proto s =
    let w = wanted_of remote proto (parse_sip_uri platform.uris remote) in
    sort (is_before platform w.host) (candidates w s) >>= λ sorted. some (choose w s.master sorted)

abbrev pub pair_with : Text → List Text → List (Text × Text)
pair_with port [] = []
pair_with port (d ∷ names) = (d, port) ∷ pair_with port names

abbrev pub external_names : SipTransport → List Text
external_names t = (if has_external_ip t then t.external_ip ∷ [] else []) ++ t.dns_names

unfoldable pub all_external_ips : List SipTransport → List Text
all_external_ips [] = []
all_external_ips (t ∷ ts) = external_names t ++ all_external_ips ts

-- getPort is never NULL, so that the port 5060 is never taken.
unfoldable pub all_external_contacts : List SipTransport → List (Text × Text)
all_external_contacts [] = []
all_external_contacts (t ∷ ts) =
    pair_with (get_port t) (external_names t) ++ all_external_contacts ts

unfoldable pub all_hostports : List SipTransport → Option (List Text)
all_hostports [] = some []
all_hostports (t ∷ ts) =
    let rest = all_hostports ts in get_hostport t >>= λ desc. rest >>= λ descs. some (desc ∷ descs)

unfoldable pub all_local_hostports : List SipTransport → List Text
all_local_hostports [] = []
all_local_hostports (t ∷ ts) = get_local_hostport t ∷ all_local_hostports ts

abbrev pub any_local : Text → List SipTransport → Bool
any_local host [] = false
any_local host (t ∷ ts) = is_local host t || any_eq host t.dns_names || any_local host ts

abbrev pub local_to : Text → Option SipTransport → Option Bool
local_to host none = none
local_to host (some t) = some (is_local host t)

-- `none` is the failed assertion of `findTransport`.
unfoldable pub is_local_address : (ℕ → ℕ) → Text → Option ℕ → Transports → Option Bool
unfolding find_transport
is_local_address parent host tp s = elim tp [
  | none ↦ some (any_local host (values s.by_tport))
  | some tp ↦ local_to host (find_transport parent tp s)
]
