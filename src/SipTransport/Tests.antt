-- ===== src/SipTransport/Tests.antt =====
-- Transports on concrete values.
use drachtio_server.Common.{
  has_substring, Text, Bool, Option, List, SortsFew, ◌*◌, ◌≡◌, refl, true, none, some, [], ◌∷◌,
  arith, ◌==◌, text_eq, codes,
}
use drachtio_server.Drachtio.Uris.{Uri, matched, unmatched, parse_sip_uri}
use drachtio_server.SipTransport.{
  SipTransport, Platform, TportName, init, split_net, atoi, mask_of, is_in_network,
  with_default_net,
}
use drachtio_server.SipTransport.Texts.{is_ip_v6, get_contact_uri, octets, get_octet_match_count}
use drachtio_server.SipTransport.Networks.{prefix, is_in_network-prefix}
use drachtio_server.SipTransport.Table.{
  Transports, Wanted, is_before, values, copy_of, add_each, add_transports, wanted_of,
  find_appropriate_transport,
}
use drachtio_server.SipTransport.Table.Suitable.{Suits, find_appropriate_transport-Suits}

abbrev uri : Uri
uri = record {
  scheme = codes "sip";
  userpart = [];
  hostpart = codes "10.0.0.5";
  port = codes "5060";
  params = [];
}

abbrev config : SipTransport
config = record {
  contact = codes "sip:10.0.0.5:5060";
  external_ip = codes "5.6.7.8";
  local_net = codes "10.0.0.0/8";
  network = [];
  netmask = 0;
  range = 0;
  uri = uri;
  dns_names = [];
  tport = none;
  name = none;
}

abbrev name : TportName
name = record { host = codes "10.0.0.5"; port = codes "5060"; proto = codes "udp" }

-- 10.0.0.0 stands for every address.
abbrev platform : Platform
platform = record {
  uris = record {
    search = λ s. matched (record {
      scheme = codes "sip";
      userpart = [];
      hostpart = codes "10.0.0.5";
      port = codes "5060";
      param_string = [];
    });
    search_v6 = λ s. unmatched;
    split = λ separators s. (s, []);
  };
  address = λ s. 10 * 16777216;
  wide_shift = λ n. 0;
}

abbrev read_config : SipTransport
read_config = record config { netmask = 4278190080; range = 167772160 }

init_example : init platform config ≡ some read_config
unfolding init split_net atoi mask_of parse_sip_uri
init_example = refl

abbrev listening : SipTransport
listening = record read_config { tport = some 3; name = some name }

abbrev table : Transports
table = record { by_tport = (3, listening) ∷ []; master = record read_config { tport = some 2 } }

abbrev nothing : Transports
nothing = record { by_tport = []; master = config }

add_transports_example : add_transports platform config 2 ((3, name) ∷ []) nothing ≡ some table
unfolding add_transports add_each copy_of init split_net atoi mask_of parse_sip_uri with_default_net
add_transports_example = refl

contact_example : get_contact_uri true listening ≡ codes "sip:5.6.7.8:5060"
unfolding get_contact_uri text_eq
contact_example = refl

octets_example : get_octet_match_count (codes "10.0.1.9") listening ≡ 2
unfolding get_octet_match_count octets text_eq
octets_example = refl

-- Nothing is said of the order of two.
abbrev sort : (SipTransport → SipTransport → Bool) → List SipTransport → Option (List SipTransport)
sort le [] = some []
sort le (t ∷ []) = some (t ∷ [])
sort le (t ∷ u ∷ ts) = none

sort-SortsFew : (le : SipTransport → SipTransport → Bool) → SortsFew (sort le)
sort-SortsFew le = record { nothing = refl; one = λ t. refl }

abbrev remote : Text
remote = codes "sip:10.0.0.5:5060"

abbrev wanted : Wanted
wanted = wanted_of remote (codes "udp") (some uri)

find_appropriate_transport-Suits_example :
    (found : Option SipTransport) × (find_appropriate_transport platform sort remote
        (codes "udp")
        table
      ≡ some found)
    × Suits wanted (values table.by_tport) found
unfolding parse_sip_uri text_eq has_substring is_ip_v6
find_appropriate_transport-Suits_example =
    find_appropriate_transport-Suits platform sort config 2 ((3, name) ∷ []) remote (codes "udp")
      nothing table (λ host. sort-SortsFew (is_before platform host)) add_transports_example
      (omega arith)

is_in_network-prefix_example :
    is_in_network platform (codes "10.0.0.0") read_config
    ≡ (prefix 8 (10 * 16777216) == prefix 8 167772160)
unfolding mask_of
is_in_network-prefix_example =
    is_in_network-prefix platform 8 (codes "10.0.0.0") read_config (omega arith) (omega arith) refl
      (omega arith) (omega arith)
