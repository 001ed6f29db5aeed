-- ===== src/Drachtio/Uris.antt =====
-- `parseSipUri` of src/drachtio.cpp. What its two regular expressions find in a text and what
-- `boost::split` makes of one are parameters.
use drachtio_server.Common.{
  Option, none, some, List, [], ◌∷◌, map, is_empty, if◌then◌else◌, Text, codes,
}

pub record Uri : Type 0 where
  pub scheme : Text
  pub userpart : Text
  pub hostpart : Text
  pub port : Text
  pub params : List (Text × Text)

-- The five groups of a match; one that takes no part in it is empty.
pub record Groups : Type 0 where
  pub scheme : Text
  pub userpart : Text
  pub hostpart : Text
  pub port : Text
  pub param_string : Text

-- How `std::regex_search` ends; `thrown` is a `std::regex_error`.
pub data Search : Type 0 where
  matched : Groups → Search
  unmatched thrown : Search

-- The searches for a uri with a name or an IPv4 address, and with an IPv6 address in brackets; and
-- `boost::split` at any of the given characters, which makes at least one token.
pub record UriPlatform : Type 0 where
  pub search : Text → Search
  pub search_v6 : Text → Search
  pub split : Text → Text → Text × List Text

module _ (u : UriPlatform) where
  abbrev pub param_of : Text × List Text → Text × Text
  param_of (key, []) = (key, [])
  param_of (key, value ∷ []) = (key, value)
  param_of (key, value ∷ more ∷ rest) = (key, [])

  abbrev pub params_of : Text × List Text → List (Text × Text)
  params_of (first, more) = map (λ kv. param_of (u.split (codes "=") kv)) (first ∷ more)

  abbrev pub uri_of : Groups → Uri
  uri_of g = record {
    scheme = g.scheme;
    userpart = g.userpart;
    hostpart = g.hostpart;
    port = g.port;
    params = if is_empty g.param_string then [] else params_of (u.split (codes ";") g.param_string);
  }

  abbrev pub or_v6 : Search → Search → Option Uri
  or_v6 thrown second = none
  or_v6 (matched g) second = some (uri_of g)
  or_v6 unmatched thrown = none
  or_v6 unmatched (matched g) = some (uri_of g)
  or_v6 unmatched unmatched = none

  -- `none` where it returns false.
  unfoldable pub parse_sip_uri : Text → Option Uri
  parse_sip_uri uri = or_v6 (u.search uri) (u.search_v6 uri)
