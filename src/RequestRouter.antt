-- ===== src/RequestRouter.antt =====
-- src/request-router.cpp and request-router.hpp: which HTTP url, if any, is asked where a new request
-- goes, by its SIP method.
pub mod Lookup
mod Tests
use drachtio_server.Common.{
  ℕ, ◌+◌, ◌-◌, ◌≡◌, Bool, true, false, ◌&&◌, Option, none, some, or_else, List, [], ◌∷◌, ◌++◌, map,
  leb, if◌then◌else◌, length, Text, codes, has_substring,
}
use drachtio_server.Common.Dict
use drachtio_server.Common.Dict.{Dict}

pub record Route : Type 0 where
  pub http_method : Text
  pub url : Text
  pub verify_peer : Bool

abbrev pub Routes : Type 0
Routes = Dict Route

abbrev pub clear_routes : Routes → Routes
clear_routes r = []

-- boost::to_upper_copy, in the C locale
unfoldable pub to_upper : ℕ → ℕ
to_upper c = if leb b'a' c && leb c b'z' then c - 32 else c

unfoldable pub add_route : Text → Text → Text → Bool → Routes → Routes
add_route sip_method http_method url verify_peer routes =
    Dict.insert (map to_upper sip_method)
      (record { http_method = http_method; url = url; verify_peer = verify_peer }) routes

-- The value false is `none`: the three out-parameters are then left alone.
unfoldable pub get_route : Text → Routes → Option Route
get_route method routes = or_else (Dict.find method routes) (Dict.find (codes "*") routes)

describe : Text → Route → Text
describe sip_method route =
    (codes "sip-method: " ++ sip_method)
    ++ (codes ", http-method: " ++ route.http_method)
    ++ (codes ", http-url: " ++ route.url)
    ++ (if has_substring (codes "https") route.url
        then codes ", cert "
          ++ ((if route.verify_peer then codes "will" else codes "will not")
              ++ codes " be verified")
        else [])

-- The number returned, and the descriptions put behind those that the vector has already.
unfoldable pub get_all_routes : Routes → List Text → ℕ × List Text
unfolding describe
get_all_routes [] out = (0, out)
get_all_routes ((sip_method, route) ∷ routes) out =
    let (count, all) = get_all_routes routes (out ++ describe sip_method route ∷ []) in
    (count + 1, all)

abbrev pub get_count_of_routes : Routes → ℕ
get_count_of_routes routes = length routes
