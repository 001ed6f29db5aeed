-- ===== src/RequestRouter/Tests.antt =====
-- A small table of routes.
use drachtio_server.Common.{◌≡◌, refl, true, false, some, [], ◌∷◌, codes, text_eq, has_substring}
use drachtio_server.Common.Dict
use drachtio_server.RequestRouter.{get_route, get_all_routes, add_route, to_upper}
use drachtio_server.RequestRouter.Lookup.{
  RouteLine, add_all, first_line, route_of, get_route-add_all,
}

abbrev invites : RouteLine
invites = record {
  sip_method = codes "invite";
  http_method = codes "GET";
  url = codes "https://a";
  verify_peer = true;
}

abbrev others : RouteLine
others = record {
  sip_method = codes "*";
  http_method = codes "POST";
  url = codes "http://b";
  verify_peer = false;
}

get_route-add_all_example :
    get_route (codes "BYE") (add_all (invites ∷ others ∷ []) []) ≡ some (route_of others)
unfolding first_line to_upper text_eq
get_route-add_all_example = get_route-add_all (codes "BYE") (invites ∷ others ∷ [])

invite_route :
    get_route (codes "INVITE") (add_all (others ∷ invites ∷ []) []) ≡ some (route_of invites)
unfolding get_route add_all add_route to_upper text_eq Dict.insert Dict.find
invite_route = refl

described :
    (get_all_routes (add_all (invites ∷ []) []) []).1
    ≡ codes "sip-method: INVITE, http-method: GET, http-url: https://a, cert will be verified" ∷ []
unfolding get_all_routes add_all add_route to_upper text_eq Dict.insert Dict.find has_substring
described = refl
