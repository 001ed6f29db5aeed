-- ===== src/RequestRouter/Lookup.antt =====
-- What a table of routes that was filled from a configuration answers.
use drachtio_server.Common.{
  ◌≡◌, Bool, Option, none, some, or_else, List, [], ◌∷◌, map, if◌then◌else◌, Text, text_eq, codes,
  arith,
}
use drachtio_server.Common.Dict
use drachtio_server.RequestRouter.{Route, Routes, add_route, get_route, to_upper}

-- A `request-handler` line of the configuration.
pub record RouteLine : Type 0 where
  pub sip_method : Text
  pub http_method : Text
  pub url : Text
  pub verify_peer : Bool

abbrev pub route_of : RouteLine → Route
route_of l = record { http_method = l.http_method; url = l.url; verify_peer = l.verify_peer }

unfoldable pub add_all : List RouteLine → Routes → Routes
add_all [] routes = routes
add_all (l ∷ lines) routes =
    add_all lines (add_route l.sip_method l.http_method l.url l.verify_peer routes)

-- The first line whose method, in capital letters, is equal to the given one.
unfoldable pub first_line : Text → List RouteLine → Option Route
first_line method [] = none
first_line method (l ∷ lines) =
    if text_eq (map to_upper l.sip_method) method
    then some (route_of l)
    else first_line method lines

find-add_all :
    (method : Text) (lines : List RouteLine) (routes : Routes)
    → Dict.find method (add_all lines routes)
      ≡ or_else (Dict.find method routes) (first_line method lines)
unfolding add_all first_line add_route
find-add_all method [] routes = ground arith
find-add_all method (l ∷ lines) routes =
    let key = map to_upper l.sip_method in
    ground (
      arith,
      find-add_all method lines (Dict.insert key (route_of l) routes),
      Dict.find-insert key method (route_of l) routes,
    )

-- A method, as it is given, goes by the first line whose method in capital letters is equal to it, and
-- else by the first line for `*` (a method with a small letter can only go by `*`); and there is a route
-- exactly when one of these lines is there.
pub get_route-add_all :
    (method : Text) (lines : List RouteLine)
    → get_route method (add_all lines [])
      ≡ or_else (first_line method lines) (first_line (codes "*") lines)
unfolding get_route Dict.find
get_route-add_all method lines =
    rw (find-add_all method lines [], find-add_all (codes "*") lines [])
