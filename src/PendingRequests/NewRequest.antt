-- ===== src/PendingRequests/NewRequest.antt =====
-- `processNewRequest`, `routeNewRequestToClient` and `timeout` of src/pending-request-controller.cpp: a
-- new request is kept, and given to an application or to the HTTP route of its method.
pub mod Routed
use drachtio_server.Common.{
  ℕ, ◌≡◌, Bool, true, false, not, ◌&&◌, ◌||◌, Option, none, some, List, [], ◌∷◌, ◌++◌, map,
  if◌then◌else◌, is_empty, is_some, Text, codes, starts_with,
}
use drachtio_server.Common.Dict
use drachtio_server.ClientController
use drachtio_server.ClientController.{Controller, Live, post, new_request}
use drachtio_server.ClientController.Selection.{select_client}
use drachtio_server.ClientController.Transactions.{add_net_transaction, remove_net_transaction}
use drachtio_server.Drachtio.UrlEncode.{urlencode}
use drachtio_server.RequestRouter.{Route, Routes, get_route}
use drachtio_server.PendingRequests.{
  Sip, Pending, PendingRequests, write, add, find, find_and_remove,
}

-- What else is read of a new request for the query of an HTTP route, null strings as `none`; `uri` is
-- the request uri as `url_e` prints it, `encoded_msg` what `EncodeStackMessage` gives, and `meta` the
-- data of the message with the address that it came in by.
pub record Arrival : Type 0 where
  pub sip : Sip
  pub url_host : Option Text
  pub url_user : Option Text
  pub url_params : Option Text
  pub from_user : Option Text
  pub to_user : Option Text
  pub content_type : Option Text
  pub protocol : Text
  pub source_address : Text
  pub uri : Text
  pub encoded_msg : Text
  pub meta : Text

-- What `makeRequestForRoute` is called with.
pub record RouteRequest : Type 0 where
  pub transaction_id : Text
  pub http_method : Text
  pub http_url : Text
  pub encoded_msg : Text

pub record World : Type 0 where
  pub pending : PendingRequests
  pub clients : Controller
  pub route_requests : List RouteRequest

abbrev or_empty : Option Text → Text
or_empty none = []
or_empty (some t) = t

-- The parts of one uri parameter, split at '='.
abbrev key_value : List Text → Text × Text
key_value [] = ([], [])
key_value (k ∷ []) = (k, [])
key_value (k ∷ v ∷ []) = (k, v)
key_value (k ∷ v ∷ w ∷ rest) = (k, [])

-- `boost::split` at a character is a parameter.
uri_params : (ℕ → Text → List Text) → Option Text → List (Text × Text)
uri_params split none = []
uri_params split (some params) = map (λ p. key_value (split b'=' p)) (split b';' params)

query_params : (ℕ → Text → List Text) → Arrival → List (Text × Text)
unfolding uri_params
query_params split m =
    (codes "method", m.sip.method_name)
    ∷ (codes "domain", or_empty m.url_host)
    ∷ (codes "protocol", m.protocol)
    ∷ (codes "source_address", m.source_address)
    ∷ (codes "fromUser", or_empty m.from_user)
    ∷ (codes "toUser", or_empty m.to_user)
    ∷ (codes "uriUser", or_empty m.url_user)
    ∷ (codes "contentType", or_empty m.content_type)
    ∷ (codes "uri", m.uri)
    ∷ uri_params split m.url_params

append_params : ℕ → List (Text × Text) → Text
append_params separator [] = []
append_params separator ((k, v) ∷ params) =
    separator ∷ (k ++ (b'=' ∷ (urlencode v ++ append_params b'&' params)))

-- tcp: and tls: urls are connected to directly, without a query.
unfoldable pub route_url : (ℕ → Text → List Text) → Text → Arrival → Text
unfolding query_params append_params urlencode
route_url split http_url m =
    if starts_with (codes "tcp:") http_url || starts_with (codes "tls:") http_url
    then http_url
    else http_url ++ (b'/' ∷ append_params b'?' (query_params split m))

-- `add`, and what is then written to the object.
abbrev pub keep_request : ℕ → ℕ → Text → Arrival → PendingRequests → PendingRequests
keep_request address handle uuid m s =
    let t = add address handle uuid m.sip s in
    record t {
      objects =
          write address (record (t.objects address) { meta = m.meta; encoded_msg = m.encoded_msg })
            t.objects;
    }

-- The request goes to a client, which owns its transaction from then on.
abbrev pub hand_over : ℕ → Text → Text → Text → Controller → Controller
hand_over c id encoded_msg meta s =
    post c (new_request id encoded_msg meta) (add_net_transaction c id s)

module _ (split : ℕ → Text → List Text) (address handle : ℕ) (uuid : Text) (m : Arrival) where
  unfoldable pub for_client : Option ℕ × Controller → World → Option (ℕ × Text × World)
  for_client (none, clients) w = some (503, uuid, record w { clients = clients })
  for_client (some c, clients) w = some (
    0,
    uuid,
    record w {
      pending = keep_request address handle uuid m w.pending;
      clients = hand_over c uuid m.encoded_msg m.meta clients;
    },
  )

  -- With an empty url there is neither a client nor an url: the null client is used.
  unfoldable pub for_route : Route → World → Option (ℕ × Text × World)
  unfolding route_url
  for_route route w =
      if is_empty route.url
      then none
      else some (
        0,
        uuid,
        record w {
          pending = keep_request address handle uuid m w.pending;
          route_requests =
              w.route_requests
              ++ record {
                transaction_id = uuid;
                http_method = route.http_method;
                http_url = route_url split route.url m;
                encoded_msg = m.encoded_msg;
              }
                ∷ [];
        },
      )

  -- The status returned, the transaction id written, and the state; `none` is undefined behaviour.
  unfoldable pub process_new_request : Routes → Live → World → Option (ℕ × Text × World)
  unfolding for_client for_route
  process_new_request routes live w =
      if m.sip.is_invite && is_some m.sip.to_tag
      then some (481, [], w)
      else elim (get_route m.sip.method_name routes) [
        | none ↦ for_client (select_client live m.sip.method_name none w.clients) w
        | some route ↦ for_route route w
      ]

unfoldable pub route_new_request_to_client : ℕ → Text → World → ℕ × World
unfolding find
route_new_request_to_client c id w = elim (find id w.pending) [
  | none ↦ (500, w)
  | some a ↦
      let p = w.pending.objects a in
      (0, record w { clients = hand_over c p.transaction_id p.encoded_msg p.meta w.clients })
]

-- The timer of a request has gone off; `none` is the assertion in `findAndRemove`.
unfoldable pub timeout : Text → World → Option World
timeout id w = elim (find_and_remove id true w.pending) [
  | none ↦ none
  | some (p, pending) ↦
      some (record w { pending = pending; clients = remove_net_transaction id w.clients })
]
