-- ===== src/ClientController/Transactions.antt =====
-- The transactions and API requests of each client: the `add…`, `remove…` and `findClientFor…` methods
-- of src/client-controller.cpp, and `route_api_response`.
pub mod Laws
use drachtio_server.Common.{
  ℕ, ◌≡◌, Bool, true, false, not, Option, none, some, List, [], ◌∷◌, ◌++◌, if◌then◌else◌, is_empty,
  Text, codes, has_substring,
}
use drachtio_server.Common.Dict
use drachtio_server.Common.Dict.{Dict}
use drachtio_server.ClientController.{Controller, Live, lock, Post, api_response, post}

-- The client of an entry, if it is still there.
abbrev pub lock_entry : Live → Option ℕ → Option ℕ
lock_entry live none = none
lock_entry live (some c) = lock live c

unfoldable pub find_client_for_app_transaction : Live → Text → Controller → Option ℕ
find_client_for_app_transaction live id s = lock_entry live (Dict.find id s.app_transactions)

unfoldable pub find_client_for_net_transaction : Live → Text → Controller → Option ℕ
find_client_for_net_transaction live id s = lock_entry live (Dict.find id s.net_transactions)

unfoldable pub find_client_for_api_request : Live → Text → Controller → Option ℕ
find_client_for_api_request live id s = lock_entry live (Dict.find id s.api_requests)

unfoldable pub add_app_transaction : ℕ → Text → Controller → Controller
add_app_transaction c id s = record s { app_transactions = Dict.insert id c s.app_transactions }

unfoldable pub add_net_transaction : ℕ → Text → Controller → Controller
add_net_transaction c id s = record s { net_transactions = Dict.insert id c s.net_transactions }

unfoldable pub add_api_request : ℕ → Text → Controller → Controller
add_api_request c id s = record s { api_requests = Dict.insert id c s.api_requests }

unfoldable pub remove_app_transaction : Text → Controller → Controller
remove_app_transaction id s = record s { app_transactions = Dict.erase id s.app_transactions }

unfoldable pub remove_net_transaction : Text → Controller → Controller
remove_net_transaction id s = record s { net_transactions = Dict.erase id s.net_transactions }

unfoldable pub remove_api_request : Text → Controller → Controller
remove_api_request id s = record s { api_requests = Dict.erase id s.api_requests }

-- The value returned, and the state after the call.
unfoldable pub route_api_response : Live → Text → Text → Text → Controller → Bool × Controller
unfolding find_client_for_api_request remove_api_request post
route_api_response live id response additional s =
    if is_empty id then (true, s) else elim (find_client_for_api_request live id s) [
      | none ↦ (false, remove_api_request id s)
      | some c ↦
          let s' =
            if has_substring (codes "|continue") additional then s else remove_api_request id s in
          (true, post c (api_response id response additional) s')
    ]
