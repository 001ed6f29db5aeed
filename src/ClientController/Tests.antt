-- ===== src/ClientController/Tests.antt =====
-- Two clients and a few calls.
use drachtio_server.Common.{
  ℕ, ◌≡◌, ◌≢◌, ◌↔◌, or_else, is_some, refl, true, false, none, some, [], ◌∷◌, arith, ◌==◌,
  if◌then◌else◌, map, Text, codes, text_eq, has_substring,
}
use drachtio_server.Common.Dict
use drachtio_server.ClientController.{Controller, Client, Live, empty, api_response, sip_message}
use drachtio_server.ClientController.Selection.{
  select_client, no_longer_wants_requests, to_lower, offset_key, offset_at, prune, pick,
}
use drachtio_server.ClientController.Selection.Candidates.{
  candidates, CanTake, select_client-CanTake, select_client-none_iff, select_client-frame,
  no_longer_wants_requests-candidates,
}
use drachtio_server.ClientController.Selection.RoundRobin.{select_times, select_times-rotate}
use drachtio_server.ClientController.Transactions.{route_api_response}
use drachtio_server.ClientController.Transactions.Laws.{route_api_response_once}
use drachtio_server.ClientController.Dialogs.{add_dialog_for_transaction}
use drachtio_server.ClientController.Dialogs.Laws.{add_dialog_for_transaction_lem}
use drachtio_server.ClientController.Routing.{
  SipRequest, route_request_inside_dialog, find_client_for_request,
}
use drachtio_server.ClientController.Routing.Requests.{
  route_request_inside_dialog-dialogs, route_request_inside_dialog-delivers, delivered,
}
use drachtio_server.ClientController.Routing.Responses.{Response, route_all, route_all-until_final}

abbrev sbc : Client
sbc = record { tags = codes "sbc" ∷ []; app_name = [] }

abbrev plain : Client
plain = record { tags = []; app_name = [] }

-- Clients 1 and 2 are connected.
abbrev live : Live
live c = if c == 1 then some sbc else if c == 2 then some plain else none

-- Both take INVITEs, and so did client 3, which is gone.
abbrev registered : Controller
registered = record empty {
  request_types = (codes "invite", 1) ∷ (codes "invite", 3) ∷ (codes "invite", 2) ∷ [];
  offsets = (codes "invite", 1) ∷ [];
  dialogs = (codes "d", 1) ∷ [];
  app_transactions = (codes "t", 1) ∷ [];
  net_transactions = (codes "n", 2) ∷ [];
  api_requests = (codes "m", 2) ∷ [];
}

test_select_client-CanTake :
    CanTake live (map to_lower (codes "INVITE")) none registered.request_types 2
unfolding select_client to_lower prune pick text_eq Dict.find
test_select_client-CanTake = select_client-CanTake live (codes "INVITE") none registered 2 refl

test_select_client-none_iff :
    ((select_client live (codes "BYE") none registered).0 ≡ none)
    ↔ (candidates live (map to_lower (codes "BYE")) none registered.request_types ≡ [])
test_select_client-none_iff = select_client-none_iff live (codes "BYE") none registered

-- Asking for a tag leaves the turns of the untagged INVITEs alone.
other_choices :
    let t = (select_client live (codes "INVITE") (some (codes "sbc")) registered).1 in
    (candidates live (codes "invite") none t.request_types
      ≡ candidates live (codes "invite") none registered.request_types)
    × (offset_key (codes "invite") none
          ≢ offset_key (map to_lower (codes "INVITE")) (some (codes "sbc"))
        → offset_at (offset_key (codes "invite") none) t
          ≡ offset_at (offset_key (codes "invite") none) registered)
other_choices =
    select_client-frame live (codes "INVITE") (some (codes "sbc")) registered (codes "invite") none

-- Client 1 takes "options" back and loses its INVITEs.
no_longer_wants_requests-candidates_example :
    candidates live
      (codes "invite")
      none
      (no_longer_wants_requests live 1 (codes "options") registered).request_types
    ≡ 2 ∷ []
unfolding text_eq
no_longer_wants_requests-candidates_example =
    no_longer_wants_requests-candidates live 1 (codes "options") registered (codes "invite") none

select_times-rotate_example :
    (select_times 2 live (codes "INVITE") none registered).0 ≡ some 2 ∷ some 1 ∷ []
unfolding text_eq to_lower Dict.find
select_times-rotate_example = select_times-rotate live (codes "INVITE") none registered

test_route_api_response_once :
    let r = route_api_response live (codes "m") (codes "OK") [] registered in
    let q = route_api_response live (codes "m") (codes "OK") [] r.1 in
    (r.0 ≡ true)
    × (r.1.posted ≡ (2, api_response (codes "m") (codes "OK") []) ∷ [])
    × (q.0 ≡ false)
    × (q.1.posted ≡ r.1.posted)
    × ((other : Text)
        → other ≢ codes "m"
        → Dict.find other q.1.api_requests ≡ Dict.find other registered.api_requests)
unfolding Dict.find text_eq has_substring
test_route_api_response_once =
    route_api_response_once live live (codes "m") (codes "OK") [] (codes "OK") [] 2 registered refl
      refl refl refl

-- The dialog "e" of the incoming transaction "n" goes to client 2.
add_dialog_for_transaction_lem_example :
    Dict.find
      (codes "e")
      (add_dialog_for_transaction live 0 (codes "n") (codes "e") registered).dialogs
    ≡ some 2
unfolding Dict.find text_eq
add_dialog_for_transaction_lem_example =
    add_dialog_for_transaction_lem live 0 (codes "n") (codes "e") (codes "e") registered refl

abbrev bye : SipRequest
bye = record {
  method_name = codes "BYE";
  is_notify = false;
  subscription_state = none;
  event = none;
}

test_route_request_inside_dialog-dialogs :
    Dict.find
      (codes "d")
      (route_request_inside_dialog live 0 [] [] (codes "x") bye (codes "d") registered).1.dialogs
    ≡ none
unfolding text_eq
test_route_request_inside_dialog-dialogs =
    route_request_inside_dialog-dialogs live 0 [] [] (codes "x") bye (codes "d") registered
      (codes "d")

route_request_inside_dialog-delivers_example :
    let found = find_client_for_request live 0 [] [] (codes "x") bye (codes "d") registered in
    let t = route_request_inside_dialog live 0 [] [] (codes "x") bye (codes "d") registered in
    (t.0 ≡ is_some found)
    × (t.1.posted ≡ delivered live 0 [] [] (codes "x") bye (codes "d") found)
    × (Dict.find (codes "x") t.1.net_transactions ≡ (
        if has_substring (codes "unsolicited") (codes "x")
        then Dict.find (codes "x") registered.net_transactions
        else or_else (Dict.find (codes "x") registered.net_transactions) found))
route_request_inside_dialog-delivers_example =
    route_request_inside_dialog-delivers live 0 [] [] (codes "x") bye (codes "d") registered

abbrev response : ℕ → Response
response status = record { status = status; method = codes "INVITE"; raw = []; meta = [] }

route_all-until_final_example :
    let t =
      route_all live
        (codes "t")
        (codes "d")
        (response 180 ∷ response 200 ∷ response 200 ∷ [])
        registered in
    (t.0 ≡ true ∷ true ∷ false ∷ [])
    × (t.1.posted
        ≡ (1, sip_message (codes "t") (codes "d") [] [])
          ∷ (1, sip_message (codes "t") (codes "d") [] [])
          ∷ [])
unfolding Dict.find text_eq
route_all-until_final_example =
    route_all-until_final live (codes "t") (codes "d") (response 180 ∷ []) (response 200)
      (response 200 ∷ []) 1 registered refl refl (omega arith) (omega arith)
