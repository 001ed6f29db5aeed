-- ===== src/ClientController/Transactions/Laws.antt =====
-- Each API request gets its responses up to the first that is not marked `|continue`.
use drachtio_server.Common.{
  ℕ, ◌≡◌, ◌≢◌, refl, ◌∙◌, true, false, none, some, [], ◌∷◌, ◌++◌, Text, codes, has_substring,
  is_empty, Bool-cases, inl, inr,
}
use drachtio_server.Common.Dict
use drachtio_server.ClientController.{Controller, Live, lock, api_response, post}
use drachtio_server.ClientController.Transactions.{
  route_api_response, remove_api_request, find_client_for_api_request,
}

-- The request is pending and its client is there.
api_final :
    (live : Live) (id response additional : Text) (c : ℕ) (s : Controller)
    → is_empty id ≡ false
    → Dict.find id s.api_requests ≡ some c
    → lock live c ≡ some c
    → has_substring (codes "|continue") additional ≡ false
    → route_api_response live id response additional s
      ≡ (true, post c (api_response id response additional) (remove_api_request id s))
unfolding route_api_response
api_final live id response additional c s n f l h = rw (n, f, l, h) refl

api_unknown :
    (live : Live) (id response additional : Text) (s : Controller)
    → is_empty id ≡ false
    → Dict.find id s.api_requests ≡ none
    → route_api_response live id response additional s ≡ (false, remove_api_request id s)
unfolding route_api_response
api_unknown live id response additional s n f = rw (n, f) refl

-- A final response to a pending request of a connected client is posted to that client and ends the
-- request: a later response with the same id is refused and posts nothing. Requests with other ids
-- are still known.
pub route_api_response_once :
    (live live' : Live) (id response additional response' additional' : Text) (c : ℕ)
    (s : Controller)
    → is_empty id ≡ false
    → Dict.find id s.api_requests ≡ some c
    → lock live c ≡ some c
    → has_substring (codes "|continue") additional ≡ false
    → let r = route_api_response live id response additional s in
      let q = route_api_response live' id response' additional' r.1 in
      (r.0 ≡ true)
      × (r.1.posted ≡ s.posted ++ (c, api_response id response additional) ∷ [])
      × (q.0 ≡ false)
      × (q.1.posted ≡ r.1.posted)
      × ((other : Text)
          → other ≢ id
          → Dict.find other q.1.api_requests ≡ Dict.find other s.api_requests)
unfolding remove_api_request post
route_api_response_once live live' id response additional response' additional' c s n f l h =
    let m = s.api_requests in
    let t = post c (api_response id response additional) (remove_api_request id s) in
    rw
      (
        api_final live id response additional c s n f l h,
        api_unknown live' id response' additional' t n (Dict.find-erase_self id m),
      )
      (
        refl,
        refl,
        refl,
        refl,
        λ other ne.
            Dict.find-erase_ne id other (Dict.erase id m) ne ∙ Dict.find-erase_ne id other m ne,
      )

-- Any response to a request whose client is there is posted to it.
pub route_api_response-delivered :
    (live : Live) (id response additional : Text) (c : ℕ) (s : Controller)
    → is_empty id ≡ false
    → find_client_for_api_request live id s ≡ some c
    → let r = route_api_response live id response additional s in
      (r.0 ≡ true) × (r.1.posted ≡ s.posted ++ (c, api_response id response additional) ∷ [])
unfolding route_api_response remove_api_request post
route_api_response-delivered live id response additional c s n f =
    elim (Bool-cases (has_substring (codes "|continue") additional)) [
      | inl e ↦ rw (n, f, e) (refl, refl)
      | inr e ↦ rw (n, f, e) (refl, refl)
    ]
