-- ===== src/ClientController/Routing/Responses.antt =====
-- Responses to the requests that clients send.
use drachtio_server.Common.{
  ℕ, ◌≤◌, ◌<◌, ◌≡◌, refl, ap₂, ◌∙◌, Bool, true, false, none, some, List, [], ◌∷◌, ◌++◌, map, leb,
  if◌then◌else◌, Text, arith, lt→leb-false, le→leb,
}
use drachtio_server.Common.Dict
use drachtio_server.ClientController.{Controller, Live, lock, Post, sip_message, post}
use drachtio_server.ClientController.Transactions.{remove_app_transaction}
use drachtio_server.ClientController.Dialogs.Laws.{remove_dialog-frame}
use drachtio_server.ClientController.Routing.{route_response_inside_transaction}
use mathlib.Core.List.{append_assoc}

-- A response as it comes from the network: its status, its CSeq method, and its bytes.
pub record Response : Type 0 where
  pub status : ℕ
  pub method : Text
  pub raw : Text
  pub meta : Text

module _ (live : Live) (transaction dialog : Text) where
  abbrev pub route : Response → Controller → Bool × Controller
  route r s =
      route_response_inside_transaction live r.raw r.meta transaction r.status r.method dialog s

  abbrev pub message_of : Response → Post
  message_of r = sip_message transaction dialog r.raw r.meta

  -- One response to a request whose client is connected.
  route-pending :
      (r : Response) (c : ℕ) (s : Controller)
      → Dict.find transaction s.app_transactions ≡ some c
      → lock live c ≡ some c
      → let t = route r s in
        (t.0 ≡ true)
        × (t.1.posted ≡ s.posted ++ (c, message_of r) ∷ [])
        × (Dict.find transaction t.1.app_transactions ≡ (if leb 200 r.status then none else some c))
  unfolding route_response_inside_transaction
  route-pending r c s f l =
      let s' = post c (message_of r) s in
      ground (
        arith,
        remove_dialog-frame dialog s',
        remove_dialog-frame dialog (remove_app_transaction transaction s'),
        Dict.find-erase_self transaction s.app_transactions,
      )

  -- One response to a request that is not known, or no longer.
  route-unknown :
      (r : Response) (s : Controller)
      → Dict.find transaction s.app_transactions ≡ none
      → let t = route r s in
        (t.0 ≡ false)
        × (t.1.posted ≡ s.posted)
        × (Dict.find transaction t.1.app_transactions ≡ none)
  unfolding route_response_inside_transaction
  route-unknown r s f = ground (
    arith,
    remove_dialog-frame dialog (remove_app_transaction transaction s),
    Dict.find-erase_self transaction s.app_transactions,
  )

  -- The responses as they come, with what each call returned.
  pub route_all : List Response → Controller → List Bool × Controller
  route_all [] s = ([], s)
  route_all (r ∷ rs) s = let (b, t) = route r s in let (bs, u) = route_all rs t in (b ∷ bs, u)

  route_all-unknown :
      (rs : List Response) (s : Controller)
      → Dict.find transaction s.app_transactions ≡ none
      → ((route_all rs s).0 ≡ map (λ _. false) rs) × ((route_all rs s).1.posted ≡ s.posted)
  unfolding route_all
  route_all-unknown [] s f = (refl, refl)
  route_all-unknown (r ∷ rs) s f =
      let (a, p, g) = route-unknown r s f in
      let (bs, q) = route_all-unknown rs (route r s).1 g in (ap₂ ◌∷◌ a bs, q ∙ p)

  abbrev pub AllProvisional : List Response → Type 0
  AllProvisional [] = Unit {0}
  AllProvisional (r ∷ rs) = (r.status < 200) × AllProvisional rs

  -- A request of a connected client gets every response up to the first final one, in order and each
  -- once; responses that come after it are refused, and nothing more is posted.
  pub route_all-until_final :
      (before : List Response) (final : Response) (late : List Response) (c : ℕ) (s : Controller)
      → Dict.find transaction s.app_transactions ≡ some c
      → lock live c ≡ some c
      → AllProvisional before
      → 200 ≤ final.status
      → let t = route_all (before ++ final ∷ late) s in
        (t.0 ≡ map (λ _. true) before ++ true ∷ map (λ _. false) late)
        × (t.1.posted
            ≡ s.posted ++ (map (λ r. (c, message_of r)) before ++ (c, message_of final) ∷ []))
  unfolding route_all
  route_all-until_final [] final late c s f l z k =
      let (a, p, g) = route-pending final c s f l in
      let (bs, q) =
        route_all-unknown late (route final s).1 (rw (le→leb 200 final.status k) at g) in
      (ap₂ ◌∷◌ a bs, q ∙ p)
  route_all-until_final (r ∷ before) final late c s f l z k =
      let (a, p, g) = route-pending r c s f l in
      let (bs, q) =
        route_all-until_final before final late c (route r s).1
          (rw (lt→leb-false 200 r.status z.0) at g) l z.1 k in
      (ap₂ ◌∷◌ a bs, q ∙ (rw p (append_assoc s.posted ((c, message_of r) ∷ []) _)))
