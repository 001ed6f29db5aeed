-- ===== src/PendingRequests/NewRequest/Routed.antt =====
-- Where new requests end up.
use drachtio_server.Common.{
  ℕ, ◌≡◌, ◌≢◌, refl, ap, ◌∙◌, true, false, ◌&&◌, Option, none, some, or_else, List, [], ◌∷◌, ◌++◌,
  map, is_some, Text, arith, Option-cases, inl, inr,
}
use drachtio_server.Common.Dict
use drachtio_server.ClientController.{Controller, Live, post, new_request}
use drachtio_server.ClientController.Selection.{select_client, to_lower}
use drachtio_server.ClientController.Selection.Candidates.{
  candidates, CanTake, select_client-CanTake, select_client-none_iff, select_client-posted,
}
use drachtio_server.ClientController.Transactions.{add_net_transaction, remove_net_transaction}
use drachtio_server.RequestRouter.{Routes, get_route}
use drachtio_server.PendingRequests.{PendingRequests, unique_id, add, find}
use drachtio_server.PendingRequests.Invariant.{
  IsConsistent, IsNew, add-IsConsistent, find_and_remove_lem,
}
use drachtio_server.PendingRequests.NewRequest.{
  Arrival, World, keep_request, hand_over, for_client, process_new_request, timeout,
}

-- When the timer of a transaction id goes off while the maps of pending requests are consistent, no
-- assertion fails; afterwards no request with this id is pending and no client owns its transaction,
-- every other id leads to the pending request and to the owner that it led to before, and the maps stay
-- consistent.
pub timeout_lem :
    (id : Text) (w : World)
    → IsConsistent w.pending
    → (t : World) × (timeout id w ≡ some t)
      × IsConsistent t.pending
      × (find id t.pending ≡ none)
      × (Dict.find id t.clients.net_transactions ≡ none)
      × ((other : Text)
          → other ≢ id
          → (find other t.pending ≡ find other w.pending)
            × (Dict.find other t.clients.net_transactions
                ≡ Dict.find other w.clients.net_transactions))
unfolding timeout find remove_net_transaction
timeout_lem id w v =
    let (p, e, c, gone, retr, others) = find_and_remove_lem id true w.pending v in
    (
      record w { pending = p; clients = remove_net_transaction id w.clients },
      rw (e, timeout),
      c,
      gone,
      Dict.find-erase_self id w.clients.net_transactions,
      (λ other n. (others other n, Dict.find-erase_ne id other w.clients.net_transactions n)),
    )

module _ (address handle : ℕ) (uuid : Text) (m : Arrival) (s : PendingRequests) where
  keep_request-ids :
      (a : ℕ)
      → let p = (keep_request address handle uuid m s).objects a in
        let q = (add address handle uuid m.sip s).objects a in
        (p.transaction_id ≡ q.transaction_id) × (p.sip ≡ q.sip)
  keep_request-ids a = ground arith

  keep_request-IsConsistent :
      IsNew address uuid m.sip s
      → IsConsistent s
      → IsConsistent (keep_request address handle uuid m s)
  keep_request-IsConsistent n v =
      let c = add-IsConsistent address handle uuid m.sip s n v in
      record {
        own_id = λ id a e. (keep_request-ids a).0 ∙ c.own_id id a e;
        indexed = λ id a e.
            ap (λ u. Dict.find (unique_id u) (add address handle uuid m.sip s).by_call_id)
              (keep_request-ids a).1
            ∙ c.indexed id a e;
      }

  keep_request-find :
      Dict.find uuid s.by_transaction ≡ none
      → find uuid (keep_request address handle uuid m s) ≡ some address
  unfolding find add
  keep_request-find n = ground (arith, Dict.find-insert_self uuid address s.by_transaction)

for_client-none :
    (split : ℕ → Text → List Text) (address handle : ℕ) (uuid : Text) (m : Arrival)
    (r : Option ℕ × Controller) (w : World)
    → r.0 ≡ none
    → for_client split address handle uuid m r w ≡ some (503, uuid, record w { clients = r.1 })
unfolding for_client
for_client-none split address handle uuid m (none, clients) w e = refl
for_client-none split address handle uuid m (some c, clients) w e = cc

for_client-some :
    (split : ℕ → Text → List Text) (address handle : ℕ) (uuid : Text) (m : Arrival)
    (r : Option ℕ × Controller) (w : World) (c : ℕ)
    → r.0 ≡ some c
    → for_client split address handle uuid m r w
      ≡ some (
        0,
        uuid,
        record w {
          pending = keep_request address handle uuid m w.pending;
          clients = hand_over c uuid m.encoded_msg m.meta r.1;
        },
      )
unfolding for_client
for_client-some split address handle uuid m (none, clients) w c e = cc
for_client-some split address handle uuid m (some d, clients) w c e =
    let same : d ≡ c = cc in rw same

module _ (split : ℕ → Text → List Text) (address handle : ℕ) (uuid : Text) (m : Arrival)
    (routes : Routes) (live : Live) (w : World)
    (unrouted : get_route m.sip.method_name routes ≡ none)
    (allowed : (m.sip.is_invite && is_some m.sip.to_tag) ≡ false) where
  process_new_request-unrouted :
      process_new_request split address handle uuid m routes live w
      ≡ for_client split address handle uuid m
          (select_client live m.sip.method_name none w.clients)
          w
  unfolding process_new_request
  process_new_request-unrouted = rw (allowed, unrouted, process_new_request)

  -- A new request whose method has no HTTP route is refused with 503 when no connected client has
  -- registered the method; nothing is then kept, posted or asked.
  pub process_new_request-unserved :
      candidates live (map to_lower m.sip.method_name) none w.clients.request_types ≡ []
      → (t : World) × (process_new_request split address handle uuid m routes live w
          ≡ some (503, uuid, t))
        × (t.pending ≡ w.pending)
        × (t.clients.posted ≡ w.clients.posted)
        × (t.route_requests ≡ w.route_requests)
  process_new_request-unserved e =
      let r = select_client live m.sip.method_name none w.clients in
      let nobody = (select_client-none_iff live m.sip.method_name none w.clients).1 e in
      (
        record w { clients = r.1 },
        process_new_request-unrouted ∙ for_client-none split address handle uuid m r w nobody,
        refl,
        (select_client-posted live m.sip.method_name none w.clients).0,
        refl,
      )

  -- A new request whose method has no HTTP route, which is no INVITE with a To tag, and whose transaction
  -- id, address and Call-ID are new (IsNew), while the maps are consistent: when a connected client has
  -- registered the method, the request is kept, one of the clients that can take it is posted it, once,
  -- and owns its transaction (if the id had no owner), and the maps stay consistent.
  pub process_new_request-served :
      candidates live (map to_lower m.sip.method_name) none w.clients.request_types ≢ []
      → IsNew address uuid m.sip w.pending
      → IsConsistent w.pending
      → (chosen : ℕ) × (t : World) × (process_new_request split address handle uuid m routes live w
          ≡ some (0, uuid, t))
        × CanTake live (map to_lower m.sip.method_name) none w.clients.request_types chosen
        × (t.clients.posted
            ≡ w.clients.posted ++ (chosen, new_request uuid m.encoded_msg m.meta) ∷ [])
        × (Dict.find uuid t.clients.net_transactions
            ≡ or_else (Dict.find uuid w.clients.net_transactions) (some chosen))
        × (find uuid t.pending ≡ some address)
        × IsConsistent t.pending
  unfolding add_net_transaction post
  process_new_request-served ne n v =
      let r = select_client live m.sip.method_name none w.clients in
      elim (Option-cases r.0) [
        | inl e ↦ absurd (ne ((select_client-none_iff live m.sip.method_name none w.clients).0 e))
        | inr (c, e) ↦ (
          c,
          record w {
            pending = keep_request address handle uuid m w.pending;
            clients = hand_over c uuid m.encoded_msg m.meta r.1;
          },
          process_new_request-unrouted ∙ for_client-some split address handle uuid m r w c e,
          select_client-CanTake live m.sip.method_name none w.clients c e,
          ap (λ ps. ps ++ (c, new_request uuid m.encoded_msg m.meta) ∷ [])
              (select_client-posted live m.sip.method_name none w.clients).0,
          Dict.find-insert_self uuid c r.1.net_transactions
              ∙ ap (λ d. or_else (Dict.find uuid d) (some c))
                  (select_client-posted live m.sip.method_name none w.clients).1,
          keep_request-find address handle uuid m w.pending n.new_id,
          keep_request-IsConsistent address handle uuid m w.pending n v,
        )
      ]
