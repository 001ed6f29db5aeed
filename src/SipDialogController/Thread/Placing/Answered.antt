-- ===== src/SipDialogController/Thread/Placing/Answered.antt =====
-- An application that places a request is answered (`doSendRequestOutsideDialog` of
-- src/sip-dialog-controller.cpp).
use drachtio_server.Common.{
  ℕ, ◌+◌, ◌≡◌, refl, sym, Bool, true, false, not, ◌&&◌, if-cases, ◌||◌, Option, none, some,
  is_empty, is_some, Text, codes, starts_with, has_substring, Bool-cases, inl, inr, subst, arith,
}
use drachtio_server.DrachtioController.{UaInvalidData, find_tport_for_subscription}
use drachtio_server.ClientController.Transactions.{
  remove_app_transaction, find_client_for_api_request, route_api_response,
}
use drachtio_server.SipDialogController.Thread.{Thread, Method, add_rip}
use drachtio_server.SipDialogController.Thread.Steps.{World, Outgoing}
use drachtio_server.SipDialogController.Thread.Sending.{
  Tried, undefined, failed, done, ◌>>=◌, answer, sent_text,
}
use drachtio_server.SipDialogController.Thread.Sending.Replies.{replies, route_api_response-replies}
use drachtio_server.SipDialogController.Thread.Placing.{
  Placed, Route, Outbound, next_hop, makes_dialog, may_be_cached, valid_method, cached_or_found,
  route_from, choose_route, choose_from, replaced_from, check_type, check_loop, leg_made,
  cached_for, tag_asserted, request_made, note_placed, place, caught,
  do_send_request_outside_dialog,
}

-- An attempt that ends, with a predicate on the state after an exception and one after success.
abbrev Ends : {A : Type 0} → (Thread → Type 0) → (Thread → Type 0) → Tried A → Type 0
Ends P R undefined = true ≡ false
Ends P R (failed why t) = P t
Ends P R (done a t) = R t

bind-Ends :
    {A B : Type 0} (P R S : Thread → Type 0) (m : Tried A) (f : A → Thread → Tried B)
    → Ends P R m
    → ((a : A) (t : Thread) → R t → Ends P S (f a t))
    → Ends P S (m >>= f)
bind-Ends P R S undefined f h k = h
bind-Ends P R S (failed why t) f h k = h
bind-Ends P R S (done a t) f h k = k a t h

and-false : (b : Bool) → (b && not true) ≡ false
and-false true = refl
and-false false = refl

module _ (world : World) (out : Outbound) (k : Placed) (t0 : Thread)
    (ne : is_empty k.msg_id ≡ false)
    (asked : is_some (find_client_for_api_request world.live k.msg_id t0.clients) ≡ true)
    (hosted : is_some k.host ≡ true) (tagged : (leg : ℕ) → out.has_local_tag leg ≡ true) where
  abbrev Same : Thread → Type 0
  Same t = t.clients ≡ t0.clients

  abbrev Told : Thread → Type 0
  Told t = replies k.msg_id t.clients.posted ≡ replies k.msg_id t0.clients.posted + 1

  valid_method-Same :
      (o : Option Method) (t : Thread) → Same t → Ends Same Same (valid_method world out k o t)
  valid_method-Same none t h = h
  valid_method-Same (some m) t h = h

  route_from-Same :
      (o : Option Route) (t : Thread) → Same t → Ends Same Same (route_from world out k o t)
  route_from-Same none t h = h
  route_from-Same (some r) t h = h

  cached_or_found-Same :
      (o : Option UaInvalidData) (t : Thread)
      → Same t
      → Ends Same Same (cached_or_found world out k o t)
  cached_or_found-Same none t h = route_from-Same (out.find_appropriate (next_hop world out k)) t h
  cached_or_found-Same (some ua) t h = h

  cached_for-Same :
      (o : Option Text) (t : Thread)
      → is_some o ≡ true
      → Same t
      → Ends Same Same (cached_for world out k o t)
  cached_for-Same none t s h = absurd (ground (arith, s))
  cached_for-Same (some host) t s h =
      cached_or_found-Same (find_tport_for_subscription k.user host t.caches) t h

  choose_route-Same :
      (m : Method) (t : Thread) → Same t → Ends Same Same (choose_route world out k m t)
  unfolding choose_route
  choose_route-Same m t h =
      if-cases (Ends Same Same) (may_be_cached m) _ _ (λ e. cached_for-Same k.host t hosted h)
        (λ e. cached_or_found-Same none t h)

  tag_asserted-Same :
      (m : Method) (leg : ℕ) (t : Thread)
      → Same t
      → Ends Same Same (tag_asserted world out k m leg t)
  tag_asserted-Same m leg t h =
      let e : (makes_dialog m && not (out.has_local_tag leg)) ≡ false =
        rw (tagged leg) (and-false (makes_dialog m)) in
      rw e h

  replaced_from-Same :
      (from : Text) (o : Option Text) (t : Thread)
      → Same t
      → Ends Same Same (replaced_from world out k from o t)
  replaced_from-Same from none t h = h
  replaced_from-Same from (some f) t h = h

  choose_from-Same :
      (o : Option Text) (r : Route) (t : Thread)
      → Same t
      → Ends Same Same (choose_from world out k o r t)
  choose_from-Same none r t h = h
  choose_from-Same (some from) r t h = elim (Bool-cases (has_substring (codes "localhost") from)) [
    | inl e ↦ rw e (replaced_from-Same from (out.replace_host from r.host r.port) t h)
    | inr e ↦ rw e h
  ]

  check_type-Same :
      (o : Option Text) (t : Thread) → Same t → Ends Same Same (check_type world out k o t)
  check_type-Same (some type) t h = h
  check_type-Same none t h =
      elim (Bool-cases (is_empty k.body || starts_with (codes "v=0") k.body)) [
        | inl e ↦ rw e h
        | inr e ↦ rw e h
      ]

  check_loop-Same :
      (o : Option Text) (t : Thread) → Same t → Ends Same Same (check_loop world out k o t)
  check_loop-Same none t h = h
  check_loop-Same (some uri) t h = elim (Bool-cases (out.is_local uri)) [
    | inl e ↦ rw e h
    | inr e ↦ rw e h
  ]

  leg_made-Same : (o : Option ℕ) (t : Thread) → Same t → Ends Same Same (leg_made world out k o t)
  leg_made-Same none t h = h
  leg_made-Same (some leg) t h = h

  request_made-Same :
      (leg : ℕ) (m : Method) (o : Option Outgoing) (t : Thread)
      → Same t
      → Ends Same Same (request_made world out k leg m o t)
  request_made-Same leg m none t h = h
  request_made-Same leg m (some o) t h = h

  note_placed-Same :
      (m : Method) (r : Route) (leg : ℕ) (o : Outgoing) (t : Thread)
      → Same t
      → Same (note_placed world out k m r leg o t)
  unfolding note_placed add_rip
  note_placed-Same m r leg o t h = elim (Bool-cases (makes_dialog m)) [
    | inl e ↦ rw e h
    | inr e ↦ rw e h
  ]

  answer-Told : (how why : Text) (t : Thread) → Same t → Told (answer world k.msg_id how why t)
  answer-Told how why t h =
      subst
        (λ s.
          replies k.msg_id (route_api_response world.live k.msg_id how why s).1.posted
          ≡ replies k.msg_id t0.clients.posted + 1)
        (sym h) (route_api_response-replies world k.msg_id how why t0.clients ne asked)

  place-Told : Ends Same Told (place world out k t0)
  unfolding place
  place-Told =
      bind-Ends Same Same Told (valid_method world out k k.method t0) _
        (valid_method-Same k.method t0 refl)
        λ m t1 h1.
          bind-Ends Same Same Told (choose_route world out k m t1) _ (choose_route-Same m t1 h1)
            λ r t2 h2.
              bind-Ends Same Same Told (choose_from world out k k.from r t2) _
                (choose_from-Same k.from r t2 h2)
                λ from t3 h3.
                  bind-Ends Same Same Told (check_type world out k k.content_type t3) _
                    (check_type-Same k.content_type t3 h3)
                    λ ok t4 h4.
                      bind-Ends Same Same Told
                        (check_loop world out k (out.normalize k.request_uri) t4) _
                        (check_loop-Same (out.normalize k.request_uri) t4 h4)
                        λ ok' t5 h5.
                          bind-Ends Same Same Told (leg_made world out k (out.leg from) t5) _
                            (leg_made-Same (out.leg from) t5 h5)
                            λ leg t6 h6.
                              bind-Ends Same Same Told
                                (request_made world out k leg m (out.request leg r.tport m) t6) _
                                (request_made-Same leg m (out.request leg r.tport m) t6 h6)
                                λ o t7 h7.
                                  bind-Ends Same Same Told (tag_asserted world out k m leg t7) _
                                    (tag_asserted-Same m leg t7 h7)
                                    λ ok'' t8 h8.
                                      answer-Told (codes "OK") (sent_text world k.transaction_id o)
                                        (note_placed world out k m r leg o t8)
                                        (note_placed-Same m r leg o t8 h8)

  caught-Told :
      (m : Tried (Unit {0}))
      → Ends Same Told m
      → (u : Thread) × (caught world out k m ≡ some u) × Told u
  unfolding remove_app_transaction
  caught-Told undefined h = absurd (ground (arith, h))
  caught-Told (failed why t) h = (_, refl, answer-Told (codes "NOK") why t h)
  caught-Told (done ok t) h = (t, refl, h)

-- An application that is connected and has asked with a message id places a request outside of a dialog,
-- whose request uri has a host (a null pointer is read else) and for which the legs that the stack
-- makes have a local tag (an assertion fails else): the handler ends, and the application gets exactly
-- one more answer to that id, whether the request is sent, refused or fails at any step.
pub do_send_request_outside_dialog-Told :
    (world : World) (out : Outbound) (k : Placed) (t : Thread)
    → is_empty k.msg_id ≡ false
    → is_some (find_client_for_api_request world.live k.msg_id t.clients) ≡ true
    → is_some k.host ≡ true
    → ((leg : ℕ) → out.has_local_tag leg ≡ true)
    → (u : Thread) × (do_send_request_outside_dialog world out k t ≡ some u)
      × (replies k.msg_id u.clients.posted ≡ replies k.msg_id t.clients.posted + 1)
unfolding do_send_request_outside_dialog
do_send_request_outside_dialog-Told world out k t ne asked hosted tagged =
    caught-Told world out k t ne asked hosted tagged (place world out k t)
      (place-Told world out k t ne asked hosted tagged)
