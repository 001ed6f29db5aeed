-- ===== src/SipDialogController/Thread/Sending/Replies.antt =====
-- The answers that an application gets (`route_api_response` of src/client-controller.cpp), and what holds
-- of the attempts of src/sip-dialog-controller.cpp to send.
use drachtio_server.Common.{
  ℕ, suc, ◌+◌, ◌≡◌, inl, inr, Bool, true, false, Option, none, some, List, [], ◌∷◌, ◌++◌,
  if◌then◌else◌, is_empty, is_some, Text, text_eq, text_eq_self, arith, Option-cases,
}
use drachtio_server.ClientController.{
  Controller, Post, sip_message, new_request, api_response, post,
}
use drachtio_server.ClientController.Transactions.{
  find_client_for_api_request, remove_api_request, route_api_response, add_net_transaction,
}
use drachtio_server.ClientController.Dialogs.{remove_dialog}
use drachtio_server.ClientController.Routing.{
  SipRequest, route_request_inside_dialog, forward_request, find_client_for_request,
}
use drachtio_server.SipDialogController.Thread.{Thread}
use drachtio_server.SipDialogController.Thread.Steps.{World}
use drachtio_server.SipDialogController.Thread.Sending.{Tried, undefined, failed, done, ◌>>=◌}

-- The answers to a message of an application among what was posted.
abbrev pub is_reply : Text → Post → Bool
is_reply id (sip_message a b c d) = false
is_reply id (new_request a b c) = false
is_reply id (api_response i a b) = text_eq i id

abbrev pub replies : Text → List (ℕ × Post) → ℕ
replies id [] = 0
replies id ((c, p) ∷ posted) = if is_reply id p then suc (replies id posted) else replies id posted

replies-append :
    (id : Text) (xs ys : List (ℕ × Post)) → replies id (xs ++ ys) ≡ replies id xs + replies id ys
replies-append id [] ys = ground arith
replies-append id ((c, p) ∷ xs) ys = ground (arith, replies-append id xs ys)

-- An application that is connected and has asked is answered.
pub route_api_response-replies :
    (world : World) (id how why : Text) (s : Controller)
    → is_empty id ≡ false
    → is_some (find_client_for_api_request world.live id s) ≡ true
    → replies id (route_api_response world.live id how why s).1.posted ≡ replies id s.posted + 1
unfolding route_api_response post remove_api_request find_client_for_api_request
route_api_response-replies world id how why s ne asked =
    elim (Option-cases (find_client_for_api_request world.live id s)) [
      | inl e ↦ absurd (ground (arith, e))
      | inr (c, e) ↦ ground (
        arith,
        e,
        text_eq_self id,
        replies-append id s.posted ((c, api_response id how why) ∷ []),
      )
    ]

forward_request-replies :
    (world : World) (raw meta transaction id dialog : Text) (sip : SipRequest) (o : Option ℕ)
    (s : Controller)
    → replies id
        (forward_request world.live world.random raw meta transaction sip dialog o s).1.posted
      ≡ replies id s.posted
unfolding forward_request post add_net_transaction remove_dialog
forward_request-replies world raw meta transaction id dialog sip none s = ground arith
forward_request-replies world raw meta transaction id dialog sip (some c) s =
    ground (arith, replies-append id s.posted ((c, sip_message transaction dialog raw meta) ∷ []))

-- A SIP message is no answer.
pub route_request_inside_dialog-replies :
    (world : World) (raw meta transaction id dialog : Text) (sip : SipRequest) (s : Controller)
    → replies id
        (route_request_inside_dialog world.live world.random raw meta transaction sip dialog
          s).1.posted
      ≡ replies id s.posted
unfolding route_request_inside_dialog
route_request_inside_dialog-replies world raw meta transaction id dialog sip s =
    forward_request-replies world raw meta transaction id dialog sip
      (find_client_for_request world.live world.random raw meta transaction sip dialog s) s

-- A predicate on the state after an exception, and one on the state after success.
abbrev pub OnTried : {A : Type 0} → (Thread → Type 0) → (Thread → Type 0) → Tried A → Type 0
OnTried P Q undefined = Unit {0}
OnTried P Q (failed why t) = P t
OnTried P Q (done a t) = Q t

pub bind-OnTried :
    {A B : Type 0} (P Q R : Thread → Type 0) (m : Tried A) (f : A → Thread → Tried B)
    → OnTried P Q m
    → ((a : A) (t : Thread) → Q t → OnTried P R (f a t))
    → OnTried P R (m >>= f)
bind-OnTried P Q R undefined f h k = tt
bind-OnTried P Q R (failed why t) f h k = h
bind-OnTried P Q R (done a t) f h k = k a t h
