-- ===== src/SipDialogController/Thread/Replying/Quiet.antt =====
-- Steps of `doRespondToSipRequest` (src/sip-dialog-controller.cpp) that post nothing to clients.
use drachtio_server.Common.{
  ℕ, ◌+◌, ◌≡◌, refl, sym, ap, ◌∙◌, Bool, true, false, not, ◌&&◌, ◌||◌, Option, none, some, OnOption,
  List, [], ◌∷◌, ◌==◌, leb, ltb, if◌then◌else◌, is_empty, is_some, Text, text_eq, codes, arith,
  Bool-cases, inl, inr, subst,
}
use drachtio_server.Common
use drachtio_server.SipDialog.{SessionRefresher, set_session_timer}
use drachtio_server.ClientController.{Controller}
use drachtio_server.ClientController.Dialogs.{add_dialog_for_transaction, enter_dialog, note_dialog}
use drachtio_server.SipDialogController.Thread.{Thread, dialog_id}
use drachtio_server.SipDialogController.Thread.Steps.{World, add_dialog, start_session_timer}
use drachtio_server.SipDialogController.Thread.Clients.{settle_core-clients}
use drachtio_server.SipDialogController.Thread.Replying.{Reply, Incoming, try_reply}

-- The same messages were posted, and the same clients wait for an answer.
abbrev pub SamePosts : Controller → Controller → Type 0
SamePosts s s' = (s'.posted ≡ s.posted) × (s'.api_requests ≡ s.api_requests)

add_dialog_for_transaction-SamePosts :
    (world : World) (transaction id : Text) (s : Controller)
    → SamePosts s (add_dialog_for_transaction world.live world.random transaction id s)
unfolding add_dialog_for_transaction enter_dialog note_dialog
add_dialog_for_transaction-SamePosts world transaction id s = ground arith

-- Where a step has a result, the result's state satisfies the predicate.
abbrev pub OnState : {A : Type 0} → (Thread → Type 0) → Option (A × Thread) → Type 0
OnState P o = OnOption (λ r. P r.1) o

pub bind-OnOption :
    {A B : Type 0} (P : A → Type 0) (R : B → Type 0) (o : Option A) (f : A → Option B)
    → OnOption P o
    → ((a : A) → P a → OnOption R (f a))
    → OnOption R (Common.◌>>=◌ o f)
bind-OnOption P R none f h k = tt
bind-OnOption P R (some a) f h k = k a h

pub bind-any :
    {A B : Type 0} (R : B → Type 0) (o : Option A) (f : A → Option B)
    → ((a : A) → OnOption R (f a))
    → OnOption R (Common.◌>>=◌ o f)
bind-any R none f k = tt
bind-any R (some a) f k = k a

pub if-OnState :
    {A : Type 0} (P : Thread → Type 0) (b : Bool) (x y : Option (A × Thread))
    → OnState P x
    → OnState P y
    → OnState P (if b then x else y)
if-OnState P true x y h k = h
if-OnState P false x y h k = k

module _ (world : World) (net : Incoming) (k : Reply) (t0 : Thread) where
  abbrev Q : Thread → Type 0
  Q t = SamePosts t0.clients t.clients

  pub same : (t u : Thread) → u.clients ≡ t.clients → Q t → Q u
  same t u e h = subst (λ s. SamePosts t0.clients s) (sym e) h

  pub try_reply-Q : (irq code : ℕ) (t : Thread) → Q t → Q (try_reply net irq code t).1
  try_reply-Q irq code t h = elim (Bool-cases (net.treply irq)) [ inl e ↦ rw e h | inr e ↦ rw e h ]

  pub start_session_timer-Q :
      (a secs : ℕ) (who : SessionRefresher) (t : Thread)
      → Q t
      → Q (start_session_timer world a secs who t)
  unfolding start_session_timer
  start_session_timer-Q a secs who t h =
      same t (start_session_timer world a secs who t)
        (settle_core-clients a (set_session_timer secs who world.random (t.objects a).core) t) h

  pub dialog_id-Q : (a : ℕ) (t : Thread) → Q t → Q (dialog_id a t).1
  unfolding dialog_id
  dialog_id-Q a t h = h

  pub add_dialog-Q : (a : ℕ) (t : Thread) → Q t → OnOption Q (add_dialog world a t)
  unfolding add_dialog
  add_dialog-Q a t h =
      let (id, t1) = dialog_id a t in
      let core = (t1.objects a).core in
      let (p, q) = add_dialog_for_transaction-SamePosts world core.transaction_id id t1.clients in
      let (p1, q1) = dialog_id-Q a t h in
      bind-any Q (world.leg_by_call_id core.call_id) _ λ leg. (p ∙ p1, q ∙ q1)
