-- ===== src/SipProxyController/Core/Success.antt =====
-- What becomes of the clients when all are cancelled, and what is left of them after a success has been
-- forwarded.
use Prim.{Unit, tt}
use drachtio_server.Common.{
  ℕ, ◌≡◌, refl, Bool, true, false, ◌||◌, ◌&&◌, Option, none, some, List, [], ◌∷◌, ◌++◌,
  if◌then◌else◌, if-cases, Text, ◌>>=◌, sym,
}
use drachtio_server.SipProxyController.{
  State, not_started, trying, calling, proceeding, completed, terminated, is_state,
  ClientTransaction, is_invite, Effect, cancel_sent,
}
use drachtio_server.SipProxyController.Transaction.{
  Times, enter_invite, enter_other, set_state, stop_timers, mark_canceled, no_effects, cancel_in,
  cancel_request,
}
use drachtio_server.SipProxyController.Core.{Setting, cancel_all}

-- The state of a transaction once it has been cancelled: one without a response is completed, one that
-- has not been sent is terminated, and the others stay as they are.
abbrev pub canceled_state : State → State
canceled_state st = elim st [ calling ↦ completed | not_started ↦ terminated | other ↦ other ]

-- A CANCEL goes to a target that has sent a provisional response, where one can be sent.
abbrev pub is_sent_cancel : (Text → Bool) → ClientTransaction → Bool
is_sent_cancel sends c = is_state proceeding c.state && sends c.target

-- The CANCELs for these clients, in their order: to the target, with the branch of the request.
abbrev pub cancels : (Text → Bool) → List ClientTransaction → List Effect
cancels sends [] = []
cancels sends (c ∷ clients) =
    (if is_sent_cancel sends c then cancel_sent c.target c.branch ∷ [] else [])
    ++ cancels sends clients

-- The second is what the first is after it has been cancelled; it is marked as cancelled where it had no
-- response yet or was sent a CANCEL.
abbrev pub IsCut : (Text → Bool) → ClientTransaction → ClientTransaction → Type 0
IsCut sends c c' =
    (c'.state ≡ canceled_state c.state)
    × (c'.canceled ≡ (c.canceled || (is_state calling c.state || is_sent_cancel sends c)))
    × (c'.target ≡ c.target)
    × (c'.branch ≡ c.branch)

-- The same for each of two lists.
abbrev pub AreCut : (Text → Bool) → List ClientTransaction → List ClientTransaction → Type 0
AreCut sends [] [] = Unit {0}
AreCut sends [] (c' ∷ clients') = true ≡ false
AreCut sends (c ∷ clients) [] = true ≡ false
AreCut sends (c ∷ clients) (c' ∷ clients') = IsCut sends c c' × AreCut sends clients clients'

-- Each has been sent, has not terminated, and is not waiting for its first response.
abbrev pub AreLive : List ClientTransaction → Type 0
AreLive [] = Unit {0}
AreLive (c ∷ clients) =
    (is_state not_started c.state ≡ false)
    × (is_state terminated c.state ≡ false)
    × (is_state calling c.state ≡ false)
    × AreLive clients

or-true : (b : Bool) → (b || true) ≡ true
or-true true = refl
or-true false = refl

or-false : (b : Bool) → (b || false) ≡ b
or-false true = refl
or-false false = refl

-- A step that does not fail, and what comes of it.
abbrev Cuts : (Text → Bool) → ClientTransaction → Option (ClientTransaction × List Effect) → Type 0
Cuts sends c none = true ≡ false
Cuts sends c (some (c', effects)) = IsCut sends c c' × (effects ≡ cancels sends (c ∷ []))

-- Only the state and the timers change.
abbrev Goes : State → ClientTransaction → Option ClientTransaction → Type 0
Goes st c none = true ≡ false
Goes st c (some c') =
    (c'.state ≡ st) × (c'.canceled ≡ c.canceled) × (c'.target ≡ c.target) × (c'.branch ≡ c.branch)

set_state-completed :
    (times : Times) (p : ℕ) (c : ClientTransaction)
    → c.state ≡ calling
    → Goes completed c (set_state times p completed c)
unfolding set_state enter_invite enter_other
set_state-completed times p c e = rw e (
    if-cases (Goes completed c) (is_invite c) _ _ (λ i. (refl, refl, refl, refl))
      (λ i. (refl, refl, refl, refl)))

set_state-terminated :
    (times : Times) (p : ℕ) (c : ClientTransaction)
    → c.state ≡ not_started
    → Goes terminated c (set_state times p terminated c)
unfolding set_state enter_invite enter_other
set_state-terminated times p c e = rw e (
    if-cases (Goes terminated c) (is_invite c) _ _ (λ i. (refl, refl, refl, refl))
      (λ i. (refl, refl, refl, refl)))

mark_canceled-Cuts :
    (times : Times) (p : ℕ) (sends : Text → Bool) (c : ClientTransaction)
    (o : Option ClientTransaction)
    → c.state ≡ calling
    → Goes completed c o
    → Cuts sends c (mark_canceled times p o)
mark_canceled-Cuts times p sends c none e g = g
mark_canceled-Cuts times p sends c (some c') e (s, k, t, b) =
    ((rw e s, rw e (sym (or-true c.canceled)), t, b), rw e refl)

no_effects-Cuts :
    (times : Times) (p : ℕ) (sends : Text → Bool) (c : ClientTransaction)
    (o : Option ClientTransaction)
    → c.state ≡ not_started
    → Goes terminated c o
    → Cuts sends c (no_effects times p o)
no_effects-Cuts times p sends c none e g = g
no_effects-Cuts times p sends c (some c') e (s, k, t, b) =
    ((rw e s, rw (e, k) (sym (or-false c.canceled)), t, b), rw e refl)

same-Cuts :
    (sends : Text → Bool) (c : ClientTransaction) (st : State)
    → c.state ≡ st
    → canceled_state st ≡ st
    → is_state calling st ≡ false
    → (is_state proceeding st && sends c.target) ≡ false
    → Cuts sends c (some (c, []))
same-Cuts sends c st e k n m =
    ((rw e (sym k), rw (e, n, m) (sym (or-false c.canceled)), refl, refl), rw (e, m) refl)

cancel_in-Cuts :
    (times : Times) (p : ℕ) (sends : Text → Bool) (st : State) (c : ClientTransaction)
    → c.state ≡ st
    → Cuts sends c (cancel_in times p (sends c.target) st c)
unfolding cancel_in
cancel_in-Cuts times p sends not_started c e =
    no_effects-Cuts times p sends c _ e (set_state-terminated times p c e)
cancel_in-Cuts times p sends calling c e =
    mark_canceled-Cuts times p sends c _ e (set_state-completed times p c e)
cancel_in-Cuts times p sends trying c e = same-Cuts sends c trying e refl refl refl
cancel_in-Cuts times p sends completed c e = same-Cuts sends c completed e refl refl refl
cancel_in-Cuts times p sends terminated c e = same-Cuts sends c terminated e refl refl refl
cancel_in-Cuts times p sends proceeding c e =
    if-cases (Cuts sends c) (sends c.target) _ _
      (λ s. ((rw e refl, rw (e, s) (sym (or-true c.canceled)), refl, refl), rw (e, s) refl))
      (λ s. same-Cuts sends c proceeding e refl refl (rw s refl))

-- The same for all the clients.
abbrev pub AllCut :
    (Text → Bool) → List ClientTransaction → Option (List ClientTransaction × List Effect) → Type 0
AllCut sends cs none = true ≡ false
AllCut sends cs (some (clients, effects)) = AreCut sends cs clients × (effects ≡ cancels sends cs)

cancels-cons :
    (sends : Text → Bool) (c : ClientTransaction) (cs : List ClientTransaction)
    → cancels sends (c ∷ []) ++ cancels sends cs ≡ cancels sends (c ∷ cs)
cancels-cons sends c cs =
    if-cases (λ own. (own ++ []) ++ cancels sends cs ≡ own ++ cancels sends cs)
      (is_sent_cancel sends c) _ _ (λ e. refl) (λ e. refl)

join-AllCut :
    (sends : Text → Bool) (c : ClientTransaction) (cs : List ClientTransaction)
    (o : Option (ClientTransaction × List Effect))
    (rest : Option (List ClientTransaction × List Effect))
    → Cuts sends c o
    → AllCut sends cs rest
    → AllCut sends
        (c ∷ cs)
        (o >>= λ (c', effects). rest >>= λ (clients', more). some (c' ∷ clients', effects ++ more))
join-AllCut sends c cs none rest k a = k
join-AllCut sends c cs (some x) none k a = a
join-AllCut sends c cs (some (c', e)) (some (cs', es)) (k, q) (a, r) =
    ((k, a), rw (q, r) (cancels-cons sends c cs))

-- No assertion fails, every client is cut, and exactly the CANCELs for them are sent.
pub cancel_all-AllCut :
    (s : Setting) (clients : List ClientTransaction)
    → AllCut s.sends_cancel clients (cancel_all s clients)
unfolding cancel_all cancel_request
cancel_all-AllCut s [] = (tt, refl)
cancel_all-AllCut s (c ∷ clients) =
    join-AllCut s.sends_cancel c clients _ _
      (cancel_in-Cuts s.times s.provisional_timeout s.sends_cancel c.state
        (stop_timers s.times s.provisional_timeout c) refl)
      (cancel_all-AllCut s clients)
