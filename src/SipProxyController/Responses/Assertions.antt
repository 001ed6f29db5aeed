-- ===== src/SipProxyController/Responses/Assertions.antt =====
-- When the assertions of `processResponse` hold, and when they fail.
use Prim.{Unit, tt}
use drachtio_server.Common.{
  ℕ, ◌≤◌, ◌<◌, ◌≡◌, refl, sym, Bool, true, false, not, ◌&&◌, ◌||◌, Option, none, some, [], ◌∷◌,
  arith, ◌==◌, ltb, leb, if◌then◌else◌, is_some, Bool-cases, if-cases, inl, inr, ◌>>=◌, subst,
}
use drachtio_server.SipProxyController.{
  State, not_started, trying, calling, proceeding, completed, terminated, is_state, is_method,
  Response, ClientTransaction, is_invite, cancel_sent,
}
use drachtio_server.SipProxyController.Transaction.{
  Times, enter_invite, set_state, stop_timers, cancel_in, cancel_request,
}
use drachtio_server.SipProxyController.Responses.{
  Verdict, not_mine, taken, is_mine, is_success, restart_timer_c, new_state, settle, own_response,
  process_response, without_timer_c, keep_response, keep_rseq,
}

-- The timers A, B, C, D and the provisional one of an INVITE in each state, as long as it is not
-- cancelled.
abbrev pub Armed : State → (a b c d p : Option ℕ) → Type 0
Armed not_started a b c d p = (a ≡ none) × (b ≡ none) × (c ≡ none) × (d ≡ none) × (p ≡ none)
Armed trying a b c d p = true ≡ false
Armed calling a b c d p = (is_some c ≡ true) × (d ≡ none)
Armed proceeding a b c d p = (a ≡ none) × (b ≡ none) × (is_some c ≡ true) × (d ≡ none) × (p ≡ none)
Armed completed a b c d p = (a ≡ none) × (b ≡ none) × (c ≡ none) × (p ≡ none)
Armed terminated a b c d p = (a ≡ none) × (b ≡ none) × (c ≡ none) × (d ≡ none) × (p ≡ none)

-- It is an INVITE that has been sent and is not cancelled.
pub record IsSound (c : ClientTransaction) : Type 0 where
  pub invite : is_invite c ≡ true
  pub live : c.canceled ≡ false
  pub started : is_state not_started c.state ≡ false
  pub armed : Armed c.state c.timer_a c.timer_b c.timer_c c.timer_d c.timer_provisional

abbrev pub SoundVerdict : Option Verdict → Type 0
SoundVerdict none = true ≡ false
SoundVerdict (some not_mine) = Unit {0}
SoundVerdict (some (taken c actions)) = IsSound c

keep_rseq-IsSound : (r : Response) (c : ClientTransaction) → IsSound c → IsSound (keep_rseq r c)
keep_rseq-IsSound r c s =
    elim r.rseq
      as (λ o. IsSound (elim o [
        | none ↦ c
        | some rseq ↦ if ltb c.sip_status 200 then record c { rseq = rseq } else c
      ])) [
        | none ↦ s
        | some rseq ↦
            if-cases IsSound (ltb c.sip_status 200) (record c { rseq = rseq }) c
              (λ e. record {
                invite = s.invite;
                live = s.live;
                started = s.started;
                armed = s.armed;
              })
              (λ e. s)
      ]

keep_response-IsSound :
    (r : Response) (c : ClientTransaction) → IsSound c → IsSound (keep_response r c)
keep_response-IsSound r c s =
    if-cases IsSound (ltb 100 c.sip_status && ltb c.sip_status 300) (keep_rseq r c)
      (if leb 300 c.sip_status then record c { final_response = some r } else c)
      (λ e. keep_rseq-IsSound r c s)
      (λ e.
        if-cases IsSound (leb 300 c.sip_status) (record c { final_response = some r }) c
          (λ e'. record { invite = s.invite; live = s.live; started = s.started; armed = s.armed })
          (λ e'. s))

settle-SoundVerdict :
    (follow : Bool) (r : Response) (c : ClientTransaction)
    → IsSound (without_timer_c c)
    → SoundVerdict (some (settle follow r c))
settle-SoundVerdict follow r c s =
    if-cases (λ v. SoundVerdict (some v)) (r.status == 100) _ _ (λ e. s)
      (λ e. keep_response-IsSound r (without_timer_c c) s)

-- A new state is reached, and what then is without timer C after a final response is sound.
abbrev SoundState : Option ClientTransaction → Type 0
SoundState none = true ≡ false
SoundState (some c) = IsSound (without_timer_c c)

-- A provisional response comes before the final one.
abbrev pub InOrder : ClientTransaction → Response → Type 0
InOrder c r = (is_state completed c.state && ltb r.status 200) ≡ false

abbrev ArmedIn : State → ClientTransaction → Type 0
ArmedIn st c = Armed st c.timer_a c.timer_b c.timer_c c.timer_d c.timer_provisional

provisional-SoundState :
    (times : Times) (p : ℕ) (st : State) (c : ClientTransaction)
    → c.state ≡ st
    → is_state not_started st ≡ false
    → is_state completed st ≡ false
    → is_state terminated st ≡ false
    → is_invite c ≡ true
    → c.canceled ≡ false
    → ArmedIn st c
    → c.sip_status < 200
    → SoundState (set_state times p proceeding c >>= restart_timer_c)
unfolding set_state enter_invite restart_timer_c
provisional-SoundState times p not_started c e k n m i v a l = absurd (ground (arith, k))
provisional-SoundState times p trying c e k n m i v a l = absurd (ground (arith, a))
provisional-SoundState times p completed c e k n m i v a l = absurd (ground (arith, n))
provisional-SoundState times p terminated c e k n m i v a l = absurd (ground (arith, m))
provisional-SoundState times p proceeding c e k n m i v (a1, a2, a3, a4, a5) l =
    let h : leb 200 c.sip_status ≡ false = ground arith in
    elim (Bool-cases (c.sip_status == 100)) [
      | inl b ↦
          rw (e, b, h)
            (record { invite = i; live = v; started = refl; armed = (a1, a2, a3, a4, a5) })
      | inr b ↦
          rw (e, i, b, a3, h)
            (record { invite = i; live = v; started = refl; armed = (a1, a2, refl, a4, a5) })
    ]
provisional-SoundState times p calling c e k n m i v (a1, a2) l =
    let h : leb 200 c.sip_status ≡ false = ground arith in
    elim (Bool-cases (c.sip_status == 100)) [
      | inl b ↦
          rw (e, i, b, h)
            (record { invite = i; live = v; started = refl; armed = (refl, refl, a1, a2, refl) })
      | inr b ↦
          rw (e, i, b, i, a1, h)
            (record { invite = i; live = v; started = refl; armed = (refl, refl, refl, a2, refl) })
    ]

final-SoundState :
    (times : Times) (p : ℕ) (st : State) (c : ClientTransaction)
    → c.state ≡ st
    → is_state not_started st ≡ false
    → is_state terminated st ≡ false
    → is_invite c ≡ true
    → c.canceled ≡ false
    → ArmedIn st c
    → 200 ≤ c.sip_status
    → is_state completed st ≡ false
    → SoundState (
        if is_success c.sip_status
        then set_state times p terminated c
        else set_state times p completed c)
unfolding set_state enter_invite
final-SoundState times p not_started c e k m i v a l o = absurd (ground (arith, k))
final-SoundState times p trying c e k m i v a l o = absurd (ground (arith, a))
final-SoundState times p terminated c e k m i v a l o = absurd (ground (arith, m))
final-SoundState times p completed c e k m i v a l o = absurd (ground (arith, o))
final-SoundState times p proceeding c e k m i v (a1, a2, a3, a4, a5) l o =
    let h : leb 200 c.sip_status ≡ true = ground arith in
    elim (Bool-cases (is_success c.sip_status)) [
      | inl b ↦
          rw (b, e, i, h, i)
            (record { invite = i; live = v; started = refl; armed = (refl, refl, refl, a4, refl) })
      | inr b ↦
          rw (b, e, i, h, i)
            (record { invite = i; live = v; started = refl; armed = (refl, refl, refl, refl) })
    ]
final-SoundState times p calling c e k m i v (a1, a2) l o =
    let h : leb 200 c.sip_status ≡ true = ground arith in
    elim (Bool-cases (is_success c.sip_status)) [
      | inl b ↦
          rw (b, e, i, h, i)
            (record { invite = i; live = v; started = refl; armed = (refl, refl, refl, a2, refl) })
      | inr b ↦
          rw (b, e, i, h, i)
            (record { invite = i; live = v; started = refl; armed = (refl, refl, refl, refl) })
    ]

bind-SoundVerdict :
    (follow : Bool) (r : Response) (o : Option ClientTransaction)
    → SoundState o
    → SoundVerdict (o >>= λ c. some (settle follow r c))
bind-SoundVerdict follow r none s = s
bind-SoundVerdict follow r (some c) s = settle-SoundVerdict follow r c s

new_state-SoundState :
    (times : Times) (p : ℕ) (follow sends : Bool) (c : ClientTransaction)
    → IsSound c
    → is_state completed c.state ≡ false
    → is_state terminated c.state ≡ false
    → SoundState (new_state times p follow sends c)
unfolding new_state
new_state-SoundState times p follow sends c s n m =
    let final : 200 ≤ c.sip_status
        → (t : Bool) → is_success c.sip_status ≡ t
        → SoundState (if t then set_state times p terminated c else set_state times p completed c) =
      λ l t b.
        subst
          (λ u.
            SoundState
              (if u then set_state times p terminated c else set_state times p completed c))
          b (final-SoundState times p c.state c refl s.started m s.invite s.live s.armed l n) in
    let untouched : leb 200 c.sip_status ≡ false → SoundState (some c) = λ l. rw l s in
    if-cases SoundState (leb 100 c.sip_status && leb c.sip_status 199) _ _
      (λ e.
        provisional-SoundState times p c.state c refl s.started n m s.invite s.live s.armed
          (ground (arith, e)))
      (λ e.
        if-cases SoundState (is_success c.sip_status) _ _
          (λ b.
            subst (λ i. SoundState (set_state times p (if i then terminated else completed) c))
              (sym s.invite) (final (ground (arith, b)) true b))
          (λ b.
            if-cases SoundState (leb 300 c.sip_status) _ _ (λ l. final (ground (arith, l)) false b)
              (λ l. untouched (ground (arith, e, b, l)))))

-- In an INVITE that has been sent and is not cancelled, no response fails an assertion, unless it is a
-- provisional one that comes after the final one; and the timers that are set stay those of the state.
pub process_response-IsSound :
    (times : Times) (p : ℕ) (follow sends : Bool) (r : Response) (c : ClientTransaction)
    → IsSound c
    → (is_state completed c.state && ltb r.status 200) ≡ false
    → SoundVerdict (process_response times p follow sends r c)
unfolding process_response own_response
process_response-IsSound times p follow sends r c s o =
    let fresh : ClientTransaction = record c { sip_status = r.status } in
    let sound : IsSound fresh = record {
      invite = s.invite;
      live = s.live;
      started = s.started;
      armed = s.armed;
    } in
    if-cases SoundVerdict (not (is_mine c r)) _ _ (λ e. tt)
      (λ e.
        if-cases SoundVerdict (is_state terminated c.state) _ _ (λ m. s)
          (λ m.
            if-cases SoundVerdict
              (c.canceled
                && (is_state completed c.state
                    && (c.sip_status == 0 && (is_method c.method r.method && is_invite c))))
              _ _ (λ l. absurd (ground (arith, s.live, l)))
              (λ l.
                if-cases SoundVerdict (is_method c.method r.method) _ _
                  (λ q.
                    if-cases SoundVerdict
                      ((is_state completed c.state || is_state terminated c.state)
                        && leb 200 r.status)
                      _ _ (λ f. s)
                      (λ f. bind-SoundVerdict follow r _ (
                        new_state-SoundState times p follow sends fresh sound (ground (arith, o, f))
                          m)))
                  (λ q. s))))

own_provisional :
    (times : Times) (p : ℕ) (follow sends : Bool) (r : Response) (c : ClientTransaction)
    → c.state ≡ proceeding
    → is_invite c ≡ true
    → c.timer_c ≡ none
    → is_mine c r ≡ true
    → is_method c.method r.method ≡ true
    → 100 < r.status
    → r.status < 200
    → process_response times p follow sends r c ≡ none
unfolding process_response own_response new_state set_state restart_timer_c
own_provisional times p follow sends r c e i t m q l u =
    let h : (leb 100 r.status && leb r.status 199) ≡ true = ground arith in
    let h' : (r.status == 100) ≡ false = ground arith in
    elim (Bool-cases c.canceled) [
      | inl k ↦ rw (m, e, k, q, h, h', i, t) refl
      | inr k ↦ rw (m, e, k, q, h, h', i, t) refl
    ]

-- A CANCEL stops timer C, but any further provisional response other than 100 to the INVITE, before the
-- final one, fails the assertion that timer C is set.
pub process_response-canceled :
    (times : Times) (p : ℕ) (follow sends : Bool) (r : Response) (c : ClientTransaction)
    → c.state ≡ proceeding
    → is_invite c ≡ true
    → is_mine c r ≡ true
    → is_method c.method r.method ≡ true
    → 100 < r.status
    → r.status < 200
    → (c' : ClientTransaction) × ((cancel_request times p true c)
        ≡ some (c', cancel_sent c.target c.branch ∷ []))
      × (process_response times p follow sends r c' ≡ none)
unfolding cancel_request cancel_in
process_response-canceled times p follow sends r c e i m q l u = (
  record (stop_timers times p c) { canceled = true },
  rw e refl,
  own_provisional times p follow sends r (record (stop_timers times p c) { canceled = true }) e i
      refl m q l u,
)
