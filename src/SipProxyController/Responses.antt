-- ===== src/SipProxyController/Responses.antt =====
-- `ProxyCore::ClientTransaction::processResponse` of src/sip-proxy-controller.cpp: what a response does
-- to a transaction, and what it asks of the core.
pub mod Assertions
use drachtio_server.Common.{
  ℕ, ◌≡◌, Bool, true, false, not, ◌&&◌, ◌||◌, Option, none, some, List, [], ◌∷◌, ◌++◌, ◌==◌, ltb,
  leb, if◌then◌else◌, is_empty, is_some, Text, text_eq, ◌>>=◌,
}
use drachtio_server.Drachtio.Messages.{method_prack, method_cancel}
use drachtio_server.SipProxyController.{
  proceeding, completed, terminated, is_state, is_method, Response, ClientTransaction, is_invite,
  Effect, ack_sent, discarded, cdr_written,
}
use drachtio_server.SipProxyController.Transaction.{Times, timer_c_msecs, set_state, cancel_request}

-- What the core is asked to do, in this order: something sent, dropped or noted; the other requests
-- cancelled after a success; targets of a redirect added; the final response reported to the
-- application, where it wants all; the response sent upstream.
pub data Action : Type 0 where
  act : Effect → Action
  cancel_others : Action
  add_targets : List Text → Action
  report : ℕ → Action
  forward : Response → Action

-- The value that is returned: a response to another transaction is not taken.
pub data Verdict : Type 0 where
  not_mine : Verdict
  taken : ClientTransaction → List Action → Verdict

-- The two comparisons of branches. The second has the sense of the first turned round.
abbrev pub is_mine : ClientTransaction → Response → Bool
is_mine c r =
    not (not (text_eq c.branch r.via_branch) && not (is_method method_prack r.method))
    && not (text_eq c.branch_prack r.via_branch && is_method method_prack r.method)

abbrev pub map_act : List Effect → List Action
map_act [] = []
map_act (e ∷ effects) = act e ∷ map_act effects

abbrev pub is_success : ℕ → Bool
is_success status = leb 200 status && leb status 299

-- 1xx: timer C starts again, but not for a 100.
unfoldable pub restart_timer_c : ClientTransaction → Option ClientTransaction
restart_timer_c c =
    if not (c.sip_status == 100) && is_invite c
    then if is_some c.timer_c then some (record c { timer_c = some timer_c_msecs }) else none
    else some c

-- removeTimer(m_timerC) after a final response to an INVITE
abbrev pub without_timer_c : ClientTransaction → ClientTransaction
without_timer_c c = if leb 200 c.sip_status && is_invite c then record c { timer_c = none } else c

abbrev pub keep_rseq : Response → ClientTransaction → ClientTransaction
keep_rseq r c = elim r.rseq [
  | none ↦ c
  | some rseq ↦ if ltb c.sip_status 200 then record c { rseq = rseq } else c
]

abbrev pub keep_response : Response → ClientTransaction → ClientTransaction
keep_response r c =
    if ltb 100 c.sip_status && ltb c.sip_status 300
    then keep_rseq r c
    else if leb 300 c.sip_status
    then record c { final_response = some r }
    else c

abbrev pub when : Bool → Action → List Action
when true a = a ∷ []
when false a = []

-- The actions for a response other than 100.
abbrev pub actions : Bool → Response → ClientTransaction → List Action
actions follow_redirects r c =
    when (is_success r.status) cancel_others
    ++ (when (leb 300 r.status && is_invite c) (act (ack_sent r.status))
        ++ (when
              (leb 300 r.status
                && (leb r.status 399 && (follow_redirects && not (is_empty r.contacts))))
              (add_targets r.contacts)
            ++ (when (is_invite c && leb 200 r.status) (act (cdr_written r.status))
                ++ (when (leb 200 r.status) (report r.status)
                    ++ (if ltb 100 r.status && ltb r.status 300
                        then forward r
                        else act (discarded r.status))
                      ∷ []))))

abbrev pub settle : Bool → Response → ClientTransaction → Verdict
settle follow_redirects r c =
    if r.status == 100
    then taken (without_timer_c c) (act (discarded r.status) ∷ [])
    else taken (keep_response r (without_timer_c c)) (actions follow_redirects r c)

abbrev pub drop : Response → ClientTransaction → Option Verdict
drop r c = some (taken c (act (discarded r.status) ∷ []))

module _ (times : Times) (provisional_timeout : ℕ) (follow_redirects : Bool) (sends : Bool) where
  unfoldable pub new_state : ClientTransaction → Option ClientTransaction
  unfolding set_state restart_timer_c
  new_state c =
      if leb 100 c.sip_status && leb c.sip_status 199
      then set_state times provisional_timeout proceeding c >>= restart_timer_c
      else if is_success c.sip_status
      then set_state times provisional_timeout (if is_invite c then terminated else completed) c
      else if leb 300 c.sip_status
      then set_state times provisional_timeout completed c
      else some c

  -- A response to the request that was sent on.
  unfoldable pub own_response : Response → ClientTransaction → Option Verdict
  unfolding new_state
  own_response r c =
      new_state (record c { sip_status = r.status }) >>= λ c'. some (settle follow_redirects r c')

  -- A response to a request that is to be cancelled and had no response yet.
  unfoldable pub late_response : Response → ClientTransaction → Option Verdict
  unfolding set_state cancel_request
  late_response r c = set_state times provisional_timeout proceeding c >>= λ c'.
      cancel_request times provisional_timeout sends c' >>= λ (c'', effects).
      some (taken c'' (map_act effects ++ act (discarded r.status) ∷ []))

  unfoldable pub process_response : Response → ClientTransaction → Option Verdict
  unfolding own_response late_response
  process_response r c =
      if not (is_mine c r)
      then some not_mine
      else if is_state terminated c.state
      then drop r c
      else if c.canceled
          && (is_state completed c.state
              && (c.sip_status == 0 && (is_method c.method r.method && is_invite c)))
      then late_response r c
      else if is_method c.method r.method
      then if (is_state completed c.state || is_state terminated c.state) && leb 200 r.status
        then some (
            taken c (when (is_invite c) (act (ack_sent r.status)) ++ act (discarded r.status) ∷ []))
        else own_response r c
      else drop r c
