-- ===== src/SipProxyController/Core/Timers/Untried.antt =====
-- Timer B and a target that has not been tried.
use drachtio_server.Common.{
  ◌≡◌, refl, true, false, ◌||◌, none, some, SortsFew, [], ◌∷◌, ◌++◌, keep_if, if-cases, arith,
}
use drachtio_server.SipProxyController.{not_started, calling, ClientTransaction, is_invite}
use drachtio_server.SipProxyController.Transaction.{set_state, enter_invite}
use drachtio_server.SipProxyController.Server.{generate_response}
use drachtio_server.SipProxyController.Core.{
  Setting, ProxyCore, is_calling_or_proceeding, find_client, stays, exhausted_all_targets,
  remove_terminated,
}
use drachtio_server.SipProxyController.Core.Choice.{best_response_order, forward_best_response}
use drachtio_server.SipProxyController.Core.Search.{start_requests, conclude}
use drachtio_server.SipProxyController.Core.Timers.{timer_b, leave_to}

kept : (d : ClientTransaction) → d.state ≡ not_started → keep_if (stays false) (d ∷ []) ≡ d ∷ []
kept d e =
    if-cases (λ ds. ds ≡ d ∷ []) (stays false d) _ _ (λ s. refl)
      (λ s. absurd (ground (arith, e, s)))

not_found :
    (d : ClientTransaction)
    → d.state ≡ not_started
    → find_client is_calling_or_proceeding (d ∷ []) ≡ none
not_found d e =
    if-cases (λ o. o ≡ none) (is_calling_or_proceeding d) _ _ (λ s. absurd (ground (arith, e, s)))
      (λ s. refl)

-- A single client that has not been tried has no response to forward.
forward_best_response-untried :
    (s : Setting) (core : ProxyCore) (d : ClientTransaction)
    → s.full_response ≡ false
    → SortsFew (s.sort best_response_order)
    → d.state ≡ not_started
    → core.clients ≡ d ∷ []
    → forward_best_response s core
      ≡ some (record core {
        clients = d ∷ [];
        searching = false;
        sent = core.sent ++ generate_response 408 core.server;
      })
unfolding forward_best_response
forward_best_response-untried s core d n o e q = rw (q, o.one d, e, n) refl

-- A proxy has two targets, of which the second has not been tried, and is still searching; its application has not
-- asked for all responses, and `std::sort` leaves a list of one as it is. When timer B ends the INVITE
-- to the first target, which is waiting for a response, no assertion fails, the caller is sent a 408,
-- and the search is over though the second target has not been tried: it stays in the core, and it is
-- not tried when requests are started later.
pub timer_b_untried :
    (s : Setting) (c d : ClientTransaction) (core : ProxyCore)
    → c.state ≡ calling
    → is_invite c ≡ true
    → d.state ≡ not_started
    → core.searching ≡ true
    → s.full_response ≡ false
    → SortsFew (s.sort best_response_order)
    → (core' : ProxyCore) × (timer_b s [] c (d ∷ []) core ≡ some core')
      × (core'.sent ≡ core.sent ++ generate_response 408 core.server)
      × (core'.clients ≡ d ∷ [])
      × (start_requests s core' ≡ some (0, core'))
unfolding timer_b leave_to set_state enter_invite remove_terminated conclude exhausted_all_targets
    start_requests forward_best_response
timer_b_untried s c d core e i u l n o = (
  record core {
    clients = d ∷ [];
    searching = false;
    removed = core.removed || false;
    sent = core.sent ++ generate_response 408 core.server;
  },
  rw (e, i, l, kept d u, not_found d u)
      (forward_best_response-untried s
        (record core { clients = d ∷ []; searching = true; removed = core.removed || false }) d n o
        u refl),
  refl,
  refl,
  refl,
)
