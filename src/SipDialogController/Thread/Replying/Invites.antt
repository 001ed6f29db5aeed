-- ===== src/SipDialogController/Thread/Replying/Invites.antt =====
-- The second branch of `doRespondToSipRequest` (src/sip-dialog-controller.cpp): an INVITE or SUBSCRIBE in
-- progress, and an UPDATE that came before its answer.
use drachtio_server.Common.{
  ℕ, Bool, true, false, ◌&&◌, ◌||◌, Option, none, some, [], ◌==◌, leb, ltb, if◌then◌else◌, is_empty,
  is_some, Text, text_eq, codes, starts_with, ◌>>=◌,
}
use drachtio_server.InvitesInProgress.{Iip, add_reliable_to}
use drachtio_server.SipDialog.{
  SessionRefresher, we_are_refresher, they_are_refresher, set_timer_g, clear_update_irq,
}
use drachtio_server.ClientController.Transactions.{remove_net_transaction}
use drachtio_server.SipDialogController.Thread.{
  Thread, Dialog, SessionExpires, replied, replied_reliably, timer_added,
  run_retransmit_final_response, run_end_retransmit_final_response, did, on_clients, on_core,
  on_dialog, dialog_id, find_dialog_by_id, find_and_remove_transaction_id,
}
use drachtio_server.SipDialogController.Thread.Steps.{World, add_dialog, start_session_timer}
use drachtio_server.SipDialogController.Thread.Requests.{remove_incoming}
use drachtio_server.SipDialogController.Thread.Replying.{
  Reply, Local, Incoming, Outcome, is_invite, is_subscribe, gone_text, unknown_text, open_tport,
  contact_for, in_brackets, try_reply,
}

-- How the answer to an INVITE ends: the failure, if there is one, and whether the invite is cleared.
abbrev pub Ended : Type 0
Ended = Option Text × Bool

module _ (world : World) (net : Incoming) (k : Reply) where
  abbrev pub outcome : Ended → ℕ → Text → Bool → Outcome
  outcome (problem, clear) irq dialog update = record {
    problem = problem;
    irq = some irq;
    dialog = dialog;
    destroy_irq = update;
    clear_iip = clear;
    is_update = update;
    existing = false;
  }

  -- The UPDATE

  -- An UPDATE that was not held has no transaction id.
  abbrev pub forget_update : ℕ → Text → Thread → Thread
  forget_update a id t =
      if is_empty id
      then t
      else on_clients (remove_net_transaction id)
          (remove_incoming a id (find_and_remove_transaction_id id t).1)

  abbrev pub end_update : ℕ → ℕ → Option Text × Thread → Outcome × Thread
  end_update a irq (problem, t) =
      let t1 = forget_update a (t.objects a).core.update_transaction_id t in
      (outcome (problem, false) irq [] true, on_core a clear_update_irq t1)

  abbrev pub update_from : ℕ → Option Local → Thread → Option (Option Text × Thread)
  update_from irq none t = none
  update_from irq (some l) t = some (try_reply net irq k.code t)

  abbrev pub update_over : ℕ → Option ℕ → Thread → Option (Option Text × Thread)
  update_over irq none t = some (some gone_text, t)
  update_over irq (some tp) t = update_from irq (net.find_transport tp) t

  unfoldable pub respond_to_update : ℕ → ℕ → Thread → Option (Outcome × Thread)
  unfolding find_and_remove_transaction_id clear_update_irq remove_net_transaction
  respond_to_update a irq t =
      update_over irq (open_tport net irq) t >>= λ r. some (end_update a irq r)

  -- The INVITE

  abbrev pub is_reliable : ℕ → Bool
  is_reliable irq =
      (ltb 100 k.code && ltb k.code 200) && (is_invite (net.method irq) && k.requires_100rel)

  abbrev pub type_of_body : Dialog → Option Text → Text
  type_of_body d (some type) = type
  type_of_body d none =
      if starts_with (codes "v=0") k.body then codes "application/sdp" else d.local_content_type

  abbrev pub note_answer : Text → Dialog → Dialog
  note_answer contact d =
      let d1 = record d {
        local_contact = elim k.contact [ none ↦ contact | some c ↦ c ];
        sip_status = k.code;
      } in
      if is_empty k.body
      then d1
      else record d1 { local_sdp = k.body; local_content_type = type_of_body d k.content_type }

  abbrev pub at_least_90 : ℕ → ℕ
  at_least_90 n = if ltb n 90 then 90 else n

  abbrev pub refresher_for : Text → SessionRefresher
  refresher_for who = if text_eq who (codes "uac") then they_are_refresher else we_are_refresher

  abbrev pub replied_refresher : Option Text → SessionRefresher
  replied_refresher none = they_are_refresher
  replied_refresher (some who) = refresher_for who

  -- The refresher that the request names, and else the configured one.
  abbrev pub asked_refresher : Option Text → Text
  asked_refresher none = net.default_refresher
  asked_refresher (some who) = if is_empty who then net.default_refresher else who

  abbrev pub start_asked : ℕ → Option SessionExpires → Thread → Thread
  start_asked a none t = t
  start_asked a (some se) t =
      let who = asked_refresher se.refresher in
      if text_eq who (codes "none")
      then t
      else start_session_timer world a (at_least_90 se.delta) (refresher_for who) t

  abbrev pub start_session : ℕ → ℕ → Option SessionExpires → Thread → Thread
  start_session a irq none t = start_asked a (net.session_expires irq) t
  start_session a irq (some se) t =
      start_session_timer world a (at_least_90 se.delta) (replied_refresher se.refresher) t

  unfoldable pub set_session : ℕ → ℕ → Thread → Thread
  unfolding start_session_timer
  set_session a irq t =
      if k.code == 200 && is_invite (net.method irq)
      then start_session a irq k.session_expires t
      else t

  -- `none` is an invite that is not in the set any more.
  abbrev pub keep_reliable : Iip → ℕ → Option ℕ → Thread → Option (Ended × Thread)
  keep_reliable iip irq none t =
      some ((some (codes "Remote endpoint does not support 100rel"), false), t)
  keep_reliable iip irq (some rel) t = add_reliable_to iip (some rel) t.invites >>= λ invites.
      some ((none, false), did (replied_reliably irq k.code rel) (record t { invites = invites }))

  abbrev pub start_timer_g : ℕ → ℕ → Thread → Thread
  start_timer_g a tp t =
      if world.is_dgram tp
      then on_core a (set_timer_g net.t1 world.new_timer)
          (did (timer_added (codes "timerG") (run_retransmit_final_response a) net.t1) t)
      else t

  -- A success is sent again by timer G over udp, and waited for by timer H.
  abbrev pub wait_for_ack : ℕ → ℕ → ℕ → Thread → Thread
  wait_for_ack a tp irq t =
      on_dialog a (λ d. record d { timer_h = some net.timer_h; invite_irq = some irq })
        (did (timer_added (codes "timerH") (run_end_retransmit_final_response a) net.timer_h_msecs)
          (start_timer_g a tp t))

  unfoldable pub accept_invite : ℕ → ℕ → ℕ → Thread → Option Thread
  unfolding add_dialog set_timer_g
  accept_invite a tp irq t = add_dialog world a t >>= λ u. some (wait_for_ack a tp irq u)

  abbrev pub ended_by : Bool → Option Thread → Option (Ended × Thread)
  ended_by clear o = o >>= λ u. some ((none, clear), u)

  abbrev pub after_answer : ℕ → ℕ → ℕ → Thread → Option (Ended × Thread)
  after_answer a tp irq t =
      if is_subscribe (net.method irq)
      then ended_by true (if k.code == 202 || k.code == 200 then add_dialog world a t else some t)
      else if is_invite (net.method irq) && k.code == 200
      then ended_by false (accept_invite a tp irq t)
      else some ((none, false), t)

  abbrev pub send_answer : ℕ → ℕ → ℕ → Thread → Option (Ended × Thread)
  send_answer a tp irq t =
      if net.treply irq
      then after_answer a tp irq (did (replied irq k.code) t)
      else some ((some unknown_text, false), t)

  abbrev pub answer_from : Iip → ℕ → ℕ → ℕ → Option Local → Thread → Option (Ended × Thread)
  answer_from iip a tp irq none t = none
  answer_from iip a tp irq (some l) t =
      let t1 =
        set_session a irq (on_dialog a (note_answer (in_brackets net (contact_for net irq l))) t) in
      if is_reliable irq
      then keep_reliable iip irq (net.reliable_treply irq) t1
      else send_answer a tp irq t1

  -- A dialog that is there already is not answered again.
  abbrev pub answer_over : Iip → ℕ → ℕ → Text → Option ℕ → Thread → Option (Ended × Thread)
  answer_over iip a irq id none t = some ((some gone_text, false), t)
  answer_over iip a irq id (some tp) t =
      if is_some (find_dialog_by_id id t)
      then some (
        (some (codes "dialog already exists, rejecting this request"), false),
        did (replied irq 480) t,
      )
      else answer_from iip a tp irq (net.find_transport tp) t

  abbrev pub answer_invite : Iip → ℕ → ℕ → Text × Thread → Option (Outcome × Thread)
  answer_invite iip a irq (id, t) =
      answer_over iip a irq id (open_tport net irq) t >>= λ r. some (outcome r.0 irq id false, r.1)

  -- After a final response nothing is sent, which is no failure to the application.
  unfoldable pub respond_to_irq : Iip → ℕ → ℕ → Thread → Option (Outcome × Thread)
  unfolding set_session accept_invite add_reliable_to dialog_id find_dialog_by_id add_dialog
  respond_to_irq iip a irq t =
      if leb 200 (t.objects a).sip_status
      then some (outcome (none, false) irq [] false, t)
      else answer_invite iip a irq (dialog_id a t)

  abbrev pub respond_to_invite : Iip → ℕ → Option ℕ → Thread → Option (Outcome × Thread)
  respond_to_invite iip a none t = none
  respond_to_invite iip a (some irq) t = respond_to_irq iip a irq t

  abbrev pub update_or_invite : Iip → ℕ → Option ℕ → Thread → Option (Outcome × Thread)
  update_or_invite iip a none t = respond_to_invite iip a iip.irq t
  update_or_invite iip a (some irq) t =
      if k.cseq_is_update then respond_to_update a irq t else respond_to_invite iip a iip.irq t

  abbrev pub respond_to_dialog : Iip → Option ℕ → Thread → Option (Outcome × Thread)
  respond_to_dialog iip none t = none
  respond_to_dialog iip (some a) t = update_or_invite iip a (t.objects a).core.irq_update t

  -- `none` is an invite in progress without a dialog or an irq, a transport that is not ours, or an
  -- invite that is not in the set any more.
  unfoldable pub respond_to_iip : Iip → Thread → Option (Outcome × Thread)
  unfolding respond_to_update respond_to_irq
  respond_to_iip iip t = respond_to_dialog iip iip.dialog t
