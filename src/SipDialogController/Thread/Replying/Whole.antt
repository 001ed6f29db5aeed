-- ===== src/SipDialogController/Thread/Replying/Whole.antt =====
-- `doRespondToSipRequest` of src/sip-dialog-controller.cpp.
use drachtio_server.Common.{
  ℕ, Bool, true, false, not, ◌&&◌, ◌||◌, Option, none, some, [], ◌++◌, ◌==◌, leb, ltb,
  if◌then◌else◌, Text, codes, ◌>>=◌,
}
use drachtio_server.Drachtio.Messages.{crlf}
use drachtio_server.InvitesInProgress.{Iip, find_by_transaction_id}
use drachtio_server.ClientController.Transactions.{remove_net_transaction}
use drachtio_server.SipDialogController.Thread.{Thread, on_clients, find_and_remove_transaction_id}
use drachtio_server.SipDialogController.Thread.Steps.{World, clear_invite_found}
use drachtio_server.SipDialogController.Thread.Requests.{destroy_irq}
use drachtio_server.SipDialogController.Thread.Sending.{answer}
use drachtio_server.SipDialogController.Thread.Replying.{
  Reply, Sent, Incoming, Outcome, is_invite, setup_leg_for_incoming_request,
}
use drachtio_server.SipDialogController.Thread.Replying.Dialogs.{respond_to_waiting}
use drachtio_server.SipDialogController.Thread.Replying.Invites.{respond_to_iip}

module _ (world : World) (net : Incoming) (k : Reply) where
  -- The stack answers a CANCEL itself.
  abbrev pub unknown : Outcome
  unknown = record {
    problem = some (
        if k.cseq_is_cancel
        then codes "200 OK to incoming CANCEL is automatically generated by the stack"
        else codes "Response not sent due to unknown transaction");
    irq = none;
    dialog = [];
    destroy_irq = false;
    clear_iip = false;
    is_update = false;
    existing = false;
  }

  abbrev pub Attempt : Type 0
  Attempt = Option Iip × Outcome × Thread

  abbrev pub with_iip : Iip → Thread → Option Attempt
  with_iip iip t = respond_to_iip world net k iip t >>= λ r. some (some iip, r.0, r.1)

  abbrev pub with_irq : Bool → Option ℕ × Thread → Option Attempt
  with_irq existing (none, t) = some (none, unknown, t)
  with_irq existing (some irq, t) =
      respond_to_waiting world net k irq existing t >>= λ r. some (none, r.0, r.1)

  -- A request that was set up now is an invite in progress or waits for its answer.
  abbrev pub after_setup : Bool × Thread → Option Attempt
  after_setup (false, t) = some (none, unknown, t)
  after_setup (true, t) = elim (find_by_transaction_id k.transaction_id t.invites) [
    | none ↦ with_irq false (find_and_remove_transaction_id k.transaction_id t)
    | some iip ↦ with_iip iip t
  ]

  abbrev pub without_irq : Thread → Option Attempt
  without_irq t = elim (find_by_transaction_id k.transaction_id t.invites) [
    | none ↦ after_setup (setup_leg_for_incoming_request net k t)
    | some iip ↦ with_iip iip t
  ]

  abbrev pub attempt_with : Option ℕ × Thread → Option Attempt
  attempt_with (none, t) = without_irq t
  attempt_with (some irq, t) = with_irq true (some irq, t)

  -- Requests that wait inside a dialog come first, then invites in progress, then new requests.
  unfoldable pub attempt : Thread → Option Attempt
  unfolding respond_to_waiting respond_to_iip setup_leg_for_incoming_request
      find_and_remove_transaction_id find_by_transaction_id
  attempt t = attempt_with (find_and_remove_transaction_id k.transaction_id t)

  abbrev pub reply_text : Text → Sent → Text
  reply_text dialog s =
      s.meta
      ++ codes "|"
      ++ k.transaction_id
      ++ codes "|"
      ++ dialog
      ++ codes "|"
      ++ codes "|Msg sent:|"
      ++ crlf
      ++ s.raw

  abbrev pub response_of : Option ℕ → Option Sent
  response_of none = none
  response_of (some irq) = net.response irq

  abbrev pub tell_sent : Text → Option Sent → Thread → Thread
  tell_sent dialog none t =
      answer world k.msg_id (codes "NOK")
        (codes "failed sending, possibly due to far end closing socket") t
  tell_sent dialog (some s) t = answer world k.msg_id (codes "OK") (reply_text dialog s) t

  abbrev pub tell_client : Outcome → Option Text → Thread → Thread
  tell_client o (some why) t = answer world k.msg_id (codes "NOK") why t
  tell_client o none t = tell_sent o.dialog (response_of o.irq) t

  abbrev pub is_invite_of : Option ℕ → Bool
  is_invite_of none = false
  is_invite_of (some irq) = is_invite (net.method irq)

  -- The transaction ends with a final response; that of an INVITE that succeeds waits for its ACK.
  abbrev pub ends_transaction : Outcome → Bool
  ends_transaction o =
      if is_invite_of o.irq
      then ltb 200 k.code || (k.code == 200 && o.existing)
      else leb 200 k.code && not o.is_update

  abbrev pub end_transaction : Outcome → Thread → Thread
  end_transaction o t =
      if ends_transaction o then on_clients (remove_net_transaction k.transaction_id) t else t

  abbrev pub give_up_irq : Option ℕ → Thread → Thread
  give_up_irq none t = t
  give_up_irq (some irq) t = destroy_irq irq t

  abbrev pub finish_attempt : Attempt → Thread
  finish_attempt (iip, o, t) =
      let t1 = end_transaction o (tell_client o o.problem t) in
      let t2 = if o.clear_iip then clear_invite_found iip t1 else t1 in
      if o.destroy_irq then give_up_irq o.irq t2 else t2

  -- `none` is an assertion that fails or a null pointer that is read.
  unfoldable pub do_respond_to_sip_request : Thread → Option Thread
  unfolding attempt remove_net_transaction
  do_respond_to_sip_request t = attempt t >>= λ r. some (finish_attempt r)
