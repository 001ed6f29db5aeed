-- ===== src/SipDialogController/Thread/Sending/Canceling.antt =====
-- An application cancels its INVITE: `doSendCancelRequest` of src/sip-dialog-controller.cpp.
use drachtio_server.Common.{ℕ, Option, none, some, List, ◌++◌, Text, codes}
use drachtio_server.InvitesInProgress
use drachtio_server.InvitesInProgress.{
  Iip, find_by_leg, find_by_transaction_id, insert, outgoing, set_canceled, modify,
}
use drachtio_server.SipDialogController.Thread.{Thread, canceled, of_invite, did, did_all}
use drachtio_server.SipDialogController.Thread.Steps.{World, Outgoing, or_null}
use drachtio_server.SipDialogController.Thread.Sending.{answer, sent_text}

-- An application cancels an INVITE of its own. The cancel timer runs from the first time on.
abbrev pub keep_canceled : Iip → Iip × List InvitesInProgress.Effect → Thread → Thread
keep_canceled iip (changed, effects) t =
    did_all of_invite effects
      (record t { invites = modify (λ e. (set_canceled e).0) iip.transaction_id t.invites })

-- A CANCEL without an INVITE of ours is one of a null pointer, which makes none.
abbrev pub cancel_made : World → Option ℕ → Option Outgoing
cancel_made world none = none
cancel_made world (some orq) = world.create_cancel orq

abbrev pub cancel_told : World → Text → Text → Option ℕ → Option Outgoing → Thread → Thread
cancel_told world msg_id id orq none t =
    answer world msg_id (codes "NOK")
      (codes "internal server error canceling transaction id: " ++ id) t
cancel_told world msg_id id orq (some out) t =
    answer world msg_id (codes "OK") (sent_text world world.uuid out)
      (did (canceled (or_null orq)) t)

abbrev pub cancel_invite : World → Text → Text → Option Iip → Thread → Thread
cancel_invite world msg_id id none t =
    answer world msg_id (codes "NOK") (codes "unable to cancel unknown transaction id: " ++ id) t
cancel_invite world msg_id id (some iip) t =
    cancel_told world msg_id id iip.orq (cancel_made world iip.orq)
      (keep_canceled iip (set_canceled iip) t)

unfoldable pub do_send_cancel_request : World → Text → Text → Thread → Thread
unfolding find_by_transaction_id set_canceled
do_send_cancel_request world msg_id id t =
    cancel_invite world msg_id id (find_by_transaction_id id t.invites) t
