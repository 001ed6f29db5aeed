-- ===== src/SipDialogController/Thread.antt =====
-- The state of the thread of the SIP stack (src/sip-dialog-controller.cpp and .hpp): the tables of
-- `SipDialogController`, with the dialogs that they share and the tables of the other parts that its
-- handlers call. A dialog is an object at an address; it is in the set of dialogs, in an invite in
-- progress or in both.
pub mod Steps
pub mod Kept
pub mod Clients
pub mod Responses
pub mod Requests
pub mod Invites
pub mod Sending
pub mod Outside
pub mod Replying
pub mod Placing
mod Tests
use drachtio_server.Common.{
  ℕ, ◌≡◌, Bool, true, false, Option, none, some, List, [], ◌∷◌, ◌++◌, ◌==◌, if◌then◌else◌, Text,
  text_eq,
}
use drachtio_server.Common.Dict
use drachtio_server.Common.Dict.{Dict}
use drachtio_server.Common.Handles
use drachtio_server.Common.Handles.{Handles}
use drachtio_server.SipDialog
use drachtio_server.SipDialog.{SipDialog, get_dialog_id}
use drachtio_server.SipDialog.Stable.{Stored, sd_find_by_leg, sd_find_by_dialog_id}
use drachtio_server.InvitesInProgress
use drachtio_server.InvitesInProgress.{Iip, find_by_leg}
use drachtio_server.SipDialogController.TimerD
use drachtio_server.SipDialogController.TimerD.{TimerDHandler}
use drachtio_server.SipDialogController.Liveness
use drachtio_server.DrachtioController
use drachtio_server.DrachtioController.{Caches}
use drachtio_server.ClientController.{Controller}

-- sip_method_t, as far as the code tells methods apart.
pub data Method : Type 0 where
  invite ack cancel bye options register info prack update message subscribe notify : Method
  refer publish other_method : Method

-- A Session-Expires header; the refresher may be left out.
pub record SessionExpires : Type 0 where
  pub delta : ℕ
  pub refresher : Option Text

-- A dialog: what SipDialog.antt models of it, and the other fields that are read here. The irq of an
-- UPDATE and the session timer are of the first part, timer H and the irq of the INVITE of the second.
pub record Dialog : Type 0 where
  pub core : SipDialog
  pub is_invite_dialog : Bool
  pub sip_status : ℕ
  pub min_se : ℕ
  pub seq : ℕ
  pub timer_h : Option ℕ
  pub invite_irq : Option ℕ
  pub route_uri : Text
  pub ack_bye : Bool
  pub local_contact : Text
  pub local_sdp : Text
  pub local_content_type : Text
  pub remote_sdp : Text

-- A request in progress that we sent.
pub record Rip : Type 0 where
  pub transaction_id : Text
  pub dialog_id : Text
  pub dlg : Option ℕ
  pub clear_dialog_on_response : Bool

-- What a timer runs.
pub data Job : Type 0 where
  run_retransmit_final_response run_end_retransmit_final_response : ℕ → Job
  run_timeout_bye : Text → Job

-- What is asked of the stack, of the queues of timers and of the other parts. A reply has its irq and
-- its status; a request has its leg, its method and its handle.
pub data Effect : Type 0 where
  replied : ℕ → ℕ → Effect
  replied_reliably : ℕ → ℕ → ℕ → Effect
  replied_statelessly : ℕ → Effect
  handled_statelessly : ℕ → Effect
  pending_canceled : Text → Effect
  requested : ℕ → Method → ℕ → Effect
  canceled : ℕ → Effect
  incoming_destroyed outgoing_destroyed leg_destroyed : ℕ → Effect
  reply_retransmitted : ℕ → Effect
  response_leaked leg_established : ℕ → Effect
  timer_added : Text → Job → ℕ → Effect
  timer_removed : Text → ℕ → Effect
  of_dialog : SipDialog.Effect → Effect
  of_invite : InvitesInProgress.Effect → Effect
  of_acks : TimerD.Effect → Effect
  of_liveness : Liveness.Effect → Effect
  of_caches : DrachtioController.Effect → Effect

pub record Thread : Type 0 where
  pub objects : ℕ → Dialog
  pub invites : List Iip
  pub dialogs : List Stored
  pub rips : Handles Rip
  pub irqs : Dict ℕ
  pub acks : TimerDHandler
  pub counts : Dict ℕ
  pub caches : Caches
  pub clients : Controller
  pub effects : List Effect

abbrev pub did : Effect → Thread → Thread
did e t = record t { effects = t.effects ++ e ∷ [] }

abbrev pub did_all : {A : Type 0} → (A → Effect) → List A → Thread → Thread
did_all f [] t = t
did_all f (e ∷ es) t = did_all f es (did (f e) t)

abbrev pub on_clients : (Controller → Controller) → Thread → Thread
on_clients f t = record t { clients = f t.clients }

-- What a call of ClientController gives, and the state after it.
abbrev pub with_clients : Thread → Bool × Controller → Bool × Thread
with_clients t (routed, clients) = (routed, record t { clients = clients })

abbrev pub on_dialog : ℕ → (Dialog → Dialog) → Thread → Thread
on_dialog a f t = record t { objects = λ x. if x == a then f (t.objects a) else t.objects x }

abbrev pub on_core : ℕ → (SipDialog → SipDialog) → Thread → Thread
on_core a f t = on_dialog a (λ d. record d { core = f d.core }) t

-- A method of the dialog with what it asks of the stack.
abbrev pub settle_core : ℕ → SipDialog × List SipDialog.Effect → Thread → Thread
settle_core a (core, effects) t = did_all of_dialog effects (on_core a (λ c. core) t)

-- SipDialog::getDialogId, which makes the id at the first call.
unfoldable pub dialog_id : ℕ → Thread → Text × Thread
unfolding get_dialog_id
dialog_id a t = let (id, core) = get_dialog_id (t.objects a).core in (id, on_core a (λ c. core) t)

unfoldable pub add_rip : ℕ → Rip → Thread → Thread
add_rip orq rip t = record t { rips = Handles.insert orq rip t.rips }

unfoldable pub find_rip_by_orq : ℕ → Thread → Option Rip
find_rip_by_orq orq t = Handles.find orq t.rips

-- The transaction is destroyed also when it is not in the table.
unfoldable pub clear_rip : ℕ → Thread → Thread
clear_rip orq t = did (outgoing_destroyed orq) (record t { rips = Handles.erase orq t.rips })

-- The first entry of the dialog: the map has no order that the code could depend on.
abbrev pub rip_of_dialog : Text → Handles Rip → Option ℕ
rip_of_dialog id [] = none
rip_of_dialog id ((orq, rip) ∷ m) =
    if text_eq rip.dialog_id id then some orq else rip_of_dialog id m

abbrev pub clear_rip_found : Option ℕ → Thread → Thread
clear_rip_found none t = t
clear_rip_found (some orq) t =
    did (outgoing_destroyed orq) (record t { rips = Handles.erase orq t.rips })

unfoldable pub clear_rip_by_dialog_id : Text → Thread → Thread
clear_rip_by_dialog_id id t = clear_rip_found (rip_of_dialog id t.rips) t

-- An id that is there keeps its irq.
unfoldable pub add_incoming_request_transaction : ℕ → Text → Thread → Thread
add_incoming_request_transaction irq id t = record t { irqs = Dict.insert id irq t.irqs }

unfoldable pub find_and_remove_transaction_id : Text → Thread → Option ℕ × Thread
find_and_remove_transaction_id id t =
    (Dict.find id t.irqs, record t { irqs = Dict.erase id t.irqs })

abbrev pub dialog_of_stored : Option Stored → Option (Option ℕ)
dialog_of_stored none = none
dialog_of_stored (some d) = some (some d.address)

abbrev pub dialog_of_invite : Option Iip → Option (Option ℕ) → Option (Option ℕ)
dialog_of_invite none other = other
dialog_of_invite (some iip) other = some iip.dialog

-- The invites in progress come first; theirs may be a null pointer.
unfoldable pub find_dialog_by_leg : ℕ → Thread → Option (Option ℕ)
unfolding find_by_leg sd_find_by_leg
find_dialog_by_leg leg t =
    dialog_of_invite (find_by_leg leg t.invites) (dialog_of_stored (sd_find_by_leg leg t.dialogs))

unfoldable pub find_dialog_by_id : Text → Thread → Option ℕ
unfolding sd_find_by_dialog_id
find_dialog_by_id id t = elim (sd_find_by_dialog_id id t.dialogs) [
  | none ↦ none
  | some d ↦ some d.address
]
