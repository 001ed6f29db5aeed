-- ===== src/SipDialogController/Thread/Replying.antt =====
-- Responses of applications (`doRespondToSipRequest` of src/sip-dialog-controller.cpp), and the leg of a
-- request that is answered for the first time (`setupLegForIncomingRequest` of src/controller.cpp).
pub mod Dialogs
pub mod Invites
pub mod Whole
pub mod Quiet
pub mod QuietHeld
pub mod QuietInvites
pub mod Answered
use drachtio_server.Common.{
  ℕ, Bool, true, false, not, ◌&&◌, ◌||◌, Option, none, some, List, [], ◌∷◌, ◌++◌, ◌==◌, ltb,
  if◌then◌else◌, drop, Text, codes,
}
use drachtio_server.InvitesInProgress.{incoming, insert}
use drachtio_server.SipDialogController.Thread.{
  Thread, Dialog, Method, invite, subscribe, register, SessionExpires, replied, did, on_core,
  on_dialog, add_incoming_request_transaction,
}

-- A response of an application, with what is read of its headers: whether it is for an UPDATE, the method
-- of its CSeq, its Content-Type, Contact and Session-Expires, and whether it requires 100rel.
pub record Reply : Type 0 where
  pub msg_id : Text
  pub transaction_id : Text
  pub code : ℕ
  pub cseq_is_update : Bool
  pub cseq_is_cancel : Bool
  pub content_type : Option Text
  pub contact : Option Text
  pub requires_100rel : Bool
  pub session_expires : Option SessionExpires
  pub body : Text
  pub now : ℕ

-- A pending request: what setupLegForIncomingRequest reads, and what the stack makes for it. The dialog is
-- made by its constructor, at a new address.
pub record Waiting : Type 0 where
  pub is_canceled : Bool
  pub is_shutdown : Bool
  pub makes_dialog : Bool
  pub irq : Option ℕ
  pub leg : Option ℕ
  pub address : ℕ
  pub dialog : Dialog
  pub local_tag : Text

-- A transport of ours: its contact, and whether that is a sips uri.
pub record Local : Type 0 where
  pub contact : Text
  pub is_sips : Bool

-- The response as the stack has it: its texts, and the seconds in its Expires and its Contact.
pub record Sent : Type 0 where
  pub raw : Text
  pub meta : Text
  pub expires : ℕ
  pub contact_expires : Option ℕ

-- What the stack knows of the irq of a request, and how it answers; `waiting` is what
-- PendingRequestController has.
pub record Incoming : Type 0 where
  pub waiting : Text → Option Waiting
  pub method : ℕ → Method
  pub tport : ℕ → Option ℕ
  pub is_shutdown : ℕ → Bool
  pub find_transport : ℕ → Option Local
  pub contact_is_sip : ℕ → Bool
  pub contact : ℕ → Option (Option Text × Option Text)
  pub leg : ℕ → Option ℕ
  pub session_expires : ℕ → Option SessionExpires
  pub treply : ℕ → Bool
  pub reliable_treply : ℕ → Option ℕ
  pub response : ℕ → Option Sent
  pub best_effort_tls : Bool
  pub default_refresher : Text
  pub timer_h : ℕ
  pub t1 : ℕ
  pub timer_h_msecs : ℕ

-- Where an attempt ends: the failure, if there is one, the irq, the id of the dialog, whether the irq is
-- destroyed, whether the invite in progress is cleared, whether an UPDATE was answered, and whether the
-- request is one that waited inside a dialog.
pub record Outcome : Type 0 where
  pub problem : Option Text
  pub irq : Option ℕ
  pub dialog : Text
  pub destroy_irq : Bool
  pub clear_iip : Bool
  pub is_update : Bool
  pub existing : Bool

abbrev pub is_invite : Method → Bool
is_invite m = elim m [ invite ↦ true | _ ↦ false ]

abbrev pub is_subscribe : Method → Bool
is_subscribe m = elim m [ subscribe ↦ true | _ ↦ false ]

abbrev pub is_register : Method → Bool
is_register m = elim m [ register ↦ true | _ ↦ false ]

abbrev pub gone_text : Text
gone_text = codes "transport for response has been shutdown or closed"

abbrev pub unknown_text : Text
unknown_text = codes "Unknown server error sending response"

module _ (net : Incoming) where
  -- The transport of a request, unless it is gone.
  abbrev pub open_tport : ℕ → Option ℕ
  open_tport irq = elim (net.tport irq) [
    | none ↦ none
    | some tp ↦ if net.is_shutdown tp then none else some tp
  ]

  -- The contact, with sip for sips where the far end asks for tls without it.
  abbrev pub contact_for : ℕ → Local → Text
  contact_for irq l =
      if net.best_effort_tls && (l.is_sips && net.contact_is_sip irq)
      then codes "sip:" ++ drop 5 l.contact
      else l.contact

  abbrev pub in_brackets : Text → Text
  in_brackets uri = codes "<" ++ (uri ++ codes ">")

  abbrev pub try_reply : ℕ → ℕ → Thread → Option Text × Thread
  try_reply irq code t =
      if net.treply irq then (none, did (replied irq code) t) else (some unknown_text, t)

  abbrev pub enter_invite : Reply → Waiting → ℕ → Option ℕ → Thread → Bool × Thread
  enter_invite k w irq none t = (false, t)
  enter_invite k w irq (some leg) t =
      let d = record w.dialog {
        core = record w.dialog.core { transaction_id = k.transaction_id; local_tag = w.local_tag };
      } in
      let t1 = on_dialog w.address (λ old. d) t in
      (
        true,
        record t1 {
          invites = insert (incoming leg irq k.transaction_id (some w.address) k.now) t1.invites;
        },
      )

  abbrev pub enter_request : Reply → Waiting → Option ℕ → Thread → Bool × Thread
  enter_request k w none t = (false, t)
  enter_request k w (some irq) t =
      if w.makes_dialog
      then enter_invite k w irq w.leg t
      else (true, add_incoming_request_transaction irq k.transaction_id t)

  abbrev pub setup_for : Reply → Option Waiting → Thread → Bool × Thread
  setup_for k none t = (false, t)
  setup_for k (some w) t =
      if w.is_canceled || w.is_shutdown then (false, t) else enter_request k w w.irq t

  unfoldable pub setup_leg_for_incoming_request : Reply → Thread → Bool × Thread
  unfolding add_incoming_request_transaction
  setup_leg_for_incoming_request k t = setup_for k (net.waiting k.transaction_id) t
