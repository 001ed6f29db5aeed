-- ===== src/SipDialogController/Thread/Clients.antt =====
-- Steps of src/sip-dialog-controller.cpp that tell applications nothing.
use drachtio_server.Common.{
  ℕ, ◌≡◌, refl, ◌∙◌, Option, none, some, List, [], ◌∷◌, is_empty, Text, ◌==◌, Bool-cases, inl, inr,
}
use drachtio_server.InvitesInProgress
use drachtio_server.InvitesInProgress.{clear, Iip, find_by_leg}
use drachtio_server.SipDialog
use drachtio_server.SipDialog.{SipDialog, get_tport, set_tport}
use drachtio_server.DrachtioController.{get_tport_for_contact_alias}
use drachtio_server.SipDialogController.Thread.{
  Thread, Effect, did, did_all, on_core, settle_core, of_dialog, clear_rip_by_dialog_id,
  clear_rip_found, rip_of_dialog,
}
use drachtio_server.SipDialogController.Thread.Steps.{
  World, Target, settle_invite, settle_invites, clear_invite_leg, clear_invite_found,
  tport_of_dialog, pin_tport, move_tport, follow_alias, follow_target, current_tport_for_dialog,
}

pub did_all-clients :
    {A : Type 0} (f : A → Effect) (es : List A) (t : Thread) → (did_all f es t).clients ≡ t.clients
did_all-clients f [] t = refl
did_all-clients f (e ∷ es) t = did_all-clients f es (did (f e) t)

pub settle_core-clients :
    (a : ℕ) (r : SipDialog × List SipDialog.Effect) (t : Thread)
    → (settle_core a r t).clients ≡ t.clients
settle_core-clients a (core, effects) t =
    did_all-clients of_dialog effects (on_core a (λ c. core) t)

settle_invite-clients :
    (e : InvitesInProgress.Effect) (t : Thread) → (settle_invite e t).clients ≡ t.clients
settle_invite-clients (InvitesInProgress.invite_irq_cleared a) t = refl
settle_invite-clients (InvitesInProgress.reliable_destroyed r) t = refl
settle_invite-clients (InvitesInProgress.incoming_destroyed i) t = refl
settle_invite-clients InvitesInProgress.timer_started t = refl
settle_invite-clients InvitesInProgress.timer_destroyed t = refl
settle_invite-clients (InvitesInProgress.cancel_timeout_notified id) t = refl

settle_invites-clients :
    (es : List InvitesInProgress.Effect) (t : Thread) → (settle_invites es t).clients ≡ t.clients
settle_invites-clients [] t = refl
settle_invites-clients (e ∷ es) t =
    settle_invites-clients es (settle_invite e t) ∙ settle_invite-clients e t

pub clear_invite_found-clients :
    (o : Option Iip) (t : Thread) → (clear_invite_found o t).clients ≡ t.clients
clear_invite_found-clients none t = refl
clear_invite_found-clients (some iip) t =
    settle_invites-clients (clear iip t.invites).1 (record t { invites = (clear iip t.invites).0 })

pub clear_invite_leg-clients : (leg : ℕ) (t : Thread) → (clear_invite_leg leg t).clients ≡ t.clients
unfolding clear_invite_leg
clear_invite_leg-clients leg t = clear_invite_found-clients (find_by_leg leg t.invites) t

clear_rip_found-clients : (o : Option ℕ) (t : Thread) → (clear_rip_found o t).clients ≡ t.clients
clear_rip_found-clients none t = refl
clear_rip_found-clients (some orq) t = refl

pub clear_rip_by_dialog_id-clients :
    (id : Text) (t : Thread) → (clear_rip_by_dialog_id id t).clients ≡ t.clients
unfolding clear_rip_by_dialog_id
clear_rip_by_dialog_id-clients id t = clear_rip_found-clients (rip_of_dialog id t.rips) t

module _ (world : World) where
  pub tport_of_dialog-clients :
      (a : ℕ) (t : Thread) → (tport_of_dialog world a t).1.clients ≡ t.clients
  unfolding tport_of_dialog
  tport_of_dialog-clients a t =
      let (tp, core, effects) = get_tport world.dialog_stack (t.objects a).core in
      settle_core-clients a (core, effects) t

  pub pin_tport-clients : (a tp : ℕ) (t : Thread) → (pin_tport world a tp t).clients ≡ t.clients
  unfolding pin_tport
  pin_tport-clients a tp t =
      settle_core-clients a (set_tport world.dialog_stack tp (t.objects a).core) t

  move_tport-clients :
      (a tp : ℕ) (o : Option ℕ) (t : Thread) → (move_tport world a tp o t).1.clients ≡ t.clients
  move_tport-clients a tp none t = refl
  move_tport-clients a tp (some current) t = elim (Bool-cases (current == tp)) [
    | inl same ↦ rw same refl
    | inr other ↦ rw other (pin_tport-clients a current t)
  ]

  follow_alias-clients :
      (a tp : ℕ) (o : Option Text) (port : Text) (t : Thread)
      → (follow_alias world a tp o port t).1.clients ≡ t.clients
  follow_alias-clients a tp none port t = refl
  follow_alias-clients a tp (some host) port t =
      let name = (t.objects a).core.transport in
      elim (Bool-cases (is_empty name.host)) [
        | inl nowhere ↦ rw nowhere refl
        | inr known ↦ rw known (
            let found =
              get_tport_for_contact_alias world.contact_stack tp name.proto name.host host port
                t.caches in
            move_tport-clients a tp found.0 (record t { caches = found.1 }))
      ]

  follow_target-clients :
      (a : ℕ) (target : Option Target) (r : Option ℕ × Thread)
      → (follow_target world a target r).1.clients ≡ r.1.clients
  follow_target-clients a target (none, t) = refl
  follow_target-clients a none (some tp, t) = refl
  follow_target-clients a (some target) (some tp, t) =
      follow_alias-clients a tp target.host target.port t

  pub current_tport_for_dialog-clients :
      (a : ℕ) (target : Option Target) (t : Thread)
      → (current_tport_for_dialog world a target t).1.clients ≡ t.clients
  unfolding current_tport_for_dialog
  current_tport_for_dialog-clients a target t =
      follow_target-clients a target (tport_of_dialog world a t) ∙ tport_of_dialog-clients a t
