-- ===== src/SipDialogController/Thread/Requests/Late.antt =====
-- A CANCEL that comes after the answer (`processRequestInsideDialog` of src/sip-dialog-controller.cpp).
use drachtio_server.Common.{
  ℕ, ◌≡◌, refl, sym, ap, ◌∙◌, Bool, true, false, not, ◌&&◌, ◌||◌, Option, none, some, OnOption,
  List, [], ◌∷◌, ◌==◌, if◌then◌else◌, Text, arith, keep_if, subst, Option-cases, inl, inr, codes,
}
use drachtio_server.Common
use drachtio_server.InvitesInProgress
use drachtio_server.InvitesInProgress.{
  Iip, find_by_leg, find_entry, clear, modify, destroy_all_reliables,
}
use drachtio_server.SipDialog.Stable.{Stored, sd_clear_leg, sd_find_by_leg}
use drachtio_server.SipDialogController.Thread.{Thread, find_dialog_by_leg, bye}
use drachtio_server.SipDialogController.Thread.Steps.{
  World, settle_invite, settle_invites, clear_invite_leg, clear_invite_found, tell_bye,
  clear_sip_timers,
}
use drachtio_server.SipDialogController.Thread.Requests.{
  Returned, status_rc, Request, reply, bye_target, cancel_answered, process_cancel, process_default,
  default_of,
}

abbrev SameTables : Thread → Thread → Type 0
SameTables t u = (u.invites ≡ t.invites) × (u.dialogs ≡ t.dialogs)

settle_invite-SameTables :
    (e : InvitesInProgress.Effect) (t : Thread) → SameTables t (settle_invite e t)
settle_invite-SameTables (InvitesInProgress.invite_irq_cleared a) t = (refl, refl)
settle_invite-SameTables (InvitesInProgress.reliable_destroyed r) t = (refl, refl)
settle_invite-SameTables (InvitesInProgress.incoming_destroyed i) t = (refl, refl)
settle_invite-SameTables InvitesInProgress.timer_started t = (refl, refl)
settle_invite-SameTables InvitesInProgress.timer_destroyed t = (refl, refl)
settle_invite-SameTables (InvitesInProgress.cancel_timeout_notified id) t = (refl, refl)

pub settle_invites-SameTables :
    (es : List InvitesInProgress.Effect) (t : Thread) → SameTables t (settle_invites es t)
settle_invites-SameTables [] t = (refl, refl)
settle_invites-SameTables (e ∷ es) t =
    let (i, d) = settle_invite-SameTables e t in
    let (i', d') = settle_invites-SameTables es (settle_invite e t) in (i' ∙ i, d' ∙ d)

find_entry-keep_if :
    (leg : ℕ) (s : List Iip)
    → find_entry (λ e. e.leg == leg) (keep_if (λ e. not (e.leg == leg)) s) ≡ none
find_entry-keep_if leg [] = refl
find_entry-keep_if leg (e ∷ s) = ground (arith, find_entry-keep_if leg s)

find_by_leg-found : (leg : ℕ) (s : List Iip) (e : Iip) → find_by_leg leg s ≡ some e → e.leg ≡ leg
unfolding find_by_leg
find_by_leg-found leg [] e h = cc
find_by_leg-found leg (x ∷ s) e h = ground (arith, find_by_leg-found leg s e)

pub cleared-gone :
    (leg : ℕ) (e : Iip) (s : List Iip) → e.leg ≡ leg → find_by_leg leg (clear e s).0 ≡ none
unfolding clear find_by_leg
cleared-gone leg e s h = rw h (find_entry-keep_if leg _)

found-dialogs : (o : Option Iip) (t : Thread) → (clear_invite_found o t).dialogs ≡ t.dialogs
found-dialogs none t = refl
found-dialogs (some e) t =
    let r = clear e t.invites in (settle_invites-SameTables r.1 (record t { invites = r.0 })).1

clear_invite_found-gone :
    (leg : ℕ) (o : Option Iip) (t : Thread)
    → find_by_leg leg t.invites ≡ o
    → find_by_leg leg (clear_invite_found o t).invites ≡ none
clear_invite_found-gone leg none t h = h
clear_invite_found-gone leg (some e) t h =
    let r = clear e t.invites in
    ap (find_by_leg leg) (settle_invites-SameTables r.1 (record t { invites = r.0 })).0
    ∙ cleared-gone leg e t.invites (find_by_leg-found leg t.invites e h)

clear_invite_leg-gone :
    (leg : ℕ) (t : Thread) → find_by_leg leg (clear_invite_leg leg t).invites ≡ none
unfolding clear_invite_leg
clear_invite_leg-gone leg t = clear_invite_found-gone leg (find_by_leg leg t.invites) t refl

clear_invite_leg-dialogs : (leg : ℕ) (t : Thread) → (clear_invite_leg leg t).dialogs ≡ t.dialogs
unfolding clear_invite_leg
clear_invite_leg-dialogs leg t = found-dialogs (find_by_leg leg t.invites) t

sd_find-cleared : (leg : ℕ) (s : List Stored) → sd_find_by_leg leg (sd_clear_leg leg s) ≡ none
unfolding sd_find_by_leg sd_clear_leg
sd_find-cleared leg [] = refl
sd_find-cleared leg (d ∷ s) = ground (arith, sd_find-cleared leg s)

-- After both clears the leg has no dialog.
find_dialog-cleared :
    (leg : ℕ) (t : Thread)
    → find_dialog_by_leg leg
        (clear_invite_leg leg (record t { dialogs = sd_clear_leg leg t.dialogs }))
      ≡ none
unfolding find_dialog_by_leg
find_dialog-cleared leg t =
    let u = record t { dialogs = sd_clear_leg leg t.dialogs } in
    let stored =
      ap (sd_find_by_leg leg) (clear_invite_leg-dialogs leg u) ∙ sd_find-cleared leg t.dialogs in
    rw (clear_invite_leg-gone leg u, stored) refl

-- The stack is told to answer 481, and the leg has no dialog.
abbrev pub IsGone : ℕ → Returned × Thread → Type 0
IsGone leg (rc, u) = (rc ≡ status_rc 481) × (find_dialog_by_leg leg u ≡ none)

process_default-gone :
    (world : World) (stateless : Returned) (r : Request) (t : Thread)
    → find_dialog_by_leg r.leg t ≡ none
    → process_default world stateless r t ≡ some (status_rc 481, t)
unfolding process_default
process_default-gone world stateless r t h = ap (λ o. default_of world stateless r o t) h

after_bye-IsGone :
    (world : World) (stateless : Returned) (r : Request) (o : Option Thread)
    → OnOption (IsGone r.leg) (
        Common.◌>>=◌ o (λ u.
          process_default world stateless r
            (clear_invite_leg r.leg (record u { dialogs = sd_clear_leg r.leg u.dialogs }))))
after_bye-IsGone world stateless r none = tt
after_bye-IsGone world stateless r (some u) =
    subst (OnOption (IsGone r.leg))
      (sym (process_default-gone world stateless r _ (find_dialog-cleared r.leg u)))
      (refl, find_dialog-cleared r.leg u)

cancel_answered-IsGone :
    (world : World) (stateless : Returned) (r : Request) (o : Option (Option ℕ)) (t : Thread)
    → find_dialog_by_leg r.leg t ≡ o
    → OnOption (IsGone r.leg) (cancel_answered world stateless r o t)
cancel_answered-IsGone world stateless r none t h = (refl, h)
cancel_answered-IsGone world stateless r (some none) t h = tt
cancel_answered-IsGone world stateless r (some (some a)) t h = after_bye-IsGone world stateless r (
    tell_bye world a r.leg (world.create r.leg bye)
      (bye_target world a (world.remote_target r.leg) (reply r.irq 481 (clear_sip_timers a t))))

-- A CANCEL inside a dialog for which no INVITE is pending, whether or not its dialog is found: unless a
-- null pointer is read, the handler returns 481, and then the leg has no dialog.
pub process_cancel-IsGone :
    (world : World) (stateless : Returned) (r : Request) (t : Thread)
    → OnOption (IsGone r.leg) (process_cancel world stateless r none t)
unfolding process_cancel
process_cancel-IsGone world stateless r t =
    cancel_answered-IsGone world stateless r (find_dialog_by_leg r.leg t) t refl
