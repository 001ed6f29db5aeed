-- ===== src/SipDialog/Stable.antt =====
-- The set of established dialogs (the functions `SD_…` of src/sip-dialog.cpp), as a list in the order of
-- insertion. Dialogs are given by their addresses, of which a leg and an id are read.
use drachtio_server.Common.{
  ℕ, Bool, true, false, not, ◌||◌, Option, none, some, List, [], ◌∷◌, ◌++◌, ◌==◌, if◌then◌else◌,
  is_some, keep_if, length, Text, text_eq,
}
use drachtio_server.SipDialog.{DialogType, we_are_uac, we_are_uas}

pub record Stored : Type 0 where
  pub address : ℕ
  pub leg : ℕ
  pub dialog_id : Text
  pub role : DialogType

abbrev pub find_entry : (Stored → Bool) → List Stored → Option Stored
find_entry p [] = none
find_entry p (d ∷ s) = if p d then some d else find_entry p s

abbrev pub conflicts : Stored → Stored → Bool
conflicts d x = x.address == d.address || (x.leg == d.leg || text_eq x.dialog_id d.dialog_id)

-- The address, the leg and the id are unique: a dialog that has one in common is not inserted.
unfoldable pub sd_insert : Stored → List Stored → List Stored
sd_insert d s = if is_some (find_entry (conflicts d) s) then s else s ++ d ∷ []

unfoldable pub sd_find_by_leg : ℕ → List Stored → Option Stored
sd_find_by_leg leg s = find_entry (λ d. d.leg == leg) s

unfoldable pub sd_find_by_dialog_id : Text → List Stored → Option Stored
sd_find_by_dialog_id id s = find_entry (λ d. text_eq d.dialog_id id) s

unfoldable pub sd_clear : ℕ → List Stored → List Stored
sd_clear address s = keep_if (λ d. not (d.address == address)) s

unfoldable pub sd_clear_id : Text → List Stored → List Stored
sd_clear_id id s = keep_if (λ d. not (text_eq d.dialog_id id)) s

unfoldable pub sd_clear_leg : ℕ → List Stored → List Stored
sd_clear_leg leg s = keep_if (λ d. not (d.leg == leg)) s

abbrev pub has_role_uac : Stored → Bool
has_role_uac d = elim d.role [ we_are_uac ↦ true | we_are_uas ↦ false ]

-- The numbers of all dialogs, of those that we began, and of the others.
unfoldable pub sd_size : List Stored → ℕ × ℕ × ℕ
sd_size s =
    (length s, length (keep_if has_role_uac s), length (keep_if (λ d. not (has_role_uac d)) s))
