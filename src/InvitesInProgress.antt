-- ===== src/InvitesInProgress.antt =====
-- src/invite-in-progress.cpp and invite-in-progress.hpp: the INVITEs that are being answered. Handles of
-- the SIP stack and dialogs are numbers. The set is a list in the order of insertion; where several
-- entries have a key that need not be unique, a search gives the first, and the code any of them.
mod Reachable
mod Tests
use drachtio_server.Common.{
  ℕ, suc, ◌≡◌, Bool, true, false, not, ◌&&◌, ◌||◌, Option, none, some, List, [], ◌∷◌, ◌++◌, ◌==◌,
  if◌then◌else◌, is_some, keep_if, length, Text, text_eq,
}

pub data Role : Type 0 where
  uas_role uac_role : Role

-- `timer_cancel` tells whether the timer that follows a CANCEL is running.
pub record Iip : Type 0 where
  pub leg : ℕ
  pub irq : Option ℕ
  pub orq : Option ℕ
  pub transaction_id : Text
  pub reliables : List ℕ
  pub dialog : Option ℕ
  pub role : Role
  pub canceled : Bool
  pub created : ℕ
  pub timer_cancel : Bool

-- What is asked of the stack and of a dialog.
pub data Effect : Type 0 where
  reliable_destroyed : ℕ → Effect
  incoming_destroyed : ℕ → Effect
  invite_irq_cleared : ℕ → Effect
  timer_started : Effect
  timer_destroyed : Effect
  cancel_timeout_notified : Text → Effect

abbrev pub incoming : ℕ → ℕ → Text → Option ℕ → ℕ → Iip
incoming leg irq transaction_id dialog now = record {
  leg = leg;
  irq = some irq;
  orq = none;
  transaction_id = transaction_id;
  reliables = [];
  dialog = dialog;
  role = uas_role;
  canceled = false;
  created = now;
  timer_cancel = false;
}

abbrev pub outgoing : ℕ → ℕ → Text → Option ℕ → ℕ → Iip
outgoing leg orq transaction_id dialog now = record {
  leg = leg;
  irq = none;
  orq = some orq;
  transaction_id = transaction_id;
  reliables = [];
  dialog = dialog;
  role = uac_role;
  canceled = false;
  created = now;
  timer_cancel = false;
}

-- A null handle is not added.
unfoldable pub add_reliable : Option ℕ → Iip → Iip
add_reliable none e = e
add_reliable (some rel) e = record e { reliables = e.reliables ++ rel ∷ [] }

-- The first occurrence of a handle is taken out.
abbrev pub without : ℕ → List ℕ → List ℕ
without rel [] = []
without rel (r ∷ rs) = let rest = without rel rs in if r == rel then rs else r ∷ rest

abbrev pub has : ℕ → List ℕ → Bool
has rel [] = false
has rel (r ∷ rs) = r == rel || has rel rs

unfoldable pub destroy_reliable : ℕ → Iip → Iip × List Effect
destroy_reliable rel e =
    if has rel e.reliables
    then (record e { reliables = without rel e.reliables }, reliable_destroyed rel ∷ [])
    else (e, [])

abbrev pub destroyed : List ℕ → List Effect
destroyed [] = []
destroyed (r ∷ rs) = reliable_destroyed r ∷ destroyed rs

unfoldable pub destroy_all_reliables : Iip → Iip × List Effect
destroy_all_reliables e = (record e { reliables = [] }, destroyed e.reliables)

unfoldable pub start_cancel_timer : Iip → Iip × List Effect
start_cancel_timer e =
    if e.timer_cancel then (e, []) else (record e { timer_cancel = true }, timer_started ∷ [])

unfoldable pub set_canceled : Iip → Iip × List Effect
unfolding start_cancel_timer
set_canceled e = start_cancel_timer (record e { canceled = true })

unfoldable pub stop_cancel_timer : Iip → Iip × List Effect
stop_cancel_timer e =
    (record e { timer_cancel = false }, if e.timer_cancel then timer_destroyed ∷ [] else [])

unfoldable pub do_cancel_timer_handling : Iip → Iip × List Effect
do_cancel_timer_handling e =
    (record e { timer_cancel = false }, cancel_timeout_notified e.transaction_id ∷ [])

-- The destructor.
unfoldable pub destroy : Iip → List Effect
unfolding stop_cancel_timer destroy_all_reliables
destroy e = (stop_cancel_timer e).1 ++ (destroy_all_reliables e).1

abbrev pub find_entry : (Iip → Bool) → List Iip → Option Iip
find_entry p [] = none
find_entry p (e ∷ s) = if p e then some e else find_entry p s

abbrev pub same_handle : Option ℕ → Option ℕ → Bool
same_handle none none = true
same_handle none (some b) = false
same_handle (some a) none = false
same_handle (some a) (some b) = a == b

unfoldable pub find_by_irq : Option ℕ → List Iip → Option Iip
find_by_irq irq s = find_entry (λ e. same_handle e.irq irq) s

unfoldable pub find_by_orq : Option ℕ → List Iip → Option Iip
find_by_orq orq s = find_entry (λ e. same_handle e.orq orq) s

unfoldable pub find_by_leg : ℕ → List Iip → Option Iip
find_by_leg leg s = find_entry (λ e. e.leg == leg) s

unfoldable pub find_by_reliable : ℕ → List Iip → Option Iip
find_by_reliable rel s = find_entry (λ e. has rel e.reliables) s

unfoldable pub find_by_transaction_id : Text → List Iip → Option Iip
find_by_transaction_id id s = find_entry (λ e. text_eq e.transaction_id id) s

-- A new entry whose transaction id is there already is refused, and destroyed.
unfoldable pub insert : Iip → List Iip → List Iip
unfolding find_by_transaction_id
insert e s = if is_some (find_by_transaction_id e.transaction_id s) then s else s ++ e ∷ []

abbrev pub destroy_all : List Iip → List Effect
destroy_all [] = []
destroy_all (e ∷ s) = destroy e ++ destroy_all s

abbrev pub clear_dialog : Option ℕ → List Effect
clear_dialog none = []
clear_dialog (some d) = invite_irq_cleared d ∷ []

abbrev pub release_irq : Iip → List Effect
release_irq e = elim e.irq [
  | none ↦ []
  | some irq ↦ clear_dialog e.dialog ++ incoming_destroyed irq ∷ []
]

-- One entry, given by its transaction id, is changed.
abbrev pub modify : (Iip → Iip) → Text → List Iip → List Iip
modify f id [] = []
modify f id (e ∷ s) =
    let rest = modify f id s in if text_eq e.transaction_id id then f e ∷ s else e ∷ rest

-- All entries with the leg of the one that is cleared are erased, and destroyed with the last reference.
unfoldable pub clear : Iip → List Iip → List Iip × List Effect
unfolding destroy_all_reliables destroy
clear e s =
    let (e', effects) = destroy_all_reliables e in
    let s' = modify (λ x. e') e.transaction_id s in
    (
      keep_if (λ x. not (x.leg == e.leg)) s',
      release_irq e ++ effects ++ destroy_all (keep_if (λ x. x.leg == e.leg) s'),
    )

abbrev pub clear_found : Option Iip → List Iip → List Iip × List Effect
clear_found none s = (s, [])
clear_found (some e) s = clear e s

unfoldable pub clear_leg : ℕ → List Iip → List Iip × List Effect
unfolding find_by_leg clear
clear_leg leg s = clear_found (find_by_leg leg s) s

unfoldable pub size : List Iip → ℕ
size s = length s

-- `none` where no entry has the id: the iterator passed on is the end, which is undefined behaviour.
unfoldable pub modify_found : (Iip → Iip) → Text → List Iip → Option (List Iip)
modify_found f id s =
    if is_some (find_entry (λ e. text_eq e.transaction_id id) s) then some (modify f id s) else none

unfoldable pub add_reliable_to : Iip → Option ℕ → List Iip → Option (List Iip)
unfolding modify_found add_reliable
add_reliable_to e rel s = modify_found (add_reliable rel) e.transaction_id s

unfoldable pub destroy_reliable_of : Iip → ℕ → List Iip → Option (List Iip)
unfolding modify_found destroy_reliable
destroy_reliable_of e rel s = modify_found (λ x. (destroy_reliable rel x).0) e.transaction_id s
