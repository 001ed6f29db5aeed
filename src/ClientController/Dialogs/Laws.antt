-- ===== src/ClientController/Dialogs/Laws.antt =====
-- What the dialog table says after each operation.
use drachtio_server.Common.{
  ℕ, ◌≡◌, Option, none, some, if◌then◌else◌, or_else, Text, text_eq, text_eq_iff, arith,
  Option-cases, inl, inr,
}
use drachtio_server.Common.Dict
use drachtio_server.ClientController.{Controller, Live}
use drachtio_server.ClientController.Transactions.{lock_entry}
use drachtio_server.ClientController.Dialogs.{
  find_client_for_dialog, remove_dialog, note_dialog, add_dialog_for_transaction,
}

-- A removed dialog is not in the table, and the others are as they were.
pub remove_dialog_lem :
    (dialog other : Text) (s : Controller)
    → Dict.find other (remove_dialog dialog s).dialogs
      ≡ (if text_eq dialog other then none else Dict.find other s.dialogs)
unfolding remove_dialog
remove_dialog_lem dialog other s =
    ground (arith, Dict.find-erase dialog other s.dialogs, text_eq_iff dialog other)

-- Nothing else is touched.
pub remove_dialog-frame :
    (dialog : Text) (s : Controller)
    → ((remove_dialog dialog s).app_transactions ≡ s.app_transactions)
      × ((remove_dialog dialog s).net_transactions ≡ s.net_transactions)
      × ((remove_dialog dialog s).posted ≡ s.posted)
unfolding remove_dialog
remove_dialog-frame dialog s = ground arith

find_client_for_dialog_unnamed :
    (live : Live) (random : ℕ) (dialog : Text) (s : Controller)
    → Dict.find dialog s.dialog_app_names ≡ none
    → find_client_for_dialog live random dialog s ≡ lock_entry live (Dict.find dialog s.dialogs)
unfolding find_client_for_dialog
find_client_for_dialog_unnamed live random dialog s n = ground arith

note_dialog_lem :
    (live : Live) (random : ℕ) (dialog other : Text) (s : Controller)
    → Dict.find dialog s.dialog_app_names ≡ none
    → Dict.find other (note_dialog live random dialog s).dialogs ≡ (
        if text_eq dialog other
        then lock_entry live (Dict.find dialog s.dialogs)
        else Dict.find other s.dialogs)
unfolding note_dialog
note_dialog_lem live random dialog other s n = ground (
  arith,
  find_client_for_dialog_unnamed live random dialog s n,
  Dict.find-erase dialog other s.dialogs,
  text_eq_iff dialog other,
)

note_dialog-insert :
    (live : Live) (random : ℕ) (dialog other : Text) (c : ℕ) (s : Controller)
    → Dict.find dialog s.dialog_app_names ≡ none
    → let t = record s { dialogs = Dict.insert dialog c s.dialogs } in
      Dict.find other (note_dialog live random dialog t).dialogs ≡ (
        if text_eq dialog other
        then lock_entry live (or_else (Dict.find dialog s.dialogs) (some c))
        else Dict.find other s.dialogs)
note_dialog-insert live random dialog other c s n =
    let t = record s { dialogs = Dict.insert dialog c s.dialogs } in
    ground (
      arith,
      note_dialog_lem live random dialog other t n,
      Dict.find-insert_self dialog c s.dialogs,
      Dict.find-insert dialog other c s.dialogs,
    )

-- The client that a new dialog goes to: the owner of the dialog, if it has one; else that of the
-- incoming transaction; else that of the outgoing one.
abbrev pub owner : Text → Text → Controller → Option ℕ
owner transaction dialog s =
    or_else (Dict.find dialog s.dialogs) (
      or_else (Dict.find transaction s.net_transactions) (Dict.find transaction s.app_transactions))

-- Where no app name is known for the dialog: afterwards the dialog belongs to the client that had the
-- dialog, or else to that of the incoming transaction, or else to that of the outgoing one, if this
-- client is still connected, and to nobody if it is not; all other dialogs are as they were.
pub add_dialog_for_transaction_lem :
    (live : Live) (random : ℕ) (transaction dialog other : Text) (s : Controller)
    → Dict.find dialog s.dialog_app_names ≡ none
    → Dict.find other (add_dialog_for_transaction live random transaction dialog s).dialogs ≡ (
        if text_eq dialog other
        then lock_entry live (owner transaction dialog s)
        else Dict.find other s.dialogs)
unfolding add_dialog_for_transaction
add_dialog_for_transaction_lem live random transaction dialog other s n =
    elim (Option-cases (Dict.find transaction s.net_transactions)) [
      | inr (c, e) ↦ ground (arith, note_dialog-insert live random dialog other c s n)
      | inl e ↦ elim (Option-cases (Dict.find dialog s.dialogs)) [
        | inr (d, f) ↦ ground (arith, note_dialog_lem live random dialog other s n)
        | inl f ↦ elim (Option-cases (Dict.find transaction s.app_transactions)) [
          | inr (c, g) ↦ ground (arith, note_dialog-insert live random dialog other c s n)
          | inl g ↦ ground (arith, text_eq_iff dialog other)
        ]
      ]
    ]
