-- ===== src/ClientController/Dialogs.antt =====
-- Which client has a dialog: `addDialogForTransaction`, `removeDialog` and `findClientForDialog` of
-- src/client-controller.cpp.
pub mod Laws
use drachtio_server.Common.{
  ℕ, zero, suc, ◌+◌, ◌%◌, ◌≡◌, Bool, true, false, not, Option, none, some, List, [], ◌∷◌, ◌==◌,
  if◌then◌else◌, is_empty, length, get_elem?, Text, text_eq,
}
use drachtio_server.Common.Dict
use drachtio_server.ClientController.{Controller, Client, Live, lock}
use drachtio_server.ClientController.Transactions.{lock_entry}

-- m_services.equal_range( appName )
unfoldable pub services_of : Text → List (Text × ℕ) → List ℕ
services_of name [] = []
services_of name ((n, c) ∷ services) =
    if text_eq n name then c ∷ services_of name services else services_of name services

-- The `do` loop over the clients of an app, from an offset; `tries` rounds are left.
unfoldable pub try_services : Live → List ℕ → ℕ → ℕ → Option ℕ
try_services live possibles zero offset = none
try_services live possibles (suc tries) offset =
    let rest =
      try_services live possibles tries
        (if offset + 1 == length possibles then 0 else offset + 1) in
    elim (lock_entry live (get_elem? possibles offset)) [ some c ↦ some c | none ↦ rest ]

-- Another client that runs the app, from the place that `rand()` gives.
unfoldable pub find_service : Live → ℕ → Text → Controller → Option ℕ
unfolding services_of try_services
find_service live random name s =
    let possibles = services_of name s.services in
    if length possibles == 0
    then none
    else try_services live possibles (length possibles) (random % length possibles)

unfoldable pub find_client_for_dialog : Live → ℕ → Text → Controller → Option ℕ
unfolding find_service
find_client_for_dialog live random dialog s = elim (lock_entry live (Dict.find dialog s.dialogs)) [
  | some c ↦ some c
  | none ↦ elim (Dict.find dialog s.dialog_app_names) [
    | none ↦ none
    | some name ↦ find_service live random name s
  ]
]

unfoldable pub remove_dialog : Text → Controller → Controller
remove_dialog dialog s = elim (Dict.find dialog s.dialogs) [
  | none ↦ s
  | some c ↦ record s { dialogs = Dict.erase dialog s.dialogs }
]

-- client->getAppName
abbrev pub app_name_of : Live → ℕ → Text
app_name_of live c = elim (live c) [ none ↦ [] | some client ↦ client.app_name ]

-- The first half: the entry for the dialog; `none` is the early return.
unfoldable pub enter_dialog : Text → Text → Controller → Option Controller
enter_dialog transaction dialog s = elim (Dict.find transaction s.net_transactions) [
  | some c ↦ some (record s { dialogs = Dict.insert dialog c s.dialogs })
  | none ↦ elim (Dict.find dialog s.dialogs) [
    | some d ↦ some s
    | none ↦ elim (Dict.find transaction s.app_transactions) [
      | some c ↦ some (record s { dialogs = Dict.insert dialog c s.dialogs })
      | none ↦ none
    ]
  ]
]

-- The second half: the client is looked up at once, and its app noted.
unfoldable pub note_dialog : Live → ℕ → Text → Controller → Controller
unfolding find_client_for_dialog
note_dialog live random dialog s = elim (find_client_for_dialog live random dialog s) [
  | none ↦ record s { dialogs = Dict.erase dialog s.dialogs }
  | some c ↦
      let name = app_name_of live c in
      if is_empty name
      then s
      else record s { dialog_app_names = Dict.insert dialog name s.dialog_app_names }
]

unfoldable pub add_dialog_for_transaction : Live → ℕ → Text → Text → Controller → Controller
unfolding enter_dialog note_dialog
add_dialog_for_transaction live random transaction dialog s =
    elim (enter_dialog transaction dialog s) [
      | none ↦ s
      | some s' ↦ note_dialog live random dialog s'
    ]
