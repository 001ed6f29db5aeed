-- ===== src/ClientController.antt =====
-- src/client-controller.cpp and client-controller.hpp: `ClientController`, which knows the connected
-- applications and which of them has each dialog, transaction and API request.
pub mod Selection
pub mod Transactions
pub mod Dialogs
pub mod Routing
pub mod Applications
mod Tests
use drachtio_server.Common.{
  ℕ, zero, suc, ◌≡◌, Bool, true, false, not, ◌&&◌, Option, none, some, List, [], ◌∷◌, ◌++◌, ◌==◌,
  if◌then◌else◌, is_empty, keep_if, Text, text_eq,
}
use drachtio_server.Common.Dict
use drachtio_server.Common.Dict.{Dict}

-- What the controller reads of a `BaseClient`: `m_tags` and `m_strAppName`.
pub record Client : Type 0 where
  pub tags : List Text
  pub app_name : Text

-- The `BaseClient` objects that still exist, by their addresses: a `client_weak_ptr` is an address,
-- and `lock` gives it back as long as the object is there. Clients come and go between calls, so the
-- objects are an argument of each operation that locks one.
abbrev pub Live : Type 0
Live = ℕ → Option Client

abbrev pub lock : Live → ℕ → Option ℕ
lock live c = elim (live c) [ none ↦ none | some client ↦ some c ]

-- What is posted to the io_context for a client.
pub data Post : Type 0 where
  -- transactionId, dialogId, rawSipMsg, meta
  sip_message : Text → Text → Text → Text → Post
  -- transactionId, rawSipMsg, meta
  new_request : Text → Text → Text → Post
  -- clientMsgId, responseText, additionalResponseData
  api_response : Text → Text → Text → Post

-- Multimaps are lists of entries; `posted` holds what was posted, the oldest first.
pub record Controller : Type 0 where
  pub clients : List ℕ
  pub services : List (Text × ℕ)
  pub request_types : List (Text × ℕ)
  pub offsets : Dict ℕ
  pub dialogs : Dict ℕ
  pub app_transactions : Dict ℕ
  pub net_transactions : Dict ℕ
  pub api_requests : Dict ℕ
  pub dialog_app_names : Dict Text
  pub posted : List (ℕ × Post)

abbrev pub empty : Controller
empty = record {
  clients = [];
  services = [];
  request_types = [];
  offsets = [];
  dialogs = [];
  app_transactions = [];
  net_transactions = [];
  api_requests = [];
  dialog_app_names = [];
  posted = [];
}

unfoldable pub join : ℕ → Controller → Controller
join c s = record s { clients = c ∷ keep_if (λ d. not (d == c)) s.clients }

unfoldable pub leave : ℕ → Controller → Controller
leave c s = record s { clients = keep_if (λ d. not (d == c)) s.clients }

unfoldable pub add_named_service : ℕ → Text → Controller → Controller
add_named_service c name s = record s { services = s.services ++ (name, c) ∷ [] }

unfoldable pub post : ℕ → Post → Controller → Controller
post c p s = record s { posted = s.posted ++ (c, p) ∷ [] }
