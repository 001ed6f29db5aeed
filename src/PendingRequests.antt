-- ===== src/PendingRequests.antt =====
-- src/pending-request-controller.cpp and pending-request-controller.hpp: the requests that have come in
-- and wait for an application to take them, each with a timer.
pub mod Invariant
pub mod NewRequest
mod Tests
use drachtio_server.Common.{
  ℕ, ◌≡◌, Bool, true, false, not, ◌&&◌, Option, none, some, List, [], ◌∷◌, ◌++◌, ◌==◌,
  if◌then◌else◌, keep_if, is_some, Text, text_eq, codes,
}
use drachtio_server.Common.Dict
use drachtio_server.Common.Dict.{Dict}

-- What is read of a request's `sip_t`. `cseq` is the number of the CSeq header as
-- `boost::lexical_cast` prints it.
pub record Sip : Type 0 where
  pub call_id : Text
  pub is_cancel : Bool
  pub is_invite : Bool
  pub method_name : Text
  pub cseq_method : Text
  pub cseq : Text
  pub branch : Option Text
  pub to_tag : Option Text

abbrev branch_suffix : Option Text → Text
branch_suffix none = []
branch_suffix (some branch) = b'|' ∷ branch

-- makeUniqueSipTransactionIdentifier of src/drachtio.cpp
unfoldable pub unique_id : Sip → Text
unique_id sip =
    sip.call_id
    ++ (b'|'
        ∷ ((if sip.is_cancel then codes "INVITE" else sip.cseq_method)
            ++ (b'|' ∷ (sip.cseq ++ branch_suffix sip.branch))))

pub record Pending : Type 0 where
  pub transaction_id : Text
  pub sip : Sip
  pub timer : ℕ
  pub canceled : Bool
  pub meta : Text
  pub encoded_msg : Text

-- The objects by their addresses; the two maps share them. `timers` holds the entries of the timer
-- queue: a handle and the transaction id that the callback is bound to.
pub record PendingRequests : Type 0 where
  pub objects : ℕ → Pending
  pub by_call_id : Dict ℕ
  pub by_transaction : Dict ℕ
  pub timers : List (ℕ × Text)

abbrev pub write : ℕ → Pending → (ℕ → Pending) → ℕ → Pending
write a p objects b = if b == a then p else objects b

-- `address`, `handle` and `uuid` are what `make_shared`, the timer queue and `generateUuid` give.
unfoldable pub add : ℕ → ℕ → Text → Sip → PendingRequests → PendingRequests
add address handle uuid sip s = record {
  objects =
      write address
        (record {
          transaction_id = uuid;
          sip = sip;
          timer = handle;
          canceled = false;
          meta = [];
          encoded_msg = [];
        })
        s.objects;
  by_call_id = Dict.insert (unique_id sip) address s.by_call_id;
  by_transaction = Dict.insert uuid address s.by_transaction;
  timers = (handle, uuid) ∷ s.timers;
}

-- m_timerQueue.remove
abbrev pub remove_timer : ℕ → List (ℕ × Text) → List (ℕ × Text)
remove_timer handle timers = keep_if (λ t. not (t.0 == handle)) timers

abbrev pub cleared : ℕ → Bool → Text → PendingRequests → PendingRequests
cleared a timeout id s = record s {
  by_call_id = Dict.erase (unique_id (s.objects a).sip) s.by_call_id;
  by_transaction = Dict.erase id s.by_transaction;
  timers = if timeout then s.timers else remove_timer (s.objects a).timer s.timers;
}

-- `none` is the failed assertion; otherwise the object found, if there is one, and the new state.
unfoldable pub find_and_remove : Text → Bool → PendingRequests → Option (Option ℕ × PendingRequests)
find_and_remove id timeout s = elim (Dict.find id s.by_transaction) [
  | none ↦ some (none, s)
  | some a ↦
      if is_some (Dict.find (unique_id (s.objects a).sip) s.by_call_id)
      then some (some a, cleared a timeout id s)
      else none
]

unfoldable pub find : Text → PendingRequests → Option ℕ
find id s = Dict.find id s.by_transaction

unfoldable pub get_method_for_request : Text → PendingRequests → Option Text
unfolding find
get_method_for_request id s = elim (find id s) [
  | none ↦ none
  | some a ↦ some (s.objects a).sip.cseq_method
]

unfoldable pub is_retransmission : Sip → PendingRequests → Bool
is_retransmission sip s = is_some (Dict.find (unique_id sip) s.by_call_id)

-- The loops over m_mapCallId2Invite: the first object that is an INVITE with this Call-ID, and with
-- this branch where one is asked for.
abbrev pub is_branch : Option Text → Text → Bool
is_branch none branch = false
is_branch (some b) branch = text_eq b branch

unfoldable pub find_invite : (Sip → Bool) → (ℕ → Pending) → Dict ℕ → Option ℕ
find_invite test objects [] = none
find_invite test objects ((k, a) ∷ m) =
    if test (objects a).sip then some a else find_invite test objects m

unfoldable pub find_invite_by_call_id : Text → PendingRequests → Option ℕ
unfolding find_invite
find_invite_by_call_id call_id s =
    find_invite (λ sip. text_eq sip.call_id call_id && sip.is_invite) s.objects s.by_call_id

unfoldable pub find_invite_by_call_id_and_branch : Text → Text → PendingRequests → Option ℕ
unfolding find_invite
find_invite_by_call_id_and_branch call_id branch s =
    find_invite
      (λ sip. text_eq sip.call_id call_id && (sip.is_invite && is_branch sip.branch branch))
      s.objects s.by_call_id
