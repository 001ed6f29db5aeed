-- ===== src/SipDialogController/Liveness.antt =====
-- `trackTportLiveness` of `SipDialogController` (src/sip-dialog-controller.cpp): connections whose peer
-- answers nothing are closed.
pub mod Streaks
mod Tests
use drachtio_server.Common.{
  ℕ, ◌+◌, ◌%◌, ◌^◌, Bool, true, false, not, ◌&&◌, ◌||◌, Option, none, some, List, [], ◌∷◌, ◌++◌,
  ◌==◌, leb, if◌then◌else◌, is_empty, Text, codes,
}
use drachtio_server.Common.Dict
use drachtio_server.Common.Dict.{Dict}
use drachtio_server.SipTransport.{TportName}

-- What ended a request, as nta_sip_is_internal tells it: no message at all, a message of the stack's own
-- with its status line if it has one, or a message from the wire.
pub data Answer : Type 0 where
  nothing : Answer
  internal : Option ℕ → Answer
  from_wire : Answer

abbrev pub is_timeout : Answer → Bool
is_timeout nothing = true
is_timeout (internal none) = false
is_timeout (internal (some status)) = status == 408
is_timeout from_wire = false

abbrev pub is_alive : Answer → Bool
is_alive nothing = false
is_alive (internal status) = false
is_alive from_wire = true

-- What is read of the transport of a request.
pub record Tport : Type 0 where
  pub handle : ℕ
  pub is_secondary : Bool
  pub is_udp : Bool
  pub name : Option TportName

pub data Effect : Type 0 where
  tport_ref tport_unref tport_shutdown : ℕ → Effect

abbrev pub tport_key : TportName → Text
tport_key name = name.proto ++ codes "/" ++ name.host ++ codes ":" ++ name.port

-- A missing entry counts as 0.
abbrev pub streak : Option ℕ → ℕ
streak none = 0
streak (some c) = c

module _ (limit : ℕ) where
  abbrev pub one_more : ℕ → Text → ℕ → Dict ℕ → Dict ℕ × List Effect
  one_more tp key c counts =
      if leb limit c
      then (Dict.erase key counts, tport_shutdown tp ∷ [])
      else (Dict.assign key c counts, [])

  -- The counter is an unsigned int of 32 bits.
  unfoldable pub note_answer : Answer → ℕ → Text → Dict ℕ → Dict ℕ × List Effect
  note_answer a tp key counts =
      if is_timeout a
      then one_more tp key ((streak (Dict.find key counts) + 1) % 2 ^ 32) counts
      else (if is_alive a then Dict.erase key counts else counts, [])

  abbrev pub released : ℕ → Dict ℕ × List Effect → Dict ℕ × List Effect
  released tp (counts, effects) = (counts, tport_ref tp ∷ effects ++ tport_unref tp ∷ [])

  abbrev pub note_named : Answer → ℕ → Option TportName → Dict ℕ → Dict ℕ × List Effect
  note_named a tp none counts = (counts, [])
  note_named a tp (some name) counts = note_answer a tp (tport_key name) counts

  -- nta_outgoing_transport gives no transport before names are resolved.
  abbrev pub note_tport : Answer → Option Tport → Dict ℕ → Dict ℕ × List Effect
  note_tport a none counts = (counts, [])
  note_tport a (some tp) counts = released tp.handle (
      if not tp.is_secondary || tp.is_udp
      then (counts, [])
      else note_named a tp.handle tp.name counts)

  -- `limit` is the configured number of timeouts, 0 for none.
  unfoldable pub track_tport_liveness : Answer → Option Tport → Dict ℕ → Dict ℕ × List Effect
  unfolding note_answer
  track_tport_liveness a tp counts =
      if (limit == 0) || (not (is_timeout a) && is_empty counts)
      then (counts, [])
      else note_tport a tp counts
