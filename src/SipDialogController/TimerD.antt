-- ===== src/SipDialogController/TimerD.antt =====
-- `TimerDHandler` (src/sip-dialog-controller.cpp and .hpp): the ACK of an INVITE that succeeded is kept,
-- and sent again when the success is received again. Transactions are numbers; what the stack
-- knows of one is its call id and its CSeq.
mod Tests
use drachtio_server.Common.{
  ℕ, Bool, true, false, Option, none, some, List, [], ◌∷◌, ◌==◌, if◌then◌else◌, is_some, Text, ◌++◌,
  codes,
}
use drachtio_server.Client.Framing.Numerals.{to_string}
use drachtio_server.Common.Dict
use drachtio_server.Common.Dict.{Dict}

pub record TimerDHandler : Type 0 where
  pub invites : Dict ℕ
  pub acks : List (ℕ × ℕ)

-- What is asked of the stack and of the queues: timer D for an INVITE and its key, and an ACK that is sent
-- again or freed.
pub data Effect : Type 0 where
  timer_d_started : ℕ → Text → Effect
  retransmitted destroyed : ℕ → Effect

unfoldable pub find_ack : ℕ → List (ℕ × ℕ) → Option ℕ
find_ack invite [] = none
find_ack invite ((i, ack) ∷ acks) = if i == invite then some ack else find_ack invite acks

unfoldable pub erase_ack : ℕ → List (ℕ × ℕ) → List (ℕ × ℕ)
erase_ack invite [] = []
erase_ack invite ((i, ack) ∷ acks) =
    let rest = erase_ack invite acks in if i == invite then rest else (i, ack) ∷ rest

-- An entry that is there stays.
abbrev pub insert_ack : ℕ → ℕ → List (ℕ × ℕ) → List (ℕ × ℕ)
insert_ack invite ack acks = if is_some (find_ack invite acks) then acks else (invite, ack) ∷ acks

abbrev pub free : ℕ → TimerDHandler → Option ℕ → Bool × TimerDHandler × List Effect
free invite d none = (false, d, [])
free invite d (some ack) = (true, record d { acks = erase_ack invite d.acks }, destroyed ack ∷ [])

-- Both ends: an INVITE without its ACK is forgotten, and else its ACK is freed, which is told.
unfoldable pub end_with : ℕ → Text → TimerDHandler → Bool × TimerDHandler × List Effect
unfolding erase_ack find_ack
end_with invite key d =
    if is_some (Dict.find key d.invites)
    then (false, record d { invites = Dict.erase key d.invites }, [])
    else free invite d (find_ack invite d.acks)

unfoldable pub timer_d : ℕ → Text → TimerDHandler → TimerDHandler × List Effect
unfolding end_with
timer_d invite key d = let (told, d', effects) = end_with invite key d in (d', effects)

-- What the stack knows of a transaction.
pub record Stack : Type 0 where
  pub call_id : ℕ → Text
  pub cseq : ℕ → ℕ

module _ (stack : Stack) where
  unfoldable pub combine_call_id_and_cseq : ℕ → Text
  combine_call_id_and_cseq orq = stack.call_id orq ++ codes " " ++ to_string (stack.cseq orq)

  -- None where the assertion fails, that the key is new.
  unfoldable pub add_invite : ℕ → TimerDHandler → Option (TimerDHandler × List Effect)
  add_invite invite d =
      let key = combine_call_id_and_cseq invite in
      if is_some (Dict.find key d.invites)
      then none
      else some
          (record d { invites = Dict.insert key invite d.invites }, timer_d_started invite key ∷ [])

  abbrev pub keep_ack : ℕ → TimerDHandler → Option ℕ → TimerDHandler
  keep_ack ack d none = d
  keep_ack ack d (some invite) = record {
    invites = Dict.erase (combine_call_id_and_cseq ack) d.invites;
    acks = insert_ack invite ack d.acks;
  }

  unfoldable pub add_ack : ℕ → TimerDHandler → TimerDHandler
  unfolding find_ack
  add_ack ack d = keep_ack ack d (Dict.find (combine_call_id_and_cseq ack) d.invites)

  abbrev pub resend : ℕ → TimerDHandler → Option ℕ → Bool × List Effect
  resend invite d none = (is_some (Dict.find (combine_call_id_and_cseq invite) d.invites), [])
  resend invite d (some ack) = (true, retransmitted ack ∷ [])

  unfoldable pub resend_if_needed : ℕ → TimerDHandler → Bool × List Effect
  unfolding find_ack
  resend_if_needed invite d = resend invite d (find_ack invite d.acks)

  unfoldable pub clear_timer_d : ℕ → TimerDHandler → Bool × TimerDHandler × List Effect
  unfolding end_with
  clear_timer_d invite d = end_with invite (combine_call_id_and_cseq invite) d
