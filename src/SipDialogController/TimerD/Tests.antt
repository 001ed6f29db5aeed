-- ===== src/SipDialogController/TimerD/Tests.antt =====
-- An INVITE and its ACK.
use drachtio_server.Common.{◌≡◌, refl, true, false, some, [], ◌∷◌, Text, codes, text_eq}
use drachtio_server.Client.Framing.Numerals.{to_string}
use drachtio_server.Common.Dict
use drachtio_server.SipDialogController.TimerD.{
  TimerDHandler, retransmitted, destroyed, timer_d_started, find_ack, erase_ack, end_with,
  add_invite, combine_call_id_and_cseq, Stack, add_ack, resend_if_needed, timer_d, clear_timer_d,
}

abbrev stack : Stack
stack = record { call_id = λ t. codes "call-1"; cseq = λ t. 12 }

abbrev key : Text
key = codes "call-1 12"

abbrev waiting : TimerDHandler
waiting = record { invites = (key, 1) ∷ []; acks = [] }

abbrev acked : TimerDHandler
acked = record { invites = []; acks = (1, 2) ∷ [] }

test_invite :
    add_invite stack 1 (record { invites = []; acks = [] })
    ≡ some (waiting, timer_d_started 1 key ∷ [])
unfolding to_string combine_call_id_and_cseq add_invite Dict.find Dict.insert
test_invite = refl

test_waiting : resend_if_needed stack 1 waiting ≡ (true, [])
unfolding to_string combine_call_id_and_cseq resend_if_needed find_ack Dict.find text_eq
test_waiting = refl

test_ack : add_ack stack 2 waiting ≡ acked
unfolding to_string combine_call_id_and_cseq add_ack find_ack Dict.find Dict.erase text_eq
test_ack = refl

test_resend : resend_if_needed stack 1 acked ≡ (true, retransmitted 2 ∷ [])
unfolding to_string combine_call_id_and_cseq resend_if_needed find_ack
test_resend = refl

test_freed : timer_d 1 key acked ≡ (record { invites = []; acks = [] }, destroyed 2 ∷ [])
unfolding timer_d end_with find_ack erase_ack Dict.find
test_freed = refl

test_cleared : clear_timer_d stack 1 waiting ≡ (false, record { invites = []; acks = [] }, [])
unfolding to_string combine_call_id_and_cseq clear_timer_d end_with Dict.find Dict.erase text_eq
test_cleared = refl
