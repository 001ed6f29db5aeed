-- ===== src/SipDialogController/Liveness/Tests.antt =====
-- Timeouts on a concrete connection.
use drachtio_server.Common.{◌≡◌, refl, some, [], ◌∷◌, codes, arith, text_eq}
use drachtio_server.Common.Dict
use drachtio_server.SipTransport.{TportName}
use drachtio_server.SipDialogController.Liveness.{
  nothing, internal, from_wire, note_answer, track_tport_liveness, tport_key, streak,
}
use drachtio_server.SipDialogController.Liveness.Streaks.{
  shutdowns, track_all, Outcome, track_all-timeouts,
}

abbrev name : TportName
name = record { host = codes "9.9.9.9"; port = codes "4321"; proto = codes "tcp" }

-- An answer from the wire starts the count again, a failure of the stack's own does not.
test_alive : shutdowns (track_all 2 5 name (nothing ∷ from_wire ∷ nothing ∷ []) []).1 ≡ []
unfolding track_all track_tport_liveness note_answer text_eq Dict.find Dict.assign Dict.erase
test_alive = refl

test_failure :
    shutdowns (track_all 2 5 name (nothing ∷ internal (some 503) ∷ nothing ∷ []) []).1 ≡ 5 ∷ []
unfolding track_all track_tport_liveness note_answer text_eq Dict.find Dict.assign Dict.erase
test_failure = refl

test_disabled : track_all 0 5 name (nothing ∷ nothing ∷ []) [] ≡ ([], [])
unfolding track_all track_tport_liveness
test_disabled = refl

none_yet : streak (Dict.find (tport_key name) []) ≡ 0
unfolding Dict.find
none_yet = refl

track_all-timeouts_example :
    Outcome 2 5 name 2 (track_all 2 5 name (nothing ∷ internal (some 408) ∷ []) [])
track_all-timeouts_example =
    track_all-timeouts 2 5 0 name (nothing ∷ internal (some 408) ∷ []) [] refl (ground arith)
      none_yet (ground arith) (ground arith)
