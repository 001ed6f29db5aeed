-- ===== src/SipDialogController/Liveness/Streaks.antt =====
-- Timeouts in a row on one connection (src/sip-dialog-controller.cpp).
use drachtio_server.Common.{
  ℕ, suc, ◌+◌, ◌≡◌, ◌≤◌, ◌<◌, ◌^◌, refl, Bool, true, false, ◌&&◌, some, List, [], ◌∷◌, ◌++◌, ◌==◌,
  leb, if◌then◌else◌, length, Text, text_eq_self, arith, Bool-cases, inl, inr, leb→le, leb-false→lt,
}
use drachtio_server.Common.Dict
use drachtio_server.Common.Dict.{Dict}
use drachtio_server.SipTransport.{TportName}
use drachtio_server.SipDialogController.Liveness.{
  Answer, is_timeout, Tport, Effect, tport_ref, tport_unref, tport_shutdown, streak, tport_key,
  note_answer, track_tport_liveness,
}

-- The connections that are shut down.
abbrev pub shutdowns : List Effect → List ℕ
shutdowns [] = []
shutdowns (tport_ref tp ∷ es) = shutdowns es
shutdowns (tport_unref tp ∷ es) = shutdowns es
shutdowns (tport_shutdown tp ∷ es) = tp ∷ shutdowns es

-- A connection by its handle and its name.
abbrev pub connection : ℕ → TportName → Tport
connection handle name = record {
  handle = handle;
  is_secondary = true;
  is_udp = false;
  name = some name;
}

-- The ends of requests of one connection, one after the other.
unfoldable pub track_all : ℕ → ℕ → TportName → List Answer → Dict ℕ → Dict ℕ × List Effect
track_all limit handle name [] counts = (counts, [])
track_all limit handle name (a ∷ answers) counts =
    let (counts', effects) = track_tport_liveness limit a (some (connection handle name)) counts in
    let (counts'', effects') = track_all limit handle name answers counts' in
    (counts'', effects ++ effects')

abbrev pub all_timeouts : List Answer → Bool
all_timeouts [] = true
all_timeouts (a ∷ answers) = is_timeout a && all_timeouts answers

-- One more timeout, at the limit.
timeout-last :
    (limit handle c : ℕ) (name : TportName) (a : Answer) (counts : Dict ℕ)
    → is_timeout a ≡ true
    → limit < 2 ^ 32
    → streak (Dict.find (tport_key name) counts) ≡ c
    → c + 1 ≡ limit
    → track_tport_liveness limit a (some (connection handle name)) counts ≡ (
      Dict.erase (tport_key name) counts,
      tport_ref handle ∷ tport_shutdown handle ∷ tport_unref handle ∷ [],
    )
unfolding track_tport_liveness note_answer
timeout-last limit handle c name a counts timeout small now last = ground (arith, timeout, now)

-- One more timeout, below the limit.
timeout-next :
    (limit handle c : ℕ) (name : TportName) (a : Answer) (counts : Dict ℕ)
    → is_timeout a ≡ true
    → limit < 2 ^ 32
    → streak (Dict.find (tport_key name) counts) ≡ c
    → c + 1 < limit
    → track_tport_liveness limit a (some (connection handle name)) counts
      ≡ (Dict.assign (tport_key name) (c + 1) counts, tport_ref handle ∷ tport_unref handle ∷ [])
unfolding track_tport_liveness note_answer
timeout-next limit handle c name a counts timeout small now more = ground (arith, timeout, now)

-- What a run of timeouts leaves: the connection is shut down exactly when they are `limit`.
abbrev pub Outcome : ℕ → ℕ → TportName → ℕ → Dict ℕ × List Effect → Type 0
Outcome limit handle name n r =
    (shutdowns r.1 ≡ (if n == limit then handle ∷ [] else []))
    × (streak (Dict.find (tport_key name) r.0) ≡ (if n == limit then 0 else n))

-- The timeout that reaches the limit is the last one of the run.
run-last :
    (limit handle c : ℕ) (name : TportName) (a : Answer) (answers : List Answer) (counts : Dict ℕ)
    → is_timeout a ≡ true
    → limit < 2 ^ 32
    → streak (Dict.find (tport_key name) counts) ≡ c
    → c + 1 ≡ limit
    → c + suc (length answers) ≤ limit
    → Outcome limit handle name
        (c + suc (length answers))
        (track_all limit handle name (a ∷ answers) counts)
unfolding track_all
run-last limit handle c name a [] counts timeout small now last within =
    rw (timeout-last limit handle c name a counts timeout small now last)
      (ground (arith, last), ground (arith, last, Dict.find-erase_self (tport_key name) counts))
run-last limit handle c name a (b ∷ answers) counts timeout small now last within =
    absurd (omega (arith, last, within))

-- Below the limit, the run goes on from one more.
run-next :
    (limit handle c : ℕ) (name : TportName) (a : Answer) (answers : List Answer) (counts : Dict ℕ)
    → is_timeout a ≡ true
    → limit < 2 ^ 32
    → streak (Dict.find (tport_key name) counts) ≡ c
    → c + 1 < limit
    → Outcome limit handle name
        (c + 1 + length answers)
        (track_all limit handle name answers (Dict.assign (tport_key name) (c + 1) counts))
    → Outcome limit handle name
        (c + suc (length answers))
        (track_all limit handle name (a ∷ answers) counts)
unfolding track_all
run-next limit handle c name a answers counts timeout small now more (closed, counted) =
    let e : c + suc (length answers) ≡ c + 1 + length answers = omega arith in
    rw (timeout-next limit handle c name a counts timeout small now more, e) (closed, counted)

assigned :
    (key : Text) (n : ℕ) (counts : Dict ℕ) → streak (Dict.find key (Dict.assign key n counts)) ≡ n
assigned key n counts = rw (Dict.find-assign key key n counts, text_eq_self key) refl

-- Requests of one connection that all end in a timeout, after `c` earlier ones in a row: while they are
-- fewer than `limit` in all, nothing is shut down and the counter holds their number; when they are
-- `limit`, the connection has been shut down, once, and the counter is gone. `limit` is a 32-bit number
-- above `c`.
pub track_all-timeouts :
    (limit handle c : ℕ) (name : TportName) (answers : List Answer) (counts : Dict ℕ)
    → all_timeouts answers ≡ true
    → limit < 2 ^ 32
    → streak (Dict.find (tport_key name) counts) ≡ c
    → c < limit
    → c + length answers ≤ limit
    → Outcome limit handle name (c + length answers) (track_all limit handle name answers counts)
unfolding track_all
track_all-timeouts limit handle c name [] counts all small now under within =
    (ground arith, ground (arith, now))
track_all-timeouts limit handle c name (a ∷ answers) counts all small now under within =
    elim (Bool-cases (leb limit (c + 1))) [
      | inl reached ↦
          run-last limit handle c name a answers counts (ground (arith, all)) small now
            (omega (arith, leb→le _ _ reached, under)) within
      | inr more ↦
          (let below = leb-false→lt limit (c + 1) more in
            run-next limit handle c name a answers counts (ground (arith, all)) small now below (
              track_all-timeouts limit handle (c + 1) name answers
                (Dict.assign (tport_key name) (c + 1) counts) (ground (arith, all)) small
                (assigned (tport_key name) (c + 1) counts) below (omega (arith, within))))
    ]
