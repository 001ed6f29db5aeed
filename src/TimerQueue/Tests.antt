-- ===== src/TimerQueue/Tests.antt =====
-- A queue of two timers, at the addresses 1 and 2.
use drachtio_server.Common.{ℕ, ◌≡◌, refl, ◌==◌, if◌then◌else◌, false, none, some, [], ◌∷◌, arith}
use drachtio_server.TimerQueue.{
  Entry, TimerQueue, add, remove, do_timer, position_of, position_from, number_of_elements,
  count_from,
}
use drachtio_server.TimerQueue.Chain.{Holds}
use drachtio_server.TimerQueue.Add.{add-append, add-tie}
use drachtio_server.TimerQueue.Expiry.{do_timer-expired}
use drachtio_server.TimerQueue.Remove.{remove-first}
use drachtio_server.TimerQueue.Runs.{runs, runs-all}

abbrev heap_of_two : ℕ → Entry
heap_of_two a =
    if a == 1
    then record { when = 10; next = some 2; prev = none; callback = 7 }
    else record { when = 20; next = none; prev = some 1; callback = 8 }

abbrev two : TimerQueue
two = record {
  heap = heap_of_two;
  head = some 1;
  tail = some 2;
  length = 2;
  in_timer = false;
  alarm = some 10;
}

two-Holds : Holds two (1 ∷ 2 ∷ [])
two-Holds = record {
  chain = (refl, refl, (refl, refl, (refl, refl)));
  counted = refl;
  distinct = ground arith;
}

two_count : number_of_elements two ≡ 2
unfolding number_of_elements count_from
two_count = refl

two_position : position_of 2 two ≡ some 1
unfolding position_of position_from
two_position = refl

do_timer-expired_example :
    (q' : TimerQueue) × (do_timer 30 two ≡ some (7 ∷ [], q'))
    × Holds q' (2 ∷ [])
    × ((b : ℕ) → q'.head ≡ some b → q'.alarm ≡ some (q'.heap b).when)
do_timer-expired_example = do_timer-expired 30 1 (2 ∷ []) two two-Holds refl (omega arith)

add-append_example :
    (q' : TimerQueue) × (add 3 9 25 two ≡ some q')
    × Holds q' (1 ∷ 2 ∷ 3 ∷ [])
    × (q'.alarm ≡ some 10)
add-append_example = add-append 3 9 25 2 1 (2 ∷ []) two two-Holds (ground arith) refl (omega arith)

test_tie : add 3 9 20 two ≡ none
test_tie = add-tie 3 9 20 2 1 (2 ∷ []) two two-Holds (ground arith) refl refl (ground arith)

test_remove_first : (q' : TimerQueue) × (remove 1 two ≡ some q') × Holds q' (2 ∷ [])
test_remove_first = remove-first 1 (2 ∷ []) two two-Holds

-- Both timers have expired; two runs call 7 and then 8.
runs-all_example : (q' : TimerQueue) × (runs 2 30 two ≡ some (7 ∷ 8 ∷ [], q')) × Holds q' []
runs-all_example = runs-all 30 (1 ∷ 2 ∷ []) two two-Holds refl (ground arith)
