-- ===== src/TimerQueue.antt =====
-- src/timer-queue.cpp and timer-queue.hpp: `TimerQueue`, a doubly linked list of timers in order of
-- time, with one `su_timer` that is set for the first. `LockingTimerQueue` does the same under a mutex.
-- The entries stand on an explicit heap, by their addresses.
pub mod Chain
pub mod Add
pub mod Expiry
pub mod Remove
pub mod Runs
mod Tests
use drachtio_server.Common.{
  ℕ, zero, suc, ◌+◌, ◌-◌, ◌≡◌, Bool, true, false, not, ◌&&◌, Option, none, some, List, [], ◌∷◌,
  ◌++◌, ◌==◌, ltb, if◌then◌else◌, is_some,
}

-- `callback` stands for the function with its argument.
pub record Entry : Type 0 where
  pub when : ℕ
  pub next : Option ℕ
  pub prev : Option ℕ
  pub callback : ℕ

abbrev pub Heap : Type 0
Heap = ℕ → Entry

abbrev pub write : ℕ → Entry → Heap → Heap
write a e h b = if b == a then e else h b

abbrev pub set_next : ℕ → Option ℕ → Heap → Heap
set_next a p h = write a (record (h a) { next = p }) h

abbrev pub set_prev : ℕ → Option ℕ → Heap → Heap
set_prev a p h = write a (record (h a) { prev = p }) h

-- `alarm` is the time for which the `su_timer` is set.
pub record TimerQueue : Type 0 where
  pub heap : Heap
  pub head : Option ℕ
  pub tail : Option ℕ
  pub length : ℕ
  pub in_timer : Bool
  pub alarm : Option ℕ

abbrev pub points_to : Option ℕ → ℕ → Bool
points_to none a = false
points_to (some b) a = b == a

-- The first entry, from a pointer on, that goes off later. Fuel bounds the entries visited.
unfoldable pub find_later : ℕ → Heap → ℕ → Option ℕ → Option ℕ
find_later zero h when p = none
find_later (suc fuel) h when none = none
find_later (suc fuel) h when (some a) =
    let rest = find_later fuel h when (h a).next in if ltb when (h a).when then some a else rest

abbrev pub append : ℕ → ℕ → TimerQueue → TimerQueue
append a t q = record q { heap = set_next t (some a) (set_prev a (some t) q.heap); tail = some a }

-- Before the entry `b`, which is the first or has one before it.
abbrev pub insert_before : ℕ → ℕ → TimerQueue → Option TimerQueue
insert_before a b q =
    let h = set_next a (some b) q.heap in
    if points_to q.head b
    then some (record q { heap = set_prev b (some a) h; head = some a })
    else elim (h b).prev [
      | none ↦ none
      | some p ↦
          some
            (record q { heap = set_prev b (some a) (set_next p (some a) (set_prev a (some p) h)) })
    ]

-- `none` is the failed assertion, or a null pointer that is followed.
abbrev pub insert_later : ℕ → Option ℕ → TimerQueue → Option TimerQueue
insert_later a none q = none
insert_later a (some b) q = insert_before a b q

unfoldable pub place : ℕ → ℕ → TimerQueue → Option TimerQueue
unfolding find_later
place a when q = elim q.head [
  | none ↦ if is_some q.tail then none else some (record q { head = some a; tail = some a })
  | some first ↦ elim q.tail [
    | none ↦ insert_later a (find_later q.length q.heap when (some first)) q
    | some t ↦
        if ltb (q.heap t).when when
        then some (append a t q)
        else insert_later a (find_later q.length q.heap when (some first)) q
  ]
]

abbrev pub counted : ℕ → ℕ → Option TimerQueue → Option TimerQueue
counted a when none = none
counted a when (some q) =
    some (record q {
      length = q.length + 1;
      alarm = if points_to q.head a then some when else q.alarm;
    })

-- `a` is the address of the new entry, and `when` is now and the milliseconds.
unfoldable pub add : ℕ → ℕ → ℕ → TimerQueue → Option TimerQueue
unfolding place
add a callback when q =
    let e : Entry = record { when = when; next = none; prev = none; callback = callback } in
    counted a when (place a when (record q { heap = write a e q.heap }))

-- m_head = p; if( m_head ) m_head->m_prev = NULL ; else m_tail = NULL
abbrev pub new_head : Option ℕ → TimerQueue → TimerQueue
new_head none q = record q { head = none; tail = none }
new_head (some b) q = record q { heap = set_prev b none q.heap; head = some b }

-- The time of the entry that comes to be first.
abbrev pub reset_for : Option ℕ → Option ℕ → TimerQueue → TimerQueue
reset_for none next q = record q { alarm = none }
reset_for (some a) next q =
    if points_to next a then record q { alarm = some (q.heap a).when } else q

abbrev pub reset_alarm : Option ℕ → TimerQueue → TimerQueue
reset_alarm next q = reset_for q.head next q

abbrev pub removed : ℕ → TimerQueue → TimerQueue
removed a q = reset_alarm (q.heap a).next (record q { length = q.length - 1 })

abbrev pub unlink : Option ℕ → Option ℕ → TimerQueue → Option TimerQueue
unlink none next q = none
unlink (some p) none q = none
unlink (some p) (some n) q =
    some (record q { heap = set_prev n (some p) (set_next p (some n) q.heap) })

abbrev pub remove_tail : Option ℕ → TimerQueue → Option TimerQueue
remove_tail none q = none
remove_tail (some p) q = some (record q { heap = set_next p none q.heap; tail = some p })

abbrev pub map_removed : ℕ → Option TimerQueue → Option TimerQueue
map_removed a none = none
map_removed a (some q) = some (removed a q)

-- `none` is a failed assertion; an entry that is in no queue is ignored.
unfoldable pub remove : ℕ → TimerQueue → Option TimerQueue
remove a q =
    if points_to q.head a
    then if not (is_some (q.heap a).next) && not (q.length == 1)
      then none
      else some (removed a (new_head (q.heap a).next q))
    else if points_to q.tail a
    then if is_some q.head then map_removed a (remove_tail (q.heap a).prev q) else none
    else if not (is_some (q.heap a).prev) && not (is_some (q.heap a).next)
    then some q
    else map_removed a (unlink (q.heap a).prev (q.heap a).next q)

-- The entries taken out so far, by the first and the last of their list.
pub record Expired : Type 0 where
  pub queue : TimerQueue
  pub bounds : Option (ℕ × ℕ)

-- One entry moves to the list of the expired; the pointer to go on from is read after that.
unfoldable pub expire_entry : ℕ → Expired → Expired
expire_entry p s =
    let q = s.queue in
    let q' = new_head (q.heap p).next (record q { length = q.length - 1 }) in
    elim s.bounds [
      | none ↦ record {
        queue = record q' { heap = set_next p none (set_prev p none q'.heap) };
        bounds = some (p, p);
      }
      | some (first, last) ↦ record {
        queue = record q' { heap = set_prev p (some last) (set_next last (some p) q'.heap) };
        bounds = some (first, p);
      }
    ]

-- `none` where the fuel runs out.
unfoldable pub expire : ℕ → ℕ → Option ℕ → Expired → Option Expired
unfolding expire_entry
expire zero now p s = none
expire (suc fuel) now none s = some s
expire (suc fuel) now (some p) s =
    let s' = expire_entry p s in
    let rest = expire fuel now (s'.queue.heap p).next s' in
    if ltb (s.queue.heap p).when now then rest else some s

-- The callbacks of the expired entries, in order.
unfoldable pub callbacks : ℕ → Heap → Option ℕ → List ℕ
callbacks zero h p = []
callbacks (suc fuel) h none = []
callbacks (suc fuel) h (some a) = (h a).callback ∷ callbacks fuel h (h a).next

abbrev pub first_of : Option (ℕ × ℕ) → Option ℕ
first_of none = none
first_of (some (first, last)) = some first

-- Set again for the entry that is first now.
abbrev pub set_for : Option ℕ → TimerQueue → TimerQueue
set_for none q = q
set_for (some a) q = record q { alarm = some (q.heap a).when }

abbrev pub set_alarm : TimerQueue → TimerQueue
set_alarm q = set_for q.head q

abbrev pub finish : ℕ → Option Expired → Option (List ℕ × TimerQueue)
finish fuel none = none
finish fuel (some s) =
    if not (is_some s.queue.head) && not (s.queue.length == 0)
    then none
    else some (callbacks fuel s.queue.heap (first_of s.bounds), set_alarm s.queue)

-- The callbacks to run, which happens when the queue is in order again, and the queue. `none` is a
-- failed assertion. `now` is `su_now()`.
unfoldable pub do_timer : ℕ → TimerQueue → Option (List ℕ × TimerQueue)
unfolding expire callbacks
do_timer now q = if q.in_timer then some ([], q) else elim q.head [
  | none ↦ none
  | some a ↦
      finish (q.length + 1)
        (expire (q.length + 1) now (some a) (record { queue = q; bounds = none }))
]

abbrev pub is_queue_empty : TimerQueue → Bool
is_queue_empty q = q.length == 0

-- −1 is none.
unfoldable pub position_from : ℕ → Heap → ℕ → ℕ → Option ℕ → Option ℕ
position_from zero h a pos p = none
position_from (suc fuel) h a pos none = none
position_from (suc fuel) h a pos (some b) =
    let rest = position_from fuel h a (pos + 1) (h b).next in if b == a then some pos else rest

unfoldable pub position_of : ℕ → TimerQueue → Option ℕ
unfolding position_from
position_of a q = position_from q.length q.heap a 0 q.head

unfoldable pub count_from : ℕ → Heap → Option ℕ → ℕ
count_from zero h p = 0
count_from (suc fuel) h none = 0
count_from (suc fuel) h (some a) = suc (count_from fuel h (h a).next)

unfoldable pub number_of_elements : TimerQueue → ℕ
unfolding count_from
number_of_elements q = count_from q.length q.heap q.head
