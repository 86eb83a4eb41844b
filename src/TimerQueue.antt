-- ===== src/TimerQueue.antt =====
-- src/include/timer.h, src/include/timer_queue.h and src/timer_queue.cpp:
-- the timers, ordered by expiration. The time of `Timestamp::now()` is an argument. `cancel` is declared
-- and not defined. The set is the list of its entries in order.
pub mod Ascending
pub mod Order
pub mod Callbacks
pub mod Reinsert
pub mod Rounds
pub mod Scheduling
mod Tests
use yatwb.Base.{
  ℕ, ◌+◌, ◌-◌, ◌*◌, ◌/◌, ◌%◌, Bool, true, false, not, ◌||◌, Option, none, some, List, [], ◌∷◌, ◌++◌,
  map, ltb, if◌then◌else◌,
}
use yatwb.Base.Results.{
  Result, ok, fault, bad_access, assert_failed, assert, require, not_in_loop_thread, ◌>>=◌, ◌>>◌,
}
use yatwb.Timestamp.{Seconds, micro_seconds_per_second, is_valid_time, add_time}

-- The callback is a number.
pub record Timer : Type 0 where
  pub callback : ℕ
  pub expiration : ℕ
  pub interval : Seconds
  pub repeat : Bool

abbrev pub restart : ℕ → Timer → Timer
restart now t = record t { expiration = if t.repeat then add_time now t.interval else 0 }

-- `armed` is the last setting of the timerfd, in seconds and nanoseconds; `ran` the callbacks run.
pub record TimerQueue : Type 0 where
  pub timers : List (ℕ × Timer)
  pub armed : Option (ℕ × ℕ)
  pub ran : List ℕ

unfoldable pub how_much_time_from_now : ℕ → ℕ → ℕ × ℕ
how_much_time_from_now now when =
    let microseconds = if ltb (when - now) 100 then 100 else when - now in
    (microseconds / micro_seconds_per_second, microseconds % micro_seconds_per_second * 1000)

abbrev pub reset_timerfd : ℕ → ℕ → TimerQueue → TimerQueue
reset_timerfd now expiration q = record q { armed = some (how_much_time_from_now now expiration) }

abbrev pub in_front : {A : Type 0} → A → Option (List A) → Option (List A)
in_front e none = none
in_front e (some es) = some (e ∷ es)

-- `timers_.insert`, which fails where an entry has the same expiration.
abbrev pub set_insert : ℕ → Timer → List (ℕ × Timer) → Option (List (ℕ × Timer))
set_insert when t [] = some ((when, t) ∷ [])
set_insert when t ((k, u) ∷ es) =
    let rest = in_front (k, u) (set_insert when t es) in
    if ltb when k then some ((when, t) ∷ (k, u) ∷ es) else if ltb k when then rest else none

abbrev pub is_earliest : ℕ → List (ℕ × Timer) → Bool
is_earliest when [] = true
is_earliest when ((k, u) ∷ es) = ltb when k

-- `assert(result.second)`, and the set with the timer.
abbrev pub inserted : TimerQueue → Option (List (ℕ × Timer)) → Result TimerQueue
inserted q none = fault assert_failed
inserted q (some es) = ok (record q { timers = es })

-- `earliest_to_alarm`, with the queue.
unfoldable pub insert : Timer → TimerQueue → Result (Bool × TimerQueue)
insert t q = do
  q' ← inserted q (set_insert t.expiration t q.timers)
  ok (is_earliest t.expiration q.timers, q')

-- What a `unique_ptr` points to, and what `std::move` leaves of one.
abbrev pub pointee : Option Timer → Result Timer
pointee none = fault bad_access
pointee (some t) = ok t

abbrev pub moved_from : Option Timer
moved_from = none

-- `timer`, a reference, was moved into the set before its expiration is read; `resetTimerfd` would
-- come after that.
unfoldable pub add_timer_in_loop : Bool → Timer → TimerQueue → Result TimerQueue
unfolding insert
add_timer_in_loop in_loop timer q = do
  require in_loop not_in_loop_thread
  (earliest_to_alarm, q) ← insert timer q
  if earliest_to_alarm then pointee moved_from >>= (λ t. ok q) else ok q

-- Up to `lower_bound` of `now`, and from there on.
abbrev pub split_at : ℕ → List (ℕ × Timer) → List (ℕ × Timer) × List (ℕ × Timer)
split_at now [] = ([], [])
split_at now ((k, u) ∷ es) =
    let (before, after) = split_at now es in
    if ltb k now then ((k, u) ∷ before, after) else ([], (k, u) ∷ es)

abbrev pub is_empty_set : List (ℕ × Timer) → Bool
is_empty_set [] = true
is_empty_set (e ∷ es) = false

abbrev pub is_later : ℕ → List (ℕ × Timer) → Bool
is_later now [] = true
is_later now ((k, u) ∷ es) = ltb now k

-- What `getExpired` does with the set: the entries up to `lower_bound` are taken out.
unfoldable pub take_expired : ℕ → TimerQueue → Result (List (ℕ × Timer) × TimerQueue)
take_expired now q = do
  let (expired, left) = split_at now q.timers
  assert (is_later now left)
  ok (expired, record q { timers = left })

-- The sentry owns the pointer `UINTPTR_MAX`, which is no timer: the comparison of `lower_bound`
-- reads through it where there is a timer to compare with, and its end deletes it.
unfoldable pub get_expired : ℕ → TimerQueue → Result (List (ℕ × Timer) × TimerQueue)
unfolding take_expired
get_expired now q = do
  r ← (if is_empty_set q.timers then take_expired now q else fault bad_access)
  fault bad_access

-- The loop of `reset` over the expired timers.
unfoldable pub reinsert : ℕ → List (ℕ × Timer) → TimerQueue → Result TimerQueue
unfolding insert
reinsert now [] q = ok q
reinsert now ((k, t) ∷ expired) q =
    let again = (do (earliest, q) ← insert (restart now t) q; reinsert now expired q) in
    let rest = reinsert now expired q in if t.repeat then again else rest

abbrev pub rearm : ℕ → TimerQueue → List (ℕ × Timer) → TimerQueue
rearm now q [] = q
rearm now q ((k, t) ∷ es) =
    if is_valid_time t.expiration then reset_timerfd now t.expiration q else q

-- `handleRead` gives the time that `resetTimerfd` reads as that of the callbacks' end.
unfoldable pub reset : ℕ → ℕ → List (ℕ × Timer) → TimerQueue → Result TimerQueue
unfolding reinsert
reset now later expired q = do q ← reinsert now expired q; ok (rearm later q q.timers)

-- The timers that a callback adds in the loop's thread, one after the other.
unfoldable pub add_timers : List Timer → TimerQueue → Result TimerQueue
unfolding add_timer_in_loop
add_timers [] q = ok q
add_timers (t ∷ ts) q = do q ← add_timer_in_loop true t q; add_timers ts q

-- The loop over the expired timers; `adds` has the timers that each callback adds.
unfoldable pub run_callbacks : (ℕ → List Timer) → List (ℕ × Timer) → TimerQueue → Result TimerQueue
unfolding add_timers
run_callbacks adds [] q = ok q
run_callbacks adds ((k, t) ∷ expired) q = do
  q ← add_timers (adds t.callback) (record q { ran = q.ran ++ t.callback ∷ [] })
  run_callbacks adds expired q

-- What `handleRead` does with the expired timers.
unfoldable pub serve_expired :
    (ℕ → List Timer) → ℕ → ℕ → List (ℕ × Timer) → TimerQueue → Result TimerQueue
unfolding run_callbacks reset
serve_expired adds now later expired q = do
  q ← run_callbacks adds expired q
  reset now later expired q

unfoldable pub handle_read_timers : (ℕ → List Timer) → Bool → ℕ → ℕ → TimerQueue → Result TimerQueue
unfolding get_expired serve_expired
handle_read_timers adds in_loop now later q = do
  require in_loop not_in_loop_thread
  (expired, q) ← get_expired now q
  serve_expired adds now later expired q
