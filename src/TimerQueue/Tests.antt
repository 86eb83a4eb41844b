-- ===== src/TimerQueue/Tests.antt =====
-- Runs of the timers, and their theorems at concrete inputs.
use yatwb.Base.{List, ◌==◌, if◌then◌else◌, ℕ, ◌≡◌, refl, [], ◌∷◌, none, some, true, false, arith}
use yatwb.Base.Results.{ok, fault, assert_failed, bad_access}
use yatwb.Timestamp.{no_seconds}
use yatwb.TimerQueue.{
  run_callbacks, add_timers, Timer, TimerQueue, insert, get_expired, take_expired, serve_expired,
  handle_read_timers, reset, reinsert, how_much_time_from_now, add_timer_in_loop,
}
use yatwb.TimerQueue.Order.{reset-same_interval}

abbrev once : ℕ → Timer
once when = record { callback = 1; expiration = when; interval = no_seconds; repeat = false }

abbrev every : ℕ → ℕ → Timer
every when interval = record {
  callback = 2;
  expiration = when;
  interval = record { is_positive = true; delta = interval };
  repeat = true;
}

abbrev two_timers : TimerQueue
two_timers = record {
  timers = (10, every 10 500) ∷ (2000030, once 2000030) ∷ [];
  armed = none;
  ran = [];
}

-- The periodic timer's callback adds a timer behind the one that is left.
abbrev adds_one : ℕ → List Timer
adds_one cb = if cb == 2 then once 3000000 ∷ [] else []

abbrev left : TimerQueue
left = record two_timers { timers = (2000030, once 2000030) ∷ [] }

-- The periodic timer runs and comes back at 520, 480 microseconds after the reset.
serve_expired_runs :
    serve_expired adds_one 20 40 ((10, every 10 500) ∷ []) left
    ≡ ok (record {
      timers = (520, every 520 500) ∷ (2000030, once 2000030) ∷ (3000000, once 3000000) ∷ [];
      armed = some (0, 480000);
      ran = 2 ∷ [];
    })
unfolding serve_expired run_callbacks add_timers add_timer_in_loop reset reinsert insert
    how_much_time_from_now
serve_expired_runs = refl

taken : take_expired 20 two_timers ≡ ok ((10, every 10 500) ∷ [], left)
unfolding take_expired
taken = refl

-- A timer that expires exactly now.
expires_now : take_expired 10 two_timers ≡ fault assert_failed
unfolding take_expired
expires_now = refl

-- The sentry, with timers and without any.
sentry_read : handle_read_timers adds_one true 20 40 two_timers ≡ fault bad_access
unfolding handle_read_timers get_expired
sentry_read = refl

sentry_deleted :
    handle_read_timers adds_one true 20 40 (record two_timers { timers = [] }) ≡ fault bad_access
unfolding handle_read_timers get_expired take_expired
sentry_deleted = refl

reset-same_interval_example :
    reset 20 40 ((10, every 10 500) ∷ (11, every 11 500) ∷ []) two_timers ≡ fault assert_failed
reset-same_interval_example =
    reset-same_interval 20 40 10 11 (every 10 500) (every 11 500) [] two_timers
      ((omega arith, tt), (tt, tt)) refl refl refl
