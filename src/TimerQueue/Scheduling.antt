-- ===== src/TimerQueue/Scheduling.antt =====
-- src/timer_queue.cpp and src/include/event_loop.h: how a timer gets into the queue of a loop,
-- from the loop's thread or from another one. The timer queue is the rest of the program of the
-- loop. The `TimerId` that is returned, a pointer that nothing reads, is left out.
pub mod Delays
mod Tests
use yatwb.Base.{ℕ, Bool, true}
use yatwb.Base.Results.{Result}
use yatwb.EventLoop.{EventLoop, Functor, finish, act, run_in_loop}
use yatwb.TimerQueue.{Timer, TimerQueue, add_timer_in_loop}
use yatwb.Timestamp.{Seconds, no_seconds, add_time}

abbrev pub new_timer : ℕ → ℕ → Seconds → Timer
new_timer cb expiration interval = record {
  callback = cb;
  expiration = expiration;
  interval = interval;
  repeat = interval.is_positive;
}

-- `std::bind(&TimerQueue::addTimerInLoop, this, timer)`, which the loop's thread runs.
abbrev pub add_timer_functor : Timer → Functor TimerQueue
add_timer_functor timer = act (add_timer_in_loop true timer) finish

unfoldable pub add_timer :
    Bool → ℕ → ℕ → Seconds → EventLoop TimerQueue → Result (EventLoop TimerQueue)
add_timer in_loop cb when interval lp =
    run_in_loop in_loop (add_timer_functor (new_timer cb when interval)) lp

unfoldable pub run_at : Bool → ℕ → ℕ → EventLoop TimerQueue → Result (EventLoop TimerQueue)
unfolding add_timer
run_at in_loop time cb lp = add_timer in_loop cb time no_seconds lp

unfoldable pub run_after :
    Bool → ℕ → Seconds → ℕ → EventLoop TimerQueue → Result (EventLoop TimerQueue)
unfolding run_at
run_after in_loop now delay cb lp = run_at in_loop (add_time now delay) cb lp

unfoldable pub run_every :
    Bool → ℕ → Seconds → ℕ → EventLoop TimerQueue → Result (EventLoop TimerQueue)
unfolding add_timer
run_every in_loop now interval cb lp = add_timer in_loop cb (add_time now interval) interval lp
