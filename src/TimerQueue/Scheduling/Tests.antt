-- ===== src/TimerQueue/Scheduling/Tests.antt =====
-- Timers set on a loop, at concrete inputs.
use yatwb.Base.{[], ◌∷◌, none, true, false}
use yatwb.Base.Results.{◌>>=◌}
use yatwb.EventLoop.{EventLoop}
use yatwb.Timestamp.{Seconds, no_seconds}
use yatwb.TimerQueue.{TimerQueue}
use yatwb.TimerQueue.Scheduling.Delays.{timer_at}

-- In `poll`, with a timer that expires at 10.
abbrev waiting : EventLoop TimerQueue
waiting = record {
  looping = true;
  quit_flag = false;
  calling_pending_functors = false;
  wakeups = 0;
  locked = false;
  pending_functors = [];
  program = record { timers = (10, timer_at 1 10 no_seconds false) ∷ []; armed = none; ran = [] };
}

-- 40 microseconds.
abbrev forty : Seconds
forty = record { is_positive = true; delta = 40 }
