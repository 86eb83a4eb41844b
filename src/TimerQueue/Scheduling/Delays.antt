-- ===== src/TimerQueue/Scheduling/Delays.antt =====
-- A timer set from another thread is in the queue after the loop's next `doPendingFunctors`.
use yatwb.Base.{ℕ, ◌+◌, ◌≡◌, refl, Bool, true, false, none, [], ◌∷◌}
use yatwb.Base.Results.{Ensures, Ensures-bind, ◌>>=◌}
use yatwb.Timestamp.{Seconds}
use yatwb.EventLoop.{EventLoop}
use yatwb.EventLoop.Pending.{Effect, effect, effects, effect_of}
use yatwb.TimerQueue.{Timer, TimerQueue, add_timer_in_loop}
use yatwb.TimerQueue.Ascending.{Above, IsAscending, find, IsInserted}
use yatwb.TimerQueue.Order.{add_timer_in_loop-IsInserted}
use yatwb.TimerQueue.Scheduling.{add_timer_functor}

pub add_timer_in_loop_lem :
    (t : Timer) (q : TimerQueue)
    → IsAscending q.timers
    → find t.expiration q.timers ≡ none
    → ¬ Above t.expiration q.timers
    → Ensures (add_timer_in_loop true t q) (λ q'. IsInserted t.expiration t q.timers q'.timers)
add_timer_in_loop_lem t q a free later =
    let (es, e, w) = add_timer_in_loop-IsInserted t q a free later in rw e w

-- A timer of which every field is given.
abbrev pub timer_at : ℕ → ℕ → Seconds → Bool → Timer
timer_at cb when interval repeat = record {
  callback = cb;
  expiration = when;
  interval = interval;
  repeat = repeat;
}

-- The loop after the timer went through its queue, and a wakeup.
pub record IsScheduled (when : ℕ) (t : Timer) (lp lp' : EventLoop TimerQueue) : Type 0 where
  pub entered : IsInserted when t lp.program.timers lp'.program.timers
  pub queue_empty : lp'.pending_functors ≡ []
  pub free : lp'.locked ≡ false
  pub woken : lp'.wakeups ≡ lp.wakeups + 1

-- The loop with the timer's functor in its queue.
abbrev queued : EventLoop TimerQueue → Timer → EventLoop TimerQueue
queued lp t = record lp {
  locked = false;
  wakeups = lp.wakeups + 1;
  pending_functors = add_timer_functor t ∷ [];
}

abbrev IsEntered : EventLoop TimerQueue → Timer → Effect TimerQueue → Type 0
IsEntered lp t e =
    IsInserted t.expiration t lp.program.timers e.program.timers × (e.wakeups ≡ lp.wakeups + 1)

entered :
    (lp : EventLoop TimerQueue) (t : Timer)
    → IsAscending lp.program.timers
    → find t.expiration lp.program.timers ≡ none
    → ¬ Above t.expiration lp.program.timers
    → Ensures (effects (add_timer_functor t ∷ []) (effect_of (queued lp t))) (IsEntered lp t)
entered lp t a new later =
    Ensures-bind (IsEntered lp t) (IsEntered lp t)
      (effect (add_timer_functor t) (effect_of (queued lp t))) _
      (Ensures-bind (λ q. IsInserted t.expiration t lp.program.timers q.timers) (IsEntered lp t)
        (add_timer_in_loop true t lp.program) _ (add_timer_in_loop_lem t lp.program a new later)
        (λ q w. (w, refl)))
      (λ e w. w)
