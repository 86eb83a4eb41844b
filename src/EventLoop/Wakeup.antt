-- ===== src/EventLoop/Wakeup.antt =====
-- No wakeup is lost: other threads queue functors at any time, and the loop never waits in `poll`
-- with a functor in its queue, or a request to quit, and nothing that `wakeup` wrote since.
use yatwb.Base.{
  ◌≡◌, if◌then◌else◌, ◌⊎◌, ℕ, ◌+◌, ◌<◌, Bool, true, false, not, ◌||◌, List, [], ◌∷◌, ◌++◌,
}
use yatwb.Base.Results.{Result, ok}
use yatwb.Poller.{PollOutcome}
use yatwb.EventLoop.{
  EventLoop, Functor, new_event_loop, do_pending_functors, queue_in_loop, quit, dispatch,
}

-- Where the loop's thread stands: before the test of `quit_`, after it and in `poll`, or between
-- the callbacks and `doPendingFunctors`.
pub data Phase : Type 0 where
  testing polling handled : Phase

module _ {S : Type 0} where
  -- The mutex is free.
  pub record IsFree (lp : EventLoop S) : Type 0 where
    pub unlocked : lp.locked ≡ false

  -- What was queued or asked for while the loop is on its way into `poll` wakes it up.
  pub IsAwake : Phase → EventLoop S → Type 0
  IsAwake testing lp = (lp.pending_functors ≡ []) ⊎ (0 < lp.wakeups)
  IsAwake polling lp =
      ((lp.pending_functors ≡ []) ⊎ (0 < lp.wakeups)) × ((lp.quit_flag ≡ false) ⊎ (0 < lp.wakeups))
  IsAwake handled lp = Unit {0}

  abbrev queued_by : Bool → Functor S → EventLoop S → EventLoop S
  queued_by in_loop cb lp = record lp {
    pending_functors = lp.pending_functors ++ cb ∷ [];
    wakeups = if not in_loop || lp.calling_pending_functors then lp.wakeups + 1 else lp.wakeups;
    locked = false;
  }

module _ {S : Type 0} (poll : PollOutcome → S → Result (List ℕ × S))
    (handle_events : ℕ → Functor S) where
  -- The states of a running loop that are met while other threads queue functors and quit. A
  -- thread that finds the mutex held while the functors run makes its call after them.
  pub data Reaches (s : S) : Phase → EventLoop S → Type 0 where
    started :
        (calling : Bool)
        → Reaches s testing
            (record (new_event_loop calling s) { looping = true; quit_flag = false })
    queued :
        (ph : Phase) (lp lp' : EventLoop S) (cb : Functor S)
        → Reaches s ph lp
        → queue_in_loop false cb lp ≡ ok lp'
        → Reaches s ph lp'
    asked_to_quit : (ph : Phase) (lp : EventLoop S) → Reaches s ph lp → Reaches s ph (quit false lp)
    tested : (lp : EventLoop S) → Reaches s testing lp → lp.quit_flag ≡ false → Reaches s polling lp
    dispatched :
        (lp lp' : EventLoop S) (outcome : PollOutcome)
        → Reaches s polling lp
        → dispatch poll handle_events outcome lp ≡ ok lp'
        → Reaches s handled lp'
    emptied :
        (lp lp' : EventLoop S)
        → Reaches s handled lp
        → do_pending_functors lp ≡ ok lp'
        → Reaches s testing lp'
