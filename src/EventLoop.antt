-- ===== src/EventLoop.antt =====
-- src/include/event_loop.h and src/event_loop.cpp: the loop, its queue of functors, its mutex and
-- its wakeups. `updateChannel` and `removeChannel` are in Poller. The mutex is held or free: a
-- thread that finds it held by another waits, and its call is made once the mutex is free, so that
-- a call that finds it held is one of the thread that holds it.
pub mod Pending
pub mod Wakeup
mod Tests
use yatwb.Base.{ℕ, ◌+◌, Bool, true, false, not, ◌||◌, List, [], ◌∷◌, ◌++◌, if◌then◌else◌}
use yatwb.Base.Results.{
  Result, ok, fault, assert, require, deadlock, not_in_loop_thread, ◌>>=◌, ◌>>◌,
}
use yatwb.Poller.{PollOutcome}

-- What a functor or a callback does in the loop's thread: it acts on the rest of the program `S`,
-- and calls the loop.
pub data Functor (S : Type 0) : Type 0 where
  finish : Functor S
  act : (f : S → Result S) (rest : Functor S) → Functor S
  call_queue_in_loop : (cb : Functor S) (rest : Functor S) → Functor S
  call_run_in_loop : (cb : Functor S) (rest : Functor S) → Functor S
  call_quit : (rest : Functor S) → Functor S
  -- `EventLoop::handleRead`
  call_handle_read : (rest : Functor S) → Functor S

-- `wakeups` counts what `wakeup` wrote since `handleRead` last read. The file behind `wakeup_fd_`
-- and the channel of its reads are made by nothing in the source.
pub record EventLoop (S : Type 0) : Type 0 where
  pub looping : Bool
  pub quit_flag : Bool
  pub calling_pending_functors : Bool
  pub wakeups : ℕ
  pub locked : Bool
  pub pending_functors : List (Functor S)
  pub program : S

module _ {S : Type 0} where
  -- The constructor, which leaves `calling_pending_functors_` (`calling`) without a value.
  unfoldable pub new_event_loop : Bool → S → EventLoop S
  new_event_loop calling s = record {
    looping = false;
    quit_flag = true;
    calling_pending_functors = calling;
    wakeups = 0;
    locked = false;
    pending_functors = [];
    program = s;
  }

  abbrev pub wakeup : EventLoop S → EventLoop S
  wakeup lp = record lp { wakeups = lp.wakeups + 1 }

  -- `handleRead` reads all that was written.
  abbrev pub handle_read_wakeup : EventLoop S → EventLoop S
  handle_read_wakeup lp = record lp { wakeups = 0 }

  -- `std::lock_guard`
  abbrev pub lock : EventLoop S → Result (EventLoop S)
  lock lp = do require (not lp.locked) deadlock; ok (record lp { locked = true })

  abbrev pub unlock : EventLoop S → EventLoop S
  unlock lp = record lp { locked = false }

  unfoldable pub queue_in_loop : Bool → Functor S → EventLoop S → Result (EventLoop S)
  queue_in_loop in_loop cb lp = do
    lp ← lock lp
    let lp' = record lp { pending_functors = lp.pending_functors ++ cb ∷ [] }
    ok (unlock (if not in_loop || lp'.calling_pending_functors then wakeup lp' else lp'))

  unfoldable pub quit : Bool → EventLoop S → EventLoop S
  quit in_loop lp =
      let lp' = record lp { quit_flag = true } in if not in_loop then wakeup lp' else lp'

  -- A functor run in the loop's thread, where `runInLoop` runs its argument at once.
  unfoldable pub run : Functor S → EventLoop S → Result (EventLoop S)
  unfolding queue_in_loop quit
  run finish lp = ok lp
  run (act f rest) lp = do s ← f lp.program; run rest (record lp { program = s })
  run (call_queue_in_loop cb rest) lp = do lp ← queue_in_loop true cb lp; run rest lp
  run (call_run_in_loop cb rest) lp = do lp ← run cb lp; run rest lp
  run (call_quit rest) lp = run rest (quit true lp)
  run (call_handle_read rest) lp = run rest (handle_read_wakeup lp)

  unfoldable pub run_in_loop : Bool → Functor S → EventLoop S → Result (EventLoop S)
  run_in_loop in_loop cb lp = if in_loop then run cb lp else queue_in_loop in_loop cb lp

  -- The loop over the functors that were swapped out.
  unfoldable pub run_functors : List (Functor S) → EventLoop S → Result (EventLoop S)
  run_functors [] lp = ok lp
  run_functors (cb ∷ functors) lp = do lp ← run cb lp; run_functors functors lp

  unfoldable pub do_pending_functors : EventLoop S → Result (EventLoop S)
  do_pending_functors lp = do
    locked ← lock (record lp { calling_pending_functors = true })
    lp' ← run_functors locked.pending_functors (record locked { pending_functors = [] })
    ok (unlock (record lp' { calling_pending_functors = false }))

-- `loop()` over what its poller and the `handleEvents` of its channels do.
module _ {S : Type 0} (poll : PollOutcome → S → Result (List ℕ × S))
    (handle_events : ℕ → Functor S) where
  unfoldable pub handle_active : List ℕ → EventLoop S → Result (EventLoop S)
  handle_active [] lp = ok lp
  handle_active (c ∷ active) lp = do lp ← run (handle_events c) lp; handle_active active lp

  -- The first half of an iteration: `poll` and the callbacks of the active channels.
  unfoldable pub dispatch : PollOutcome → EventLoop S → Result (EventLoop S)
  dispatch outcome lp = do
    (active, s) ← poll outcome lp.program
    handle_active active (record lp { program = s })

  -- `while (!quit_)`, for as many polls as there are outcomes: without one, `poll` waits on.
  unfoldable pub iterate : List PollOutcome → EventLoop S → Result (EventLoop S)
  unfolding dispatch do_pending_functors
  iterate [] lp = ok (if lp.quit_flag then record lp { looping = false } else lp)
  iterate (outcome ∷ outcomes) lp =
      let rest = (do lp ← dispatch outcome lp; lp ← do_pending_functors lp; iterate outcomes lp) in
      if lp.quit_flag then ok (record lp { looping = false }) else rest

  unfoldable pub loop : Bool → List PollOutcome → EventLoop S → Result (EventLoop S)
  loop in_loop outcomes lp = do
    assert (not lp.looping)
    require in_loop not_in_loop_thread
    iterate outcomes (record lp { looping = true; quit_flag = false })
