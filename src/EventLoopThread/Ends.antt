-- ===== src/EventLoopThread/Ends.antt =====
-- The destructor: `quit` reaches a loop that runs, and is lost on one that has not started to run.
use yatwb.Base.{ℕ, ◌<◌, ◌≡◌, ◌⊎◌, true, false, arith}
use yatwb.EventLoop.{quit}
use yatwb.EventLoopThread.{
  EventLoopThread, quitting, joining, finished, published, new_event_loop_thread, start_thread,
  owner_at, owner_step, quit_loop, join, worker_at, worker_step, Step, owner_steps, creation_fails,
  worker_steps, latch_wakes, cv_wakes, Reaches, here, next,
}
use yatwb.EventLoopThread.Invariant.{IsSound, is_in_loop, Reaches-IsSound}

-- The constructing thread waits in `join` for a loop that will clear the request to quit, or has.
pub record IsStuck (s : EventLoopThread) : Type 0 where
  pub waits : s.owner ≡ joining
  pub runs :
      (s.worker ≡ published) ⊎ ((is_in_loop s.worker ≡ true) × (s.event_loop.quit_flag ≡ false))
  pub start : s.started ≡ true
  pub not_joined : s.joined ≡ false

module _ (os_tid addr : ℕ) where
  Step-IsStuck : (s t : EventLoopThread) → Step os_tid addr s t → IsStuck s → IsStuck t
  unfolding owner_at join worker_at start_thread
  Step-IsStuck s _ owner_steps v = ground arith
  Step-IsStuck s _ (creation_fails e) v = ground arith
  Step-IsStuck s _ worker_steps v = ground arith
  Step-IsStuck s _ latch_wakes v = ground arith
  Step-IsStuck s _ (cv_wakes e) v = ground arith

  Reaches-IsStuck : (s t : EventLoopThread) → IsStuck s → Reaches os_tid addr s t → IsStuck t
  Reaches-IsStuck s _ v here = v
  Reaches-IsStuck s t v (next u _ r st) = Step-IsStuck u t st (Reaches-IsStuck s u v r)

  asked :
      (s : EventLoopThread)
      → IsSound addr s
      → s.owner ≡ quitting
      → s.worker ≡ published
      → IsStuck (owner_step s)
  unfolding owner_at quit_loop quit
  asked s v q p = ground arith

  -- Where the destructor asks the loop to quit after `startLoop` has returned, but before the new
  -- thread has entered `loop()`, which clears the request, the constructing thread waits in `join`
  -- in every state from there on.
  pub quit-lost :
      (s : EventLoopThread)
      → 0 < os_tid
      → Reaches os_tid addr new_event_loop_thread s
      → s.owner ≡ quitting
      → s.worker ≡ published
      → (t : EventLoopThread) → Reaches os_tid addr (owner_step s) t
      → t.owner ≡ joining
  quit-lost s h r q p t more =
      let v = Reaches-IsSound os_tid addr s h r in
      (Reaches-IsStuck (owner_step s) t (asked s v q p) more).waits

  -- In every state that the two threads reach, where the destructor is about to ask a loop to quit
  -- that has entered `loop()`: after that, two steps of the new thread end the loop, and `join`
  -- returns at once.
  pub quit-joins :
      (s : EventLoopThread)
      → 0 < os_tid
      → Reaches os_tid addr new_event_loop_thread s
      → s.owner ≡ quitting
      → is_in_loop s.worker ≡ true
      → (owner_step (worker_step os_tid addr (worker_step os_tid addr (owner_step s)))).owner
        ≡ finished
  unfolding owner_at quit_loop quit worker_at join
  quit-joins s h r q l = ground (arith, Reaches-IsSound os_tid addr s h r)
