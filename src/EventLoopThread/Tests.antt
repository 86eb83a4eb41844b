-- ===== src/EventLoopThread/Tests.antt =====
-- Runs of the two threads, and their theorems at concrete inputs: thread id 7, loop address 100.
use yatwb.Base.{ℕ, ◌≤◌, ◌≡◌, refl, Bool, true, false, none, some, List, [], ◌∷◌, ◌++◌, arith}
use yatwb.Base.Int.{◌-ℤ◌}
use yatwb.CountDownLatch.{new_latch, wait_test, count_down}
use yatwb.EventLoopThread.{
  EventLoopThread, new_event_loop_thread, current_tid, returned, joining, finished, start_thread,
  latch_step, owner_at, owner_step, worker_at, worker_step, Reaches, here, next, owner_steps,
  worker_steps, asleep_cv,
}
use yatwb.EventLoopThread.Starts.{owners, workers, start_loop-returns}
use yatwb.EventLoopThread.Ends.{quit-lost, quit-joins}

-- A step of the constructing thread for `true`, of the new one for `false`.
abbrev turn : Bool → EventLoopThread → EventLoopThread
turn true s = owner_step s
turn false s = worker_step 7 100 s

abbrev follow : List Bool → EventLoopThread → EventLoopThread
follow [] s = s
follow (b ∷ bs) s = follow bs (turn b s)

follow-Reaches :
    (s0 : EventLoopThread) (bs : List Bool) (s : EventLoopThread)
    → Reaches 7 100 s0 s
    → Reaches 7 100 s0 (follow bs s)
follow-Reaches s0 [] s r = r
follow-Reaches s0 (true ∷ bs) s r = follow-Reaches s0 bs (owner_step s) (next s _ r owner_steps)
follow-Reaches s0 (false ∷ bs) s r =
    follow-Reaches s0 bs (worker_step 7 100 s) (next s _ r worker_steps)

abbrev start_up : List Bool
start_up = true ∷ false ∷ false ∷ false ∷ false ∷ true ∷ true ∷ true ∷ []

abbrev created : EventLoopThread
created = follow (true ∷ []) new_event_loop_thread

abbrev up : EventLoopThread
up = follow start_up new_event_loop_thread

-- The destructor before the loop runs, and after it runs.
abbrev early : EventLoopThread
early = follow (start_up ++ true ∷ []) new_event_loop_thread

abbrev late : EventLoopThread
late = follow (start_up ++ false ∷ true ∷ []) new_event_loop_thread

cached_tid : current_tid 7 7 ≡ (7, none)
unfolding current_tid
cached_tid = refl

-- A thread that could not be created leaves `startLoop` asleep.
no_thread : (owner_step (start_thread false new_event_loop_thread)).owner ≡ asleep_cv
unfolding start_thread owner_at
no_thread = refl

start_loop-returns_example :
    (k : ℕ) × (k ≤ 4) × ((owners k (workers 7 100 4 created)).owner ≡ returned (some 100))
unfolding owner_at start_thread
start_loop-returns_example =
    start_loop-returns 7 100 created (omega arith) (follow-Reaches _ (true ∷ []) _ here) refl refl

-- The new thread enters the loop and polls; the other one tries to join it.
abbrev stuck : EventLoopThread
stuck = follow (false ∷ false ∷ true ∷ []) (owner_step early)

quit-lost_example : stuck.owner ≡ joining
unfolding owner_at start_thread worker_at latch_step wait_test count_down new_latch ◌-ℤ◌
quit-lost_example =
    quit-lost 7 100 early (omega arith) (follow-Reaches _ (start_up ++ true ∷ []) _ here) refl refl
      stuck (follow-Reaches _ (false ∷ false ∷ true ∷ []) _ here)

quit-joins_example :
    (owner_step (worker_step 7 100 (worker_step 7 100 (owner_step late)))).owner ≡ finished
unfolding owner_at start_thread worker_at latch_step wait_test count_down new_latch ◌-ℤ◌
quit-joins_example =
    quit-joins 7 100 late (omega arith) (follow-Reaches _ (start_up ++ false ∷ true ∷ []) _ here)
      refl refl
