-- ===== src/EventLoopThread/Starts.antt =====
-- `startLoop` returns the loop, whatever the two threads have done before.
use yatwb.Base.{ℕ, zero, suc, ◌≤◌, ◌<◌, ◌-◌, ◌≡◌, refl, Bool, true, false, Option, some, arith}
use mathlib.Core.Path.{subst}
use yatwb.CountDownLatch.{Waiter, outside, asleep, awake, back, wait_test}
use yatwb.EventLoopThread.{
  EventLoopThread, Owner, fresh, in_latch, testing, asleep_cv, awake_cv, returned, quitting,
  joining, finished, aborted, Worker, born, numbered, counted, made, new_event_loop_thread,
  owner_at, owner_step, latch_step, worker_at, worker_step, worker_steps, Reaches, next,
}
use yatwb.EventLoopThread.Invariant.{IsSound, is_born, has_published, Fits, Reaches-IsSound}

-- The constructing thread is inside `startLoop`.
abbrev pub in_start_loop : Owner → Bool
in_start_loop in_latch = true
in_start_loop testing = true
in_start_loop asleep_cv = true
in_start_loop awake_cv = true
in_start_loop _ = false

-- The steps of the new thread up to the one that sets `loop_`.
abbrev remaining : Worker → ℕ
remaining born = 4
remaining numbered = 3
remaining counted = 2
remaining made = 1
remaining _ = 0

-- `k` steps of one of the threads.
abbrev pub owners : ℕ → EventLoopThread → EventLoopThread
owners zero s = s
owners (suc k) s = owners k (owner_step s)

module _ (os_tid addr : ℕ) where
  abbrev pub workers : ℕ → EventLoopThread → EventLoopThread
  workers zero s = s
  workers (suc k) s = workers k (worker_step os_tid addr s)

  workers-Reaches :
      (k : ℕ) (r s : EventLoopThread)
      → Reaches os_tid addr r s
      → Reaches os_tid addr r (workers k s)
  workers-Reaches zero r s w = w
  workers-Reaches (suc k) r s w =
      workers-Reaches k r (worker_step os_tid addr s) (next s _ w worker_steps)

  step-remaining :
      (w : Worker) (s : EventLoopThread)
      → s.worker ≡ w
      → is_born w ≡ true
      → (is_born (worker_at os_tid addr w s).worker ≡ true)
        × (remaining (worker_at os_tid addr w s).worker ≡ remaining w - 1)
  unfolding worker_at
  step-remaining w s e b = ground arith

  workers-has_published :
      (k : ℕ) (s : EventLoopThread)
      → is_born s.worker ≡ true
      → remaining s.worker ≤ k
      → has_published (workers k s).worker ≡ true
  workers-has_published zero s b h = ground arith
  workers-has_published (suc k) s b h =
      let (b', r) = step-remaining s.worker s refl b in
      workers-has_published k (worker_step os_tid addr s) b' (omega (arith, r))

  stays :
      (w : Worker) (s : EventLoopThread)
      → in_start_loop s.owner ≡ true
      → in_start_loop (worker_at os_tid addr w s).owner ≡ true
  unfolding worker_at
  stays w s h = ground arith

  workers-stay :
      (k : ℕ) (s : EventLoopThread)
      → in_start_loop s.owner ≡ true
      → in_start_loop (workers k s).owner ≡ true
  workers-stay zero s h = h
  workers-stay (suc k) s h = workers-stay k (worker_step os_tid addr s) (stays s.worker s h)

  -- At the latch that was counted down.
  leaves_latch :
      (s : EventLoopThread)
      → IsSound addr s
      → has_published s.worker ≡ true
      → s.owner ≡ in_latch
      → (w : Waiter) → s.latch.waiters 0 ≡ w
      → (k : ℕ) × (k ≤ 4) × ((owners k s).owner ≡ returned (some addr))
  unfolding owner_at latch_step wait_test
  leaves_latch s v p e outside f = (3, omega arith, ground arith)
  leaves_latch s v p e asleep f = absurd (ground arith)
  leaves_latch s v p e awake f = (3, omega arith, ground arith)
  leaves_latch s v p e back f = (2, omega arith, ground arith)

  -- Where the new thread has set the pointer, four steps are enough.
  returns :
      (s : EventLoopThread)
      → IsSound addr s
      → has_published s.worker ≡ true
      → (o : Owner) → s.owner ≡ o
      → in_start_loop o ≡ true
      → (k : ℕ) × (k ≤ 4) × ((owners k s).owner ≡ returned (some addr))
  unfolding owner_at
  returns s v p in_latch e h = leaves_latch s v p e (s.latch.waiters 0) refl
  returns s v p testing e h = (1, omega arith, ground arith)
  returns s v p asleep_cv e h = absurd (ground arith)
  returns s v p awake_cv e h = (1, omega arith, ground arith)
  returns s v p fresh e h = absurd (ground arith)
  returns s v p (returned l) e h = absurd (ground arith)
  returns s v p quitting e h = absurd (ground arith)
  returns s v p joining e h = absurd (ground arith)
  returns s v p finished e h = absurd (ground arith)
  returns s v p aborted e h = absurd (ground arith)

  -- In every state that the two threads reach, where the kernel gives the new thread an id above 0,
  -- the constructing thread is inside `startLoop` and the new thread was created: four steps of the
  -- new thread and then at most four of the constructing one end `startLoop`, which returns the
  -- loop of the new thread.
  pub start_loop-returns :
      (s : EventLoopThread)
      → 0 < os_tid
      → Reaches os_tid addr new_event_loop_thread s
      → in_start_loop s.owner ≡ true
      → is_born s.worker ≡ true
      → (k : ℕ) × (k ≤ 4) × ((owners k (workers 4 s)).owner ≡ returned (some addr))
  start_loop-returns s h r i b =
      returns (workers 4 s)
        (Reaches-IsSound os_tid addr (workers 4 s) h (workers-Reaches 4 new_event_loop_thread s r))
        (workers-has_published 4 s b (ground arith)) (workers 4 s).owner refl (workers-stay 4 s i)

  -- In every state that the two threads reach, where the kernel gives the new thread an id above 0
  -- and `startLoop` has returned and the destructor has not begun: it returned the loop of the new
  -- thread, which still exists.
  pub start_loop-alive :
      (s : EventLoopThread) (p : Option ℕ)
      → 0 < os_tid
      → Reaches os_tid addr new_event_loop_thread s
      → s.owner ≡ returned p
      → (p ≡ some addr) × (s.alive ≡ true)
  start_loop-alive s p h r e =
      let v = Reaches-IsSound os_tid addr s h r in
      let f : Fits addr (returned p) s.worker = subst (λ o. Fits addr o s.worker) e v.fits in
      (f.0, ground arith)
