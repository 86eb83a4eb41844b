-- ===== src/EventLoopThread.antt =====
-- src/include/thread.h, src/thread.cpp, src/include/event_loop_thread.h and
-- src/event_loop_thread.cpp: the thread that constructs an EventLoopThread, starts it and destroys
-- it, and the new thread that it makes, each a step at a time between two accesses to what they
-- share. A thread is asleep on a condition variable until it is notified, or wakes up by itself.
-- The id that the kernel gives the new thread and the address of its loop are parameters. Nobody
-- else calls `quit` of that loop, and no callback of it does; the object is not destroyed before
-- `startLoop`, where its destructor would go through a null pointer. Names of threads, `prctl` and logging
-- are left out.
pub mod Invariant
pub mod Starts
pub mod Ends
mod Tests
use yatwb.Base.{
  ℕ, zero, suc, ◌≡◌, Bool, true, false, not, ◌&&◌, Option, none, some, ltb, ◌==◌, if◌then◌else◌,
}
use yatwb.Base.Int.{pos}
use yatwb.CountDownLatch.{
  CountDownLatch, Waiter, outside, asleep, awake, back, new_latch, wait_test, count_down, wake_up,
}
use yatwb.EventLoop.{EventLoop, new_event_loop, quit}

-- `CurrentThread::tid()`: the cached id with what is returned, which is nothing where the id was
-- cached before.
unfoldable pub current_tid : ℕ → ℕ → ℕ × Option ℕ
current_tid os_tid cached = if cached == 0 then (os_tid, some os_tid) else (cached, none)

-- The constructing thread: before `startLoop`; in `latch_.wait()` of `Thread::start`; at the test of
-- `cv_.wait`; asleep on `cv_`, or awake again; back from `startLoop`; in the destructor before
-- `quit`, and in `join`; at the end; stopped by a failed assertion or a dangling pointer.
pub data Owner : Type 0 where
  fresh in_latch testing asleep_cv awake_cv : Owner
  returned : (loop : Option ℕ) → Owner
  quitting joining finished aborted : Owner

-- The new thread: not there; before and after it writes its id; after it counted the latch down;
-- with its loop constructed; after `loop_` was set; at the test of `quit_` in `EventLoop::loop`; in
-- the rest of an iteration; returned.
pub data Worker : Type 0 where
  unborn born numbered counted made published at_test in_poll ended : Worker

-- `event_loop` is the object on the new thread's stack, which `alive` says is there.
pub record EventLoopThread : Type 0 where
  pub started : Bool
  pub joined : Bool
  pub tid : ℕ
  pub latch : CountDownLatch
  pub loop_ptr : Option ℕ
  pub alive : Bool
  pub event_loop : EventLoop (Unit {0})
  pub owner : Owner
  pub worker : Worker

abbrev pub new_event_loop_thread : EventLoopThread
new_event_loop_thread = record {
  started = false;
  joined = false;
  tid = 0;
  latch = new_latch (pos 1);
  loop_ptr = none;
  alive = false;
  event_loop = new_event_loop false tt;
  owner = fresh;
  worker = unborn;
}

-- `Thread::start`, with what `pthread_create` does; `startLoop` goes on to its own wait where the
-- thread could not be created.
unfoldable pub start_thread : Bool → EventLoopThread → EventLoopThread
start_thread created s =
    if s.started
    then record s { owner = aborted }
    else if created
    then record s { started = true; owner = in_latch; worker = born }
    else record s { owner = testing }

-- In `latch_.wait()`, and then `assert(tid_ > 0)`.
unfoldable pub latch_step : Waiter → EventLoopThread → EventLoopThread
latch_step outside s = record s { latch = wait_test 0 s.latch }
latch_step asleep s = s
latch_step awake s = record s { latch = wait_test 0 s.latch }
latch_step back s = record s { owner = if ltb 0 s.tid then testing else aborted }

-- `cv_.wait(lock, [&] { return loop_ != nullptr; })` and the return.
abbrev pub cv_test : Option ℕ → Owner
cv_test none = asleep_cv
cv_test (some p) = returned (some p)

-- `loop_->quit()`, where the thread is not the loop's.
unfoldable pub quit_loop : EventLoopThread → EventLoopThread
quit_loop s =
    if s.alive
    then record s { event_loop = quit false s.event_loop; owner = joining }
    else record s { owner = aborted }

abbrev pub has_ended : Worker → Bool
has_ended ended = true
has_ended _ = false

-- `pthread_join`, after the assertions of `Thread::join`.
unfoldable pub join : EventLoopThread → EventLoopThread
join s =
    if s.started && not s.joined
    then (if has_ended s.worker then record s { joined = true; owner = finished } else s)
    else record s { owner = aborted }

-- One step of the constructing thread, which stays where it is while it is asleep or in `join`.
unfoldable pub owner_at : Owner → EventLoopThread → EventLoopThread
unfolding latch_step quit_loop join start_thread
owner_at fresh s = start_thread true s
owner_at in_latch s = latch_step (s.latch.waiters 0) s
owner_at testing s = record s { owner = cv_test s.loop_ptr }
owner_at asleep_cv s = s
owner_at awake_cv s = record s { owner = cv_test s.loop_ptr }
owner_at (returned p) s = record s { owner = quitting }
owner_at quitting s = quit_loop s
owner_at joining s = join s
owner_at finished s = s
owner_at aborted s = s

abbrev pub owner_step : EventLoopThread → EventLoopThread
owner_step s = owner_at s.owner s

-- `cv_.notify_one()`
abbrev pub notified : Owner → Owner
notified asleep_cv = awake_cv
notified o = o

module _ (os_tid addr : ℕ) where
  -- One step of the new thread: `ThreadData::runInThread` and `IOThreadFunc`.
  unfoldable pub worker_at : Worker → EventLoopThread → EventLoopThread
  worker_at unborn s = s
  worker_at born s = record s { tid = os_tid; worker = numbered }
  worker_at numbered s = record s { latch = count_down s.latch; worker = counted }
  worker_at counted s = record s {
    alive = true;
    event_loop = new_event_loop false tt;
    worker = made;
  }
  worker_at made s = record s { loop_ptr = some addr; owner = notified s.owner; worker = published }
  worker_at published s = record s {
    event_loop = record s.event_loop { looping = true; quit_flag = false };
    worker = at_test;
  }
  worker_at at_test s =
      if s.event_loop.quit_flag
      then record s {
        event_loop = record s.event_loop { looping = false };
        alive = false;
        worker = ended;
      }
      else record s { worker = in_poll }
  worker_at in_poll s = record s { worker = at_test }
  worker_at ended s = s

  abbrev pub worker_step : EventLoopThread → EventLoopThread
  worker_step s = worker_at s.worker s

  -- The steps of the two, in any order, and wakeups without a notification.
  pub data Step (s : EventLoopThread) : EventLoopThread → Type 0 where
    owner_steps : Step s (owner_step s)
    creation_fails : s.owner ≡ fresh → Step s (start_thread false s)
    worker_steps : Step s (worker_step s)
    latch_wakes : Step s (record s { latch = wake_up 0 s.latch })
    cv_wakes : s.owner ≡ asleep_cv → Step s (record s { owner = awake_cv })

  pub data Reaches (s : EventLoopThread) : EventLoopThread → Type 0 where
    here : Reaches s s
    next : (t u : EventLoopThread) → Reaches s t → Step t u → Reaches s u
