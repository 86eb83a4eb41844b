-- ===== src/EventLoopThread/Invariant.antt =====
-- What holds in every state that the two threads reach.
use yatwb.Base.{ℕ, ◌<◌, ◌≡◌, refl, Bool, true, false, ◌||◌, none, some, if◌then◌else◌, arith}
use mathlib.Core.Path.{subst}
use yatwb.Base.Int.{pos, ◌-ℤ◌}
use yatwb.CountDownLatch.{
  Waiter, outside, asleep, awake, back, new_latch, wait_test, count_down, woken,
}
use yatwb.CountDownLatch.Wakeups.{Suits, woken-Suits}
use yatwb.EventLoop.{new_event_loop, quit}
use yatwb.EventLoopThread.{
  EventLoopThread, Owner, fresh, in_latch, testing, asleep_cv, awake_cv, returned, quitting,
  joining, finished, aborted, Worker, unborn, born, numbered, counted, made, published, at_test,
  in_poll, ended, new_event_loop_thread, start_thread, latch_step, has_ended, owner_at, notified,
  worker_at, Step, owner_steps, creation_fails, worker_steps, latch_wakes, cv_wakes, Reaches, here,
  next,
}

-- How far the new thread has come.
abbrev pub is_born : Worker → Bool
is_born unborn = false
is_born _ = true

abbrev pub has_tid : Worker → Bool
has_tid unborn = false
has_tid born = false
has_tid _ = true

abbrev pub has_counted : Worker → Bool
has_counted unborn = false
has_counted born = false
has_counted numbered = false
has_counted _ = true

abbrev pub has_published : Worker → Bool
has_published published = true
has_published at_test = true
has_published in_poll = true
has_published ended = true
has_published _ = false

abbrev pub is_in_loop : Worker → Bool
is_in_loop at_test = true
is_in_loop in_poll = true
is_in_loop _ = false

abbrev pub is_alive : Worker → Bool
is_alive made = true
is_alive published = true
is_alive w = is_in_loop w

abbrev pub is_joining : Owner → Bool
is_joining joining = true
is_joining _ = false

abbrev pub is_finished : Owner → Bool
is_finished finished = true
is_finished _ = false

-- What the place of the constructing thread says of the new one.
abbrev pub Fits : ℕ → Owner → Worker → Type 0
Fits addr fresh w = w ≡ unborn
Fits addr in_latch w = is_born w ≡ true
Fits addr testing w = Unit {0}
Fits addr asleep_cv w = has_published w ≡ false
Fits addr awake_cv w = Unit {0}
Fits addr (returned p) w = (p ≡ some addr) × (has_published w ≡ true) × (has_ended w ≡ false)
Fits addr quitting w = (has_published w ≡ true) × (has_ended w ≡ false)
Fits addr joining w = has_published w ≡ true
Fits addr finished w = Unit {0}
Fits addr aborted w = ⊥

pub record IsSound (addr : ℕ) (s : EventLoopThread) : Type 0 where
  pub numbered_tid : has_tid s.worker ≡ true → 0 < s.tid
  pub count : s.latch.count ≡ (if has_counted s.worker then pos 0 else pos 1)
  pub waiter : Suits s.latch.count (s.latch.waiters 0)
  pub pointer : s.loop_ptr ≡ (if has_published s.worker then some addr else none)
  pub living : s.alive ≡ is_alive s.worker
  pub start : s.started ≡ is_born s.worker
  pub fits : Fits addr s.owner s.worker
  pub asked : is_in_loop s.worker ≡ true → s.event_loop.quit_flag ≡ true → is_joining s.owner ≡ true
  pub over : has_ended s.worker ≡ true → (is_joining s.owner || is_finished s.owner) ≡ true
  pub joins : s.joined ≡ is_finished s.owner

new-IsSound : (addr : ℕ) → IsSound addr new_event_loop_thread
unfolding new_latch new_event_loop
new-IsSound addr = ground arith

latch_step-IsSound :
    (addr : ℕ) (w : Waiter) (s : EventLoopThread)
    → s.latch.waiters 0 ≡ w
    → s.owner ≡ in_latch
    → IsSound addr s
    → IsSound addr (latch_step w s)
unfolding latch_step wait_test
latch_step-IsSound addr outside s e o v = ground arith
latch_step-IsSound addr asleep s e o v = v
latch_step-IsSound addr awake s e o v = ground arith
latch_step-IsSound addr back s e o v = ground arith

owner_at-IsSound :
    (addr : ℕ) (o : Owner) (s : EventLoopThread)
    → s.owner ≡ o
    → IsSound addr s
    → IsSound addr (owner_at o s)
unfolding owner_at wait_test quit
owner_at-IsSound addr fresh s e v = ground arith
owner_at-IsSound addr in_latch s e v = latch_step-IsSound addr (s.latch.waiters 0) s refl e v
owner_at-IsSound addr testing s e v = ground arith
owner_at-IsSound addr asleep_cv s e v = v
owner_at-IsSound addr awake_cv s e v = ground arith
owner_at-IsSound addr (returned p) s e v = ground arith
owner_at-IsSound addr quitting s e v = ground arith
owner_at-IsSound addr joining s e v = ground arith
owner_at-IsSound addr finished s e v = v
owner_at-IsSound addr aborted s e v = v

Suits-woken : (w : Waiter) → Suits (pos 1) w → Suits (pos 0) (woken w)
Suits-woken outside h = tt
Suits-woken asleep h = tt
Suits-woken awake h = tt
Suits-woken back h = omega arith

count_down-IsSound :
    (addr : ℕ) (s : EventLoopThread)
    → s.worker ≡ numbered
    → IsSound addr s
    → IsSound addr (record s { latch = count_down s.latch; worker = counted })
unfolding count_down ◌-ℤ◌
count_down-IsSound addr s e v =
    let one : s.latch.count ≡ pos 1 = ground arith in
    let suits : Suits (pos 1) (s.latch.waiters 0) =
      subst (λ n. Suits n (s.latch.waiters 0)) one v.waiter in
    ground (arith, Suits-woken (s.latch.waiters 0) suits)

notified-Fits : (addr : ℕ) (o : Owner) → Fits addr o made → Fits addr (notified o) published
notified-Fits addr o f = ground arith

worker_at-IsSound :
    (os_tid addr : ℕ) (w : Worker) (s : EventLoopThread)
    → 0 < os_tid
    → s.worker ≡ w
    → IsSound addr s
    → IsSound addr (worker_at os_tid addr w s)
unfolding worker_at count_down new_event_loop ◌-ℤ◌
worker_at-IsSound os_tid addr unborn s h e v = v
worker_at-IsSound os_tid addr born s h e v = ground arith
worker_at-IsSound os_tid addr numbered s h e v = count_down-IsSound addr s e v
worker_at-IsSound os_tid addr counted s h e v = ground arith
worker_at-IsSound os_tid addr made s h e v =
    ground (arith, notified-Fits addr s.owner (subst (Fits addr s.owner) e v.fits))
worker_at-IsSound os_tid addr published s h e v = ground arith
worker_at-IsSound os_tid addr at_test s h e v = ground arith
worker_at-IsSound os_tid addr in_poll s h e v = ground arith
worker_at-IsSound os_tid addr ended s h e v = v

Step-IsSound :
    (os_tid addr : ℕ) (s t : EventLoopThread)
    → 0 < os_tid
    → Step os_tid addr s t
    → IsSound addr s
    → IsSound addr t
unfolding start_thread
Step-IsSound os_tid addr s _ h owner_steps v = owner_at-IsSound addr s.owner s refl v
Step-IsSound os_tid addr s _ h (creation_fails e) v = ground arith
Step-IsSound os_tid addr s _ h worker_steps v = worker_at-IsSound os_tid addr s.worker s h refl v
Step-IsSound os_tid addr s _ h latch_wakes v =
    ground (arith, woken-Suits s.latch.count (s.latch.waiters 0) v.waiter)
Step-IsSound os_tid addr s _ h (cv_wakes e) v = ground arith

pub Reaches-IsSound :
    (os_tid addr : ℕ) (s : EventLoopThread)
    → 0 < os_tid
    → Reaches os_tid addr new_event_loop_thread s
    → IsSound addr s
Reaches-IsSound os_tid addr _ h here = new-IsSound addr
Reaches-IsSound os_tid addr s h (next t _ r st) =
    Step-IsSound os_tid addr t s h st (Reaches-IsSound os_tid addr t h r)
