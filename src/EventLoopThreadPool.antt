-- ===== src/EventLoopThreadPool.antt =====
-- src/include/event_loop_thread_pool.h and src/event_loop_thread_pool.cpp. An `EventLoop*` is a
-- number. What `EventLoopThread::startLoop` returns, the loop that the thread made for it runs, is
-- a parameter: `start_loop i` is the loop of the thread with the number `i`.
pub mod RoundRobin
mod Tests
use yatwb.Base.{
  ℕ, zero, suc, ◌+◌, Bool, true, false, not, List, [], ◌∷◌, ◌++◌, length, get_elem?, leb,
  if◌then◌else◌,
}
use yatwb.Base.Int.{ℤ, pos, negsuc}
use yatwb.Base.Results.{Result, ok, assert, require, not_in_loop_thread, ◌>>=◌, ◌>>◌}
use yatwb.Poller.{deref}

pub record EventLoopThreadPool : Type 0 where
  pub base_loop : ℕ
  pub started : Bool
  pub num_threads : ℤ
  pub next : ℕ
  pub threads : List ℕ
  pub loops : List ℕ

unfoldable pub new_pool : ℕ → EventLoopThreadPool
new_pool base_loop = record {
  base_loop = base_loop;
  started = false;
  num_threads = pos 0;
  next = 0;
  threads = [];
  loops = [];
}

abbrev pub pool_set_thread_num : ℤ → EventLoopThreadPool → EventLoopThreadPool
pool_set_thread_num n pool = record pool { num_threads = n }

-- How often `for (int i = 0; i < n; ++i)` runs its body.
abbrev pub iterations : ℤ → ℕ
iterations (pos n) = n
iterations (negsuc n) = 0

-- The loop of `start`, with `k` threads left to start.
unfoldable pub start_threads : (ℕ → ℕ) → ℕ → EventLoopThreadPool → EventLoopThreadPool
start_threads start_loop zero pool = pool
start_threads start_loop (suc k) pool =
    let t = length pool.threads in
    start_threads start_loop k
      (record pool { threads = pool.threads ++ t ∷ []; loops = pool.loops ++ start_loop t ∷ [] })

unfoldable pub pool_start : (ℕ → ℕ) → Bool → EventLoopThreadPool → Result EventLoopThreadPool
unfolding start_threads
pool_start start_loop in_loop pool = do
  assert (not pool.started)
  require in_loop not_in_loop_thread
  ok (start_threads start_loop (iterations pool.num_threads) (record pool { started = true }))

-- `++next_` and the test after it.
abbrev pub step_next : EventLoopThreadPool → EventLoopThreadPool
step_next pool = record pool {
  next = if leb (length pool.loops) (pool.next + 1) then 0 else pool.next + 1;
}

abbrev pub is_empty : List ℕ → Bool
is_empty [] = true
is_empty (x ∷ xs) = false

unfoldable pub get_next_loop : Bool → EventLoopThreadPool → Result (ℕ × EventLoopThreadPool)
get_next_loop in_loop pool = do
  require in_loop not_in_loop_thread
  if is_empty pool.loops
      then ok (pool.base_loop, pool)
      else (do loop ← deref (get_elem? pool.loops pool.next); ok (loop, step_next pool))
