-- ===== src/EventLoopThreadPool/Tests.antt =====
-- Runs of the pool, and its theorems at concrete inputs: the loop of thread `i` is `i + 7`.
use yatwb.Base.{ℕ, ◌+◌, ◌≡◌, refl, [], ◌∷◌, arith, true}
use yatwb.Base.Int.{pos}
use yatwb.Base.Results.{ok, fault, assert_failed, ◌>>=◌}
use yatwb.EventLoopThreadPool.{
  EventLoopThreadPool, new_pool, pool_set_thread_num, pool_start, start_threads, get_next_loop,
}
use yatwb.EventLoopThreadPool.RoundRobin.{next_loops, started_pool, pool_start-round}

abbrev start_loop : ℕ → ℕ
start_loop i = i + 7

abbrev second : EventLoopThreadPool
second = record (started_pool start_loop 1 3) { next = 1 }

-- A pool without threads hands out the base loop.
no_threads : get_next_loop true (new_pool 4) ≡ ok (4, new_pool 4)
unfolding get_next_loop new_pool
no_threads = refl

start_twice :
    (do pool ← pool_start start_loop true (new_pool 4); pool_start start_loop true pool)
    ≡ fault assert_failed
unfolding pool_start new_pool start_threads
start_twice = refl

pool_start-round_example :
    (do
      pool ← pool_start start_loop true (pool_set_thread_num (pos 3) (new_pool 1))
      next_loops 3 pool)
    ≡ ok (7 ∷ 8 ∷ 9 ∷ [], started_pool start_loop 1 3)
pool_start-round_example = pool_start-round start_loop 1 3 (omega arith)
