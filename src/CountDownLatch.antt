-- ===== src/CountDownLatch.antt =====
-- src/include/countdown_latch.h and src/count_down_latch.cpp: the latch, and any number of threads
-- that wait on it or count it down. The mutex makes a body one step, up to where `wait` of the
-- condition variable gives it up.
pub mod Wakeups
mod Tests
use yatwb.Base.{ℕ, ◌≡◌, Bool, true, false, List, [], ◌∷◌, ◌==◌, if◌then◌else◌}
use yatwb.Base.Int.{ℤ, pos, negsuc, ltb_ℤ, ◌==ℤ◌, ◌-ℤ◌}

-- Where a thread stands: not in `wait`, asleep on `cv_`, awake again and on its way to the mutex,
-- or back from `wait`.
pub data Waiter : Type 0 where
  outside asleep awake back : Waiter

-- `waiters` gives each thread's place; `count` is an `int`.
pub record CountDownLatch : Type 0 where
  pub count : ℤ
  pub waiters : ℕ → Waiter

unfoldable pub new_latch : ℤ → CountDownLatch
new_latch count = record { count = count; waiters = λ _. outside }

abbrev pub put_waiter : (ℕ → Waiter) → ℕ → Waiter → ℕ → Waiter
put_waiter f i w j = if j == i then w else f j

-- `while (count_ > 0) cv_.wait(lock);` from the test on, up to the next wait or the return.
unfoldable pub wait_test : ℕ → CountDownLatch → CountDownLatch
wait_test i l = record l {
  waiters = put_waiter l.waiters i (if ltb_ℤ (pos 0) l.count then asleep else back);
}

-- `cv_.notify_all()`
abbrev pub woken : Waiter → Waiter
woken outside = outside
woken asleep = awake
woken awake = awake
woken back = back

unfoldable pub count_down : CountDownLatch → CountDownLatch
count_down l =
    let n = l.count -ℤ pos 1 in
    record { count = n; waiters = if n ==ℤ pos 0 then (λ i. woken (l.waiters i)) else l.waiters }

-- A wakeup without a notification, which a condition variable may give.
abbrev pub wake_up : ℕ → CountDownLatch → CountDownLatch
wake_up i l = record l { waiters = put_waiter l.waiters i (woken (l.waiters i)) }

-- The latches that threads reach from one of the given count.
pub data Reaches (count : ℤ) : CountDownLatch → Type 0 where
  made : Reaches count (new_latch count)
  enters :
      (i : ℕ) (l : CountDownLatch)
      → Reaches count l
      → l.waiters i ≡ outside
      → Reaches count (wait_test i l)
  tests_again :
      (i : ℕ) (l : CountDownLatch)
      → Reaches count l
      → l.waiters i ≡ awake
      → Reaches count (wait_test i l)
  wakes : (i : ℕ) (l : CountDownLatch) → Reaches count l → Reaches count (wake_up i l)
  counts : (l : CountDownLatch) → Reaches count l → Reaches count (count_down l)
