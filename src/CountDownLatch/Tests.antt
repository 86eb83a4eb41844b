-- ===== src/CountDownLatch/Tests.antt =====
-- A run of the latch, and its theorem at it: two threads wait for one count.
use yatwb.Base.{◌≡◌, refl}
use yatwb.Base.Int.{pos, ◌-ℤ◌}
use yatwb.CountDownLatch.{
  CountDownLatch, back, new_latch, wait_test, count_down, Reaches, made, enters, tests_again,
  counts,
}
use yatwb.CountDownLatch.Wakeups.{Suits, Reaches-Suits}

abbrev opened : CountDownLatch
opened = wait_test 0 (count_down (wait_test 1 (wait_test 0 (new_latch (pos 1)))))

first_is_back : opened.waiters 0 ≡ back
unfolding wait_test count_down new_latch ◌-ℤ◌
first_is_back = refl

opened-Reaches : Reaches (pos 1) opened
unfolding wait_test count_down new_latch ◌-ℤ◌
opened-Reaches = tests_again 0 _ (counts _ (enters 1 _ (enters 0 _ made refl) refl)) refl

Reaches-Suits_example : Suits opened.count (opened.waiters 0)
Reaches-Suits_example = Reaches-Suits (pos 1) opened opened-Reaches 0
