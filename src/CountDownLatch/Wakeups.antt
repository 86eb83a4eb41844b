-- ===== src/CountDownLatch/Wakeups.antt =====
-- No thread sleeps on a latch that is open, and none is back from one that is not.
use yatwb.Base.{ℕ, ◌≡◌, inl, inr, false, Bool-cases, ◌==◌, if◌then◌else◌, arith}
use yatwb.Base.Int.{ℤ, pos, ltb_ℤ, ◌≤ℤ◌, ◌<ℤ◌, ◌==ℤ◌, ◌-ℤ◌}
use yatwb.CountDownLatch.{
  CountDownLatch, Waiter, outside, asleep, awake, back, new_latch, put_waiter, wait_test, woken,
  count_down, Reaches, made, enters, tests_again, wakes, counts,
}

-- What each thread's place says of the count.
abbrev pub Suits : ℤ → Waiter → Type 0
Suits n outside = Unit {0}
Suits n asleep = pos 0 <ℤ n
Suits n awake = Unit {0}
Suits n back = n ≤ℤ pos 0

test-Suits : (n : ℤ) → Suits n (if ltb_ℤ (pos 0) n then asleep else back)
test-Suits n = elim (Bool-cases (ltb_ℤ (pos 0) n)) [
  | inl above ↦ rw above (ground arith)
  | inr open_now ↦ rw open_now (ground arith)
]

put-Suits :
    (n : ℤ) (f : ℕ → Waiter) (i j : ℕ) (w : Waiter)
    → Suits n w
    → Suits n (f j)
    → Suits n (put_waiter f i w j)
put-Suits n f i j w h k = elim (Bool-cases (j == i)) [
  | inl same ↦ rw same h
  | inr other ↦ rw other k
]

pub woken-Suits : (n : ℤ) (w : Waiter) → Suits n w → Suits n (woken w)
woken-Suits n outside h = tt
woken-Suits n asleep h = tt
woken-Suits n awake h = tt
woken-Suits n back h = h

-- One less.
down-Suits :
    (n : ℤ) (w : Waiter) → Suits n w → ((n -ℤ pos 1) ==ℤ pos 0) ≡ false → Suits (n -ℤ pos 1) w
unfolding ◌-ℤ◌
down-Suits n outside h e = tt
down-Suits n asleep h e = ground arith
down-Suits n awake h e = tt
down-Suits n back h e = ground arith

-- One less, with everyone woken.
down_woken-Suits : (n : ℤ) (w : Waiter) → Suits n w → Suits (n -ℤ pos 1) (woken w)
unfolding ◌-ℤ◌
down_woken-Suits n outside h = tt
down_woken-Suits n asleep h = tt
down_woken-Suits n awake h = tt
down_woken-Suits n back h = ground arith

-- In every state that threads reach from a new latch, whatever its count, by entering `wait`, waking
-- up at any time, with or without a notification, and counting down, in any order: a thread that
-- sleeps does so on a count above 0, and a thread is back from `wait` only where the count is 0 or
-- less. So once the count is 0 no thread is left asleep.
pub Reaches-Suits :
    (count : ℤ) (l : CountDownLatch) → Reaches count l → (i : ℕ) → Suits l.count (l.waiters i)
unfolding new_latch wait_test count_down
Reaches-Suits count _ made i = tt
Reaches-Suits count _ (enters j l r e) i =
    put-Suits l.count l.waiters j i _ (test-Suits l.count) (Reaches-Suits count l r i)
Reaches-Suits count _ (tests_again j l r e) i =
    put-Suits l.count l.waiters j i _ (test-Suits l.count) (Reaches-Suits count l r i)
Reaches-Suits count _ (wakes j l r) i =
    put-Suits l.count l.waiters j i _
      (woken-Suits l.count (l.waiters j) (Reaches-Suits count l r j)) (Reaches-Suits count l r i)
Reaches-Suits count _ (counts l r) i = elim (Bool-cases ((l.count -ℤ pos 1) ==ℤ pos 0)) [
  | inl last ↦ rw last (down_woken-Suits l.count (l.waiters i) (Reaches-Suits count l r i))
  | inr more ↦ rw more (down-Suits l.count (l.waiters i) (Reaches-Suits count l r i) more)
]
