-- ===== src/TimerQueue/Rounds.antt =====
-- `handleRead` of the timers: the callbacks of the expired timers run, and those that repeat come
-- back.
use yatwb.Base.{ℕ, ◌≡◌, ◌<◌, ◌^◌, Option, some, List, [], ◌∷◌, ◌++◌, map}
use yatwb.TimerQueue.{Timer, TimerQueue, how_much_time_from_now}
use yatwb.Timestamp.{add_time}
use yatwb.TimerQueue.Ascending.{IsAscending, IsTimed}
use yatwb.TimerQueue.Callbacks.{with_added, all_added}
use yatwb.TimerQueue.Reinsert.{with_all_restarted, timers_of}

-- The setting of the timerfd for the first of the timers, the old one where there is none.
abbrev pub armed_for : ℕ → List (ℕ × Timer) → Option (ℕ × ℕ) → Option (ℕ × ℕ)
armed_for later [] old = old
armed_for later (e ∷ es) old = some (how_much_time_from_now later e.0)

-- The expirations to come are an `int64_t`.
abbrev pub AreInRange : ℕ → List (ℕ × Timer) → Type 0
AreInRange now [] = Unit {0}
AreInRange now (e ∷ es) = (add_time now e.1.interval < 2 ^ 63) × AreInRange now es

-- `q'` is `q` after the callbacks of `expired` ran and those that repeat were put back beside the
-- timers of `q` and those that the callbacks added.
pub record IsHandled (adds : ℕ → List Timer) (now later : ℕ) (expired : List (ℕ × Timer))
    (q q' : TimerQueue) : Type 0 where
  pub ran : q'.ran ≡ q.ran ++ map (λ (e : ℕ × Timer). e.1.callback) expired
  pub ascending : IsAscending q'.timers
  pub timed : IsTimed q'.timers
  pub entries :
      (j : ℕ)
      → timers_of q' j
        ≡ with_all_restarted now expired (with_added (all_added adds expired) (timers_of q)) j
  pub rearmed : q'.armed ≡ armed_for later q'.timers q.armed
