-- ===== src/TimerQueue/Reinsert.antt =====
-- `reset`: the expired timers that repeat come back at their new expirations.
use yatwb.Base.{
  ℕ, ◌+◌, ◌≡◌, ◌<◌, refl, sym, ap, ◌∙◌, inl, inr, true, false, ◌&&◌, Bool-cases, Option, none, some,
  List, [], ◌∷◌, ◌==◌, if◌then◌else◌, arith,
}
use mathlib.Core.Path.{fun_ext, subst}
use yatwb.Base.Results.{Ensures, Ensures-mono}
use yatwb.TimerQueue.{Timer, TimerQueue, set_insert, restart, reinsert}
use yatwb.TimerQueue.Ascending.{IsAscending, IsTimed, find, set_insert_lem}
use yatwb.TimerQueue.Order.{insert-inserted}

-- The timers by expiration after `restart` of those expired timers that repeat.
abbrev pub with_restarted : ℕ → ℕ × Timer → (ℕ → Option Timer) → ℕ → Option Timer
with_restarted now e timers j =
    if e.1.repeat && (j == now + e.1.interval.delta) then some (restart now e.1) else timers j

abbrev pub with_all_restarted : ℕ → List (ℕ × Timer) → (ℕ → Option Timer) → ℕ → Option Timer
with_all_restarted now [] timers = timers
with_all_restarted now (e ∷ es) timers = with_all_restarted now es (with_restarted now e timers)

-- Each finds its new expiration free.
abbrev pub AreFree : ℕ → List (ℕ × Timer) → (ℕ → Option Timer) → Type 0
AreFree now [] timers = Unit {0}
AreFree now (e ∷ es) timers =
    ((if e.1.repeat then timers (now + e.1.interval.delta) else none) ≡ none)
    × AreFree now es (with_restarted now e timers)

abbrev pub timers_of : TimerQueue → ℕ → Option Timer
timers_of q j = find j q.timers

-- `q'` is `q` with the timers put back.
pub record IsReset (now : ℕ) (expired : List (ℕ × Timer)) (q q' : TimerQueue) : Type 0 where
  pub ascending : IsAscending q'.timers
  pub timed : IsTimed q'.timers
  pub entries : (j : ℕ) → timers_of q' j ≡ with_all_restarted now expired (timers_of q) j
  pub same_ran : q'.ran ≡ q.ran
  pub same_armed : q'.armed ≡ q.armed

restarted_at :
    (now : ℕ) (t : Timer) → t.repeat ≡ true → (restart now t).expiration ≡ now + t.interval.delta
restarted_at now t again = rw again refl

reinsert-again :
    (now k : ℕ) (t : Timer) (expired : List (ℕ × Timer)) (q : TimerQueue) (es : List (ℕ × Timer))
    → t.repeat ≡ true
    → set_insert (restart now t).expiration (restart now t) q.timers ≡ some es
    → reinsert now ((k, t) ∷ expired) q ≡ reinsert now expired (record q { timers = es })
unfolding reinsert
reinsert-again now k t expired q es again e =
    rw (insert-inserted (restart now t) q es e, again) refl

reinsert-once :
    (now k : ℕ) (t : Timer) (expired : List (ℕ × Timer)) (q : TimerQueue)
    → t.repeat ≡ false
    → reinsert now ((k, t) ∷ expired) q ≡ reinsert now expired q
unfolding reinsert
reinsert-once now k t expired q once = rw once refl

IsReset-cons :
    (now : ℕ) (e : ℕ × Timer) (expired : List (ℕ × Timer)) (q q1 : TimerQueue)
    → with_restarted now e (timers_of q) ≡ timers_of q1
    → q1.ran ≡ q.ran
    → q1.armed ≡ q.armed
    → Ensures (reinsert now expired q1) (IsReset now expired q1)
    → Ensures (reinsert now expired q1) (IsReset now (e ∷ expired) q)
IsReset-cons now e expired q q1 placed ran armed h =
    Ensures-mono (IsReset now expired q1) (IsReset now (e ∷ expired) q) (reinsert now expired q1) h
      (λ q' r. record {
        ascending = r.ascending;
        timed = r.timed;
        entries = λ j. r.entries j ∙ ap (λ f. with_all_restarted now expired f j) (sym placed);
        same_ran = r.same_ran ∙ ran;
        same_armed = r.same_armed ∙ armed;
      })

placed_at :
    (now k : ℕ) (t : Timer) (q : TimerQueue) (j : ℕ) (x : Option Timer)
    → t.repeat ≡ true
    → x ≡ (if j == (restart now t).expiration then some (restart now t) else find j q.timers)
    → with_restarted now (k, t) (timers_of q) j ≡ x
placed_at now k t q j x again e =
    ap (λ b. if b && (j == now + t.interval.delta) then some (restart now t) else find j q.timers)
      again
    ∙ ap (λ n. if j == n then some (restart now t) else find j q.timers)
        (sym (restarted_at now t again))
    ∙ sym e

pub reinsert_lem :
    (now : ℕ) (expired : List (ℕ × Timer)) (q : TimerQueue)
    → IsAscending q.timers
    → IsTimed q.timers
    → 0 < now
    → AreFree now expired (timers_of q)
    → Ensures (reinsert now expired q) (IsReset now expired q)
unfolding reinsert
reinsert_lem now [] q a d valid free = record {
  ascending = a;
  timed = d;
  entries = λ j. refl;
  same_ran = refl;
  same_armed = refl;
}
reinsert_lem now ((k, t) ∷ expired) q a d valid (free, rest) = elim (Bool-cases t.repeat) [
  | inl again ↦
      let at = restarted_at now t again in
      let new : find (restart now t).expiration q.timers ≡ none =
        ap (λ x. find x q.timers) at
        ∙ sym (ap (λ b. if b then timers_of q (now + t.interval.delta) else none) again)
        ∙ free in
      let (es, e, w) = set_insert_lem (restart now t).expiration (restart now t) q.timers a new in
      let after_epoch : 0 < (restart now t).expiration = omega (arith, at, valid) in
      let q1 : TimerQueue = record q { timers = es } in
      let placed : with_restarted now (k, t) (timers_of q) ≡ timers_of q1 =
        fun_ext (λ j. placed_at now k t q j (find j es) again (w.entries j)) in
      subst (λ r. Ensures r (IsReset now ((k, t) ∷ expired) q))
        (sym (reinsert-again now k t expired q es again e))
        (IsReset-cons now (k, t) expired q q1 placed refl refl
          (reinsert_lem now expired q1 w.ascending (w.timed refl after_epoch d) valid
            (subst (AreFree now expired) placed rest)))
  | inr once ↦
      let placed : with_restarted now (k, t) (timers_of q) ≡ timers_of q =
        fun_ext (λ j. rw once refl) in
      subst (λ r. Ensures r (IsReset now ((k, t) ∷ expired) q))
        (sym (reinsert-once now k t expired q once))
        (IsReset-cons now (k, t) expired q q placed refl refl
          (reinsert_lem now expired q a d valid (subst (AreFree now expired) placed rest)))
]
