-- ===== src/TimerQueue/Order.antt =====
-- The set of timers is ascending, `insert` puts a timer in its place, and `getExpired` takes
-- exactly the timers that have expired.
use yatwb.Base.{
  ℕ, ◌≡◌, ◌<◌, refl, sym, ap, ◌∙◌, inl, inr, ◌↔◌, Bool, true, Bool-cases, Option, none, some,
  Option-cases, List, [], ◌∷◌, ◌++◌, ltb, ◌==◌, if◌then◌else◌, arith,
}
use yatwb.Base.Results.{ok, fault, assert_failed, Ensures}
use yatwb.Timestamp.{Seconds}
use yatwb.TimerQueue.{
  Timer, TimerQueue, set_insert, is_earliest, insert, take_expired, restart, reinsert, reset,
  add_timer_in_loop,
}
use yatwb.TimerQueue.Ascending.{
  Above, Below, IsAscending, find, IsInserted, set_insert_lem, split_at_lem, is_earliest_iff,
  find-Above, Above-mono,
}

-- On an ascending queue without a timer of the same expiration, `insert` succeeds: the queue is
-- ascending, has the new timer at its expiration and every other timer where it was, and the timer
-- is reported as the earliest exactly when all others expire after it.
pub insert_lem :
    (t : Timer) (q : TimerQueue)
    → IsAscending q.timers
    → find t.expiration q.timers ≡ none
    → Ensures (insert t q) (λ r.
      IsInserted t.expiration t q.timers r.1.timers × ((r.0 ≡ true) ↔ Above t.expiration q.timers))
unfolding insert
insert_lem t q a h =
    let (es, e, w) = set_insert_lem t.expiration t q.timers a h in
    rw e (w, is_earliest_iff t.expiration q.timers a)

-- On an ascending queue without a timer that expires exactly now, `getExpired` succeeds: what it
-- returns and what it leaves are, in order, the timers that were there; the first expire before now
-- and the others after it.
pub take_expired_lem :
    (now : ℕ) (q : TimerQueue)
    → IsAscending q.timers
    → find now q.timers ≡ none
    → Ensures
        (take_expired now q)
        (λ r. (r.0 ++ r.1.timers ≡ q.timers) × Below now r.0 × Above now r.1.timers)
unfolding take_expired
take_expired_lem now q a h =
    let (all, below, above, later) = split_at_lem now q.timers a h in rw later (all, below, above)

set_insert-taken :
    (when : ℕ) (t u : Timer) (es : List (ℕ × Timer))
    → IsAscending es
    → find when es ≡ some u
    → set_insert when t es ≡ none
set_insert-taken when t u [] a f = ground arith
set_insert-taken when t u ((k, v) ∷ es) a f = elim (Bool-cases (when == k)) [
  | inl same ↦ ground arith
  | inr differs ↦
      let skipped : find when ((k, v) ∷ es) ≡ find when es = rw differs refl in
      let f' : find when es ≡ some u = sym skipped ∙ f in
      elim (Bool-cases (ltb when k)) [
        | inl before ↦
            let lt : when < k = ground arith in
            let missing = find-Above when es (Above-mono when k es lt a.0) in
            absurd (ground (arith, sym missing ∙ f'))
        | inr not_before ↦
            let after : ltb k when ≡ true = ground arith in
            rw (not_before, after, set_insert-taken when t u es a.1 f') refl
      ]
]

insert-taken :
    (t u : Timer) (q : TimerQueue)
    → IsAscending q.timers
    → find t.expiration q.timers ≡ some u
    → insert t q ≡ fault assert_failed
unfolding insert
insert-taken t u q a f = rw (set_insert-taken t.expiration t u q.timers a f) refl

chosen : (b : Bool) (t : Timer) (x : Option Timer) → b ≡ true → (if b then some t else x) ≡ some t
chosen b t x e = ground arith

pub insert-inserted :
    (t : Timer) (q : TimerQueue) (es : List (ℕ × Timer))
    → set_insert t.expiration t q.timers ≡ some es
    → insert t q ≡ ok (is_earliest t.expiration q.timers, record q { timers = es })
unfolding insert
insert-inserted t q es e = rw e refl

-- On an ascending queue, two expired timers that repeat after the same interval cannot both be put
-- back: `reset` fails an assertion, whatever follows them.
pub reset-same_interval :
    (now later k j : ℕ) (t u : Timer) (expired : List (ℕ × Timer)) (q : TimerQueue)
    → IsAscending q.timers
    → t.repeat ≡ true
    → u.repeat ≡ true
    → t.interval ≡ u.interval
    → reset now later ((k, t) ∷ (j, u) ∷ expired) q ≡ fault assert_failed
unfolding reset reinsert
reset-same_interval now later k j t u expired q a rt ru same =
    elim (Option-cases (find (restart now t).expiration q.timers)) [
      | inr (v, taken) ↦ rw (insert-taken (restart now t) v q a taken, rt) refl
      | inl free ↦
          let (es, e, w) =
            set_insert_lem (restart now t).expiration (restart now t) q.timers a free in
          let delta = ap (λ (i : Seconds). i.delta) same in
          let at_once : (restart now u).expiration ≡ (restart now t).expiration = ground arith in
          let self : ((restart now t).expiration == (restart now t).expiration) ≡ true =
            ground arith in
          let entry : find (restart now t).expiration es ≡ some (restart now t) =
            w.entries (restart now t).expiration ∙ chosen _ (restart now t) _ self in
          rw
            (
              insert-inserted (restart now t) q es e,
              insert-taken (restart now u) (restart now t) (record q { timers = es }) w.ascending
                  (ap (λ x. find x es) at_once ∙ entry),
              rt,
              ru,
            )
            refl
    ]

-- In the loop's thread, a timer that finds its expiration free and another timer before it.
pub add_timer_in_loop-IsInserted :
    (t : Timer) (q : TimerQueue)
    → IsAscending q.timers
    → find t.expiration q.timers ≡ none
    → ¬ Above t.expiration q.timers
    → (es : List (ℕ × Timer)) × (add_timer_in_loop true t q ≡ ok (record q { timers = es }))
      × IsInserted t.expiration t q.timers es
unfolding add_timer_in_loop
add_timer_in_loop-IsInserted t q a free later =
    let (es, e, w) = set_insert_lem t.expiration t q.timers a free in
    elim (Bool-cases (is_earliest t.expiration q.timers)) [
      | inl first ↦ absurd (later ((is_earliest_iff t.expiration q.timers a).0 first))
      | inr other ↦ (es, rw (insert-inserted t q es e, other) refl, w)
    ]
