-- ===== src/TimerQueue/Ascending.antt =====
-- Ascending lists of timers: what `set_insert`, `split_at` and `is_earliest` do to them.
use yatwb.Base.{
  ℕ, ◌≡◌, ◌≢◌, ◌<◌, refl, sym, ap, ◌∙◌, inl, inr, ◌↔◌, true, false, Bool-cases, Option, none, some,
  List, [], ◌∷◌, ◌++◌, ltb, ◌==◌, if◌then◌else◌, arith,
}
use yatwb.TimerQueue.{Timer, set_insert, is_earliest, split_at, is_later}

-- Every entry expires after `k`; before `k`; and each one after those before it.
abbrev pub Above : ℕ → List (ℕ × Timer) → Type 0
Above k [] = Unit {0}
Above k (e ∷ es) = (k < e.0) × Above k es

abbrev pub Below : ℕ → List (ℕ × Timer) → Type 0
Below k [] = Unit {0}
Below k (e ∷ es) = (e.0 < k) × Below k es

abbrev pub IsAscending : List (ℕ × Timer) → Type 0
IsAscending [] = Unit {0}
IsAscending (e ∷ es) = Above e.0 es × IsAscending es

-- Every entry stands at its timer's expiration, which is valid.
abbrev pub IsTimed : List (ℕ × Timer) → Type 0
IsTimed [] = Unit {0}
IsTimed (e ∷ es) = ((e.1.expiration ≡ e.0) × (0 < e.0)) × IsTimed es

-- The timer that expires at a time.
abbrev pub find : ℕ → List (ℕ × Timer) → Option Timer
find j [] = none
find j ((k, u) ∷ es) = let rest = find j es in if j == k then some u else rest

pub Above-mono : (k j : ℕ) (es : List (ℕ × Timer)) → k < j → Above j es → Above k es
Above-mono k j [] h a = tt
Above-mono k j (e ∷ es) h a = (omega (arith, a.0), Above-mono k j es h a.1)

-- `es` with the timer `t` at `when`.
pub record IsInserted (when : ℕ) (t : Timer) (es es' : List (ℕ × Timer)) : Type 0 where
  pub ascending : IsAscending es'
  pub entries : (j : ℕ) → find j es' ≡ (if j == when then some t else find j es)
  pub above : (k : ℕ) → k < when → Above k es → Above k es'
  pub timed : t.expiration ≡ when → 0 < when → IsTimed es → IsTimed es'

find_tail :
    (when k : ℕ) (u : Timer) (es : List (ℕ × Timer))
    → find when ((k, u) ∷ es) ≡ none
    → (when ≢ k) × (find when es ≡ none)
find_tail when k u es h = elim (Bool-cases (when == k)) [
  | inl same ↦
      let found : find when ((k, u) ∷ es) ≡ some u = rw same refl in
      absurd (ground (arith, sym found ∙ h))
  | inr differs ↦
      let skipped : find when ((k, u) ∷ es) ≡ find when es = rw differs refl in
      (ground arith, sym skipped ∙ h)
]

find-swap :
    (when k j : ℕ) (t u : Timer) (x : Option Timer)
    → k ≢ when
    → (if j == k then some u else (if j == when then some t else x))
      ≡ (if j == when then some t else (if j == k then some u else x))
find-swap when k j t u x h = ground arith

pub set_insert_lem :
    (when : ℕ) (t : Timer) (es : List (ℕ × Timer))
    → IsAscending es
    → find when es ≡ none
    → (es' : List (ℕ × Timer)) × (set_insert when t es ≡ some es') × IsInserted when t es es'
set_insert_lem when t [] a h = (
  (when, t) ∷ [],
  refl,
  record {
    ascending = (tt, tt);
    entries = λ j. refl;
    above = λ k lt b. (lt, tt);
    timed = λ e v b. ((e, v), tt);
  },
)
set_insert_lem when t ((k, u) ∷ es) a h = elim (Bool-cases (ltb when k)) [
  | inl before ↦
      let lt : when < k = ground arith in
      (
        (when, t) ∷ (k, u) ∷ es,
        rw before refl,
        record {
          ascending = ((lt, Above-mono when k es lt a.0), a);
          entries = λ j. refl;
          above = λ j le b. (le, b);
          timed = λ e v b. ((e, v), b);
        },
      )
  | inr not_before ↦
      let (differs, h') = find_tail when k u es h in
      let (es', e, w) = set_insert_lem when t es a.1 h' in
      let lt : k < when = ground arith in
      let after : ltb k when ≡ true = ground arith in
      (
        (k, u) ∷ es',
        rw (not_before, after, e) refl,
        record {
          ascending = (w.above k lt a.0, w.ascending);
          entries = λ j.
              ap (λ (x : Option Timer). if j == k then some u else x) (w.entries j)
              ∙ find-swap when k j t u (find j es) (λ e. differs (sym e));
          above = λ j le b. (b.0, w.above j le b.1);
          timed = λ e v b. (b.0, w.timed e v b.1);
        },
      )
]

pub split_at_lem :
    (now : ℕ) (es : List (ℕ × Timer))
    → IsAscending es
    → find now es ≡ none
    → ((split_at now es).0 ++ (split_at now es).1 ≡ es)
      × Below now (split_at now es).0
      × Above now (split_at now es).1
      × (is_later now (split_at now es).1 ≡ true)
split_at_lem now [] a h = (refl, tt, tt, refl)
split_at_lem now ((k, u) ∷ es) a h =
    let (differs, h') = find_tail now k u es h in
    let (all, below, above, later) = split_at_lem now es a.1 h' in
    elim (Bool-cases (ltb k now)) [
      | inl expired ↦ rw expired (ap (◌∷◌ (k, u)) all, (ground arith, below), above, later)
      | inr left ↦
          let lt : now < k = ground arith in
          rw left (refl, tt, (lt, Above-mono now k es lt a.0), ground arith)
    ]

pub is_earliest_iff :
    (when : ℕ) (es : List (ℕ × Timer))
    → IsAscending es
    → (is_earliest when es ≡ true) ↔ Above when es
is_earliest_iff when [] a = (λ e. tt, λ b. refl)
is_earliest_iff when ((k, u) ∷ es) a = (
  λ e. let lt : when < k = ground arith in (lt, Above-mono when k es lt a.0),
  λ b. let lt : when < k = b.0 in ground arith,
)

pub find-Above : (when : ℕ) (es : List (ℕ × Timer)) → Above when es → find when es ≡ none
find-Above when [] a = refl
find-Above when ((k, u) ∷ es) a =
    let lt : when < k = a.0 in
    let differs : (when == k) ≡ false = ground arith in rw differs (find-Above when es a.1)
