-- ===== src/TimerQueue/Callbacks.antt =====
-- The callbacks of the expired timers, which may add timers.
use yatwb.Base.{
  ℕ, ◌≡◌, ◌≢◌, ◌<◌, refl, sym, ap, ◌∙◌, Option, none, some, List, [], ◌∷◌, ◌++◌, map, append-nil,
  append_assoc, ◌==◌, if◌then◌else◌, arith,
}
use mathlib.Core.Path.{fun_ext, subst}
use yatwb.Base.Results.{Ensures, Ensures-bind, Ensures-mono}
use yatwb.TimerQueue.{Timer, TimerQueue, add_timers, run_callbacks}
use yatwb.TimerQueue.Ascending.{Above, Above-mono, find-Above, IsAscending, IsTimed, find}
use yatwb.TimerQueue.Order.{add_timer_in_loop-IsInserted}
use yatwb.TimerQueue.Reinsert.{timers_of}

-- The timers by expiration after timers were added.
abbrev pub with_added : List Timer → (ℕ → Option Timer) → ℕ → Option Timer
with_added [] timers = timers
with_added (t ∷ ts) timers = with_added ts (λ j. if j == t.expiration then some t else timers j)

-- Each finds its expiration free, and a timer before it.
abbrev pub CanAdd : List Timer → (ℕ → Option Timer) → Type 0
CanAdd [] timers = Unit {0}
CanAdd (t ∷ ts) timers =
    (timers t.expiration ≡ none)
    × ((k : ℕ) × (k < t.expiration) × (timers k ≢ none))
    × CanAdd ts (λ j. if j == t.expiration then some t else timers j)

-- What the callbacks of the expired timers add, in order.
abbrev pub all_added : (ℕ → List Timer) → List (ℕ × Timer) → List Timer
all_added adds [] = []
all_added adds (e ∷ es) = adds e.1.callback ++ all_added adds es

-- `q'` is `q` with the timers added and `run` appended to the callbacks run.
pub record IsAdded (ts : List Timer) (run : List ℕ) (q q' : TimerQueue) : Type 0 where
  pub ascending : IsAscending q'.timers
  pub timed : IsTimed q'.timers
  pub entries : (j : ℕ) → timers_of q' j ≡ with_added ts (timers_of q) j
  pub ran : q'.ran ≡ q.ran ++ run
  pub same_armed : q'.armed ≡ q.armed

with_added-++ :
    (ts us : List Timer) (timers : ℕ → Option Timer)
    → with_added (ts ++ us) timers ≡ with_added us (with_added ts timers)
with_added-++ [] us timers = refl
with_added-++ (t ∷ ts) us timers = with_added-++ ts us _

CanAdd-split :
    (ts us : List Timer) (timers : ℕ → Option Timer)
    → CanAdd (ts ++ us) timers
    → CanAdd ts timers × CanAdd us (with_added ts timers)
CanAdd-split [] us timers c = (tt, c)
CanAdd-split (t ∷ ts) us timers (free, before, c) =
    let (first, rest) = CanAdd-split ts us _ c in ((free, before, first), rest)

not-Above : (when k : ℕ) (es : List (ℕ × Timer)) → k < when → find k es ≢ none → ¬ Above when es
not-Above when k es lt there above = there (find-Above k es (Above-mono k when es lt above))

IsAdded-none : (q : TimerQueue) → IsAscending q.timers → IsTimed q.timers → IsAdded [] [] q q
IsAdded-none q a d = record {
  ascending = a;
  timed = d;
  entries = λ j. refl;
  ran = sym (append-nil q.ran);
  same_armed = refl;
}

add_timers_lem :
    (ts : List Timer) (q : TimerQueue)
    → IsAscending q.timers
    → IsTimed q.timers
    → CanAdd ts (timers_of q)
    → Ensures (add_timers ts q) (IsAdded ts [] q)
unfolding add_timers
add_timers_lem [] q a d c = IsAdded-none q a d
add_timers_lem (t ∷ ts) q a d (free, (k, lt, there), c) =
    let (es, e, w) =
      add_timer_in_loop-IsInserted t q a free (not-Above t.expiration k q.timers lt there) in
    let q1 : TimerQueue = record q { timers = es } in
    let placed : (λ j. if j == t.expiration then some t else timers_of q j) ≡ timers_of q1 =
      fun_ext (λ j. sym (w.entries j)) in
    rw e (
      Ensures-mono (IsAdded ts [] q1) (IsAdded (t ∷ ts) [] q) (add_timers ts q1)
        (add_timers_lem ts q1 w.ascending (w.timed refl (omega (arith, lt)) d)
          (subst (CanAdd ts) placed c))
        (λ q' r. record {
          ascending = r.ascending;
          timed = r.timed;
          entries = λ j. r.entries j ∙ ap (λ f. with_added ts f j) (sym placed);
          ran = r.ran;
          same_armed = r.same_armed;
        }))

pub run_callbacks_lem :
    (adds : ℕ → List Timer) (expired : List (ℕ × Timer)) (q : TimerQueue)
    → IsAscending q.timers
    → IsTimed q.timers
    → CanAdd (all_added adds expired) (timers_of q)
    → Ensures
        (run_callbacks adds expired q)
        (IsAdded (all_added adds expired) (map (λ (e : ℕ × Timer). e.1.callback) expired) q)
unfolding run_callbacks
run_callbacks_lem adds [] q a d c = IsAdded-none q a d
run_callbacks_lem adds ((k, t) ∷ expired) q a d c =
    let (here, later) = CanAdd-split (adds t.callback) (all_added adds expired) (timers_of q) c in
    let q1 : TimerQueue = record q { ran = q.ran ++ t.callback ∷ [] } in
    let rest = map (λ (e : ℕ × Timer). e.1.callback) expired in
    Ensures-bind (IsAdded (adds t.callback) [] q1)
      (IsAdded (adds t.callback ++ all_added adds expired) (t.callback ∷ rest) q)
      (add_timers (adds t.callback) q1) _ (add_timers_lem (adds t.callback) q1 a d here)
      (λ q2 w.
        let placed : timers_of q2 ≡ with_added (adds t.callback) (timers_of q) =
          fun_ext w.entries in
        Ensures-mono (IsAdded (all_added adds expired) rest q2)
          (IsAdded (adds t.callback ++ all_added adds expired) (t.callback ∷ rest) q)
          (run_callbacks adds expired q2)
          (run_callbacks_lem adds expired q2 w.ascending w.timed
            (subst (CanAdd (all_added adds expired)) (sym placed) later))
          (λ q3 r. record {
            ascending = r.ascending;
            timed = r.timed;
            entries = λ j.
                r.entries j
                ∙ ap (λ f. with_added (all_added adds expired) f j) placed
                ∙ ap (λ f. f j)
                    (sym (with_added-++ (adds t.callback) (all_added adds expired) (timers_of q)));
            ran =
                r.ran
                ∙ ap (λ x. x ++ rest) (w.ran ∙ append-nil q1.ran)
                ∙ append_assoc q.ran (t.callback ∷ []) rest;
            same_armed = r.same_armed ∙ w.same_armed;
          }))
