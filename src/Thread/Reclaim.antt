-- ===== src/Thread/Reclaim.antt =====
-- Every pthread that a thread object makes is joined or detached once.
use yatwb.Base.{
  ℕ, zero, suc, ◌+◌, ◌≤◌, ◌<◌, ◌≡◌, refl, Bool, true, false, ◌&&◌, not, List, [], ◌∷◌,
  if◌then◌else◌, arith,
}
use yatwb.Base.Results.{Result, ok, ◌>>=◌, Ensures, Holds, Holds-mono, Holds-bind}
use yatwb.Thread.{Thread, new_thread, start, join, destroy}

-- What the owner of a thread object calls on it.
pub data Call : Type 0 where
  start_call : (makes : Bool) (tid : ℕ) → Call
  join_call : Call

abbrev pub run_call : Call → Thread → Result Thread
run_call (start_call makes tid) t = start makes tid t
run_call join_call t = join t

abbrev pub run_calls : List Call → Thread → Result Thread
run_calls [] t = ok t
run_calls (c ∷ cs) t = do t ← run_call c t; run_calls cs t

abbrev bit : Bool → ℕ
bit true = 1
bit false = 0

-- The flags are the counts; a thread is joined only after it was made.
record IsCounted (t : Thread) : Type 0 where
  made : t.created ≡ bit t.started
  joined_once : t.joins ≡ bit t.joined
  order : bit t.joined ≤ bit t.started
  kept : t.detached ≡ 0

-- After the destructor.
pub record IsReclaimed (t : Thread) : Type 0 where
  pub once : t.created ≤ 1
  pub reclaimed : t.joins + t.detached ≡ t.created

start-IsCounted :
    (makes : Bool) (tid : ℕ) (t : Thread) → IsCounted t → Holds (start makes tid t) IsCounted
unfolding start
start-IsCounted makes tid t v = ground arith

join-IsCounted : (t : Thread) → IsCounted t → Holds (join t) IsCounted
unfolding join
join-IsCounted t v = ground arith

run_call-IsCounted : (c : Call) (t : Thread) → IsCounted t → Holds (run_call c t) IsCounted
run_call-IsCounted (start_call makes tid) t v = start-IsCounted makes tid t v
run_call-IsCounted join_call t v = join-IsCounted t v

run_calls-IsCounted : (cs : List Call) (t : Thread) → IsCounted t → Holds (run_calls cs t) IsCounted
run_calls-IsCounted [] t v = v
run_calls-IsCounted (c ∷ cs) t v =
    Holds-bind IsCounted IsCounted (run_call c t) (run_calls cs) (run_call-IsCounted c t v)
      (λ t' v'. run_calls-IsCounted cs t' v')

destroy-IsReclaimed : (t : Thread) → IsCounted t → IsReclaimed (destroy t)
unfolding destroy
destroy-IsReclaimed t v = ground arith

-- `start` fails some times, then it may succeed once, and then `join` may follow.
abbrev pub life : ℕ → Bool → ℕ → Bool → List Call
life (suc failures) starts tid joins = start_call false 0 ∷ life failures starts tid joins
life zero starts tid joins =
    if starts then start_call true tid ∷ (if joins then join_call ∷ [] else []) else []

life_lem :
    (failures : ℕ) (name : List ℕ) (n tid : ℕ) (starts joins : Bool)
    → 0 < tid
    → Ensures
        (run_calls (life failures starts tid joins) (new_thread name n).0)
        (λ t. (destroy t).detached ≡ bit (starts && not joins))
unfolding start join destroy
life_lem zero name n tid true joins h = ground arith
life_lem zero name n tid false joins h = ground arith
life_lem (suc failures) name n tid starts joins h = life_lem failures name n tid starts joins h

-- For a new thread object: whatever calls of `start` and `join` are made, and whether threads can be
-- made or not, if no assertion fails, then at most one pthread was made, and after the destructor
-- as many were joined or detached as were made. No assertion fails where `start` fails any number
-- of times, then makes a thread or not, one with an id that is positive, and `join` is called
-- after that or not; then the destructor detaches it exactly if it was made and not joined.
pub run_calls-IsReclaimed :
    (cs : List Call) (name : List ℕ) (n failures tid : ℕ) (starts joins : Bool)
    → 0 < tid
    → Holds (run_calls cs (new_thread name n).0) (λ t. IsReclaimed (destroy t))
      × Ensures
          (run_calls (life failures starts tid joins) (new_thread name n).0)
          (λ t. (destroy t).detached ≡ bit (starts && not joins))
run_calls-IsReclaimed cs name n failures tid starts joins h = (
  Holds-mono IsCounted (λ t. IsReclaimed (destroy t)) (run_calls cs (new_thread name n).0)
      (run_calls-IsCounted cs (new_thread name n).0
        (record { made = refl; joined_once = refl; order = omega arith; kept = refl }))
      destroy-IsReclaimed,
  life_lem failures name n tid starts joins h,
)
