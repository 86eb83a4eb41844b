-- ===== src/Thread/Tests.antt =====
-- Thread objects at concrete inputs.
use yatwb.Base.{◌≡◌, refl, true, false, [], ◌∷◌, arith}
use yatwb.Base.Decimal.{digits_onto}
use yatwb.Base.Results.{fault, assert_failed, Ensures, Holds}
use yatwb.Thread.{new_thread, Thread, set_default_name, start, destroy}
use yatwb.Thread.Reclaim.{
  start_call, join_call, run_calls, life, IsReclaimed, run_calls-IsReclaimed,
}

abbrev unnamed : Thread
unnamed = (new_thread [] 0).0

third : (set_default_name 3 unnamed).name ≡ 84 ∷ 104 ∷ 114 ∷ 101 ∷ 97 ∷ 100 ∷ 51 ∷ []
unfolding set_default_name digits_onto
third = refl

started_twice : run_calls (start_call true 7 ∷ start_call true 7 ∷ []) unnamed ≡ fault assert_failed
unfolding start
started_twice = refl

-- Two failures, and then a thread that is not joined.
run_calls-IsReclaimed_example :
    Holds (run_calls (start_call true 7 ∷ join_call ∷ []) unnamed) (λ t. IsReclaimed (destroy t))
    × Ensures (run_calls (life 2 true 7 false) unnamed) (λ t. (destroy t).detached ≡ 1)
run_calls-IsReclaimed_example =
    run_calls-IsReclaimed (start_call true 7 ∷ join_call ∷ []) [] 0 2 7 true false (omega arith)
