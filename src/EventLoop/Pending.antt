-- ===== src/EventLoop/Pending.antt =====
-- `doPendingFunctors` runs the queue that it finds, once and in order, with the mutex held.
use yatwb.Base.{ℕ, ◌≡◌, refl, ap, ◌∙◌, sym, Bool, true, false, List, [], ◌∷◌}
use yatwb.Base.Results.{Result, ok, fault, deadlock, ◌>>=◌, bind_assoc, bind_cong}
use yatwb.EventLoop.{
  EventLoop, Functor, finish, act, call_queue_in_loop, call_run_in_loop, call_quit,
  call_handle_read, run, run_functors, do_pending_functors, queue_in_loop, quit, unlock,
}

-- What a functor may change while it cannot queue: the program, the quit flag and the wakeups.
pub record Effect (S : Type 0) : Type 0 where
  pub program : S
  pub quit_flag : Bool
  pub wakeups : ℕ

module _ {S : Type 0} where
  -- A functor without a queue: a call of `queueInLoop` is the end.
  abbrev pub effect : Functor S → Effect S → Result (Effect S)
  effect finish e = ok e
  effect (act f rest) e = do s ← f e.program; effect rest (record e { program = s })
  effect (call_queue_in_loop cb rest) e = fault deadlock
  effect (call_run_in_loop cb rest) e = do e ← effect cb e; effect rest e
  effect (call_quit rest) e = effect rest (record e { quit_flag = true })
  effect (call_handle_read rest) e = effect rest (record e { wakeups = 0 })

  abbrev pub effects : List (Functor S) → Effect S → Result (Effect S)
  effects [] e = ok e
  effects (cb ∷ functors) e = do e ← effect cb e; effects functors e

  abbrev pub effect_of : EventLoop S → Effect S
  effect_of lp = record { program = lp.program; quit_flag = lp.quit_flag; wakeups = lp.wakeups }

  -- The loop with an effect carried out, its queue empty, its mutex held or not.
  abbrev pub with_effect : EventLoop S → Bool → Bool → Effect S → EventLoop S
  with_effect lp calling locked e = record {
    looping = lp.looping;
    quit_flag = e.quit_flag;
    calling_pending_functors = calling;
    wakeups = e.wakeups;
    locked = locked;
    pending_functors = [];
    program = e.program;
  }

  -- With the mutex held, a functor does its effect and nothing else.
  run-effect :
      (lp : EventLoop S) (cb : Functor S) (e : Effect S)
      → run cb (with_effect lp true true e)
        ≡ (do e' ← effect cb e; ok (with_effect lp true true e'))
  unfolding run queue_in_loop quit
  run-effect lp finish e = refl
  run-effect lp (act f rest) e =
      bind_cong (f e.program) _ _ (λ s. run-effect lp rest (record e { program = s }))
      ∙ sym (bind_assoc (f e.program) _ _)
  run-effect lp (call_queue_in_loop cb rest) e = refl
  run-effect lp (call_run_in_loop cb rest) e =
      ap (λ r. r >>= run rest) (run-effect lp cb e)
      ∙ bind_assoc (effect cb e) _ _
      ∙ bind_cong (effect cb e) _ _ (run-effect lp rest)
      ∙ sym (bind_assoc (effect cb e) _ _)
  run-effect lp (call_quit rest) e = run-effect lp rest (record e { quit_flag = true })
  run-effect lp (call_handle_read rest) e = run-effect lp rest (record e { wakeups = 0 })

  run_functors-effects :
      (lp : EventLoop S) (functors : List (Functor S)) (e : Effect S)
      → run_functors functors (with_effect lp true true e)
        ≡ (do e' ← effects functors e; ok (with_effect lp true true e'))
  unfolding run_functors
  run_functors-effects lp [] e = refl
  run_functors-effects lp (cb ∷ functors) e =
      ap (λ r. r >>= run_functors functors) (run-effect lp cb e)
      ∙ bind_assoc (effect cb e) _ _
      ∙ bind_cong (effect cb e) _ _ (run_functors-effects lp functors)
      ∙ sym (bind_assoc (effect cb e) _ _)

  -- On a loop whose mutex is free, `doPendingFunctors` carries out the functors that it finds
  -- queued, each once and in queue order, and leaves the queue empty and the mutex free; where one
  -- of them calls `queueInLoop`, or makes such a call through `runInLoop`, the thread deadlocks
  -- at that call.
  pub do_pending_functors-effects :
      (lp : EventLoop S)
      → lp.locked ≡ false
      → do_pending_functors lp
        ≡ (do e ← effects lp.pending_functors (effect_of lp); ok (with_effect lp false false e))
  unfolding do_pending_functors
  do_pending_functors-effects lp free = rw free (
      ap (λ r. r >>= λ lp'. ok (unlock (record lp' { calling_pending_functors = false })))
        (run_functors-effects lp lp.pending_functors (effect_of lp))
      ∙ bind_assoc (effects lp.pending_functors (effect_of lp)) _ _)
