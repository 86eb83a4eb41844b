-- ===== src/EventLoop/Tests.antt =====
-- Runs of the loop, and its theorems at concrete inputs, over a program that is a number.
use yatwb.Base.{ℕ, zero, suc, ◌+◌, ◌≡◌, refl, [], ◌∷◌, false, true, List}
use yatwb.Base.Results.{Result, ok, fault, deadlock, ◌>>=◌}
use yatwb.Poller.{PollOutcome, poll_failed}
use yatwb.EventLoop.{
  EventLoop, Functor, finish, act, call_queue_in_loop, call_run_in_loop, call_quit,
  call_handle_read, new_event_loop, queue_in_loop, run, run_functors, do_pending_functors, quit,
  loop, iterate, dispatch, handle_active,
}
use yatwb.EventLoop.Pending.{effects, effect_of, with_effect, do_pending_functors-effects}

-- Adds to the program; adds and then quits; queues another.
abbrev adds : ℕ → Functor ℕ
adds n = act (λ k. ok (k + n)) finish

abbrev last : Functor ℕ
last = call_run_in_loop (adds 2) (call_quit finish)

abbrev queues : Functor ℕ
queues = call_queue_in_loop (adds 1) finish

abbrev quiet_poll : PollOutcome → ℕ → Result (List ℕ × ℕ)
quiet_poll outcome k = ok ([], k)

-- Channel 0 wakes up, channel 1 queues `last`.
abbrev poll_both : PollOutcome → ℕ → Result (List ℕ × ℕ)
poll_both outcome k = ok (0 ∷ 1 ∷ [], k)

abbrev handlers : ℕ → Functor ℕ
handlers zero = call_handle_read finish
handlers (suc c) = call_queue_in_loop last finish

abbrev two_queued : EventLoop ℕ
two_queued = record (new_event_loop false 3) { pending_functors = adds 1 ∷ last ∷ [] }

abbrev one_queued : EventLoop ℕ
one_queued = record {
  looping = true;
  quit_flag = false;
  calling_pending_functors = false;
  wakeups = 1;
  locked = false;
  pending_functors = last ∷ [];
  program = 0;
}

-- A functor that queues another stops the thread for good.
queues_deadlock :
    do_pending_functors
      (record (new_event_loop false 3) { pending_functors = adds 1 ∷ queues ∷ [] })
    ≡ fault deadlock
unfolding do_pending_functors new_event_loop run_functors run queue_in_loop
queues_deadlock = refl

-- The callback of channel 1 queues `last`, which runs in the same iteration and ends the loop.
loop_ends :
    loop poll_both handlers true (poll_failed ∷ poll_failed ∷ []) (new_event_loop false 0)
    ≡ ok (record (new_event_loop false 2) { quit_flag = true })
unfolding loop iterate do_pending_functors new_event_loop run_functors run queue_in_loop dispatch
    handle_active quit
loop_ends = refl

do_pending_functors-effects_example : do_pending_functors two_queued ≡ (do
  e ← effects (adds 1 ∷ last ∷ []) (effect_of two_queued)
  ok (with_effect two_queued false false e))
unfolding new_event_loop
do_pending_functors-effects_example = do_pending_functors-effects two_queued refl
