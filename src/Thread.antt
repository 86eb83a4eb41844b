-- ===== src/Thread.antt =====
-- src/include/thread.h and src/thread.cpp: the object of a thread, its names, and what it does to the
-- pthread that it makes. What the new thread and its creator do to each other is in EventLoopThread.
-- `created`, `joins` and `detached` count the successful calls of `pthread_create` and those of
-- `pthread_join` and `pthread_detach`. A name is the list of its bytes.
pub mod Reclaim
pub mod Names
mod Tests
use yatwb.Base.{ℕ, suc, ◌+◌, Bool, true, false, not, ◌&&◌, List, [], ◌∷◌, ◌++◌, ltb, if◌then◌else◌}
use yatwb.Base.Decimal.{decimal}
use yatwb.Base.Results.{Result, ok, assert, ◌>>=◌, ◌>>◌}
use yatwb.Base.Text.{c_string, snprintf}

pub record Thread : Type 0 where
  pub started : Bool
  pub joined : Bool
  pub name : List ℕ
  pub created : ℕ
  pub joins : ℕ
  pub detached : ℕ

-- The constructor, with `num_created_`, which it counts up.
abbrev pub new_thread : List ℕ → ℕ → Thread × ℕ
new_thread name num_created = (
  record { started = false; joined = false; name = name; created = 0; joins = 0; detached = 0 },
  suc num_created,
)

-- `"Thread"`
abbrev pub thread_text : List ℕ
thread_text = 84 ∷ 104 ∷ 114 ∷ 101 ∷ 97 ∷ 100 ∷ []

abbrev pub is_empty_name : List ℕ → Bool
is_empty_name [] = true
is_empty_name (x ∷ xs) = false

-- `setDefaultName()`, with `num_created_`.
unfoldable pub set_default_name : ℕ → Thread → Thread
set_default_name num_created t =
    if is_empty_name t.name
    then record t { name = c_string (snprintf 32 (thread_text ++ decimal num_created)) }
    else t

-- The name that `runInThread` gives the running thread.
unfoldable pub running_name : Thread → List ℕ
running_name t = if is_empty_name t.name then thread_text else t.name

-- `start()`, with whether `pthread_create` makes a thread, and the id that this one writes before it
-- counts the latch down.
unfoldable pub start : Bool → ℕ → Thread → Result Thread
start makes tid t = do
  assert (not t.started)
  let t' = record t { started = true; created = t.created + 1 }
  if makes then (do assert (ltb 0 tid); ok t') else ok (record t { started = false })

-- `join()`
unfoldable pub join : Thread → Result Thread
join t = do
  assert t.started
  assert (not t.joined)
  ok (record t { joined = true; joins = t.joins + 1 })

-- The destructor.
unfoldable pub destroy : Thread → Thread
destroy t = if t.started && not t.joined then record t { detached = t.detached + 1 } else t
