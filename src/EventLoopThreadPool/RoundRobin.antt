-- ===== src/EventLoopThreadPool/RoundRobin.antt =====
-- `getNextLoop` hands out the loops of the pool in turn.
use yatwb.Base.{
  ℕ, zero, suc, ◌+◌, ◌-◌, ◌≤◌, ◌<◌, ◌≡◌, refl, sym, ap, ap₂, ◌∙◌, true, false, some, List, [], ◌∷◌,
  ◌++◌, length, get_elem?, take, drop, leb, if◌then◌else◌, arith, length-append, append_assoc,
  append-nil, map, take-length_le, length-drop,
}
use yatwb.Base.Int.{pos}
use yatwb.Base.Results.{Result, ok, ◌>>=◌, bind_assoc, bind_cong, bind_ok}
use yatwb.EventLoopThreadPool.{
  EventLoopThreadPool, new_pool, pool_set_thread_num, start_threads, pool_start, get_next_loop,
  is_empty,
}

-- `k` calls in the base loop's thread, with what they return.
abbrev pub next_loops : ℕ → EventLoopThreadPool → Result (List ℕ × EventLoopThreadPool)
next_loops zero pool = ok ([], pool)
next_loops (suc k) pool = do
  (loop, pool) ← get_next_loop true pool
  (loops, pool) ← next_loops k pool
  ok (loop ∷ loops, pool)

abbrev at : EventLoopThreadPool → ℕ → EventLoopThreadPool
at pool i = record pool { next = i }

abbrev wrap : ℕ → ℕ → ℕ
wrap n i = if leb n i then 0 else i

drop-get :
    (xs : List ℕ) (i : ℕ)
    → i < length xs
    → (x : ℕ) × (get_elem? xs i ≡ some x) × (drop i xs ≡ x ∷ drop (suc i) xs)
drop-get [] i h = absurd (omega arith)
drop-get (x ∷ xs) zero h = (x, refl, refl)
drop-get (x ∷ xs) (suc i) h = drop-get xs i (omega arith)

is_empty_lem : (xs : List ℕ) (i : ℕ) → i < length xs → is_empty xs ≡ false
is_empty_lem [] i h = absurd (omega arith)
is_empty_lem (x ∷ xs) i h = refl

one_call :
    (pool : EventLoopThreadPool) (i x : ℕ)
    → i < length pool.loops
    → get_elem? pool.loops i ≡ some x
    → get_next_loop true (at pool i) ≡ ok (x, at pool (wrap (length pool.loops) (suc i)))
unfolding get_next_loop
one_call pool i x h e =
    rw (is_empty_lem pool.loops i h, e)
      (ap (λ (j : ℕ). ok (x, at pool (wrap (length pool.loops) j))) (omega arith))

-- Calls that do not go past the end of the list.
some_calls :
    (pool : EventLoopThreadPool) (k i : ℕ)
    → i < length pool.loops
    → i + k ≤ length pool.loops
    → next_loops k (at pool i)
      ≡ ok (take k (drop i pool.loops), at pool (wrap (length pool.loops) (i + k)))
some_calls pool zero i h le = ap (λ (j : ℕ). ok ([], at pool j)) (ground arith)
some_calls pool (suc zero) i h le =
    let (x, got, rest) = drop-get pool.loops i h in
    rw (one_call pool i x h got, rest)
      (ap (λ (j : ℕ). ok (x ∷ [], at pool (wrap (length pool.loops) j))) (omega arith))
some_calls pool (suc (suc k)) i h le =
    let (x, got, rest) = drop-get pool.loops i h in
    let inside : wrap (length pool.loops) (suc i) ≡ suc i = ground arith in
    rw
      (
        one_call pool i x h got,
        rest,
        inside,
        some_calls pool (suc k) (suc i) (omega arith) (omega arith),
      )
      (ap
        (λ (j : ℕ).
          ok (x ∷ take (suc k) (drop (suc i) pool.loops), at pool (wrap (length pool.loops) j)))
        (omega arith))

abbrev called : ℕ → List ℕ × EventLoopThreadPool → Result (List ℕ × EventLoopThreadPool)
called x (l, pool) = ok (x ∷ l, pool)

-- `b` calls after others that returned the loops `l`.
abbrev more : ℕ → List ℕ × EventLoopThreadPool → Result (List ℕ × EventLoopThreadPool)
more b (l, pool) = do (m, pool) ← next_loops b pool; ok (l ++ m, pool)

next_loops_add :
    (a b : ℕ) (pool : EventLoopThreadPool)
    → next_loops (a + b) pool ≡ (next_loops a pool >>= more b)
next_loops_add zero b pool =
    let e : 0 + b ≡ b = omega arith in rw e (sym (bind_ok (next_loops b pool)))
next_loops_add (suc a) b pool =
    let e : suc a + b ≡ suc (a + b) = omega arith in
    rw e (
      bind_cong (get_next_loop true pool) _ _ (λ r.
        ap (λ s. s >>= called r.0) (next_loops_add a b r.1)
        ∙ bind_assoc (next_loops a r.1) (more b) (called r.0)
        ∙ bind_cong (next_loops a r.1) _ _ (λ t. bind_assoc (next_loops b t.1) _ (called r.0))
        ∙ sym (bind_assoc (next_loops a r.1) (called r.0) (more b)))
      ∙ sym (bind_assoc (get_next_loop true pool) (λ r. next_loops a r.1 >>= called r.0) (more b)))

drop_all : (xs : List ℕ) (i : ℕ) → take (length xs - i) (drop i xs) ≡ drop i xs
drop_all xs i = take-length_le (length xs - i) (drop i xs) (omega (arith, length-drop i xs))

-- From any position, as many calls as the pool has loops return each of them once, from the one at
-- the position on and then those before it, and end at the same position.
pub next_loops_round :
    (pool : EventLoopThreadPool)
    → pool.next < length pool.loops
    → next_loops (length pool.loops) pool
      ≡ ok (drop pool.next pool.loops ++ take pool.next pool.loops, pool)
next_loops_round pool h =
    let n = length pool.loops in
    let e : n ≡ (n - pool.next) + pool.next = omega arith in
    let past : wrap n (pool.next + (n - pool.next)) ≡ 0 = ground arith in
    let back : wrap n (0 + pool.next) ≡ pool.next = ground arith in
    ap (λ k. next_loops k pool) e
    ∙ next_loops_add (n - pool.next) pool.next pool
    ∙ ap (λ r. r >>= more pool.next)
        (some_calls pool (n - pool.next) pool.next h (omega arith)
          ∙ ap (λ j. ok (take (n - pool.next) (drop pool.next pool.loops), at pool j)) past)
    ∙ ap (λ r. r >>= λ t. ok (take (n - pool.next) (drop pool.next pool.loops) ++ t.0, t.1))
        (some_calls pool pool.next 0 (omega arith) (omega arith)
          ∙ ap (λ j. ok (take pool.next pool.loops, at pool j)) back)
    ∙ ap (λ (l : List ℕ). ok (l ++ take pool.next pool.loops, pool)) (drop_all pool.loops pool.next)

-- i, i + 1, … , i + k - 1
abbrev pub numbers : ℕ → ℕ → List ℕ
numbers i zero = []
numbers i (suc k) = i ∷ numbers (suc i) k

length-numbers : (f : ℕ → ℕ) (i k : ℕ) → length (map f (numbers i k)) ≡ k
length-numbers f i zero = refl
length-numbers f i (suc k) = ap suc (length-numbers f (suc i) k)

start_threads_lem :
    (start_loop : ℕ → ℕ) (k i : ℕ) (pool : EventLoopThreadPool)
    → length pool.threads ≡ i
    → start_threads start_loop k pool ≡ record pool {
      threads = pool.threads ++ numbers i k;
      loops = pool.loops ++ map start_loop (numbers i k);
    }
unfolding start_threads
start_threads_lem start_loop zero i pool e =
    ap₂ (λ (t l : List ℕ). record pool { threads = t; loops = l }) (sym (append-nil pool.threads))
      (sym (append-nil pool.loops))
start_threads_lem start_loop (suc k) i pool e = rw e (
    start_threads_lem start_loop k (suc i)
      (record pool { threads = pool.threads ++ i ∷ []; loops = pool.loops ++ start_loop i ∷ [] })
      (omega (arith, length-append pool.threads (i ∷ []), e))
    ∙ ap₂ (λ (t l : List ℕ). record pool { threads = t; loops = l })
        (append_assoc pool.threads (i ∷ []) (numbers (suc i) k))
        (append_assoc pool.loops (start_loop i ∷ []) (map start_loop (numbers (suc i) k))))

-- A pool that started `n` threads, none of whose loops was handed out yet.
abbrev pub started_pool : (ℕ → ℕ) → ℕ → ℕ → EventLoopThreadPool
started_pool start_loop base n = record {
  base_loop = base;
  started = true;
  num_threads = pos n;
  next = 0;
  threads = numbers 0 n;
  loops = map start_loop (numbers 0 n);
}

-- A new pool of `n` threads, at least one, started in the base loop's thread: the next `n` calls of
-- `getNextLoop` there return the loops of its threads, each once and in the order in which they
-- were started, and leave the pool as it was after the start.
pub pool_start-round :
    (start_loop : ℕ → ℕ) (base n : ℕ)
    → 0 < n
    → (do
      pool ← pool_start start_loop true (pool_set_thread_num (pos n) (new_pool base))
      next_loops n pool)
      ≡ ok (map start_loop (numbers 0 n), started_pool start_loop base n)
unfolding pool_start new_pool
pool_start-round start_loop base n h =
    ap (next_loops n) (start_threads_lem start_loop n 0 fresh refl)
    ∙ ap (λ k. next_loops k pool) (sym size)
    ∙ next_loops_round pool (omega (arith, size))
    ∙ ap (λ l. ok (l, pool)) (append-nil pool.loops)
  where
    pool : EventLoopThreadPool
    pool = started_pool start_loop base n

    fresh : EventLoopThreadPool
    fresh = record pool { threads = []; loops = [] }

    size : length pool.loops ≡ n
    size = length-numbers start_loop 0 n
