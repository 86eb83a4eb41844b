-- ===== src/Buffer/Queue.antt =====
-- A buffer behind `append`, `retrieve` and `retrieveAsString` is a queue of bytes.
use yatwb.Base.{
  ℕ, ◌+◌, ◌≤◌, ◌<◌, ◌≡◌, refl, sym, inl, inr, List, [], ◌∷◌, ◌++◌, Option, none, some, length, take,
  drop, leb, Bool-cases, arith, leb→le, drop-drop, true, false, ◌⊎◌, if◌then◌else◌,
}
use yatwb.Base.Results.{Result, ok, fault, assert_failed, Ensures, ◌>>=◌}
use yatwb.Buffer.{Buffer, max_size, content, append, retrieve, retrieve_as_string, readable_bytes}
use yatwb.Buffer.Space.{IsValid, length-content}
use yatwb.Buffer.Contents.{append_lem, retrieve_all_lem, IsAppended}

-- What a client of the buffer does: it appends, it looks at `n` bytes and retrieves them, or it
-- takes all.
pub data Op : Type 0 where
  put : (bytes : List ℕ) → Op
  get : (n : ℕ) → Op
  get_all : Op

unfoldable pub step : Buffer → Op → Result (Buffer × List ℕ)
step b (put bytes) = do b' ← append b bytes; ok (b', [])
step b (get n) = do b' ← retrieve b n; ok (b', take n (content b))
step b get_all = ok (retrieve_as_string b)

unfoldable pub run : Buffer → List Op → Result (Buffer × List (List ℕ))
run b [] = ok (b, [])
run b (op ∷ ops) = do one ← step b op; rest ← run one.0 ops; ok (rest.0, one.1 ∷ rest.1)

-- The abstract queue, which refuses to give more than it holds.
unfoldable pub step_queue : List ℕ → Op → Option (List ℕ × List ℕ)
step_queue q (put bytes) = some (q ++ bytes, [])
step_queue q (get n) = if leb n (length q) then some (drop n q, take n q) else none
step_queue q get_all = some ([], q)

bind_queue : {A B : Type 0} → Option A → (A → Option B) → Option B
bind_queue none f = none
bind_queue (some a) f = f a

unfoldable pub run_queue : List ℕ → List Op → Option (List ℕ × List (List ℕ))
unfolding bind_queue
run_queue q [] = some (q, [])
run_queue q (op ∷ ops) =
    bind_queue (step_queue q op)
      λ one. bind_queue (run_queue one.0 ops) λ rest. some (rest.0, one.1 ∷ rest.1)

-- The number of bytes that the calls append.
abbrev pub total : List Op → ℕ
total [] = 0
total (put bytes ∷ ops) = length bytes + total ops
total (_ ∷ ops) = total ops

-- The same replies and the same content left in a valid buffer that has written up to `n` at most,
-- or a failed assertion where the queue refuses.
abbrev pub Agrees : {R : Type 0} → ℕ → Option (List ℕ × R) → Result (Buffer × R) → Type 0
Agrees n (some q) (ok b) = IsValid b.0 × (content b.0 ≡ q.0) × (b.1 ≡ q.1) × (b.0.writer_idx ≤ n)
Agrees n none (fault assert_failed) = Unit
Agrees n _ _ = ⊥

Agrees-append :
    (b : Buffer) (bytes : List ℕ) (n : ℕ) (m : Result Buffer)
    → Ensures m (IsAppended b bytes)
    → b.writer_idx + length bytes ≤ n
    → Agrees {R = List ℕ} n (some (content b ++ bytes, [])) (do b' ← m; ok (b', []))
Agrees-append b bytes n (ok b') a h = (a.0, a.1, refl, omega arith)
Agrees-append b bytes n (fault e) a h = absurd a

-- `retrieve` by its test.
retrieve_cases :
    (b : Buffer) (n : ℕ)
    → IsValid b
    → ((n ≤ length (content b)) × (retrieve b n ≡ ok (record b { reader_idx = b.reader_idx + n })))
      ⊎ ((length (content b) < n) × (retrieve b n ≡ fault assert_failed))
unfolding retrieve
retrieve_cases b n v = elim (Bool-cases (leb n (readable_bytes b))) [
  | inl can ↦ inl (omega (arith, leb→le n (readable_bytes b) can, length-content b v), ground arith)
  | inr cannot ↦ inr (ground (arith, length-content b v), rw cannot)
]

step-Agrees :
    (b : Buffer) (op : Op)
    → IsValid b
    → b.writer_idx + total (op ∷ []) ≤ max_size
    → Agrees (b.writer_idx + total (op ∷ [])) (step_queue (content b) op) (step b op)
unfolding step step_queue retrieve_as_string
step-Agrees b (put bytes) v h =
    Agrees-append b bytes _ (append b bytes) (append_lem b bytes v (omega arith)) (omega arith)
step-Agrees b (get n) v h = elim (retrieve_cases b n v) [
  | inl (le, e) ↦
      let t : leb n (length (content b)) ≡ true = ground arith in
      rw (t, e)
        (
          omega (arith, length-content b v),
          sym (drop-drop b.reader_idx n (b.reader_idx + n) (take b.writer_idx b.buffer) refl),
          refl,
          omega arith,
        )
  | inr (lt, e) ↦ let t : leb n (length (content b)) ≡ false = ground arith in rw (t, e) tt
]
step-Agrees b get_all v h = let (v', e, le) = retrieve_all_lem b v in (v', e, refl, omega arith)

Agrees-bind :
    {R S : Type 0} (n k : ℕ) (q : Option (List ℕ × R)) (m : Result (Buffer × R))
    (f : List ℕ × R → Option (List ℕ × S)) (g : Buffer × R → Result (Buffer × S))
    → Agrees n q m
    → ((b : Buffer) (r : R) → IsValid b → b.writer_idx ≤ n → Agrees k (f (content b, r)) (g (b, r)))
    → Agrees k (bind_queue q f) (m >>= g)
unfolding bind_queue
Agrees-bind n k (some (q, r)) (ok (b, s)) f g a h = rw (← a.1, ← a.2) (h b s a.0 a.3)
Agrees-bind n k none (fault assert_failed) f g a h = tt
Agrees-bind n k none (fault _) f g a h = a
Agrees-bind n k none (ok (b, s)) f g a h = absurd a
Agrees-bind n k (some q) (fault e) f g a h = absurd a

Agrees-mono :
    {R : Type 0} (n k : ℕ) (q : Option (List ℕ × R)) (m : Result (Buffer × R))
    → Agrees n q m
    → n ≤ k
    → Agrees k q m
Agrees-mono n k (some q) (ok b) a h = (a.0, a.1, a.2, omega arith)
Agrees-mono n k none (fault assert_failed) a h = tt
Agrees-mono n k none (fault _) a h = a
Agrees-mono n k none (ok b) a h = absurd a
Agrees-mono n k (some q) (fault e) a h = absurd a

total-cons : (op : Op) (ops : List Op) → total (op ∷ ops) ≡ total (op ∷ []) + total ops
total-cons (put bytes) ops = omega arith
total-cons (get n) ops = omega arith
total-cons get_all ops = omega arith

-- Any sequence of calls on a valid buffer gives the replies of the queue of its readable bytes and
-- leaves the queue's bytes in a valid buffer, or stops at a failed assertion exactly where the
-- queue refuses. The appended bytes, together with what was written before, must fit a vector.
pub run-Agrees :
    (b : Buffer) (ops : List Op)
    → IsValid b
    → b.writer_idx + total ops ≤ max_size
    → Agrees (b.writer_idx + total ops) (run_queue (content b) ops) (run b ops)
unfolding run run_queue
run-Agrees b [] v h = (v, refl, refl, omega arith)
run-Agrees b (op ∷ ops) v h =
    Agrees-bind (b.writer_idx + total (op ∷ [])) (b.writer_idx + total (op ∷ ops))
      (step_queue (content b) op) (step b op) _ _
      (step-Agrees b op v (omega (arith, total-cons op ops)))
      (λ b' r v' le.
        Agrees-bind (b.writer_idx + total (op ∷ ops)) (b.writer_idx + total (op ∷ ops))
          (run_queue (content b') ops) (run b' ops) _ _
          (Agrees-mono (b'.writer_idx + total ops) (b.writer_idx + total (op ∷ ops)) _ (run b' ops)
            (run-Agrees b' ops v' (omega (arith, total-cons op ops)))
            (omega (arith, total-cons op ops)))
          (λ b'' r' v'' le'. (v'', refl, refl, le')))
