-- ===== src/Buffer/Reads.antt =====
-- `readFd`: what `readv` delivers is appended, whether or not it spills into the stack buffer.
use yatwb.Base.{
  ℕ, ◌+◌, ◌-◌, ◌≤◌, ◌<◌, ◌≡◌, refl, ap, ◌∙◌, inl, inr, List, ◌++◌, length, take, drop, overwrite,
  length-take, length-drop, length-overwrite, take-append-drop, leb, Bool-cases, arith,
  append_assoc, true,
}
use yatwb.Base.Results.{Ensures, Ensures-bind}
use yatwb.Buffer.{
  Buffer, max_size, extrabuf_size, content, add_size, writable_bytes, append, read_bytes, SysCount,
  count, read_fd,
}
use yatwb.Buffer.Space.{IsValid, copy_to_lem}
use yatwb.Buffer.Contents.{IsAppended, overwrite-IsAppended, append_lem}

abbrev pub IsRead : Buffer → List ℕ → Buffer × SysCount → Type 0
IsRead b bytes r = IsAppended b bytes r.0 × (r.1 ≡ count (length bytes))

-- The vector filled to its end by the first part of a read.
abbrev filled : Buffer → List ℕ → Buffer
filled b bytes = record b {
  buffer = overwrite b.buffer b.writer_idx (take (writable_bytes b) bytes);
  writer_idx = length (overwrite b.buffer b.writer_idx (take (writable_bytes b) bytes));
}

filled-IsAppended :
    (b : Buffer) (bytes : List ℕ)
    → IsValid b
    → writable_bytes b < length bytes
    → IsAppended b (take (writable_bytes b) bytes) (filled b bytes)
filled-IsAppended b bytes v h =
    let n : length (take (writable_bytes b) bytes) ≡ writable_bytes b =
      omega (arith, length-take (writable_bytes b) bytes) in
    let e : length (overwrite b.buffer b.writer_idx (take (writable_bytes b) bytes))
        ≡ add_size b.writer_idx (length (take (writable_bytes b) bytes)) =
      omega (arith, n, length-overwrite b.buffer b.writer_idx (take (writable_bytes b) bytes)) in
    rw e (overwrite-IsAppended b (take (writable_bytes b) bytes) v (omega arith))

spilled-IsRead :
    (b b' : Buffer) (bytes : List ℕ)
    → IsValid b
    → writable_bytes b < length bytes
    → IsAppended (filled b bytes) (drop (writable_bytes b) bytes) b'
    → IsRead b bytes (b', count (length bytes))
spilled-IsRead b b' bytes v h (v', e, le) =
    let f = filled-IsAppended b bytes v h in
    (
      (
        v',
        e
            ∙ ap (λ (c : List ℕ). c ++ drop (writable_bytes b) bytes) f.1
            ∙ append_assoc (content b) _ _
            ∙ ap (◌++◌ (content b)) (take-append-drop (writable_bytes b) bytes),
        omega
            (arith, f, length-drop (writable_bytes b) bytes, length-take (writable_bytes b) bytes),
      ),
      refl,
    )

-- On a valid buffer, where `readv` delivers no more than the writable bytes and the stack buffer
-- hold, and a vector may grow by the stack buffer's size: `readFd` succeeds, appends exactly the
-- bytes delivered, whether or not they spill, and returns their count.
pub read_fd_lem :
    (b : Buffer) (bytes : List ℕ)
    → IsValid b
    → length bytes ≤ writable_bytes b + extrabuf_size
    → length b.buffer + extrabuf_size ≤ max_size
    → Ensures (read_fd b (read_bytes bytes)) (IsRead b bytes)
unfolding read_fd
read_fd_lem b bytes v h k = elim (Bool-cases (leb (length bytes) (writable_bytes b))) [
  | inl fits ↦
      rw (fits, copy_to_lem b.buffer b.writer_idx bytes (ground arith))
        (overwrite-IsAppended b bytes v (ground arith), refl)
  | inr spills ↦
      let over : writable_bytes b < length bytes = ground arith in
      let small : leb (length bytes - writable_bytes b) extrabuf_size ≡ true = ground arith in
      let f = filled-IsAppended b bytes v over in
      rw
        (
          spills,
          small,
          copy_to_lem b.buffer b.writer_idx (take (writable_bytes b) bytes)
              (omega (arith, length-take (writable_bytes b) bytes)),
        )
        (Ensures-bind (IsAppended (filled b bytes) (drop (writable_bytes b) bytes)) (IsRead b bytes)
          (append (filled b bytes) (drop (writable_bytes b) bytes)) _
          (append_lem (filled b bytes) (drop (writable_bytes b) bytes) f.0 (
            omega (
              arith,
              f,
              length-drop (writable_bytes b) bytes,
              length-take (writable_bytes b) bytes,
            )))
          (λ b' g. spilled-IsRead b b' bytes v over g))
]
