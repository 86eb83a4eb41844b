-- ===== src/Buffer/Contents.antt =====
-- The readable bytes of a valid buffer, under each operation: a queue of bytes with a free front.
use yatwb.Base.{
  ℕ, ◌+◌, ◌-◌, ◌%◌, ◌^◌, ◌≤◌, ◌≡◌, refl, ap, ◌∙◌, List, [], ◌++◌, length, take, drop, overwrite,
  length-overwrite, slice-overwrite, slice-overwrite_after, drop-drop, drop-take_self, arith,
}
use yatwb.Base.Results.{Ensures, Ensures-bind}
use yatwb.Buffer.{
  Buffer, cheap_prepend_size, max_size, content, readable_bytes, retrieve, retrieve_all,
  ensure_writable_bytes, has_written, append, prepend, add_size, sub_size,
}
use yatwb.Buffer.Space.{IsValid, IsGrown, copy_to_lem, ensure_writable_bytes_lem}

pub retrieve_lem :
    (b : Buffer) (len : ℕ)
    → IsValid b
    → len ≤ readable_bytes b
    → Ensures (retrieve b len) (λ b'. IsValid b' × (content b' ≡ drop len (content b)))
unfolding retrieve
retrieve_lem b len v h =
    ground (arith, drop-drop b.reader_idx len (b.reader_idx + len) (take b.writer_idx b.buffer))

-- `retrieveAll` empties the buffer and puts both indices at the start.
pub retrieve_all_lem :
    (b : Buffer)
    → IsValid b
    → IsValid (retrieve_all b)
      × (content (retrieve_all b) ≡ [])
      × ((retrieve_all b).writer_idx ≤ b.writer_idx)
unfolding retrieve_all
retrieve_all_lem b v = (omega arith, drop-take_self cheap_prepend_size b.buffer, v.cheap)

-- A valid buffer that holds the content of `b` and then `bytes`, and has written no further.
abbrev pub IsAppended : Buffer → List ℕ → Buffer → Type 0
IsAppended b bytes b' =
    IsValid b' × (content b' ≡ content b ++ bytes) × (b'.writer_idx ≤ b.writer_idx + length bytes)

pub overwrite-IsAppended :
    (b : Buffer) (bytes : List ℕ)
    → IsValid b
    → b.writer_idx + length bytes ≤ length b.buffer
    → IsAppended b bytes (record b {
      buffer = overwrite b.buffer b.writer_idx bytes;
      writer_idx = add_size b.writer_idx (length bytes);
    })
overwrite-IsAppended b bytes v h =
    let e : (b.writer_idx + length bytes) % 2 ^ 64 ≡ b.writer_idx + length bytes = omega arith in
    rw e (
      ground (arith, length-overwrite b.buffer b.writer_idx bytes),
      slice-overwrite b.buffer b.writer_idx b.reader_idx bytes _ refl h v.ordered,
      omega arith,
    )

-- On a valid buffer with room for the bytes within a vector's limit, `append` succeeds, leaves a
-- valid buffer that holds the content followed by the bytes, whichever way it finds room, and has
-- written no further than the old writer index and the bytes.
pub append_lem :
    (b : Buffer) (bytes : List ℕ)
    → IsValid b
    → b.writer_idx + length bytes ≤ max_size
    → Ensures (append b bytes) (IsAppended b bytes)
unfolding append
append_lem b bytes v h =
    Ensures-bind (IsGrown b (length bytes)) (IsAppended b bytes)
      (ensure_writable_bytes b (length bytes)) _ (ensure_writable_bytes_lem b (length bytes) v h)
      (λ b' g. rw (copy_to_lem b'.buffer b'.writer_idx bytes g.2) (placed b' g))
  where
    placed :
        (b' : Buffer)
        → IsGrown b (length bytes) b'
        → IsAppended b bytes (
            has_written
              (record b' { buffer = overwrite b'.buffer b'.writer_idx bytes })
              (length bytes))
    placed b' g =
        let (v', e, le) = overwrite-IsAppended b' bytes g.0 g.2 in
        (v', e ∙ ap (λ (c : List ℕ). c ++ bytes) g.1, omega (arith, g.3))

-- On a valid buffer, at most as many bytes as stand before the reader index: `prepend` succeeds and
-- leaves a valid buffer that holds the bytes followed by the content.
pub prepend_lem :
    (b : Buffer) (bytes : List ℕ)
    → IsValid b
    → length bytes ≤ b.reader_idx
    → Ensures (prepend b bytes) (λ b'. IsValid b' × (content b' ≡ bytes ++ content b))
unfolding prepend
prepend_lem b bytes v h =
    let e : sub_size b.reader_idx (length bytes) ≡ b.reader_idx - length bytes = omega arith in
    rw e (
      rw (copy_to_lem b.buffer (b.reader_idx - length bytes) bytes (omega arith)) (
        ground (
          arith,
          length-overwrite b.buffer (b.reader_idx - length bytes) bytes,
          slice-overwrite_after b.buffer (b.reader_idx - length bytes) bytes b.reader_idx
              b.writer_idx,
        )))
