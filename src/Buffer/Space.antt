-- ===== src/Buffer/Space.antt =====
-- The invariant of a buffer, its readable bytes, and how `ensureWritableBytes` makes room.
use yatwb.Base.{
  ℕ, ◌+◌, ◌-◌, ◌%◌, ◌^◌, ◌≤◌, ◌<◌, ◌≡◌, refl, ap, inl, inr, List, ◌++◌, length, take, drop,
  replicate, overwrite, length-append, length-take, length-drop, length-replicate, length-overwrite,
  take-append_le, take-length_le, slice-overwrite_self, ltb, leb, Bool-cases, arith,
}
use yatwb.Base.Results.{ok, assert, Ensures, Ensures-bind, ◌>>◌}
use yatwb.Buffer.{
  Buffer, cheap_prepend_size, max_size, content, readable_bytes, writable_bytes, prependable_bytes,
  add_size, copy_to, resize, grow, move_to_front, make_space, ensure_writable_bytes,
}

-- 0 <= readerIndex <= writerIndex <= size, as the picture in buffer.h has it.
pub record IsValid (b : Buffer) : Type 0 where
  pub ordered : b.reader_idx ≤ b.writer_idx
  pub within : b.writer_idx ≤ length b.buffer
  pub bounded : length b.buffer ≤ max_size
  pub cheap : cheap_prepend_size ≤ b.writer_idx

pub length-content : (b : Buffer) → IsValid b → length (content b) ≡ b.writer_idx - b.reader_idx
length-content b v = omega (
  arith,
  v,
  length-drop b.reader_idx (take b.writer_idx b.buffer),
  length-take b.writer_idx b.buffer,
)

pub readable_bytes-content : (b : Buffer) → IsValid b → readable_bytes b ≡ length (content b)
readable_bytes-content b v = omega (arith, length-content b v)

pub copy_to_lem :
    (buf : List ℕ) (i : ℕ) (bytes : List ℕ)
    → i + length bytes ≤ length buf
    → copy_to buf i bytes ≡ ok (overwrite buf i bytes)
unfolding copy_to
copy_to_lem buf i bytes h = ground arith

-- The content of a buffer whose vector starts with the same bytes.
content-prefix :
    (b : Buffer) (buf : List ℕ)
    → take b.writer_idx buf ≡ take b.writer_idx b.buffer
    → content (record b { buffer = buf }) ≡ content b
content-prefix b buf e = ap (drop b.reader_idx) e

grown : (buf : List ℕ) (n : ℕ) → List ℕ
grown buf n = take n buf ++ replicate (n - length buf) 0

length-grown : (buf : List ℕ) (n : ℕ) → length (grown buf n) ≡ n
unfolding grown
length-grown buf n = omega (
  arith,
  length-append (take n buf) (replicate (n - length buf) 0),
  length-take n buf,
  length-replicate {A = ℕ} (n - length buf) 0,
)

take-grown :
    (buf : List ℕ) (n w : ℕ) → w ≤ length buf → length buf ≤ n → take w (grown buf n) ≡ take w buf
unfolding grown
take-grown buf n w h k =
    rw (take-length_le n buf k) (take-append_le w buf (replicate (n - length buf) 0) h)

grow_lem :
    (b : Buffer) (len : ℕ)
    → b.writer_idx + len ≤ max_size
    → grow b len ≡ ok (record b { buffer = grown b.buffer (b.writer_idx + len) })
unfolding grow resize grown
grow_lem b len h =
    let e : (b.writer_idx + len) % 2 ^ 64 ≡ b.writer_idx + len = omega arith in rw e (ground arith)

-- A buffer with the same content, and room for `len` more bytes.
abbrev pub IsGrown : Buffer → ℕ → Buffer → Type 0
IsGrown b len b' =
    IsValid b'
    × (content b' ≡ content b)
    × (b'.writer_idx + len ≤ length b'.buffer)
    × (b'.writer_idx ≤ b.writer_idx)

grow-content :
    (b : Buffer) (len : ℕ)
    → IsValid b
    → b.writer_idx + len ≤ max_size
    → length b.buffer ≤ b.writer_idx + len
    → IsGrown b len (record b { buffer = grown b.buffer (b.writer_idx + len) })
grow-content b len v h k = (
  ground (arith, length-grown b.buffer (b.writer_idx + len)),
  content-prefix b (grown b.buffer (b.writer_idx + len))
      (take-grown b.buffer (b.writer_idx + len) b.writer_idx v.within k),
  ground (arith, length-grown b.buffer (b.writer_idx + len)),
  omega arith,
)

moved : Buffer → Buffer
moved b = record {
  buffer = overwrite b.buffer cheap_prepend_size (content b);
  reader_idx = cheap_prepend_size;
  writer_idx = cheap_prepend_size + (b.writer_idx - b.reader_idx);
}

move_to_front_lem :
    (b : Buffer) → IsValid b → cheap_prepend_size < b.reader_idx → move_to_front b ≡ ok (moved b)
unfolding move_to_front moved
move_to_front_lem b v h =
    rw (copy_to_lem b.buffer 8 (content b) (omega (arith, length-content b v))) (ground arith)

moved-content :
    (b : Buffer) (len : ℕ)
    → IsValid b
    → cheap_prepend_size < b.reader_idx
    → b.writer_idx + len + 8 ≤ length b.buffer + b.reader_idx
    → IsGrown b len (moved b)
unfolding moved
moved-content b len v h k = (
  ground (arith, length-overwrite b.buffer 8 (content b)),
  slice-overwrite_self b.buffer 8 (content b) (8 + (b.writer_idx - b.reader_idx))
      (omega (arith, length-content b v)) (omega arith),
  ground (arith, length-overwrite b.buffer 8 (content b)),
  omega arith,
)

-- On a valid buffer that has no room for `len` bytes, where they fit a vector: `makeSpace` fails no
-- assertion, and leaves a valid buffer with the same content and room for `len` bytes.
pub make_space_lem :
    (b : Buffer) (len : ℕ)
    → IsValid b
    → b.writer_idx + len ≤ max_size
    → length b.buffer < b.writer_idx + len
    → Ensures (make_space b len) (IsGrown b len)
unfolding make_space
make_space_lem b len v h k =
    elim (Bool-cases
      (ltb (add_size (writable_bytes b) (prependable_bytes b)) (add_size len cheap_prepend_size))) [
        | inl few ↦ rw few (rw (grow_lem b len h) (grow-content b len v h (omega arith)))
        | inr enough ↦
            let room : b.writer_idx + len + 8 ≤ length b.buffer + b.reader_idx = ground arith in
            rw enough
              (rw (move_to_front_lem b v (omega arith)) (moved-content b len v (omega arith) room))
      ]

pub ensure_writable_bytes_lem :
    (b : Buffer) (len : ℕ)
    → IsValid b
    → b.writer_idx + len ≤ max_size
    → Ensures (ensure_writable_bytes b len) (IsGrown b len)
unfolding ensure_writable_bytes
ensure_writable_bytes_lem b len v h = elim (Bool-cases (ltb (writable_bytes b) len)) [
  | inl few ↦ rw few (
      Ensures-bind (IsGrown b len) (IsGrown b len) (make_space b len) _
        (make_space_lem b len v h (ground arith)) (checked b len))
  | inr enough ↦ rw enough (checked b len b (v, refl, ground arith, omega arith))
]
  where
    checked :
        (b : Buffer) (len : ℕ) (b' : Buffer)
        → IsGrown b len b'
        → Ensures (assert (leb len (writable_bytes b')) >> ok b') (IsGrown b len)
    checked b len b' g = ground arith
