-- ===== src/Buffer/Shrink.antt =====
-- `shrink` copies the readable bytes to the cheap prepend offset of a new vector, and leaves both
-- indices as they were.
use yatwb.Base.{
  ℕ, ◌+◌, ◌-◌, ◌≤◌, ◌≡◌, ◌↔◌, ap, ◌∙◌, drop, take, length, overwrite, replicate, length-replicate,
  length-overwrite, slice-overwrite_self, leb, arith, true,
}
use yatwb.Base.Results.{ok, Ensures}
use yatwb.Buffer.{
  Buffer, cheap_prepend_size, max_size, content, readable_bytes, writable_bytes, shrink, add_size,
}
use yatwb.Buffer.Space.{IsValid, copy_to_lem, length-content}

abbrev shrunk_size : Buffer → ℕ → ℕ
shrunk_size b reserve = cheap_prepend_size + (b.writer_idx - b.reader_idx) + reserve

abbrev shrunk : Buffer → ℕ → Buffer
shrunk b reserve = record b {
  buffer = overwrite (replicate (shrunk_size b reserve) 0) cheap_prepend_size (content b);
}

module _ (b : Buffer) (reserve : ℕ) where
  length-shrunk : length (shrunk b reserve).buffer ≡ (shrunk_size b reserve)
  length-shrunk = omega (
    arith,
    length-overwrite (replicate (shrunk_size b reserve) 0) cheap_prepend_size (content b),
    length-replicate {A = ℕ} (shrunk_size b reserve) 0,
  )

  shrink_lem :
      IsValid b → (shrunk_size b reserve) ≤ max_size → shrink b reserve ≡ ok (shrunk b reserve)
  unfolding shrink
  shrink_lem v h =
      let e : add_size (add_size cheap_prepend_size (readable_bytes b)) reserve
          ≡ (shrunk_size b reserve) =
        omega arith in
      let fits : leb (shrunk_size b reserve) max_size ≡ true = ground arith in
      rw (
        e,
        fits,
        copy_to_lem (replicate (shrunk_size b reserve) 0) cheap_prepend_size (content b)
            (omega (arith, length-content b v, length-replicate {A = ℕ} (shrunk_size b reserve) 0)),
      )

-- On a valid buffer, where the new vector's size is within the limit: `shrink` succeeds, and leaves
-- a valid buffer exactly when the reader had moved at most `reserve` bytes past the cheap prepend
-- area.
pub shrink-IsValid_iff :
    (b : Buffer) (reserve : ℕ)
    → IsValid b
    → cheap_prepend_size + readable_bytes b + reserve ≤ max_size
    → Ensures (shrink b reserve) (λ b'. IsValid b' ↔ (b.reader_idx ≤ cheap_prepend_size + reserve))
shrink-IsValid_iff b reserve v h = rw (shrink_lem b reserve v (omega arith)) (
  λ v'. omega (arith, v'.within, length-shrunk b reserve),
  λ le. omega (arith, length-shrunk b reserve),
)

-- On a valid buffer whose reader stands at the cheap prepend offset, where the new vector's size
-- is within the limit: `shrink` succeeds, keeps the content and leaves `reserve` writable bytes.
pub shrink-content :
    (b : Buffer) (reserve : ℕ)
    → IsValid b
    → b.reader_idx ≡ cheap_prepend_size
    → cheap_prepend_size + readable_bytes b + reserve ≤ max_size
    → Ensures (shrink b reserve) (λ b'. (content b' ≡ content b) × (writable_bytes b' ≡ reserve))
shrink-content b reserve v e h = rw (shrink_lem b reserve v (omega arith)) (
  ap (λ r. drop r (take b.writer_idx (shrunk b reserve).buffer)) e
      ∙ (slice-overwrite_self (replicate (shrunk_size b reserve) 0) cheap_prepend_size (content b)
          b.writer_idx (omega (arith, length-content b v))
          (omega (arith, length-replicate {A = ℕ} (shrunk_size b reserve) 0))),
  omega (arith, length-shrunk b reserve),
)
