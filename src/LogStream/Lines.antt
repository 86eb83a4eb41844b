-- ===== src/LogStream/Lines.antt =====
-- What a log line holds: each piece whole or not at all, and always less than the buffer's size.
use yatwb.Base.{
  ℕ, ◌+◌, ◌^◌, ◌<◌, ◌≡◌, refl, ap, ◌∙◌, true, Bool-cases, inl, inr, List, [], ◌∷◌, ◌++◌, length,
  take, ltb, leb, if◌then◌else◌, arith, length-take, length-overwrite, take-length_le,
  take-overwrite,
}
use yatwb.Base.Int.{ltb_ℤ}
use yatwb.Base.Results.{Ensures, Ensures-bind, Ensures-mono}
use yatwb.Buffer.Space.{copy_to_lem}
use yatwb.LogStream.{
  FixedBuffer, text, avail, int_of_size, append_fixed, Inserted, bytes_of, insert_into, insert_all,
}

-- A line of text in a buffer of the size: each piece is taken if it leaves a byte free.
abbrev pub put : ℕ → List ℕ → List ℕ → List ℕ
put size line piece = if ltb (length line + length piece) size then line ++ piece else line

abbrev pub line_of : ℕ → List ℕ → List Inserted → List ℕ
line_of size line [] = line
line_of size line (v ∷ vs) = line_of size (put size line (bytes_of v)) vs

-- At least one byte of the buffer is free, as after the constructor; and an `int` holds its size.
pub record IsRoomy (size : ℕ) (b : FixedBuffer) : Type 0 where
  pub sized : length b.storage ≡ size
  pub room : b.cur < size
  pub small : size < 2 ^ 31

pub IsPut : ℕ → FixedBuffer → List ℕ → FixedBuffer → Type 0
IsPut size b piece b' = IsRoomy size b' × (text b' ≡ put size (text b) piece)

int_test :
    (size : ℕ) (b : FixedBuffer) (n : ℕ)
    → IsRoomy size b
    → n < 2 ^ 31
    → ltb_ℤ (int_of_size n) (avail b) ≡ ltb (b.cur + n) size
int_test size b n v h = ground arith

append_fixed_lem :
    (size : ℕ) (b : FixedBuffer) (piece : List ℕ)
    → IsRoomy size b
    → length piece < 2 ^ 31
    → Ensures (append_fixed b piece (length piece)) (IsPut size b piece)
unfolding append_fixed IsPut
append_fixed_lem size b piece v h = elim (Bool-cases (ltb (b.cur + length piece) size)) [
  | inl fits ↦
      rw
        (
          int_test size b (length piece) v h,
          fits,
          readable,
          whole,
          copy_to_lem b.storage b.cur piece (ground (arith, v.sized)),
        )
        (
          record {
            sized = length-overwrite b.storage b.cur piece ∙ v.sized;
            room = ground arith;
            small = v.small;
          },
          rw (measured, fits)
              (take-overwrite b.storage b.cur piece (b.cur + length piece) refl
                (ground (arith, v.sized))),
        )
  | inr full ↦ rw (int_test size b (length piece) v h, full) (v, rw (measured, full) refl)
]
  where
    readable : leb (length piece) (length piece) ≡ true
    readable = ground arith

    whole : take (length piece) piece ≡ piece
    whole = take-length_le (length piece) piece (omega arith)

    measured : length (take b.cur b.storage) ≡ b.cur
    measured = omega (arith, length-take b.cur b.storage, v.sized, v.room)

insert_into_lem :
    (size : ℕ) (v : Inserted) (b : FixedBuffer)
    → IsRoomy size b
    → length (bytes_of v) < 2 ^ 31
    → Ensures (insert_into v b) (IsPut size b (bytes_of v))
unfolding insert_into
insert_into_lem size v b w h = append_fixed_lem size b (bytes_of v) w h

-- Every piece is shorter than 2 GiB.
abbrev pub AreShort : List Inserted → Type 0
AreShort [] = Unit {0}
AreShort (v ∷ vs) = (length (bytes_of v) < 2 ^ 31) × AreShort vs

-- The text stands in the buffer with a byte to spare.
text_bound : (size : ℕ) (b : FixedBuffer) → IsRoomy size b → length (text b) < size
text_bound size b v = omega (arith, length-take b.cur b.storage, v.sized, v.room)

-- On a buffer with a free byte, whose size an `int` holds, with pieces shorter than 2 GiB: `<<` of
-- the pieces, one after the other, makes no access out of bounds, and leaves a buffer with a free
-- byte, whose text is the one before followed by each piece in turn that still left a byte free
-- when it came, whole, and by nothing of the others.
pub insert_all-IsRoomy :
    (size : ℕ) (vs : List Inserted) (b : FixedBuffer)
    → IsRoomy size b
    → AreShort vs
    → Ensures
        (insert_all vs b)
        (λ b'. IsRoomy size b' × (text b' ≡ line_of size (text b) vs) × (length (text b') < size))
unfolding insert_all IsPut
insert_all-IsRoomy size [] b w h = (w, refl, text_bound size b w)
insert_all-IsRoomy size (v ∷ vs) b w (h, hs) =
    Ensures-bind (IsPut size b (bytes_of v)) _ (insert_into v b) (insert_all vs)
      (insert_into_lem size v b w h)
      (λ b1 (w1, e1).
        Ensures-mono
          (λ b'.
            IsRoomy size b' × (text b' ≡ line_of size (text b1) vs) × (length (text b') < size))
          (λ b'.
            IsRoomy size b'
            × (text b' ≡ line_of size (text b) (v ∷ vs))
            × (length (text b') < size))
          (insert_all vs b1) (insert_all-IsRoomy size vs b1 w1 hs)
          (λ b' (w', e', l'). (w', e' ∙ ap (λ line. line_of size line vs) e1, l')))
