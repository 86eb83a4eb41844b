-- ===== src/LogStream/Tests.antt =====
-- Runs of the log stream, and its theorems at concrete inputs.
use yatwb.Base.{
  ℕ, ◌^◌, ◌≡◌, refl, List, [], ◌∷◌, true, none, some, replicate, length, length-replicate, arith,
  ◌<◌,
}
use yatwb.Base.Results.{ok, fault, bad_access, Ensures, ◌>>=◌}
use yatwb.LogStream.{
  FixedBuffer, new_fixed_buffer, text, add, append_fixed, bool_of, char_of, c_str_of, string_of,
  insert_all, insert_into,
}
use yatwb.LogStream.Lines.{IsRoomy, insert_all-IsRoomy}
use yatwb.LogStream.Overflow.{append_fixed-overflow}
use yatwb.Buffer.{copy_to}

abbrev five : FixedBuffer
five = new_fixed_buffer 5

-- The second piece would fill the buffer and is dropped, the third still fits.
fills :
    (do
      b ← insert_all (bool_of true ∷ string_of (97 ∷ 98 ∷ 99 ∷ 100 ∷ []) ∷ char_of 120 ∷ []) five
      ok (text b))
    ≡ ok (49 ∷ 120 ∷ [])
unfolding insert_all insert_into append_fixed copy_to
fills = refl

-- `add` moves beyond the end, and then nothing is taken any more.
added_beyond : append_fixed (add five 9) (49 ∷ []) 1 ≡ ok (add five 9)
unfolding append_fixed
added_beyond = refl

insert_all-IsRoomy_example :
    Ensures
      (insert_all (c_str_of none ∷ c_str_of (some (97 ∷ [])) ∷ []) five)
      (λ b'. IsRoomy 5 b' × (text b' ≡ 97 ∷ []) × (length (text b') < 5))
insert_all-IsRoomy_example =
    insert_all-IsRoomy 5 (c_str_of none ∷ c_str_of (some (97 ∷ [])) ∷ []) five (omega arith)
      (omega arith)

-- A text of any length.
text_of_length : (n : ℕ) → (buf : List ℕ) × (length buf ≡ n)
text_of_length n = (replicate n 97, length-replicate n 97)

append_fixed-overflow_example :
    append_fixed five (text_of_length (2 ^ 31)).0 (2 ^ 31) ≡ fault bad_access
append_fixed-overflow_example =
    append_fixed-overflow 5 five (text_of_length (2 ^ 31)).0 (2 ^ 31) (omega arith) (omega arith)
      (omega arith) (omega (arith, (text_of_length (2 ^ 31)).1))
