-- ===== src/LogStream/Overflow.antt =====
-- The test of `append` casts the length to an `int`: from 2 GiB to 4 GiB it is negative and passes.
use yatwb.Base.{
  ℕ, ◌+◌, ◌^◌, ◌≤◌, ◌<◌, ◌≡◌, refl, List, length, take, length-take, leb, true, false, arith,
}
use yatwb.Base.Int.{ltb_ℤ}
use yatwb.Base.Results.{fault, bad_access}
use yatwb.Buffer.{copy_to}
use yatwb.LogStream.{FixedBuffer, append_fixed, int_of_size, avail}
use yatwb.LogStream.Lines.{IsRoomy}

-- On a buffer with a free byte, whose size an `int` holds, an `append` of 2 GiB or more, but less
-- than 4 GiB, writes outside the buffer instead of being dropped.
pub append_fixed-overflow :
    (size : ℕ) (b : FixedBuffer) (buf : List ℕ) (len : ℕ)
    → IsRoomy size b
    → 2 ^ 31 ≤ len
    → len < 2 ^ 32
    → len ≤ length buf
    → append_fixed b buf len ≡ fault bad_access
unfolding append_fixed copy_to
append_fixed-overflow size b buf len v big small given =
    let passes : ltb_ℤ (int_of_size len) (avail b) ≡ true = ground (arith, v.sized, v.room) in
    let readable : leb len (length buf) ≡ true = ground arith in
    let outside : leb (b.cur + length (take len buf)) (length b.storage) ≡ false =
      ground (arith, length-take len buf, v.sized, v.small) in
    rw (passes, readable, outside) refl
