-- ===== src/LogStream.antt =====
-- src/include/log_stream.h: the buffer of a log line, of a fixed size, and the stream in front of
-- it. A pointer is the list of the bytes behind it. The inserters of numbers and of addresses are
-- declared in the repository and not defined.
pub mod Lines
pub mod Overflow
mod Tests
use yatwb.Base.{
  ℕ, ◌+◌, ◌-◌, ◌*◌, ◌%◌, ◌^◌, Bool, true, false, Option, none, some, List, [], ◌∷◌, length, take,
  replicate, ltb, leb, if◌then◌else◌,
}
use yatwb.Base.Int.{ℤ, pos, negsuc, sub_ℕ, ltb_ℤ}
use yatwb.Base.Results.{Result, ok, require, bad_access, ◌>>=◌, ◌>>◌}
use yatwb.Buffer.{copy_to}

abbrev pub k_small_buffer : ℕ
k_small_buffer = 4000

abbrev pub k_large_buffer : ℕ
k_large_buffer = 4000 * 1000

-- `static_cast<int>` of a `size_t`.
abbrev pub int_of_size : ℕ → ℤ
int_of_size n =
    if ltb (n % 2 ^ 32) (2 ^ 31) then pos (n % 2 ^ 32) else negsuc (2 ^ 32 - n % 2 ^ 32 - 1)

-- `storage` is `data_`, and `cur` the index of `cur_` in it.
pub record FixedBuffer : Type 0 where
  pub storage : List ℕ
  pub cur : ℕ

-- `FixedBuffer<SIZE>`
abbrev pub new_fixed_buffer : ℕ → FixedBuffer
new_fixed_buffer size = record { storage = replicate size 0; cur = 0 }

-- The bytes `[data(), current())`.
abbrev pub text : FixedBuffer → List ℕ
text b = take b.cur b.storage

abbrev pub avail : FixedBuffer → ℤ
avail b = sub_ℕ (length b.storage) b.cur

-- `buf` is what may be read behind the pointer.
unfoldable pub append_fixed : FixedBuffer → List ℕ → ℕ → Result FixedBuffer
append_fixed b buf len =
    if ltb_ℤ (int_of_size len) (avail b)
    then (do
      require (leb len (length buf)) bad_access
      storage ← copy_to b.storage b.cur (take len buf)
      ok (record { storage = storage; cur = b.cur + len }))
    else ok b

-- Without a test.
abbrev pub add : FixedBuffer → ℕ → FixedBuffer
add b len = record b { cur = b.cur + len }

abbrev pub reset_fixed : FixedBuffer → FixedBuffer
reset_fixed b = record b { cur = 0 }

abbrev pub bzero : FixedBuffer → FixedBuffer
bzero b = record b { storage = replicate (length b.storage) 0 }

-- What is inserted with `<<`. A `const char*` is null, or its bytes up to the one that ends it.
pub data Inserted : Type 0 where
  bool_of : (v : Bool) → Inserted
  char_of : (v : ℕ) → Inserted
  c_str_of : (str : Option (List ℕ)) → Inserted
  string_of : (v : List ℕ) → Inserted

-- "(null)"
abbrev pub null_text : List ℕ
null_text = 40 ∷ 110 ∷ 117 ∷ 108 ∷ 108 ∷ 41 ∷ []

-- The bytes that `<<` hands to `append`.
abbrev pub bytes_of : Inserted → List ℕ
bytes_of (bool_of true) = 49 ∷ []
bytes_of (bool_of false) = 48 ∷ []
bytes_of (char_of v) = v ∷ []
bytes_of (c_str_of none) = null_text
bytes_of (c_str_of (some str)) = str
bytes_of (string_of v) = v

-- A `LogStream` is its `buffer_`.
abbrev pub new_log_stream : FixedBuffer
new_log_stream = new_fixed_buffer k_small_buffer

unfoldable pub insert_into : Inserted → FixedBuffer → Result FixedBuffer
insert_into v b = append_fixed b (bytes_of v) (length (bytes_of v))

-- `stream << v << …`
unfoldable pub insert_all : List Inserted → FixedBuffer → Result FixedBuffer
insert_all [] b = ok b
insert_all (v ∷ vs) b = do b ← insert_into v b; insert_all vs b
