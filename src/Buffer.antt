-- ===== src/Buffer.antt =====
-- src/include/buffer.h and src/buffer.cpp: the byte buffer of a connection.
-- `size_t` arithmetic wraps at 2^64. A pointer and a length are one list of bytes; `std::copy`
-- outside the vector is the fault `bad_access`, a failed `assert` is `assert_failed`, and a
-- `resize` beyond the vector's `max_size` is `length_error`.
pub mod Space
pub mod Contents
pub mod Reads
pub mod Shrink
mod Tests
pub mod Queue
use yatwb.Base.{
  ℕ, ◌+◌, ◌-◌, ◌%◌, ◌^◌, List, ◌++◌, length, take, drop, replicate, overwrite, ltb, leb, ◌==◌,
  if◌then◌else◌,
}
use yatwb.Base.Results.{Result, ok, assert, require, bad_access, length_error, ◌>>=◌, ◌>>◌}

abbrev pub cheap_prepend_size : ℕ
cheap_prepend_size = 8

abbrev pub initial_size : ℕ
initial_size = 1024

-- `sizeof extrabuf` in `readFd`.
abbrev pub extrabuf_size : ℕ
extrabuf_size = 65536

-- The largest `std::vector<char>`.
abbrev pub max_size : ℕ
max_size = 2 ^ 63 - 1

abbrev pub add_size : ℕ → ℕ → ℕ
add_size a b = (a + b) % 2 ^ 64

abbrev pub sub_size : ℕ → ℕ → ℕ
sub_size a b = (a + 2 ^ 64 - b) % 2 ^ 64

pub record Buffer : Type 0 where
  pub buffer : List ℕ
  pub reader_idx : ℕ
  pub writer_idx : ℕ

-- The constructor.
abbrev pub new_buffer : Buffer
new_buffer = record {
  buffer = replicate (cheap_prepend_size + initial_size) 0;
  reader_idx = cheap_prepend_size;
  writer_idx = cheap_prepend_size;
}

-- `swap`, as the pair of the two objects afterwards.
unfoldable pub swap : Buffer → Buffer → Buffer × Buffer
swap b rhs = (
  record { buffer = rhs.buffer; reader_idx = rhs.reader_idx; writer_idx = rhs.writer_idx },
  record { buffer = b.buffer; reader_idx = b.reader_idx; writer_idx = b.writer_idx },
)

abbrev pub readable_bytes : Buffer → ℕ
readable_bytes b = sub_size b.writer_idx b.reader_idx

abbrev pub writable_bytes : Buffer → ℕ
writable_bytes b = sub_size (length b.buffer) b.writer_idx

abbrev pub prependable_bytes : Buffer → ℕ
prependable_bytes b = b.reader_idx

-- The bytes `[peek(), beginWrite())`.
abbrev pub content : Buffer → List ℕ
content b = drop b.reader_idx (take b.writer_idx b.buffer)

unfoldable pub retrieve : Buffer → ℕ → Result Buffer
retrieve b len = do
  assert (leb len (readable_bytes b))
  ok (record b { reader_idx = add_size b.reader_idx len })

-- `end` as the index of its byte in the vector.
unfoldable pub retrieve_until : Buffer → ℕ → Result Buffer
unfolding retrieve
retrieve_until b end = do
  assert (leb b.reader_idx end)
  assert (leb end b.writer_idx)
  retrieve b (sub_size end b.reader_idx)

unfoldable pub retrieve_all : Buffer → Buffer
retrieve_all b = record b { reader_idx = cheap_prepend_size; writer_idx = cheap_prepend_size }

unfoldable pub retrieve_as_string : Buffer → Buffer × List ℕ
unfolding retrieve_all
retrieve_as_string b = (retrieve_all b, content b)

-- `std::copy` of `bytes` to the vector's index `i` on.
unfoldable pub copy_to : List ℕ → ℕ → List ℕ → Result (List ℕ)
copy_to buf i bytes = do
  require (leb (i + length bytes) (length buf)) bad_access
  ok (overwrite buf i bytes)

-- `std::vector<char>::resize`
unfoldable pub resize : List ℕ → ℕ → Result (List ℕ)
resize buf n = do
  require (leb n max_size) length_error
  ok (take n buf ++ replicate (n - length buf) 0)

-- The two branches of `makeSpace`.
unfoldable pub grow : Buffer → ℕ → Result Buffer
grow b len = do buf ← resize b.buffer (add_size b.writer_idx len); ok (record b { buffer = buf })

unfoldable pub move_to_front : Buffer → Result Buffer
move_to_front b = do
  assert (ltb cheap_prepend_size b.reader_idx)
  buf ← copy_to b.buffer cheap_prepend_size (content b)
  let writer = add_size cheap_prepend_size (readable_bytes b)
  assert (readable_bytes b == sub_size writer cheap_prepend_size)
  ok (record { buffer = buf; reader_idx = cheap_prepend_size; writer_idx = writer })

unfoldable pub make_space : Buffer → ℕ → Result Buffer
make_space b len =
    if ltb (add_size (writable_bytes b) (prependable_bytes b)) (add_size len cheap_prepend_size)
    then grow b len
    else move_to_front b

unfoldable pub ensure_writable_bytes : Buffer → ℕ → Result Buffer
ensure_writable_bytes b len = do
  b' ← (if ltb (writable_bytes b) len then make_space b len else ok b)
  assert (leb len (writable_bytes b'))
  ok b'

unfoldable pub has_written : Buffer → ℕ → Buffer
has_written b len = record b { writer_idx = add_size b.writer_idx len }

unfoldable pub append : Buffer → List ℕ → Result Buffer
unfolding copy_to has_written
append b bytes = do
  b' ← ensure_writable_bytes b (length bytes)
  buf ← copy_to b'.buffer b'.writer_idx bytes
  ok (has_written (record b' { buffer = buf }) (length bytes))

unfoldable pub prepend : Buffer → List ℕ → Result Buffer
unfolding copy_to
prepend b bytes = do
  assert (leb (length bytes) (prependable_bytes b))
  let reader = sub_size b.reader_idx (length bytes)
  buf ← copy_to b.buffer reader bytes
  ok (record b { buffer = buf; reader_idx = reader })

-- The indices are left as they were.
unfoldable pub shrink : Buffer → ℕ → Result Buffer
unfolding copy_to
shrink b reserve = do
  let n = add_size (add_size cheap_prepend_size (readable_bytes b)) reserve
  require (leb n max_size) length_error
  buf ← copy_to (replicate n 0) cheap_prepend_size (content b)
  ok (record b { buffer = buf })

-- What `readv` does: it fails with an `errno`, or delivers bytes, in order, into the two areas.
pub data ReadOutcome : Type 0 where
  read_failed : (errno : ℕ) → ReadOutcome
  read_bytes : (bytes : List ℕ) → ReadOutcome

-- The result of `read(2)` or `write(2)`: -1 with an `errno`, or a count.
pub data SysCount : Type 0 where
  failed : (errno : ℕ) → SysCount
  count : ℕ → SysCount

unfoldable pub read_fd : Buffer → ReadOutcome → Result (Buffer × SysCount)
unfolding copy_to
read_fd b (read_failed errno) = ok (b, failed errno)
read_fd b (read_bytes bytes) =
    let n = length bytes in
    let writable = writable_bytes b in
    if leb n writable
    then (do
      buf ← copy_to b.buffer b.writer_idx bytes
      ok (record b { buffer = buf; writer_idx = add_size b.writer_idx n }, count n))
    else (do
      require (leb (n - writable) extrabuf_size) bad_access
      buf ← copy_to b.buffer b.writer_idx (take writable bytes)
      b' ← append (record b { buffer = buf; writer_idx = length buf }) (drop writable bytes)
      ok (b', count n))
