-- ===== src/Buffer/Tests.antt =====
-- Runs of the buffer, and its theorems at concrete inputs.
use yatwb.Base.{◌≡◌, ◌≤◌, refl, [], ◌∷◌, ◌++◌, replicate, ◌↔◌}
use yatwb.Base.{arith}
use yatwb.Base.Results.{ok, Ensures, ◌>>=◌}
use yatwb.Buffer.{
  Buffer, new_buffer, content, readable_bytes, writable_bytes, prependable_bytes, swap, append,
  make_space, move_to_front, ensure_writable_bytes, retrieve_until, shrink, read_fd, read_bytes,
  grow,
}
use yatwb.Buffer.Space.{IsValid}
use yatwb.Buffer.Reads.{IsRead, read_fd_lem}
use yatwb.Buffer.Shrink.{shrink-IsValid_iff}
use yatwb.Buffer.Queue.{put, get, get_all, run, run_queue, Agrees, run-Agrees}

-- Three readable bytes behind the cheap prepend area, two writable ones.
abbrev small : Buffer
small = record { buffer = replicate 8 0 ++ 1 ∷ 2 ∷ 3 ∷ 0 ∷ 0 ∷ []; reader_idx = 8; writer_idx = 11 }

-- The same after two bytes were read.
abbrev advanced : Buffer
advanced = record {
  buffer = replicate 8 0 ++ 1 ∷ 2 ∷ 3 ∷ 0 ∷ 0 ∷ [];
  reader_idx = 10;
  writer_idx = 11;
}

small-IsValid : IsValid small
small-IsValid = omega arith

advanced-IsValid : IsValid advanced
advanced-IsValid = omega arith

-- The constructor's assertions.
new_buffer_sizes :
    (readable_bytes new_buffer ≡ 0)
    × (writable_bytes new_buffer ≡ 1024)
    × (prependable_bytes new_buffer ≡ 8)
new_buffer_sizes = (refl, refl, refl)

swap_twice : swap (swap small advanced).0 (swap small advanced).1 ≡ (small, advanced)
unfolding swap
swap_twice = refl

-- Four bytes do not fit behind `advanced`, but fit once the content moves to the front.
append_moves :
    append advanced (4 ∷ 5 ∷ 6 ∷ 7 ∷ [])
    ≡ ok (record {
      buffer = replicate 8 0 ++ 3 ∷ 4 ∷ 5 ∷ 6 ∷ 7 ∷ [];
      reader_idx = 8;
      writer_idx = 13;
    })
unfolding append ensure_writable_bytes make_space grow move_to_front
append_moves = refl

retrieve_until_two : (do b ← retrieve_until small 10; ok (content b)) ≡ ok (3 ∷ [])
unfolding retrieve_until
retrieve_until_two = refl

-- Four bytes: two go into the vector and two spill.
read_fd_lem_example :
    Ensures (read_fd small (read_bytes (4 ∷ 5 ∷ 6 ∷ 7 ∷ []))) (IsRead small (4 ∷ 5 ∷ 6 ∷ 7 ∷ []))
read_fd_lem_example =
    read_fd_lem small (4 ∷ 5 ∷ 6 ∷ 7 ∷ []) small-IsValid (omega arith) (omega arith)

shrink-IsValid_iff_example : Ensures (shrink advanced 1) (λ b'. IsValid b' ↔ (10 ≤ 9))
shrink-IsValid_iff_example = shrink-IsValid_iff advanced 1 advanced-IsValid (omega arith)

run-Agrees_example :
    Agrees 13
      (run_queue (content small) (get 2 ∷ put (7 ∷ 8 ∷ []) ∷ get_all ∷ []))
      (run small (get 2 ∷ put (7 ∷ 8 ∷ []) ∷ get_all ∷ []))
run-Agrees_example =
    run-Agrees small (get 2 ∷ put (7 ∷ 8 ∷ []) ∷ get_all ∷ []) small-IsValid (omega arith)
