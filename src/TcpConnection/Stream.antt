-- ===== src/TcpConnection/Stream.antt =====
-- The byte stream of a connection: what the peer was sent and what still waits in the output
-- buffer are, in order, the messages that `sendInLoop` was given.
use yatwb.Base.{
  ℕ, ◌+◌, ◌≤◌, ◌≡◌, sym, ap, ap₂, ◌∙◌, inl, inr, ◌⊎◌, refl, not, Bool, true, false, ◌&&◌, List, [],
  ◌++◌, length, take, drop, ltb, ◌==◌, arith, Bool-cases, append_assoc, append-nil,
  take-append-drop, length-drop,
}
use yatwb.Base.Results.{fault, deadlock, Ensures, Ensures-mono, ◌>>=◌}
use yatwb.Buffer.{max_size, readable_bytes, content, SysCount, failed, count}
use yatwb.Buffer.Space.{length-content}
use yatwb.ChannelPort.{ChannelPort}
use yatwb.TcpConnection.{
  TcpConnection, Functor, write_message, is_writing_now, buffer_rest, send_in_loop,
}
use yatwb.TcpConnection.Live.{
  Fits, delivered, queue_write_cmpl-pending, IsLive, IsBuffered, buffer_rest_lem,
}

module _ {S : Type 0} (port : ChannelPort S) where
  -- `c'` has taken over the message `m` after `c`, in the same state and with the same write side.
  pub record IsSent (c : TcpConnection S) (m : List ℕ) (c' : TcpConnection S) : Type 0 where
    pub live : IsLive port c'
    pub stream : delivered c' ≡ delivered c ++ m
    pub state_same : c'.state ≡ c.state
    pub input_same : c'.input_buffer ≡ c.input_buffer
    pub shut_same : c'.write_shut ≡ c.write_shut
    pub extent : c'.output_buffer.writer_idx ≤ c.output_buffer.writer_idx + length m

  -- Nothing was written: the whole message goes to the buffer.
  unwritten :
      (c : TcpConnection S) (m : List ℕ)
      → IsLive port c
      → c.output_buffer.writer_idx + length m ≤ max_size
      → Ensures (buffer_rest port true m (c, 0)) (IsSent c m)
  unwritten c m v h =
      Ensures-mono (IsBuffered port c m) (IsSent c m) (buffer_rest port true m (c, 0))
        (buffer_rest_lem port c m 0 v h (omega arith))
        (λ c' b. record {
          live = b.live;
          stream =
              ap₂ ◌++◌ b.sent_same b.more ∙ sym (append_assoc c.sent (content c.output_buffer) m);
          state_same = b.state_same;
          input_same = b.input_same;
          shut_same = b.shut_same;
          extent = b.extent;
        })

  -- `n` bytes were written at once, which happens with an empty buffer only.
  written :
      (c : TcpConnection S) (m : List ℕ) (n : ℕ) (pending : List Functor)
      → IsLive port c
      → content c.output_buffer ≡ []
      → n ≤ length m
      → c.output_buffer.writer_idx + length m ≤ max_size
      → Ensures
          (buffer_rest port true m (record c { sent = c.sent ++ take n m; pending = pending }, n))
          (IsSent c m)
  written c m n pending v e le h =
      Ensures-mono (IsBuffered port c1 (drop n m)) (IsSent c m) (buffer_rest port true m (c1, n))
        (buffer_rest_lem port c1 m n
          (record { is_open = v.is_open; valid = v.valid; idle = v.idle; busy = v.busy }) h le)
        (λ c' b. record {
          live = b.live;
          stream =
              ap₂ ◌++◌ b.sent_same (b.more ∙ ap (λ (x : List ℕ). x ++ drop n m) e)
              ∙ append_assoc c.sent (take n m) (drop n m)
              ∙ ap (◌++◌ c.sent) (take-append-drop n m)
              ∙ sym (ap (λ (x : List ℕ). x ++ m) (ap (◌++◌ c.sent) e ∙ append-nil c.sent));
          state_same = b.state_same;
          input_same = b.input_same;
          shut_same = b.shut_same;
          extent = omega (arith, b.extent, length-drop n m);
        })
    where
      c1 : TcpConnection S
      c1 = record c { sent = c.sent ++ take n m; pending = pending }

  write_first :
      (locked : Bool) (c : TcpConnection S) (outcome : SysCount) (m : List ℕ)
      → IsLive port c
      → content c.output_buffer ≡ []
      → Fits outcome (length m)
      → c.output_buffer.writer_idx + length m ≤ max_size
      → (locked && c.has_write_cmpl_cb) ≡ false
      → Ensures (write_message locked m outcome c >>= buffer_rest port true m) (IsSent c m)
  unfolding write_message
  write_first locked c (failed errno) m v e f h free = unwritten c m v h
  write_first locked c (count n) m v e f h free = elim (Bool-cases (ltb n (length m))) [
    | inl part ↦ rw part (written c m n c.pending v e f h)
    | inr all ↦
        let (pending, e') = queue_write_cmpl-pending (record c { sent = c.sent ++ take n m }) in
        rw (all, free, e') (written c m n pending v e f h)
  ]

  -- On a live connection, in the loop's thread, which does not hold the loop's mutex or has no write
  -- complete callback to queue, with room for the message in the output buffer, and
  -- with a `write` that fails or takes at most the message: `sendInLoop` succeeds, the bytes sent
  -- and those waiting are the ones before followed by the whole message, the connection is live
  -- again, and its state, its input buffer and its write side are as before.
  pub send_in_loop-IsSent :
      (locked : Bool) (c : TcpConnection S) (outcome : SysCount) (m : List ℕ)
      → IsLive port c
      → (locked && c.has_write_cmpl_cb) ≡ false
      → Fits outcome (length m)
      → c.output_buffer.writer_idx + length m ≤ max_size
      → Ensures (send_in_loop port true locked outcome m c) (IsSent c m)
  unfolding send_in_loop
  send_in_loop-IsSent locked c outcome m v free f h = elim (Bool-cases (is_writing_now port c)) [
    | inl busy ↦ rw busy (unwritten c m v h)
    | inr idle ↦
        let nothing : (readable_bytes c.output_buffer == 0) ≡ true =
          ground (arith, length-content c.output_buffer v.valid, ap length (v.idle idle)) in
        rw (idle, nothing) (write_first locked c outcome m v (v.idle idle) f h free)
  ]

  -- The `write` of `sendInLoop` is made and takes the whole message.
  abbrev pub takes_whole : TcpConnection S → SysCount → List ℕ → Bool
  takes_whole c (failed errno) m = false
  takes_whole c (count n) m = not (is_writing_now port c) && not (ltb n (length m))

  waits_whole :
      (c : TcpConnection S) (outcome : SysCount) (m : List ℕ)
      → is_writing_now port c ≡ true
      → takes_whole c outcome m ≡ false
  waits_whole c (failed errno) m busy = refl
  waits_whole c (count n) m busy = rw busy refl

  write_locked :
      (c : TcpConnection S) (outcome : SysCount) (m : List ℕ)
      → IsLive port c
      → is_writing_now port c ≡ false
      → c.has_write_cmpl_cb ≡ true
      → Fits outcome (length m)
      → c.output_buffer.writer_idx + length m ≤ max_size
      → ((takes_whole c outcome m ≡ true)
          × ((write_message true m outcome c >>= buffer_rest port true m) ≡ fault deadlock))
        ⊎ ((takes_whole c outcome m ≡ false)
            × Ensures (write_message true m outcome c >>= buffer_rest port true m) (IsSent c m))
  unfolding write_message
  write_locked c (failed errno) m v idle set f h = inr (refl, unwritten c m v h)
  write_locked c (count n) m v idle set f h = elim (Bool-cases (ltb n (length m))) [
    | inl part ↦ inr (rw (idle, part) refl, rw part (written c m n c.pending v (v.idle idle) f h))
    | inr all ↦ inl (rw (idle, all) refl, rw (all, set) refl)
  ]

  -- On a live connection with a write complete callback, in the loop's thread while it holds the
  -- loop's mutex, as where a `send` of another thread runs in `doPendingFunctors`, with room for the
  -- message in the output buffer, and with a `write` that fails or takes at most the message: where
  -- the connection does not wait for writing and the `write` takes the whole message, `sendInLoop`
  -- deadlocks; and in every other case it takes over the message as `send_in_loop-IsSent` says.
  pub send_in_loop-locked :
      (c : TcpConnection S) (outcome : SysCount) (m : List ℕ)
      → IsLive port c
      → c.has_write_cmpl_cb ≡ true
      → Fits outcome (length m)
      → c.output_buffer.writer_idx + length m ≤ max_size
      → ((takes_whole c outcome m ≡ true)
          × (send_in_loop port true true outcome m c ≡ fault deadlock))
        ⊎ ((takes_whole c outcome m ≡ false)
            × Ensures (send_in_loop port true true outcome m c) (IsSent c m))
  unfolding send_in_loop
  send_in_loop-locked c outcome m v set f h = elim (Bool-cases (is_writing_now port c)) [
    | inl busy ↦ inr (waits_whole c outcome m busy, rw busy (unwritten c m v h))
    | inr idle ↦
        let nothing : (readable_bytes c.output_buffer == 0) ≡ true =
          ground (arith, length-content c.output_buffer v.valid, ap length (v.idle idle)) in
        rw (idle, nothing) (write_locked c outcome m v idle set f h)
  ]
