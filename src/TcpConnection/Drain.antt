-- ===== src/TcpConnection/Drain.antt =====
-- `handleWrite` and the graceful shutdown: the write side is shut when the last byte has gone.
use yatwb.Base.{
  ℕ, ◌≤◌, ◌<◌, ◌≡◌, ◌≢◌, refl, sym, ap, ◌∙◌, inl, inr, Bool, true, false, ◌&&◌, ◌||◌, List, [],
  ◌++◌, length, take, drop, ltb, ◌==◌, ==_iff, if◌then◌else◌, arith, Bool-cases, length-drop,
  drop-length_le,
}
use yatwb.Base.Results.{ok, Ensures, Ensures-bind}
use yatwb.Buffer.{Buffer, readable_bytes, content, retrieve, count}
use yatwb.Buffer.Space.{IsValid, length-content}
use yatwb.Buffer.Contents.{retrieve_lem}
use yatwb.Channel.{PollFlags, is_writing, change, disable_writing}
use yatwb.ChannelPort.{ChannelPort}
use yatwb.TcpConnection.{
  TcpConnection, Functor, is_writing_now, set_channel, queue_write_cmpl, is_disconnecting,
  shutdown_in_loop, output_drained, after_write, handle_write,
}
use yatwb.TcpConnection.Live.{IsLive, HasInterest, set_channel_lem, queue_write_cmpl-pending}

true≢false : true ≢ false
true≢false e = cc

module _ {S : Type 0} (port : ChannelPort S) where
  -- `c'` is `c` after `n` bytes of its output buffer went out.
  pub record IsFlushed (c : TcpConnection S) (n : ℕ) (c' : TcpConnection S) : Type 0 where
    pub live : IsLive port c'
    pub sent_more : c'.sent ≡ c.sent ++ take n (content c.output_buffer)
    pub rest : content c'.output_buffer ≡ drop n (content c.output_buffer)
    pub state_same : c'.state ≡ c.state
    pub input_same : c'.input_buffer ≡ c.input_buffer
    pub calls_same : c'.calls ≡ c.calls
    pub shut :
        c'.write_shut
        ≡ (c.write_shut || (is_disconnecting c.state && (n == length (content c.output_buffer))))

  writing_disabled : (e : PollFlags) → is_writing (change disable_writing e) ≡ false
  writing_disabled e = ground arith

  -- The connection after `retrieve`.
  abbrev flushed : TcpConnection S → ℕ → Buffer → TcpConnection S
  flushed c n out = record c {
    output_buffer = out;
    sent = c.sent ++ take n (content c.output_buffer);
  }

  abbrev IsRetrieved : TcpConnection S → ℕ → Buffer → Type 0
  IsRetrieved c n out = IsValid out × (content out ≡ drop n (content c.output_buffer))

  drained_end :
      (c : TcpConnection S) (n : ℕ) (out : Buffer) (s : S) (pending : List Functor)
      (write_shut : Bool)
      → IsRetrieved c n out
      → n ≡ length (content c.output_buffer)
      → port.IsOpen s
      → is_writing (port.events s) ≡ false
      → write_shut
        ≡ (c.write_shut || (is_disconnecting c.state && (n == length (content c.output_buffer))))
      → IsFlushed c n
          (record (flushed c n out) { channel = s; pending = pending; write_shut = write_shut })
  drained_end c n out s pending write_shut r e o idle shut = record {
    live = record {
      is_open = o;
      valid = r.0;
      idle = λ _. r.1 ∙ drop-length_le n (content c.output_buffer) (omega arith);
      busy = λ busy. cc;
    };
    sent_more = refl;
    rest = r.1;
    state_same = refl;
    input_same = refl;
    calls_same = refl;
    shut = shut;
  }

  -- The buffer is empty: writing is disabled, and a connection that is disconnecting shuts down.
  drained_lem :
      (c : TcpConnection S) (n : ℕ) (out : Buffer)
      → IsLive port c
      → IsRetrieved c n out
      → n ≡ length (content c.output_buffer)
      → Ensures (output_drained port true (flushed c n out)) (IsFlushed c n)
  unfolding output_drained shutdown_in_loop
  drained_lem c n out v r e =
      Ensures-bind (HasInterest port (flushed c n out) disable_writing) (IsFlushed c n)
        (set_channel port true disable_writing (flushed c n out)) _
        (set_channel_lem port (flushed c n out) disable_writing (port.open_can c.channel v.is_open))
        (λ c' w. rw w.only (
          shut_down w.channel w.is_open
            (ap is_writing w.changed ∙ writing_disabled (port.events c.channel))))
    where
      last : (n == length (content c.output_buffer)) ≡ true
      last = (==_iff n _).1 e

      shut_down :
          (s : S)
          → port.IsOpen s
          → is_writing (port.events s) ≡ false
          → Ensures
              (let c' = queue_write_cmpl (record (flushed c n out) { channel = s }) in
                if is_disconnecting c'.state then shutdown_in_loop port true c' else ok c')
              (IsFlushed c n)
      shut_down s o idle =
          let (pending, q) = queue_write_cmpl-pending (record (flushed c n out) { channel = s }) in
          rw q (elim (Bool-cases (is_disconnecting c.state)) [
            | inl t ↦
                rw (t, idle)
                  (drained_end c n out s pending true r e o idle (rw (t, last) (ground arith)))
            | inr t ↦
                rw t (drained_end c n out s pending c.write_shut r e o idle (rw t (ground arith)))
          ])

  -- On a live connection that is watched for writing, in the loop's thread, where `write` takes
  -- `n` of the waiting bytes, at least one and at most all: `handleWrite` sends exactly the first
  -- `n`, keeps the rest in order, leaves the connection live and its state and its input buffer as
  -- they were, calls nobody back, and shuts the write side just when a connection that is
  -- disconnecting has sent the last byte.
  pub handle_write-IsFlushed :
      (c : TcpConnection S) (n : ℕ)
      → IsLive port c
      → is_writing_now port c ≡ true
      → 0 < n
      → n ≤ length (content c.output_buffer)
      → Ensures (handle_write port true (count n) c) (IsFlushed c n)
  unfolding handle_write after_write
  handle_write-IsFlushed c n v w pos le =
      let positive : ltb 0 n ≡ true = ground arith in
      rw (w, positive)
        (Ensures-bind (IsRetrieved c n) (IsFlushed c n) (retrieve c.output_buffer n) _
          (retrieve_lem c.output_buffer n v.valid
            (omega (arith, length-content c.output_buffer v.valid)))
          (λ out r. elim (Bool-cases (readable_bytes out == 0)) [
            | inl none_left ↦ rw none_left (
                drained_lem c n out v r (
                  ground (
                    arith,
                    length-content out r.0,
                    ap length r.1,
                    length-drop n (content c.output_buffer),
                  )))
            | inr some_left ↦ rw some_left (record {
              live = record {
                is_open = v.is_open;
                valid = r.0;
                idle = λ idle. absurd (true≢false (sym w ∙ idle));
                busy = λ _ e. absurd (leftover out r some_left e);
              };
              sent_more = refl;
              rest = r.1;
              state_same = refl;
              input_same = refl;
              calls_same = refl;
              shut = rw (some_shut out r some_left) (ground arith);
            })
          ]))
    where
      leftover :
          (out : Buffer)
          → IsRetrieved c n out
          → (readable_bytes out == 0) ≡ false
          → content out ≢ []
      leftover out r some_left e = ground (arith, length-content out r.0, ap length e)

      some_shut :
          (out : Buffer)
          → IsRetrieved c n out
          → (readable_bytes out == 0) ≡ false
          → (n == length (content c.output_buffer)) ≡ false
      some_shut out r some_left =
          ground
            (arith, length-content out r.0, ap length r.1, length-drop n (content c.output_buffer))
