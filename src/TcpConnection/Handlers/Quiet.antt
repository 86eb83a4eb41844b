-- ===== src/TcpConnection/Handlers/Quiet.antt =====
-- Where no write complete callback is set, a round of `handleEvents` queues nothing in the loop.
use yatwb.Base.{
  ℕ, zero, suc, ◌≡◌, refl, Bool, ◌||◌, ◌&&◌, not, true, false, inl, inr, Bool-cases, List, ltb,
  ◌==◌, some, if◌then◌else◌,
}
use yatwb.Base.Results.{Result, ok, assert, Holds, Holds-bind, Holds-any}
use yatwb.Buffer.{SysCount, failed, count, ReadOutcome, read_fd, retrieve, readable_bytes}
use yatwb.Channel.{PollFlags, Interest, disable_all_events, disable_writing, call_if, handle_events}
use yatwb.ChannelPort.{ChannelPort}
use yatwb.TcpConnection.{
  TcpConnection, Functor, is_connected, is_disconnecting, is_writing_now, set_channel,
  queue_write_cmpl, handle_close, after_read, handle_read, shutdown_in_loop, output_drained,
  after_write, handle_write,
}
use yatwb.TcpConnection.Handlers.{on_connection, connection_handlers, handle_error}

module _ {S : Type 0} (port : ChannelPort S) (fs : List Functor) where
  -- No callback to queue, and `fs` queued.
  abbrev pub IsQuiet : TcpConnection S → Type 0
  IsQuiet c = (c.has_write_cmpl_cb ≡ false) × (c.pending ≡ fs)

  set_channel-IsQuiet :
      (how : Interest) (c : TcpConnection S)
      → IsQuiet c
      → Holds (set_channel port true how c) IsQuiet
  unfolding set_channel
  set_channel-IsQuiet how c v =
      Holds-bind (λ s. Unit {0}) IsQuiet (port.set_interest true how c.channel) _
        (Holds-any (port.set_interest true how c.channel)) (λ s _. v)

  handle_close-IsQuiet :
      (c : TcpConnection S) → IsQuiet c → Holds (handle_close port true c) IsQuiet
  unfolding handle_close
  handle_close-IsQuiet c v =
      Holds-bind (λ u. Unit {0}) IsQuiet (assert (is_connected c.state || is_disconnecting c.state))
        _ (Holds-any (assert (is_connected c.state || is_disconnecting c.state)))
        (λ _ _.
          Holds-bind IsQuiet IsQuiet (set_channel port true disable_all_events c) _
            (set_channel-IsQuiet disable_all_events c v) (λ c' w. w))

  after_read-IsQuiet :
      (c : TcpConnection S) (n : SysCount) → IsQuiet c → Holds (after_read port true c n) IsQuiet
  unfolding after_read
  after_read-IsQuiet c (failed errno) v = v
  after_read-IsQuiet c (count zero) v = handle_close-IsQuiet c v
  after_read-IsQuiet c (count (suc n)) v = v

  handle_read-IsQuiet :
      (outcome : ReadOutcome) (c : TcpConnection S)
      → IsQuiet c
      → Holds (handle_read port true outcome c) IsQuiet
  unfolding handle_read
  handle_read-IsQuiet outcome c v =
      Holds-bind (λ r. Unit {0}) IsQuiet (read_fd c.input_buffer outcome) _
        (Holds-any (read_fd c.input_buffer outcome))
        (λ r _. after_read-IsQuiet (record c { input_buffer = r.0 }) r.1 v)

  queue_write_cmpl-IsQuiet : (c : TcpConnection S) → IsQuiet c → IsQuiet (queue_write_cmpl c)
  queue_write_cmpl-IsQuiet c v = rw v.0 (refl, v.1)

  shutdown_in_loop-IsQuiet :
      (c : TcpConnection S) → IsQuiet c → Holds (shutdown_in_loop port true c) IsQuiet
  unfolding shutdown_in_loop
  shutdown_in_loop-IsQuiet c v = elim (Bool-cases (is_writing_now port c)) [
    | inl busy ↦ rw busy v
    | inr idle ↦ rw idle v
  ]

  drained-IsQuiet :
      (c : TcpConnection S)
      → IsQuiet c
      → Holds (if is_disconnecting c.state then shutdown_in_loop port true c else ok c) IsQuiet
  drained-IsQuiet c v = elim (Bool-cases (is_disconnecting c.state)) [
    | inl ending ↦ rw ending (shutdown_in_loop-IsQuiet c v)
    | inr staying ↦ rw staying v
  ]

  output_drained-IsQuiet :
      (c : TcpConnection S) → IsQuiet c → Holds (output_drained port true c) IsQuiet
  unfolding output_drained
  output_drained-IsQuiet c v =
      Holds-bind IsQuiet IsQuiet (set_channel port true disable_writing c) _
        (set_channel-IsQuiet disable_writing c v)
        (λ c' w. drained-IsQuiet (queue_write_cmpl c') (queue_write_cmpl-IsQuiet c' w))

  after_write-IsQuiet :
      (n : ℕ) (c : TcpConnection S) → IsQuiet c → Holds (after_write port true n c) IsQuiet
  unfolding after_write
  after_write-IsQuiet n c v =
      Holds-bind (λ out. Unit {0}) IsQuiet (retrieve c.output_buffer n) _
        (Holds-any (retrieve c.output_buffer n))
        (λ out _. elim (Bool-cases (readable_bytes out == 0)) [
          | inl empty ↦ rw empty (output_drained-IsQuiet _ v)
          | inr more ↦ rw more v
        ])

  handle_write-IsQuiet :
      (written : SysCount) (c : TcpConnection S)
      → IsQuiet c
      → Holds (handle_write port true written c) IsQuiet
  unfolding handle_write
  handle_write-IsQuiet (failed errno) c v = elim (Bool-cases (is_writing_now port c)) [
    | inl busy ↦ rw busy v
    | inr idle ↦ rw idle v
  ]
  handle_write-IsQuiet (count n) c v = elim (Bool-cases (is_writing_now port c)) [
    | inl busy ↦ elim (Bool-cases (ltb 0 n)) [
      | inl some_written ↦ rw (busy, some_written) (after_write-IsQuiet n c v)
      | inr nothing ↦ rw (busy, nothing) v
    ]
    | inr idle ↦ rw idle v
  ]

  -- A callback that is called or not.
  call_if-IsQuiet :
      (b : Bool) (f : TcpConnection S → Result (TcpConnection S)) (r : TcpConnection S × Bool)
      → ((c : TcpConnection S) → IsQuiet c → Holds (f c) IsQuiet)
      → IsQuiet r.0
      → Holds (call_if b (some (on_connection f)) r) (λ r'. IsQuiet r'.0)
  call_if-IsQuiet false f r h v = v
  call_if-IsQuiet true f r h v =
      Holds-bind IsQuiet (λ r'. IsQuiet r'.0) (f r.0) _ (h r.0 v) (λ c w. w)

  pub handle_events-IsQuiet :
      (c : TcpConnection S) (revents : PollFlags) (outcome : ReadOutcome) (written : SysCount)
      → IsQuiet c
      → Holds
          (handle_events (connection_handlers port true outcome written) revents tt (c, false))
          (λ r. IsQuiet r.0)
  unfolding handle_events
  handle_events-IsQuiet c revents outcome written v =
      Holds-bind Q Q (call_if hung_up (some (on_connection close)) (c, true)) _
        (call_if-IsQuiet hung_up close (c, true) handle_close-IsQuiet v)
        (λ r1 w1.
          Holds-bind Q Q (call_if failing (some (on_connection handle_error)) r1) _
            (call_if-IsQuiet failing handle_error r1 (λ c w. w) w1)
            (λ r2 w2.
              Holds-bind Q Q (call_if readable (some (on_connection read)) r2) _
                (call_if-IsQuiet readable read r2 (handle_read-IsQuiet outcome) w2)
                (λ r3 w3.
                  Holds-bind Q Q (call_if revents.pollout (some (on_connection write)) r3) _
                    (call_if-IsQuiet revents.pollout write r3 (handle_write-IsQuiet written) w3)
                    (λ r4 w4. w4))))
    where
      Q : TcpConnection S × Bool → Type 0
      Q r = IsQuiet r.0

      close : TcpConnection S → Result (TcpConnection S)
      close = handle_close port true

      read : TcpConnection S → Result (TcpConnection S)
      read = handle_read port true outcome

      write : TcpConnection S → Result (TcpConnection S)
      write = handle_write port true written

      hung_up : Bool
      hung_up = revents.pollhup && not revents.pollin

      failing : Bool
      failing = revents.pollerr || revents.pollnval

      readable : Bool
      readable = revents.pollin || revents.pollpri || revents.pollrdhup
