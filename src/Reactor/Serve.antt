-- ===== src/Reactor/Serve.antt =====
-- One connection of many served: what it does, and that the others are left alone.
use mathlib.Core.Path.{fun_ext, subst}
use yatwb.Base.{
  Bool, some, zero, suc, ℕ, ◌+◌, ◌≤◌, ◌≡◌, ◌≢◌, refl, sym, ap, ◌∙◌, true, false, not, ◌&&◌, [],
  ◌++◌, length, ◌==◌, if◌then◌else◌, arith,
}
use yatwb.Base.Int.{pos}
use yatwb.Base.Results.{Result, ok, ◌>>=◌, Ensures, Ensures-bind, Ensures-Holds, bind_cong}
use yatwb.Buffer.{
  content, writable_bytes, extrabuf_size, max_size, ReadOutcome, SysCount, failed, count, read_fd,
}
use yatwb.Buffer.Space.{IsValid}
use yatwb.Channel.{Channel, none_event, is_writing, handle_events}
use yatwb.Poller.{Poller}
use yatwb.Poller.Frame.{IsFramed, IsFramed-refl, framed_port}
use yatwb.Poller.Invariant.{key, IsConsistent}
use yatwb.Poller.Port.{poller_port}
use yatwb.Poller.Watch.{IsRegistered}
use yatwb.Reactor.{Reactor, with_channel, serve, stored, put_connection}
use yatwb.TcpConnection.{
  TcpConnection, handle_read, handle_write, handle_close, after_read, after_write, output_drained,
  set_channel, shutdown_in_loop,
}
use yatwb.TcpConnection.Handlers.{connection_handlers, on_connection, handle_error}
use yatwb.ChannelPort.{ChannelPort}
use yatwb.TcpConnection.Handlers.Quiet.{IsQuiet, handle_events-IsQuiet}
use yatwb.TcpConnection.Handlers.Reads.{FitsRead}
use yatwb.TcpConnection.Handlers.Served.{IsServed, handle_events-IsServed, is_closing, event_calls}
use yatwb.TcpConnection.Handlers.Writes.{written_bytes}
use yatwb.TcpConnection.Lifecycle.{IsUp}
use yatwb.TcpConnection.Live.{Fits, IsLive}

same_close :
    (p0 : Poller) (c n loop : ℕ) (conn : TcpConnection Poller)
    → handle_close (framed_port p0 c n loop) true conn
      ≡ handle_close (poller_port c n loop) true conn
unfolding handle_close set_channel
same_close p0 c n loop conn = refl

same_after_read :
    (p0 : Poller) (c n loop : ℕ) (conn : TcpConnection Poller) (k : SysCount)
    → after_read (framed_port p0 c n loop) true conn k
      ≡ after_read (poller_port c n loop) true conn k
unfolding after_read
same_after_read p0 c n loop conn (failed errno) = refl
same_after_read p0 c n loop conn (count zero) = same_close p0 c n loop conn
same_after_read p0 c n loop conn (count (suc k)) = refl

same_read :
    (p0 : Poller) (c n loop : ℕ) (outcome : ReadOutcome) (conn : TcpConnection Poller)
    → handle_read (framed_port p0 c n loop) true outcome conn
      ≡ handle_read (poller_port c n loop) true outcome conn
unfolding handle_read
same_read p0 c n loop outcome conn =
    bind_cong (read_fd conn.input_buffer outcome) _ _
      (λ r. same_after_read p0 c n loop (record conn { input_buffer = r.0 }) r.1)

same_write :
    (p0 : Poller) (c n loop : ℕ) (written : SysCount) (conn : TcpConnection Poller)
    → handle_write (framed_port p0 c n loop) true written conn
      ≡ handle_write (poller_port c n loop) true written conn
unfolding handle_write after_write output_drained set_channel shutdown_in_loop
same_write p0 c n loop written conn = refl

same_handlers :
    (p0 : Poller) (c n loop : ℕ) (outcome : ReadOutcome) (written : SysCount)
    → connection_handlers (framed_port p0 c n loop) true outcome written
      ≡ connection_handlers (poller_port c n loop) true outcome written
same_handlers p0 c n loop outcome written =
    let read = fun_ext (same_read p0 c n loop outcome) in
    let write = fun_ext (same_write p0 c n loop written) in
    let close = fun_ext (same_close p0 c n loop) in
    λ i. record {
      read_cb = some (λ recv_time. on_connection (read i));
      write_cb = some (on_connection (write i));
      error_cb = some (on_connection handle_error);
      close_cb = some (on_connection (close i));
      set_events_handling = λ b s. (s.0, b);
    }

module _ (loop : ℕ) (fd : ℕ → ℕ) (io : ℕ → ReadOutcome × SysCount) where
  -- The connection at `d` with its channel.
  abbrev pub view : Reactor → ℕ → TcpConnection Poller
  view r d = with_channel r.poller (r.connections d)

  -- The connection `conn` at `d`, whose fd is `fd d`, is live and connected or disconnecting, and may
  -- read and write what `io` has for it; no write complete callback is set.
  pub record CanServe (d : ℕ) (p : Poller) (conn : TcpConnection (Unit {0})) : Type 0 where
    pub live : IsLive (poller_port d (fd d) loop) (with_channel p conn)
    pub up : IsUp (poller_port d (fd d) loop) conn.state
    pub input_valid : IsValid conn.input_buffer
    pub fits_read : FitsRead (io d).0 (writable_bytes conn.input_buffer + extrabuf_size)
    pub room : length conn.input_buffer.buffer + extrabuf_size ≤ max_size
    pub fits_write : Fits (io d).1 (length (content conn.output_buffer))
    pub quiet : conn.has_write_cmpl_cb ≡ false

  -- What a round of `handleEvents` makes of the connection `before` with the channel `ch`.
  pub record IsServedAt (d : ℕ) (ch : Channel) (before : TcpConnection (Unit {0})) (p' : Poller)
      (after : TcpConnection (Unit {0})) : Type 0 where
    pub calls : after.calls ≡ before.calls ++ event_calls ch.revents (io d).0
    pub sent :
        after.sent
        ≡ before.sent
          ++ (if ch.revents.pollout
                && (is_writing ch.events && not (is_closing ch.revents (io d).0))
              then written_bytes (io d).1 (content before.output_buffer)
              else [])
    pub state_same : after.state ≡ before.state
    pub queued : after.pending ≡ before.pending
    pub input_valid : IsValid after.input_buffer
    pub registered : IsRegistered p' d (fd d) loop (p'.channels d).events
    pub live :
        is_closing ch.revents (io d).0 ≡ false
        → IsLive (poller_port d (fd d) loop) (with_channel p' after)
    pub shut : is_closing ch.revents (io d).0 ≡ true → (p'.channels d).events ≡ none_event

  -- Nothing of another connection, its channel or its slot changed.
  pub record LeavesOthers (c : ℕ) (r r' : Reactor) : Type 0 where
    pub frame : IsFramed c r.poller r'.poller
    pub consistent : IsConsistent r'.poller
    pub others : (d : ℕ) → d ≢ c → r'.connections d ≡ r.connections d

  serve-framed :
      (c : ℕ) (r : Reactor)
      → (r.poller.channels c).fd ≡ pos (fd c)
      → serve loop io c r ≡ (do
        after ←
            handle_events
              (connection_handlers (framed_port r.poller c (fd c) loop) true (io c).0 (io c).1)
              (r.poller.channels c).revents
              tt
              (view r c, false)
        ok (stored c r after))
  unfolding serve
  serve-framed c r is =
      ap
        (λ n.
          handle_events (connection_handlers (poller_port c n loop) true (io c).0 (io c).1)
            (r.poller.channels c).revents tt (view r c, false)
          >>= (λ after. ok (stored c r after)))
        (ap key is)
      ∙ ap
          (λ h.
            handle_events h (r.poller.channels c).revents tt (view r c, false)
            >>= (λ after. ok (stored c r after)))
          (sym (same_handlers r.poller c (fd c) loop (io c).0 (io c).1))

  kept :
      (c : ℕ) (r : Reactor)
      → IsLive (poller_port c (fd c) loop) (view r c)
      → IsLive (framed_port r.poller c (fd c) loop) (view r c)
  kept c r v = record {
    is_open = (v.is_open, IsFramed-refl c r.poller);
    valid = v.valid;
    idle = v.idle;
    busy = v.busy;
  }

  served :
      (c : ℕ) (r : Reactor) (after : TcpConnection Poller × Bool)
      → IsServed
          (framed_port r.poller c (fd c) loop)
          (r.poller.channels c).revents
          (io c).0
          (io c).1
          (view r c)
          after
      → after.0.pending ≡ (r.connections c).pending
      → IsServedAt c
          (r.poller.channels c)
          (r.connections c)
          after.0.channel
          (with_channel tt after.0)
  served c r after w q = record {
    calls = w.calls;
    sent = w.sent;
    state_same = w.state_same;
    queued = q;
    input_valid = w.input_valid;
    registered = w.is_open.0;
    live = λ e.
        let v = w.live e in
        record { is_open = v.is_open.0; valid = v.valid; idle = v.idle; busy = v.busy };
    shut = w.shut;
  }

  put_self :
      (f : ℕ → TcpConnection (Unit {0})) (c : ℕ) (conn : TcpConnection (Unit {0}))
      → put_connection f c conn c ≡ conn
  put_self f c conn = let same : (c == c) ≡ true = ground arith in rw same refl

  abbrev pub HasServed : ℕ → Reactor → Reactor → Type 0
  HasServed c r r' =
      IsServedAt c (r.poller.channels c) (r.connections c) r'.poller (r'.connections c)
      × LeavesOthers c r r'

  pub serve_lem :
      (c : ℕ) (r : Reactor)
      → CanServe c r.poller (r.connections c)
      → Ensures (serve loop io c r) (HasServed c r)
  serve_lem c r v =
      subst (λ m. Ensures m (HasServed c r)) (sym (serve-framed c r v.live.is_open.mapped.numbered))
        (Ensures-bind (λ after. Served after × Quiet after) (HasServed c r) round _
          (Ensures-Holds Served Quiet round
            (handle_events-IsServed (framed_port r.poller c (fd c) loop) (view r c)
              (r.poller.channels c).revents (io c).0 (io c).1 (kept c r v.live) v.up v.input_valid
              v.fits_read v.room v.fits_write)
            (handle_events-IsQuiet port (r.connections c).pending (view r c)
              (r.poller.channels c).revents (io c).0 (io c).1 (v.quiet, refl)))
          (λ after (w, q). (
            subst (IsServedAt c (r.poller.channels c) (r.connections c) after.0.channel)
                (sym (put_self r.connections c (with_channel tt after.0))) (served c r after w q.1),
            record {
              frame = w.is_open.1;
              consistent = w.is_open.0.consistent;
              others = λ d h. let differs : (d == c) ≡ false = ground arith in rw differs refl;
            },
          )))
    where
      port : ChannelPort Poller
      port = framed_port r.poller c (fd c) loop

      round : Result (TcpConnection Poller × Bool)
      round =
          handle_events (connection_handlers port true (io c).0 (io c).1)
            (r.poller.channels c).revents tt (view r c, false)

      Served : TcpConnection Poller × Bool → Type 0
      Served after = IsServed port (r.poller.channels c).revents (io c).0 (io c).1 (view r c) after

      Quiet : TcpConnection Poller × Bool → Type 0
      Quiet after = IsQuiet port (r.connections c).pending after.0
