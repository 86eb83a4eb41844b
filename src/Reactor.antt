-- ===== src/Reactor.antt =====
-- src/event_loop.cpp, src/channel.cpp, src/tcp_connection.cpp and src/poller.cpp together: an
-- `EventLoop` whose poller has the channels of many connections, and the channel of its wakeups. A
-- connection stands under the pointer of its channel; its channel is the poller's. What the calls of
-- `readv` and `write` of a round do is given for each connection. The callbacks of the users, the
-- close callback among them, are recorded: they call nothing. What a connection itself queues in the
-- loop, its write complete callback, is in its `pending`; the theorems are about connections without
-- one, which queue nothing. The close callback that a TcpServer sets is in TcpServer.
pub mod Serve
pub mod Active
pub mod Round
mod Tests
use yatwb.Base.{ℕ, true, false, Bool, List, ◌==◌, if◌then◌else◌}
use yatwb.Base.Results.{Result, ok, ◌>>=◌}
use yatwb.Buffer.{ReadOutcome, SysCount}
use yatwb.Channel.{PollFlags, handle_events}
use yatwb.EventLoop.{Functor, finish, act, call_handle_read, EventLoop, dispatch}
use yatwb.Poller.{Poller, PollOutcome, poll}
use yatwb.Poller.Invariant.{key}
use yatwb.Poller.Port.{poller_port}
use yatwb.TcpConnection.{TcpConnection}
use yatwb.TcpConnection.Handlers.{connection_handlers}

-- What the loop's thread shares: the poller, and the connections beside their channels.
pub record Reactor : Type 0 where
  pub poller : Poller
  pub connections : ℕ → TcpConnection (Unit {0})

-- The connection with the loop's side of its channel put in.
abbrev pub with_channel : {S T : Type 0} → S → TcpConnection T → TcpConnection S
with_channel s c = record {
  state = c.state;
  channel = s;
  input_buffer = c.input_buffer;
  output_buffer = c.output_buffer;
  has_write_cmpl_cb = c.has_write_cmpl_cb;
  sent = c.sent;
  write_shut = c.write_shut;
  calls = c.calls;
  pending = c.pending;
}

-- The connection behind a pointer replaced.
abbrev pub put_connection :
    (ℕ → TcpConnection (Unit {0})) → ℕ → TcpConnection (Unit {0}) → ℕ → TcpConnection (Unit {0})
put_connection f c conn d = if d == c then conn else f d

abbrev pub stored : ℕ → Reactor → TcpConnection Poller × Bool → Reactor
stored c r after = record {
  poller = after.0.channel;
  connections = put_connection r.connections c (with_channel tt after.0);
}

module _ (loop : ℕ) (io : ℕ → ReadOutcome × SysCount) where
  -- `handleEvents` of the channel `c` of a connection.
  unfoldable pub serve : ℕ → Reactor → Result Reactor
  serve c r = do
    let ch = r.poller.channels c
    let port = poller_port c (key ch.fd) loop
    after ←
        handle_events (connection_handlers port true (io c).0 (io c).1) ch.revents tt
          (with_channel r.poller (r.connections c), false)
    ok (stored c r after)

  -- Of any channel: that of the wakeups reads its counter.
  abbrev pub serve_channel : ℕ → ℕ → Functor Reactor
  serve_channel wake c = if c == wake then call_handle_read finish else act (serve c) finish

abbrev pub poll_reactor : PollOutcome → Reactor → Result (List ℕ × Reactor)
poll_reactor outcome r = do
  (active, p) ← poll outcome r.poller
  ok (active, record r { poller = p })

-- The first half of an iteration of `EventLoop::loop`.
abbrev pub serve_round :
    ℕ
    → (ℕ → ReadOutcome × SysCount)
    → ℕ
    → PollOutcome
    → EventLoop Reactor
    → Result (EventLoop Reactor)
serve_round loop io wake outcome lp = dispatch poll_reactor (serve_channel loop io wake) outcome lp
