-- ===== src/TcpConnection/Handlers.antt =====
-- src/tcp_connection.cpp: the callbacks that a connection gives its channel, which
-- `Channel::handleEvents` calls in the order of its tests.
pub mod Quiet
pub mod Reads
pub mod Writes
pub mod Served
use yatwb.Base.{Bool, some}
use yatwb.Base.Results.{Result, ok, ◌>>=◌}
use yatwb.Buffer.{ReadOutcome, SysCount}
use yatwb.Channel.{Handlers}
use yatwb.ChannelPort.{ChannelPort}
use yatwb.TcpConnection.{TcpConnection, handle_read, handle_write, handle_close}

-- A member function bound to the connection, which stands beside `events_handling_`.
abbrev pub on_connection :
    {S : Type 0}
    → (TcpConnection S → Result (TcpConnection S))
    → TcpConnection S × Bool
    → Result (TcpConnection S × Bool)
on_connection f (c, handling) = do c ← f c; ok (c, handling)

-- It logs the error of the socket.
abbrev pub handle_error : {S : Type 0} → TcpConnection S → Result (TcpConnection S)
handle_error c = ok c

-- What the constructor sets, with the outcomes of the `readv` and the `write` that they make.
abbrev pub connection_handlers :
    {S : Type 0}
    → ChannelPort S
    → Bool
    → ReadOutcome
    → SysCount
    → Handlers (TcpConnection S × Bool) (Unit {0})
connection_handlers port in_loop outcome written = record {
  read_cb = some (λ recv_time. on_connection (handle_read port in_loop outcome));
  write_cb = some (on_connection (handle_write port in_loop written));
  error_cb = some (on_connection handle_error);
  close_cb = some (on_connection (handle_close port in_loop));
  set_events_handling = λ b s. (s.0, b);
}
