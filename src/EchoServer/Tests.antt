-- ===== src/EchoServer/Tests.antt =====
-- A run of the echo server's connection, and its theorems at concrete inputs.
use yatwb.Base.{◌≡◌, refl, [], ◌∷◌, arith, true, false}
use yatwb.Base.Results.{Result, ok, fault, Ensures}
use yatwb.Buffer.{new_buffer, count, read_bytes, read_fd, append, ensure_writable_bytes, retrieve}
use yatwb.Channel.{PollFlags, read_event}
use yatwb.ChannelPort.Flags.{flags_port}
use yatwb.TcpConnection.{
  TcpConnection, connected, connection_cb, handle_read, send, send_in_loop, buffer_rest,
  set_channel, after_write, handle_write,
}
use yatwb.EchoServer.{receive}
use yatwb.EchoServer.Stream.{
  IsEchoing, IsEchoed, receive-IsEchoed, Echoes, starts, receives, writes, Echoes-sends,
}

abbrev idle : TcpConnection PollFlags
idle = record {
  state = connected;
  channel = read_event;
  input_buffer = new_buffer;
  output_buffer = new_buffer;
  has_write_cmpl_cb = false;
  sent = [];
  write_shut = false;
  calls = connection_cb ∷ [];
  pending = [];
}

idle-IsEchoing : IsEchoing flags_port idle
idle-IsEchoing = record {
  live = record { is_open = tt; valid = omega arith; idle = λ _. refl; busy = λ e. cc };
  state = refl;
  valid = omega arith;
  nothing = refl;
}

receive-IsEchoed_example :
    Ensures
      (receive flags_port true (read_bytes (7 ∷ 8 ∷ [])) (count 1) idle)
      (IsEchoed flags_port idle (7 ∷ 8 ∷ []))
receive-IsEchoed_example =
    receive-IsEchoed flags_port idle 7 (8 ∷ []) (count 1) idle-IsEchoing (omega arith) (omega arith)
      (omega arith) (omega arith)

abbrev value_or :
    TcpConnection PollFlags → Result (TcpConnection PollFlags) → TcpConnection PollFlags
value_or d (ok c) = c
value_or d (fault e) = d

-- The kernel takes one byte of two, and the other one later.
abbrev halfway : TcpConnection PollFlags
halfway = value_or idle (receive flags_port true (read_bytes (7 ∷ 8 ∷ [])) (count 1) idle)

abbrev drained : TcpConnection PollFlags
drained = value_or idle (handle_write flags_port true (count 1) halfway)

received : receive flags_port true (read_bytes (7 ∷ 8 ∷ [])) (count 1) idle ≡ ok halfway
unfolding receive handle_read read_fd send send_in_loop buffer_rest append ensure_writable_bytes
    set_channel
received = refl

written : handle_write flags_port true (count 1) halfway ≡ ok drained
unfolding receive handle_write handle_read read_fd send send_in_loop buffer_rest append
    ensure_writable_bytes set_channel after_write retrieve
written = refl

drained-Echoes : Echoes flags_port idle (7 ∷ 8 ∷ []) drained
unfolding receive handle_write handle_read read_fd send send_in_loop buffer_rest append
    ensure_writable_bytes set_channel after_write retrieve
drained-Echoes =
    writes (7 ∷ 8 ∷ []) halfway drained 1
      (receives [] idle halfway 7 (8 ∷ []) (count 1) starts (omega arith) (omega arith)
        (omega arith) (omega arith) received)
      refl (omega arith) (omega arith) written

Echoes-sends_example : drained.sent ≡ 7 ∷ 8 ∷ []
unfolding receive handle_write handle_read read_fd send send_in_loop buffer_rest append
    ensure_writable_bytes set_channel after_write retrieve
Echoes-sends_example =
    Echoes-sends flags_port idle drained (7 ∷ 8 ∷ []) idle-IsEchoing drained-Echoes refl
