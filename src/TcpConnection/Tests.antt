-- ===== src/TcpConnection/Tests.antt =====
-- Runs of a connection, and its theorems at concrete inputs, over the poller and over a channel
-- that is only its interest set.
use yatwb.Base.{◌≡◌, refl, [], ◌∷◌, ◌++◌, replicate, some, inl, ◌⊎◌, arith, true, false}
use yatwb.Base.Int.{pos, negsuc}
use yatwb.Base.Results.{fault, deadlock, Ensures, ◌>>=◌}
use yatwb.Buffer.{Buffer, new_buffer, count, read_bytes}
use yatwb.Channel.{PollFlags, handle_events, none_event, read_event, write_event, union}
use yatwb.ChannelPort.Flags.{flags_port}
use yatwb.Poller.{Poller, new_poller}
use yatwb.TcpConnection.{
  TcpConnection, connecting, connected, new_connection, send_in_loop, handle_write, shutdown,
  handle_read, connection_cb,
}
use yatwb.TcpConnection.Live.{IsLive}
use yatwb.TcpConnection.Stream.{IsSent, send_in_loop-IsSent, takes_whole, send_in_loop-locked}
use yatwb.TcpConnection.Receive.{IsReceived, handle_read-IsReceived}
use yatwb.TcpConnection.Drain.{IsFlushed, handle_write-IsFlushed}
use yatwb.TcpConnection.Handlers.{connection_handlers}
use yatwb.TcpConnection.Handlers.Served.{IsServed, handle_events-IsServed}
use yatwb.TcpConnection.Shutdown.{run_writes, IsFinished, shutdown-IsFinished}

abbrev sending : Buffer
sending = record {
  buffer = replicate 8 0 ++ 1 ∷ 2 ∷ 3 ∷ 0 ∷ 0 ∷ [];
  reader_idx = 8;
  writer_idx = 11;
}

-- Connected, with nothing to send; and with three bytes to send.
abbrev idle : TcpConnection PollFlags
idle = record {
  state = connected;
  channel = read_event;
  input_buffer = new_buffer;
  output_buffer = new_buffer;
  has_write_cmpl_cb = true;
  sent = [];
  write_shut = false;
  calls = connection_cb ∷ [];
  pending = [];
}

abbrev busy : TcpConnection PollFlags
busy = record idle {
  channel = union read_event write_event;
  output_buffer = sending;
  sent = 9 ∷ [];
}

idle-IsLive : IsLive flags_port idle
idle-IsLive = record { is_open = tt; valid = omega arith; idle = λ _. refl; busy = λ e. cc }

busy-IsLive : IsLive flags_port busy
busy-IsLive = record { is_open = tt; valid = omega arith; idle = λ e. cc; busy = λ _ e. cc }

-- The kernel takes one byte of three: two wait.
send_in_loop-IsSent_example :
    Ensures
      (send_in_loop flags_port true false (count 1) (4 ∷ 5 ∷ 6 ∷ []) idle)
      (IsSent flags_port idle (4 ∷ 5 ∷ 6 ∷ []))
send_in_loop-IsSent_example =
    send_in_loop-IsSent flags_port false idle (count 1) (4 ∷ 5 ∷ 6 ∷ []) idle-IsLive refl
      (omega arith) (omega arith)

-- The peer hangs up while three bytes wait, and the flags allow a write besides.
abbrev hung_up : PollFlags
hung_up = record none_event { pollhup = true; pollout = true }

handle_events-IsServed_example :
    Ensures
      (handle_events
        (connection_handlers flags_port true (read_bytes []) (count 2))
        hung_up
        tt
        (busy, false))
      (IsServed flags_port hung_up (read_bytes []) (count 2) busy)
handle_events-IsServed_example =
    handle_events-IsServed flags_port busy hung_up (read_bytes []) (count 2) busy-IsLive (inl refl)
      (omega arith) (omega arith) (omega arith) (omega arith)

handle_write-IsFlushed_example :
    Ensures (handle_write flags_port true (count 2) busy) (IsFlushed flags_port busy 2)
handle_write-IsFlushed_example =
    handle_write-IsFlushed flags_port busy 2 busy-IsLive refl (omega arith) (omega arith)

-- Two writes after the shutdown, of two bytes and of one.
shutdown-IsFinished_example :
    Ensures
      (do c ← shutdown flags_port true busy; run_writes flags_port (2 ∷ 1 ∷ []) c)
      (IsFinished flags_port busy)
shutdown-IsFinished_example =
    shutdown-IsFinished flags_port busy (2 ∷ 1 ∷ []) busy-IsLive refl (omega arith)

-- A poller without slots, whose channel 0 is on fd 5 and belongs to loop 0.
abbrev fresh : Poller
fresh = new_poller (λ _. record {
  loop = 0;
  fd = pos 5;
  events = none_event;
  revents = none_event;
  index = negsuc 0;
  owner_loop = some 0;
  events_handling = false;
})

abbrev accepted : TcpConnection Poller
accepted = record {
  state = connecting;
  channel = fresh;
  input_buffer = new_buffer;
  output_buffer = new_buffer;
  has_write_cmpl_cb = false;
  sent = [];
  write_shut = false;
  calls = [];
  pending = [];
}

accepted_is_new : new_connection fresh false ≡ accepted
unfolding new_connection
accepted_is_new = refl

abbrev reporting : TcpConnection PollFlags
reporting = record idle { has_write_cmpl_cb = true }

reporting-IsLive : IsLive flags_port reporting
reporting-IsLive =
    let v = idle-IsLive in
    record { is_open = v.is_open; valid = v.valid; idle = v.idle; busy = v.busy }

send_in_loop-locked_example :
    ((takes_whole flags_port reporting (count 2) (4 ∷ 5 ∷ []) ≡ true)
      × (send_in_loop flags_port true true (count 2) (4 ∷ 5 ∷ []) reporting ≡ fault deadlock))
    ⊎ ((takes_whole flags_port reporting (count 2) (4 ∷ 5 ∷ []) ≡ false)
        × Ensures
            (send_in_loop flags_port true true (count 2) (4 ∷ 5 ∷ []) reporting)
            (IsSent flags_port reporting (4 ∷ 5 ∷ [])))
send_in_loop-locked_example =
    send_in_loop-locked flags_port reporting (count 2) (4 ∷ 5 ∷ []) reporting-IsLive refl
      (omega arith) (omega arith)

handle_read-IsReceived_example :
    Ensures
      (handle_read flags_port true (read_bytes (7 ∷ 8 ∷ [])) idle)
      (IsReceived flags_port idle (7 ∷ 8 ∷ []))
handle_read-IsReceived_example =
    handle_read-IsReceived flags_port idle true 7 (8 ∷ []) (omega arith) (omega arith) (omega arith)
