-- ===== src/Reactor/Tests.antt =====
-- A round of a loop with the channel of its wakeups and two connections.
use yatwb.Base.{
  ◌≡◌, ◌≢◌, refl, ℕ, zero, suc, [], ◌∷◌, List, none, some, inl, inr, arith, Bool-cases, true, false,
  ◌==◌, if◌then◌else◌, get_elem?, replicate, ◌++◌,
}
use yatwb.Base.Int.{ℤ, pos, negsuc, ◌==ℤ◌, ==ℤ_iff}
use yatwb.Base.Results.{ok, ◌>>=◌, Ensures}
use yatwb.Buffer.{read_fd, Buffer, new_buffer, ReadOutcome, SysCount, read_bytes, count}
use yatwb.Channel.{
  handle_events, Channel, PollFlags, some_event, none_event, read_event, write_event, union,
}
use yatwb.EventLoop.{EventLoop, dispatch, handle_active, run}
use yatwb.Poller.{
  poll, fill_active_channels, set_interest, loop_update_channel, update_channel, update_pollfd,
  Poller, PollFd, set_key, polled, write_revents,
}
use yatwb.Poller.Dispatch.{IsPolled}
use yatwb.Poller.Invariant.{IsConsistent, HasSlot, key}
use yatwb.Reactor.{serve, Reactor, serve_round}
use yatwb.Reactor.Round.{IsRound, serve_round-IsRound}
use yatwb.Reactor.Serve.{CanServe}
use yatwb.TcpConnection.{
  TcpConnection, Callback, connected, handle_close, handle_write, handle_read, connection_cb,
  message_cb, close_cb,
}

-- Fd 4 is that of the wakeups; 5 and 6 are connections.
abbrev fd_of : ℕ → ℕ
fd_of d = if d == 0 then 4 else if d == 1 then 5 else 6

abbrev events_of : ℕ → PollFlags
events_of d = if d == 1 then union read_event write_event else read_event

abbrev slot_of : ℕ → ℕ
slot_of d = if d == 0 then 0 else if d == 1 then 1 else 2

abbrev channels : ℕ → Channel
channels d = record {
  loop = 0;
  fd = pos (fd_of d);
  events = events_of d;
  revents = none_event;
  index = pos (slot_of d);
  owner_loop = some 0;
  events_handling = false;
}

abbrev pollfd_of : ℕ → PollFd
pollfd_of d = record { fd = pos (fd_of d); events = events_of d; revents = none_event }

abbrev three : Poller
three = record {
  poll_fds = pollfd_of 0 ∷ pollfd_of 1 ∷ pollfd_of 2 ∷ [];
  channel_map =
      set_key (set_key (set_key (λ _. none) (pos 4) (some 0)) (pos 5) (some 1)) (pos 6) (some 2);
  channels = channels;
}

abbrev HasEntry : ℤ → ℕ → Type 0
HasEntry k c = ((three.channels c).fd ≡ k) × HasSlot three c

three_mapped : (k : ℤ) (c : ℕ) → three.channel_map k ≡ some c → HasEntry k c
three_mapped k c e = elim (Bool-cases (k ==ℤ pos 6)) [
  | inl six ↦
      let is : c ≡ 2 = ground arith in
      rw is (ground (arith, ==ℤ_iff k (pos 6)), (2, pollfd_of 2, refl, refl, refl))
  | inr other ↦ elim (Bool-cases (k ==ℤ pos 5)) [
    | inl five ↦
        let is : c ≡ 1 = ground arith in
        rw is (ground (arith, ==ℤ_iff k (pos 5)), (1, pollfd_of 1, refl, refl, refl))
    | inr other' ↦
        let is : c ≡ 0 = ground arith in
        rw is (ground (arith, ==ℤ_iff k (pos 4)), (0, pollfd_of 0, refl, refl, refl))
  ]
]

three_occupied :
    (i : ℕ) (pfd : PollFd)
    → get_elem? three.poll_fds i ≡ some pfd
    → (c : ℕ) × (three.channel_map (pos (key pfd.fd)) ≡ some c) × ((three.channels c).index ≡ pos i)
three_occupied zero pfd e = let is : pfd ≡ pollfd_of 0 = cc in (0, rw is, refl)
three_occupied (suc zero) pfd e = let is : pfd ≡ pollfd_of 1 = cc in (1, rw is, refl)
three_occupied (suc (suc zero)) pfd e = let is : pfd ≡ pollfd_of 2 = cc in (2, rw is, refl)
three_occupied (suc (suc (suc i))) pfd e = cc

three-IsConsistent : IsConsistent three
three-IsConsistent = record { mapped = three_mapped; occupied = three_occupied }

-- A wakeup; a hang-up of the first connection; input of the second.
abbrev revents : List PollFlags
revents = read_event ∷ record none_event { pollhup = true; pollout = true } ∷ read_event ∷ []

revents-IsPolled : IsPolled three 3 revents
revents-IsPolled = record { ignored = never; counted = refl }
  where
    never :
        (i k : ℕ) (pfd : PollFd)
        → get_elem? (write_revents three.poll_fds revents) i ≡ some pfd
        → pfd.fd ≡ negsuc k
        → some_event pfd.revents ≡ false
    never zero k pfd e is = absurd (ground arith)
    never (suc zero) k pfd e is = absurd (ground arith)
    never (suc (suc zero)) k pfd e is = absurd (ground arith)
    never (suc (suc (suc i))) k pfd e is = cc

abbrev sending : Buffer
sending = record {
  buffer = replicate 8 0 ++ 1 ∷ 2 ∷ 3 ∷ 0 ∷ 0 ∷ [];
  reader_idx = 8;
  writer_idx = 11;
}

abbrev conversation : ℕ → TcpConnection (Unit {0})
conversation d = record {
  state = connected;
  channel = tt;
  input_buffer = new_buffer;
  output_buffer = if d == 1 then sending else new_buffer;
  has_write_cmpl_cb = false;
  sent = [];
  write_shut = false;
  calls = connection_cb ∷ [];
  pending = [];
}

abbrev io : ℕ → ReadOutcome × SysCount
io d = (read_bytes (if d == 1 then [] else 7 ∷ 8 ∷ []), count (if d == 1 then 2 else 0))

abbrev waiting : EventLoop Reactor
waiting = record {
  looping = true;
  quit_flag = false;
  calling_pending_functors = false;
  wakeups = 1;
  locked = false;
  pending_functors = [];
  program = record { poller = three; connections = conversation };
}

first-CanServe : CanServe 0 fd_of io 1 three (conversation 1)
first-CanServe = record {
  live = record {
    is_open = record {
      consistent = three-IsConsistent;
      mapped = record { numbered = refl; entry = refl };
      slot = 1;
      pollfd = pollfd_of 1;
      placed = refl;
      at = refl;
      synced = refl;
      own = refl;
      owned = (refl, refl);
    };
    valid = omega arith;
    idle = λ e. cc;
    busy = λ _ e. cc;
  };
  up = inl refl;
  input_valid = omega arith;
  fits_read = omega arith;
  room = omega arith;
  fits_write = omega arith;
  quiet = refl;
}

second-CanServe : CanServe 0 fd_of io 2 three (conversation 2)
second-CanServe = record {
  live = record {
    is_open = record {
      consistent = three-IsConsistent;
      mapped = record { numbered = refl; entry = refl };
      slot = 2;
      pollfd = pollfd_of 2;
      placed = refl;
      at = refl;
      synced = refl;
      own = refl;
      owned = (refl, refl);
    };
    valid = omega arith;
    idle = λ _. refl;
    busy = λ e. cc;
  };
  up = inl refl;
  input_valid = omega arith;
  fits_read = omega arith;
  room = omega arith;
  fits_write = omega arith;
  quiet = refl;
}

each-CanServe :
    (k : ℤ) (d : ℕ)
    → three.channel_map k ≡ some d
    → d ≢ 0
    → CanServe 0 fd_of io d three (conversation d)
each-CanServe k d e other = elim (Bool-cases (d == 1)) [
  | inl one ↦ let is : d ≡ 1 = ground arith in rw is first-CanServe
  | inr more ↦ let is : d ≡ 2 = ground arith in rw is second-CanServe
]

serve_round-IsRound_example :
    Ensures (serve_round 0 io 0 (polled 3 revents) waiting) (IsRound 0 fd_of io 0 3 revents waiting)
serve_round-IsRound_example =
    serve_round-IsRound 0 fd_of io 0 3 revents waiting three-IsConsistent revents-IsPolled
      each-CanServe

abbrev calls_of : EventLoop Reactor → List (List Callback)
calls_of lp = (lp.program.connections 1).calls ∷ (lp.program.connections 2).calls ∷ []

-- The first connection is closed, and the second gets its message.
round_runs :
    (do lp ← serve_round 0 io 0 (polled 3 revents) waiting; ok (calls_of lp))
    ≡ ok ((connection_cb ∷ close_cb ∷ []) ∷ (connection_cb ∷ message_cb ∷ []) ∷ [])
unfolding dispatch poll fill_active_channels handle_active run serve handle_events handle_close
    set_interest loop_update_channel update_channel update_pollfd handle_write handle_read read_fd
round_runs = refl
