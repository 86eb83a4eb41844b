-- ===== src/TcpConnection/Handlers/Served.antt =====
-- A connection's whole round of `handleEvents`: which callbacks the user gets, and what is sent.
use yatwb.Base.{
  ℕ, ◌+◌, ◌≤◌, ◌≡◌, refl, Bool, true, false, not, ◌&&◌, ◌||◌, List, [], ◌∷◌, ◌++◌, length,
  if◌then◌else◌, some,
}
use yatwb.Base.Results.{Ensures, Ensures-bind}
use yatwb.Buffer.{content, writable_bytes, extrabuf_size, max_size, ReadOutcome, SysCount}
use yatwb.Buffer.Space.{IsValid}
use yatwb.Channel.{PollFlags, none_event, handle_events, call_if}
use yatwb.ChannelPort.{ChannelPort}
use yatwb.TcpConnection.{TcpConnection, Callback, close_cb, is_writing_now, handle_close}
use yatwb.TcpConnection.Live.{Fits, IsLive}
use yatwb.TcpConnection.Lifecycle.{IsUp}
use yatwb.TcpConnection.Handlers.{on_connection, connection_handlers}
use yatwb.TcpConnection.Handlers.Reads.{
  is_end, read_calls, FitsRead, HasHeard, HasHungUp, hang_up, error_step, read_step,
}
use yatwb.TcpConnection.Handlers.Writes.{written_bytes, HasWritten, write_step}

abbrev pub is_hang_up : PollFlags → Bool
is_hang_up r = r.pollhup && not r.pollin

abbrev pub is_readable : PollFlags → Bool
is_readable r = r.pollin || r.pollpri || r.pollrdhup

abbrev pub event_calls : PollFlags → ReadOutcome → List Callback
event_calls r outcome =
    (if is_hang_up r then close_cb ∷ [] else [])
    ++ (if is_readable r then read_calls outcome else [])

-- The connection is closed in the round.
abbrev pub is_closing : PollFlags → ReadOutcome → Bool
is_closing r outcome = is_hang_up r || (is_readable r && is_end outcome)

module _ {S : Type 0} (port : ChannelPort S) where
  -- What a round sends: nothing where the connection is closed in it.
  abbrev pub event_bytes : PollFlags → ReadOutcome → SysCount → TcpConnection S → List ℕ
  event_bytes revents outcome written c =
      if revents.pollout && (is_writing_now port c && not (is_closing revents outcome))
      then written_bytes written (content c.output_buffer)
      else []

  -- `r` is the connection `c` after the round.
  pub record IsServed (revents : PollFlags) (outcome : ReadOutcome) (written : SysCount)
      (c : TcpConnection S) (r : TcpConnection S × Bool) : Type 0 where
    pub calls : r.0.calls ≡ c.calls ++ event_calls revents outcome
    pub sent : r.0.sent ≡ c.sent ++ event_bytes revents outcome written c
    pub handling : r.1 ≡ false
    pub is_open : port.IsOpen r.0.channel
    pub state_same : r.0.state ≡ c.state
    pub input_valid : IsValid r.0.input_buffer
    pub live : is_closing revents outcome ≡ false → IsLive port r.0
    pub shut : is_closing revents outcome ≡ true → port.events r.0.channel ≡ none_event

  -- On a live connection that is connected or disconnecting, with a valid input buffer, in the
  -- loop's thread, where `readv` fails or delivers no more than the vectors hold, the vector may grow
  -- by the stack buffer's size, `write` fails or takes at most what waits, and the user's callbacks
  -- call nothing: `handleEvents` succeeds for all flags that `poll` may return. It calls the close
  -- callback for a hang-up without input, and then, where there is something to read, the close
  -- callback at the end of the stream, the message callback for bytes and none for an error; it sends
  -- what `write` takes of the waiting bytes where the flags allow it and the connection was watched
  -- for writing, and nothing in a round that closes; and it is not handling events afterwards. Its state
  -- is the one it was in, its input buffer is valid, and it is live, or, in a round that closes, its
  -- channel is still registered and watched for nothing.
  pub handle_events-IsServed :
      (c : TcpConnection S) (revents : PollFlags) (outcome : ReadOutcome) (written : SysCount)
      → IsLive port c
      → IsUp port c.state
      → IsValid c.input_buffer
      → FitsRead outcome (writable_bytes c.input_buffer + extrabuf_size)
      → length c.input_buffer.buffer + extrabuf_size ≤ max_size
      → Fits written (length (content c.output_buffer))
      → Ensures
          (handle_events (connection_handlers port true outcome written) revents tt (c, false))
          (IsServed revents outcome written c)
  unfolding handle_events
  handle_events-IsServed c revents outcome written live up v f k fits =
      Ensures-bind (λ r. HasHungUp port c (is_hang_up revents) r.0)
        (IsServed revents outcome written c)
        (call_if (is_hang_up revents) (some (on_connection (handle_close port true))) (c, true)) _
        (hang_up port c (is_hang_up revents) up live.is_open v)
        (λ r w. rw (error_step port (revents.pollerr || revents.pollnval) r) (
          Ensures-bind (λ r'. HasHeard port c (event_calls revents outcome) closing r'.0)
            (IsServed revents outcome written c) _ _
            (read_step port (is_readable revents) c _ _ r outcome w.0 w.1 up v f k)
            (λ r' h.
              Ensures-bind
                (λ r''. HasWritten port c (event_calls revents outcome) closing bytes r''.0)
                (IsServed revents outcome written c) _ _
                (write_step port revents.pollout c (event_calls revents outcome) closing r' written
                  live fits h)
                (λ r'' s. record {
                  calls = s.all_told;
                  sent = s.all_sent;
                  handling = refl;
                  is_open = s.is_open;
                  state_same = s.state_same;
                  input_valid = s.input_valid;
                  live = s.live;
                  shut = s.shut;
                }))))
    where
      closing : Bool
      closing = is_closing revents outcome

      bytes : List ℕ
      bytes = event_bytes revents outcome written c
