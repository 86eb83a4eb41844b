-- ===== src/TcpConnection.antt =====
-- src/include/tcp_connection.h and src/tcp_connection.cpp: one connection of a loop.
-- A call that goes out is recorded: the bytes that `write` took (`sent`), `shutdownWrite`
-- (`write_shut`), the callbacks in order (`calls`) and the functors that the connection put into
-- its loop's queue (`pending`). A user callback acts only by further calls of these functions:
-- `message_cb_` and `close_cb_` are the last thing that their callers do, and so is
-- `connection_cb_` in `establishConnection`. Logging is left out.
pub mod Live
pub mod Stream
pub mod Drain
pub mod Receive
pub mod Shutdown
pub mod Lifecycle
pub mod Handlers
mod Tests
use yatwb.Base.{
  ℕ, zero, suc, ◌-◌, Bool, true, false, not, ◌&&◌, ◌||◌, List, [], ◌∷◌, ◌++◌, length, take, drop,
  ltb, leb, ◌==◌, if◌then◌else◌,
}
use yatwb.Base.Results.{Result, ok, assert, require, not_in_loop_thread, deadlock, ◌>>=◌, ◌>>◌}
use yatwb.Buffer.{
  Buffer, new_buffer, readable_bytes, content, append, retrieve, ReadOutcome, read_fd, SysCount,
  failed, count,
}
use yatwb.Channel.{
  PollFlags, Interest, is_writing, enable_reading, enable_writing, disable_writing,
  disable_all_events,
}
use yatwb.ChannelPort.{ChannelPort}

pub data States : Type 0 where
  connecting connected disconnecting disconnected : States

abbrev pub is_connecting : States → Bool
is_connecting connecting = true
is_connecting _ = false

abbrev pub is_connected : States → Bool
is_connected connected = true
is_connected _ = false

abbrev pub is_disconnecting : States → Bool
is_disconnecting disconnecting = true
is_disconnecting _ = false

pub data Callback : Type 0 where
  connection_cb message_cb close_cb : Callback

-- What the connection binds and queues in its loop.
pub data Functor : Type 0 where
  send_in_loop_of : (message : List ℕ) → Functor
  shutdown_in_loop_of : Functor
  write_cmpl_of : Functor

pub record TcpConnection (S : Type 0) : Type 0 where
  pub state : States
  pub channel : S
  pub input_buffer : Buffer
  pub output_buffer : Buffer
  -- `write_cmpl_cb_` is set
  pub has_write_cmpl_cb : Bool
  pub sent : List ℕ
  pub write_shut : Bool
  pub calls : List Callback
  pub pending : List Functor

-- The constructor, and then `setWriteCallback` or not.
unfoldable pub new_connection : {S : Type 0} → S → Bool → TcpConnection S
new_connection channel has_cb = record {
  state = connecting;
  channel = channel;
  input_buffer = new_buffer;
  output_buffer = new_buffer;
  has_write_cmpl_cb = has_cb;
  sent = [];
  write_shut = false;
  calls = [];
  pending = [];
}

-- `loop_->queueInLoop`
abbrev pub queue_in_loop : {S : Type 0} → Functor → TcpConnection S → TcpConnection S
queue_in_loop f c = record c { pending = c.pending ++ f ∷ [] }

-- `if (write_cmpl_cb_) loop_->queueInLoop(…)` of `handleWrite`, which no functor of the loop runs.
abbrev pub queue_write_cmpl : {S : Type 0} → TcpConnection S → TcpConnection S
queue_write_cmpl c = if c.has_write_cmpl_cb then queue_in_loop write_cmpl_of c else c

abbrev pub call : {S : Type 0} → Callback → TcpConnection S → TcpConnection S
call cb c = record c { calls = c.calls ++ cb ∷ [] }

-- The same in `sendInLoop`, which `doPendingFunctors` runs with the loop's mutex held by this thread
-- (`locked`), and `queueInLoop` locks that mutex first.
abbrev pub queue_write_cmpl_locking :
    {S : Type 0} → Bool → TcpConnection S → Result (TcpConnection S)
queue_write_cmpl_locking locked c = do
  require (not (locked && c.has_write_cmpl_cb)) deadlock
  ok (queue_write_cmpl c)

-- The `write` at the start of `sendInLoop`, with its outcome: the connection and `nwrote`.
unfoldable pub write_message :
    {S : Type 0} → Bool → List ℕ → SysCount → TcpConnection S → Result (TcpConnection S × ℕ)
write_message locked message (failed errno) c = ok (c, 0)
write_message locked message (count n) c =
    let c' = record c { sent = c.sent ++ take n message } in
    let complete = (do c' ← queue_write_cmpl_locking locked c'; ok (c', n)) in
    if ltb n (length message) then ok (c', n) else complete

module _ {S : Type 0} (port : ChannelPort S) where
  open port use {events, set_interest, remove}

  abbrev pub is_writing_now : TcpConnection S → Bool
  is_writing_now c = is_writing (events c.channel)

  unfoldable pub set_channel : Bool → Interest → TcpConnection S → Result (TcpConnection S)
  set_channel in_loop how c = do
    channel ← set_interest in_loop how c.channel
    ok (record c { channel = channel })

  -- What of the message was not written goes behind the output buffer's content.
  unfoldable pub buffer_rest : Bool → List ℕ → TcpConnection S × ℕ → Result (TcpConnection S)
  buffer_rest in_loop message (c, nwrote) =
      let rest = (do
        out ← append c.output_buffer (drop nwrote message)
        let c' = record c { output_buffer = out }
        if is_writing_now c' then ok c' else set_channel in_loop enable_writing c') in
      if ltb nwrote (length message) then rest else ok c

  unfoldable pub send_in_loop :
      Bool → Bool → SysCount → List ℕ → TcpConnection S → Result (TcpConnection S)
  unfolding write_message
  send_in_loop in_loop locked outcome message c = do
    require in_loop not_in_loop_thread
    let direct = not (is_writing_now c) && (readable_bytes c.output_buffer == 0)
    after ← (if direct then write_message locked message outcome c else ok (c, 0))
    buffer_rest in_loop message after

  -- The outcome is that of the `write` that runs at once when the caller is in the loop's thread,
  -- which holds the loop's mutex where a functor is the caller; another thread waits for it.
  unfoldable pub send : Bool → Bool → SysCount → List ℕ → TcpConnection S → Result (TcpConnection S)
  send in_loop locked outcome message c =
      if is_connected c.state
      then (if in_loop
          then send_in_loop in_loop locked outcome message c
          else ok (queue_in_loop (send_in_loop_of message) c))
      else ok c

  unfoldable pub shutdown_in_loop : Bool → TcpConnection S → Result (TcpConnection S)
  shutdown_in_loop in_loop c = do
    require in_loop not_in_loop_thread
    ok (if is_writing_now c then c else record c { write_shut = true })

  unfoldable pub shutdown : Bool → TcpConnection S → Result (TcpConnection S)
  shutdown in_loop c =
      let c' = record c { state = disconnecting } in
      if is_connected c.state
      then (if in_loop
          then shutdown_in_loop in_loop c'
          else ok (queue_in_loop shutdown_in_loop_of c'))
      else ok c

  unfoldable pub establish_connection : Bool → TcpConnection S → Result (TcpConnection S)
  unfolding set_channel
  establish_connection in_loop c = do
    require in_loop not_in_loop_thread
    assert (is_connecting c.state)
    c ← set_channel in_loop enable_reading (record c { state = connected })
    ok (call connection_cb c)

  unfoldable pub handle_close : Bool → TcpConnection S → Result (TcpConnection S)
  unfolding set_channel
  handle_close in_loop c = do
    require in_loop not_in_loop_thread
    assert (is_connected c.state || is_disconnecting c.state)
    c ← set_channel in_loop disable_all_events c
    ok (call close_cb c)

  -- What `handleRead` does with the result of `readFd`; `handleError` only logs.
  unfoldable pub after_read : Bool → TcpConnection S → SysCount → Result (TcpConnection S)
  after_read in_loop c (failed errno) = ok c
  after_read in_loop c (count zero) = handle_close in_loop c
  after_read in_loop c (count (suc n)) = ok (call message_cb c)

  unfoldable pub handle_read : Bool → ReadOutcome → TcpConnection S → Result (TcpConnection S)
  unfolding after_read
  handle_read in_loop outcome c = do
    (input, n) ← read_fd c.input_buffer outcome
    after_read in_loop (record c { input_buffer = input }) n

  -- The end of `handleWrite` once the output buffer is empty.
  unfoldable pub output_drained : Bool → TcpConnection S → Result (TcpConnection S)
  unfolding set_channel shutdown_in_loop
  output_drained in_loop c = do
    c ← set_channel in_loop disable_writing c
    let c' = queue_write_cmpl c
    if is_disconnecting c'.state then shutdown_in_loop in_loop c' else ok c'

  -- `handleWrite` where `write` took `n` bytes, which are more than none.
  unfoldable pub after_write : Bool → ℕ → TcpConnection S → Result (TcpConnection S)
  unfolding output_drained
  after_write in_loop n c = do
    out ← retrieve c.output_buffer n
    let c' = record c { output_buffer = out; sent = c.sent ++ take n (content c.output_buffer) }
    if readable_bytes out == 0 then output_drained in_loop c' else ok c'

  unfoldable pub handle_write : Bool → SysCount → TcpConnection S → Result (TcpConnection S)
  handle_write in_loop outcome c = do
    require in_loop not_in_loop_thread
    if is_writing_now c
        then elim outcome [
          | failed errno ↦ ok c
          | count n ↦ if ltb 0 n then after_write in_loop n c else ok c
        ]
        else ok c

  unfoldable pub destroy_connection : Bool → TcpConnection S → Result (TcpConnection S)
  unfolding set_channel
  destroy_connection in_loop c = do
    require in_loop not_in_loop_thread
    assert (is_connected c.state || is_disconnecting c.state)
    c ← set_channel in_loop disable_all_events (record c { state = disconnected })
    let c = call connection_cb c
    channel ← remove in_loop c.channel
    ok (record c { channel = channel })
