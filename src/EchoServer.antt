-- ===== src/EchoServer.antt =====
-- example/echo.h and example/echo.cpp: a server whose message callback sends back what it reads.
-- `handleRead` calls the message callback last, so that the callback is a step after it. What the
-- callbacks print is left out.
pub mod Stream
mod Tests
use yatwb.Base.{[], ◌∷◌, ℕ, Bool, false, List}
use yatwb.Base.Results.{Result, ok, ◌>>=◌}
use yatwb.Buffer.{SysCount, ReadOutcome, read_failed, read_bytes, retrieve_as_string}
use yatwb.ChannelPort.{ChannelPort}
use yatwb.TcpConnection.{TcpConnection, handle_read, send}

module _ {S : Type 0} (port : ChannelPort S) where
  -- With the outcome of the `write` that `send` makes.
  unfoldable pub on_message : Bool → SysCount → TcpConnection S → Result (TcpConnection S)
  unfolding retrieve_as_string
  on_message in_loop written c =
      let (input, bytes) = retrieve_as_string c.input_buffer in
      send port in_loop false written bytes (record c { input_buffer = input })

  -- The message callback, which `handleRead` calls where it has received bytes.
  abbrev pub answer : Bool → ReadOutcome → SysCount → TcpConnection S → Result (TcpConnection S)
  answer in_loop (read_failed errno) written c = ok c
  answer in_loop (read_bytes []) written c = ok c
  answer in_loop (read_bytes (b ∷ bs)) written c = on_message in_loop written c

  -- `handleRead` of a connection of the server, with its callback.
  unfoldable pub receive :
      Bool → ReadOutcome → SysCount → TcpConnection S → Result (TcpConnection S)
  unfolding on_message
  receive in_loop outcome written c = do
    c ← handle_read port in_loop outcome c
    answer in_loop outcome written c
