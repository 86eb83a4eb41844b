-- ===== src/TcpConnection/Receive.antt =====
-- `handleRead`: what the peer sent goes to the input buffer, and the user is told.
use yatwb.Base.{ℕ, ◌+◌, ◌≤◌, ◌≡◌, refl, Bool, List, ◌∷◌, ◌++◌, length}
use yatwb.Base.Results.{Ensures, Ensures-bind}
use yatwb.Buffer.{content, writable_bytes, extrabuf_size, max_size, read_fd, read_bytes}
use yatwb.Buffer.Space.{IsValid}
use yatwb.Buffer.Reads.{IsRead, read_fd_lem}
use yatwb.ChannelPort.{ChannelPort}
use yatwb.TcpConnection.{TcpConnection, message_cb, handle_read, after_read, call}

module _ {S : Type 0} (port : ChannelPort S) where
  -- `c'` is `c` with more bytes to read, of which the user was told.
  pub record IsReceived (c : TcpConnection S) (bytes : List ℕ) (c' : TcpConnection S) : Type 0 where
    pub valid : IsValid c'.input_buffer
    pub stream : content c'.input_buffer ≡ content c.input_buffer ++ bytes
    pub rest : c' ≡ call message_cb (record c { input_buffer = c'.input_buffer })

  -- On a connection with a valid input buffer, where `readv` delivers at least one byte, no more
  -- than the writable bytes and the stack buffer hold, and the vector may grow by the stack buffer's
  -- size: `handleRead` succeeds, the bytes follow what the input buffer held, the user's message
  -- callback is called once, and nothing else of the connection changes.
  pub handle_read-IsReceived :
      (c : TcpConnection S) (in_loop : Bool) (b : ℕ) (bs : List ℕ)
      → IsValid c.input_buffer
      → length (b ∷ bs) ≤ writable_bytes c.input_buffer + extrabuf_size
      → length c.input_buffer.buffer + extrabuf_size ≤ max_size
      → Ensures (handle_read port in_loop (read_bytes (b ∷ bs)) c) (IsReceived c (b ∷ bs))
  unfolding handle_read after_read
  handle_read-IsReceived c in_loop b bs v h k =
      Ensures-bind (IsRead c.input_buffer (b ∷ bs)) (IsReceived c (b ∷ bs))
        (read_fd c.input_buffer (read_bytes (b ∷ bs))) _ (read_fd_lem c.input_buffer (b ∷ bs) v h k)
        (λ r w. rw w.1 (record { valid = w.0.0; stream = w.0.1; rest = refl }))
