-- ===== src/EchoServer/Stream.antt =====
-- What an echo connection sends back is what it has received.
use yatwb.Base.{
  ℕ, ◌+◌, ◌≤◌, ◌<◌, ◌≡◌, sym, ap, refl, ◌∙◌, true, false, List, [], ◌∷◌, ◌++◌, length, arith,
  append_assoc, append-nil,
}
use mathlib.Core.Path.{subst}
use yatwb.Base.Results.{ok, Ensures, Ensures-bind, Ensures-mono, Ensures-ok}
use yatwb.Buffer.{
  content, writable_bytes, extrabuf_size, max_size, read_bytes, SysCount, count, retrieve_all,
}
use yatwb.Buffer.Space.{IsValid}
use yatwb.Buffer.Contents.{retrieve_all_lem}
use yatwb.ChannelPort.{ChannelPort}
use yatwb.TcpConnection.{
  TcpConnection, connected, message_cb, is_connected, is_writing_now, call, handle_read, send,
  send_in_loop, handle_write,
}
use yatwb.TcpConnection.Live.{Fits, delivered, IsLive}
use yatwb.TcpConnection.Stream.{IsSent, send_in_loop-IsSent}
use yatwb.TcpConnection.Drain.{IsFlushed, handle_write-IsFlushed}
use yatwb.TcpConnection.Receive.{IsReceived, handle_read-IsReceived}
use yatwb.TcpConnection.Shutdown.{flushed-delivered}
use yatwb.EchoServer.{on_message, receive}

module _ {S : Type 0} (port : ChannelPort S) where
  -- A connection that has nothing to read left.
  pub record IsEchoing (c : TcpConnection S) : Type 0 where
    pub live : IsLive port c
    pub state : c.state ≡ connected
    pub valid : IsValid c.input_buffer
    pub nothing : content c.input_buffer ≡ []

  abbrev pub IsEchoed : TcpConnection S → List ℕ → TcpConnection S → Type 0
  IsEchoed c bytes c' = IsEchoing c' × (delivered c' ≡ delivered c ++ bytes)

  on_message_lem :
      (c : TcpConnection S) (written : SysCount)
      → IsLive port c
      → c.state ≡ connected
      → IsValid c.input_buffer
      → Fits written (length (content c.input_buffer))
      → c.output_buffer.writer_idx + length (content c.input_buffer) ≤ max_size
      → Ensures (on_message port true written c) (IsEchoed c (content c.input_buffer))
  unfolding on_message send
  on_message_lem c written v up w f h =
      let bytes = content c.input_buffer in
      let emptied = record c { input_buffer = retrieve_all c.input_buffer } in
      let (valid, nothing, _) = retrieve_all_lem c.input_buffer w in
      rw (ap is_connected up) (
        Ensures-mono (IsSent port emptied bytes) (IsEchoed c bytes)
          (send_in_loop port true false written bytes emptied)
          (send_in_loop-IsSent port false emptied written bytes
            (record { is_open = v.is_open; valid = v.valid; idle = v.idle; busy = v.busy }) refl f
            h)
          (λ c' s. (
            record {
              live = s.live;
              state = s.state_same ∙ up;
              valid = subst IsValid (sym s.input_same) valid;
              nothing = ap content s.input_same ∙ nothing;
            },
            s.stream,
          )))

  -- On an echo connection, in the loop's thread, that has nothing left to read, where `readv`
  -- delivers at least one byte, no more than the writable bytes and the stack buffer hold, where the
  -- vectors may hold the bytes, and with a `write` that fails or takes at most the bytes: `handleRead`
  -- and its message callback succeed, the bytes sent and those waiting are the ones before followed
  -- by the bytes received, and the connection has nothing left to read.
  pub receive-IsEchoed :
      (c : TcpConnection S) (b : ℕ) (bs : List ℕ) (written : SysCount)
      → IsEchoing c
      → length (b ∷ bs) ≤ writable_bytes c.input_buffer + extrabuf_size
      → length c.input_buffer.buffer + extrabuf_size ≤ max_size
      → Fits written (length (b ∷ bs))
      → c.output_buffer.writer_idx + length (b ∷ bs) ≤ max_size
      → Ensures (receive port true (read_bytes (b ∷ bs)) written c) (IsEchoed c (b ∷ bs))
  unfolding receive
  receive-IsEchoed c b bs written v h k f room =
      Ensures-bind (IsReceived port c (b ∷ bs)) (IsEchoed c (b ∷ bs))
        (handle_read port true (read_bytes (b ∷ bs)) c) (on_message port true written)
        (handle_read-IsReceived port c true b bs v.valid h k) (λ c1 r. echoed c1 r)
    where
      echoed :
          (c1 : TcpConnection S)
          → IsReceived port c (b ∷ bs) c1
          → Ensures (on_message port true written c1) (IsEchoed c (b ∷ bs))
      echoed c1 r =
          let e = r.stream ∙ ap (λ (l : List ℕ). l ++ b ∷ bs) v.nothing in
          let told = call message_cb (record c { input_buffer = c1.input_buffer }) in
          subst (λ c2. Ensures (on_message port true written c2) (IsEchoed c (b ∷ bs))) (sym r.rest)
            (Ensures-mono (IsEchoed told (content c1.input_buffer)) (IsEchoed c (b ∷ bs))
              (on_message port true written told)
              (on_message_lem told written
                (record {
                  is_open = v.live.is_open;
                  valid = v.live.valid;
                  idle = v.live.idle;
                  busy = v.live.busy;
                })
                v.state r.valid (subst (λ (l : List ℕ). Fits written (length l)) (sym e) f)
                (omega (arith, ap length e)))
              (λ c2 w. (w.0, w.1 ∙ ap (λ (l : List ℕ). delivered c ++ l) e)))

  -- The states of an echo connection and the bytes received so far: it receives, while the vectors
  -- may hold the bytes, and it writes what waits.
  pub data Echoes (c0 : TcpConnection S) : List ℕ → TcpConnection S → Type 0 where
    starts : Echoes c0 [] c0
    receives :
        (seen : List ℕ) (c c' : TcpConnection S) (b : ℕ) (bs : List ℕ) (written : SysCount)
        → Echoes c0 seen c
        → length (b ∷ bs) ≤ writable_bytes c.input_buffer + extrabuf_size
        → length c.input_buffer.buffer + extrabuf_size ≤ max_size
        → Fits written (length (b ∷ bs))
        → c.output_buffer.writer_idx + length (b ∷ bs) ≤ max_size
        → receive port true (read_bytes (b ∷ bs)) written c ≡ ok c'
        → Echoes c0 (seen ++ b ∷ bs) c'
    writes :
        (seen : List ℕ) (c c' : TcpConnection S) (n : ℕ)
        → Echoes c0 seen c
        → is_writing_now port c ≡ true
        → 0 < n
        → n ≤ length (content c.output_buffer)
        → handle_write port true (count n) c ≡ ok c'
        → Echoes c0 seen c'

  Echoes-IsEchoed :
      (c0 c : TcpConnection S) (seen : List ℕ)
      → IsEchoing c0
      → Echoes c0 seen c
      → IsEchoed c0 seen c
  Echoes-IsEchoed c0 _ _ v starts = (v, sym (append-nil (delivered c0)))
  Echoes-IsEchoed c0 _ _ v (receives seen c c' b bs written w h k f room e) =
      let (u, d) = Echoes-IsEchoed c0 c seen v w in
      let (u', d') =
        Ensures-ok (IsEchoed c (b ∷ bs)) _ c' e (receive-IsEchoed c b bs written u h k f room) in
      (u', d' ∙ ap (λ (l : List ℕ). l ++ b ∷ bs) d ∙ append_assoc (delivered c0) seen (b ∷ bs))
  Echoes-IsEchoed c0 _ _ v (writes seen c c' n w busy pos le e) =
      let (u, d) = Echoes-IsEchoed c0 c seen v w in
      let s =
        Ensures-ok (IsFlushed port c n) _ c' e
          (handle_write-IsFlushed port c n u.live busy pos le) in
      (
        record {
          live = s.live;
          state = s.state_same ∙ u.state;
          valid = subst IsValid (sym s.input_same) u.valid;
          nothing = ap content s.input_same ∙ u.nothing;
        },
        flushed-delivered port c c' n s ∙ d,
      )

  -- An echo connection in the loop's thread that had nothing to read left, after any number of
  -- receptions, each of which the vectors may hold and during each of which `write` fails or takes
  -- at most the bytes, and of writes of what waits: while it is not waiting for writing, the bytes
  -- sent are the ones it had taken over before followed by all the bytes received, in their order.
  pub Echoes-sends :
      (c0 c : TcpConnection S) (seen : List ℕ)
      → IsEchoing c0
      → Echoes c0 seen c
      → is_writing_now port c ≡ false
      → c.sent ≡ delivered c0 ++ seen
  Echoes-sends c0 c seen v w idle =
      let (u, d) = Echoes-IsEchoed c0 c seen v w in
      sym (append-nil c.sent) ∙ ap (◌++◌ c.sent) (sym (u.live.idle idle)) ∙ d
