-- ===== src/TcpConnection/Handlers/Reads.antt =====
-- The close, error and read callbacks of a connection in a round of `handleEvents`.
use yatwb.Base.{
  ℕ, ◌+◌, ◌≤◌, ◌≡◌, refl, sym, ap, ◌∙◌, Bool, true, false, ◌&&◌, ◌||◌, List, [], ◌∷◌, ◌++◌, length,
  if◌then◌else◌, some, arith, append_assoc, append-nil,
}
use mathlib.Core.Path.{subst}
use yatwb.Base.Results.{Result, ok, Ensures, Ensures-bind, Ensures-mono}
use yatwb.Buffer.{
  Buffer, writable_bytes, extrabuf_size, max_size, ReadOutcome, read_failed, read_bytes, read_fd,
}
use yatwb.Buffer.Space.{IsValid}
use yatwb.Buffer.Reads.{IsRead, read_fd_lem}
use yatwb.Channel.{none_event, call_if}
use yatwb.ChannelPort.{ChannelPort}
use yatwb.TcpConnection.{
  TcpConnection, Callback, message_cb, close_cb, handle_read, after_read, handle_close,
}
use yatwb.TcpConnection.Receive.{IsReceived, handle_read-IsReceived}
use yatwb.TcpConnection.Lifecycle.{IsUp, IsClosed, handle_close-IsClosed}
use yatwb.TcpConnection.Handlers.{on_connection, handle_error}

abbrev pub is_end : ReadOutcome → Bool
is_end (read_failed errno) = false
is_end (read_bytes []) = true
is_end (read_bytes (b ∷ bs)) = false

-- What the user hears of a `readv`.
abbrev pub read_calls : ReadOutcome → List Callback
read_calls (read_failed errno) = []
read_calls (read_bytes []) = close_cb ∷ []
read_calls (read_bytes (b ∷ bs)) = message_cb ∷ []

-- `readv` delivers no more than its vectors hold.
abbrev pub FitsRead : ReadOutcome → ℕ → Type 0
FitsRead (read_failed errno) n = Unit
FitsRead (read_bytes bytes) n = length bytes ≤ n

module _ {S : Type 0} (port : ChannelPort S) where
  -- From `c`, in the round so far, the user heard `calls`; the connection was closed or not.
  pub record HasHeard (c : TcpConnection S) (calls : List Callback) (closing : Bool)
      (c' : TcpConnection S) : Type 0 where
    pub is_open : port.IsOpen c'.channel
    pub state_same : c'.state ≡ c.state
    pub out_same : c'.output_buffer ≡ c.output_buffer
    pub sent_same : c'.sent ≡ c.sent
    pub told : c'.calls ≡ c.calls ++ calls
    pub input_valid : IsValid c'.input_buffer
    pub watched : port.events c'.channel ≡ (if closing then none_event else port.events c.channel)

  closed :
      (c : TcpConnection S) (calls : List Callback) (closing : Bool) (c' : TcpConnection S)
      → HasHeard c calls closing c'
      → (c'' : TcpConnection S) → IsClosed port c' c''
      → HasHeard c (calls ++ close_cb ∷ []) true c''
  closed c calls closing c' h c'' w = rw w.only (record {
    is_open = w.is_open;
    state_same = h.state_same;
    out_same = h.out_same;
    sent_same = h.sent_same;
    told = ap (λ (l : List Callback). l ++ close_cb ∷ []) h.told ∙ append_assoc c.calls calls _;
    input_valid = h.input_valid;
    watched = w.unwatched;
  })

  abbrev pub HasHungUp : TcpConnection S → Bool → TcpConnection S → Type 0
  HasHungUp c hup c' =
      HasHeard c (if hup then close_cb ∷ [] else []) hup c' × (c'.input_buffer ≡ c.input_buffer)

  pub on_connection-Ensures :
      (P : TcpConnection S → Type 0) (f : TcpConnection S → Result (TcpConnection S))
      (r : TcpConnection S × Bool)
      → Ensures (f r.0) P
      → Ensures (on_connection f r) (λ r'. P r'.0)
  on_connection-Ensures P f r h =
      Ensures-bind P (λ (r' : TcpConnection S × Bool). P r'.0) (f r.0) _ h (λ c' w. w)

  pub hang_up :
      (c : TcpConnection S) (hup : Bool)
      → IsUp port c.state
      → port.IsOpen c.channel
      → IsValid c.input_buffer
      → Ensures
          (call_if hup (some (on_connection (handle_close port true))) (c, true))
          (λ r. HasHungUp c hup r.0)
  hang_up c true up o v =
      on_connection-Ensures (HasHungUp c true) (handle_close port true) (c, true)
        (Ensures-mono (IsClosed port c) (HasHungUp c true) (handle_close port true c)
          (handle_close-IsClosed port c up o)
          (λ c' w. rw w.only (
            record {
              is_open = w.is_open;
              state_same = refl;
              out_same = refl;
              sent_same = refl;
              told = refl;
              input_valid = v;
              watched = w.unwatched;
            },
            refl,
          )))
  hang_up c false up o v = (
    record {
      is_open = o;
      state_same = refl;
      out_same = refl;
      sent_same = refl;
      told = sym (append-nil c.calls);
      input_valid = v;
      watched = refl;
    },
    refl,
  )

  or_false : (b : Bool) → (b || false) ≡ b
  or_false b = ground arith

  or_true : (b : Bool) → (b || true) ≡ true
  or_true b = ground arith

  -- `handleRead` where the vectors hold what `readv` delivers.
  read_lem :
      (c : TcpConnection S) (calls : List Callback) (closing : Bool) (c' : TcpConnection S)
      (outcome : ReadOutcome)
      → HasHeard c calls closing c'
      → IsUp port c'.state
      → IsValid c'.input_buffer
      → FitsRead outcome (writable_bytes c'.input_buffer + extrabuf_size)
      → length c'.input_buffer.buffer + extrabuf_size ≤ max_size
      → Ensures
          (handle_read port true outcome c')
          (HasHeard c (calls ++ read_calls outcome) (closing || is_end outcome))
  unfolding handle_read after_read read_fd
  read_lem c calls closing c' (read_failed errno) h up v f k = rw (or_false closing) (record {
    is_open = h.is_open;
    state_same = h.state_same;
    out_same = h.out_same;
    sent_same = h.sent_same;
    told = rw (append-nil calls) h.told;
    input_valid = h.input_valid;
    watched = h.watched;
  })
  read_lem c calls closing c' (read_bytes []) h up v f k =
      Ensures-bind (IsRead c'.input_buffer []) _ (read_fd c'.input_buffer (read_bytes [])) _
        (read_fd_lem c'.input_buffer [] v f k)
        (λ r w. rw w.1 (
          Ensures-mono (IsClosed port (emptied r.0))
            (HasHeard c (calls ++ close_cb ∷ []) (closing || true))
            (handle_close port true (emptied r.0))
            (handle_close-IsClosed port (emptied r.0) up h.is_open)
            (λ c'' w'.
              rw (or_true closing) (closed c calls closing (emptied r.0) (same r.0 w.0.0) c'' w'))))
    where
      emptied : Buffer → TcpConnection S
      emptied input = record c' { input_buffer = input }

      same : (input : Buffer) → IsValid input → HasHeard c calls closing (emptied input)
      same input valid = record {
        is_open = h.is_open;
        state_same = h.state_same;
        out_same = h.out_same;
        sent_same = h.sent_same;
        told = h.told;
        input_valid = valid;
        watched = h.watched;
      }
  read_lem c calls closing c' (read_bytes (b ∷ bs)) h up v f k =
      Ensures-mono (IsReceived port c' (b ∷ bs))
        (HasHeard c (calls ++ message_cb ∷ []) (closing || false))
        (handle_read port true (read_bytes (b ∷ bs)) c')
        (handle_read-IsReceived port c' true b bs v f k)
        (λ c'' w.
          rw (w.rest, or_false closing)
            (record {
              is_open = h.is_open;
              state_same = h.state_same;
              out_same = h.out_same;
              sent_same = h.sent_same;
              told =
                  ap (λ (l : List Callback). l ++ message_cb ∷ []) h.told
                  ∙ append_assoc c.calls calls _;
              input_valid = w.valid;
              watched = h.watched;
            }))

  pub error_step :
      (e : Bool) (r : TcpConnection S × Bool)
      → call_if e (some (on_connection handle_error)) r ≡ ok r
  error_step true r = refl
  error_step false r = refl

  pub read_step :
      (readable : Bool) (c : TcpConnection S) (calls : List Callback) (closing : Bool)
      (r : TcpConnection S × Bool) (outcome : ReadOutcome)
      → HasHeard c calls closing r.0
      → (r.0.input_buffer ≡ c.input_buffer)
      → IsUp port c.state
      → IsValid c.input_buffer
      → FitsRead outcome (writable_bytes c.input_buffer + extrabuf_size)
      → length c.input_buffer.buffer + extrabuf_size ≤ max_size
      → Ensures (call_if readable (some (on_connection (handle_read port true outcome))) r) (λ r'.
        HasHeard c
          (calls ++ (if readable then read_calls outcome else []))
          (closing || (readable && is_end outcome))
          r'.0)
  read_step true c calls closing r outcome h e up v f k =
      on_connection-Ensures (HasHeard c (calls ++ read_calls outcome) (closing || is_end outcome))
        (handle_read port true outcome) r
        (read_lem c calls closing r.0 outcome h (subst (IsUp port) (sym h.state_same) up)
          (subst IsValid (sym e) v)
          (subst (λ b. FitsRead outcome (writable_bytes b + extrabuf_size)) (sym e) f)
          (subst (λ b. length b.buffer + extrabuf_size ≤ max_size) (sym e) k))
  read_step false c calls closing r outcome h e up v f k = rw (or_false closing) (record {
    is_open = h.is_open;
    state_same = h.state_same;
    out_same = h.out_same;
    sent_same = h.sent_same;
    told = rw (append-nil calls) h.told;
    input_valid = h.input_valid;
    watched = h.watched;
  })
