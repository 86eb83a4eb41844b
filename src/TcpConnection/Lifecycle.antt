-- ===== src/TcpConnection/Lifecycle.antt =====
-- From `establishConnection` to `destroyConnection`: the states only go forward, and the channel
-- is registered and taken out.
use yatwb.Base.{
  ◌≡◌, refl, ap, ◌∙◌, ◌⊎◌, true, false, ◌||◌, List, [], ◌∷◌, ◌++◌, arith, append_assoc,
}
use yatwb.Base.Results.{Ensures, Ensures-bind, Ensures-mono, ◌>>=◌}
use yatwb.Buffer.{content}
use yatwb.Buffer.Space.{IsValid}
use yatwb.Channel.{PollFlags, none_event, is_writing, change, enable_reading, disable_all_events}
use yatwb.ChannelPort.{ChannelPort}
use yatwb.TcpConnection.{
  TcpConnection, States, connecting, connected, disconnecting, disconnected, is_connecting,
  is_connected, is_disconnecting, Callback, connection_cb, close_cb, is_writing_now, set_channel,
  call, establish_connection, handle_close, destroy_connection,
}
use yatwb.TcpConnection.Live.{IsLive, HasInterest, set_channel_lem}

module _ {S : Type 0} (port : ChannelPort S) where
  abbrev pub IsReading : PollFlags → Type 0
  IsReading e = (e.pollin ≡ true) × (e.pollpri ≡ true)

  -- A connection just established, watched for input: live, connected, and reported to the user once.
  pub record IsEstablished (c c' : TcpConnection S) : Type 0 where
    pub live : IsLive port c'
    pub state : c'.state ≡ connected
    pub told : c'.calls ≡ c.calls ++ connection_cb ∷ []
    pub reading : IsReading (port.events c'.channel)

  still_idle : (e : PollFlags) → is_writing e ≡ false → is_writing (change enable_reading e) ≡ false
  still_idle e h = ground arith

  pub establish_connection-IsEstablished :
      (c : TcpConnection S)
      → c.state ≡ connecting
      → port.CanSet c.channel
      → IsValid c.output_buffer
      → content c.output_buffer ≡ []
      → is_writing_now port c ≡ false
      → Ensures (establish_connection port true c) (IsEstablished c)
  unfolding establish_connection
  establish_connection-IsEstablished c s can v e idle = rw (ap is_connecting s) (
      Ensures-bind (HasInterest port c1 enable_reading) (IsEstablished c)
        (set_channel port true enable_reading c1) _ (set_channel_lem port c1 enable_reading can)
        (λ c' w. rw w.only (record {
          live = record {
            is_open = w.is_open;
            valid = v;
            idle = λ _. e;
            busy = λ busy. cc (ap is_writing w.changed, still_idle (port.events c.channel) idle);
          };
          state = refl;
          told = refl;
          reading = (
            ap (λ (e : PollFlags). e.pollin) w.changed ∙ ground arith,
            ap (λ (e : PollFlags). e.pollpri) w.changed ∙ ground arith,
          );
        })))
    where
      c1 : TcpConnection S
      c1 = record c { state = connected }

  abbrev pub IsUp : States → Type 0
  IsUp s = (s ≡ connected) ⊎ (s ≡ disconnecting)

  -- The end: the channel is out of the loop, and the user has been told.
  pub record IsDestroyed (c : TcpConnection S) (calls : List Callback) (c' : TcpConnection S)
      : Type 0 where
    pub gone : port.IsGone c'.channel
    pub state : c'.state ≡ disconnected
    pub told : c'.calls ≡ c.calls ++ calls
    pub stream : c'.sent ≡ c.sent

  up_test : (s : States) → IsUp s → (is_connected s || is_disconnecting s) ≡ true
  up_test s h = ground arith

  pub destroy_connection-IsDestroyed :
      (c : TcpConnection S)
      → IsUp c.state
      → port.IsOpen c.channel
      → Ensures (destroy_connection port true c) (IsDestroyed c (connection_cb ∷ []))
  unfolding destroy_connection
  destroy_connection-IsDestroyed c up o = rw (up_test c.state up) (
      Ensures-bind (HasInterest port c1 disable_all_events) (IsDestroyed c (connection_cb ∷ []))
        (set_channel port true disable_all_events c1) _
        (set_channel_lem port c1 disable_all_events (port.open_can c.channel o))
        (λ c' w. rw w.only (
          Ensures-bind port.IsGone (IsDestroyed c (connection_cb ∷ [])) (port.remove true w.channel)
            _ (port.remove_closes w.channel w.is_open w.changed)
            (λ s gone. record { gone = gone; state = refl; told = refl; stream = refl }))))
    where
      c1 : TcpConnection S
      c1 = record c { state = disconnected }

  -- `c'` is `c` after `handleClose`.
  pub record IsClosed (c c' : TcpConnection S) : Type 0 where
    pub channel : S
    pub is_open : port.IsOpen channel
    pub unwatched : port.events channel ≡ none_event
    pub only : c' ≡ call close_cb (record c { channel = channel })

  pub handle_close-IsClosed :
      (c : TcpConnection S)
      → IsUp c.state
      → port.IsOpen c.channel
      → Ensures (handle_close port true c) (IsClosed c)
  unfolding handle_close
  handle_close-IsClosed c up o = rw (up_test c.state up) (
      Ensures-bind (HasInterest port c disable_all_events) (IsClosed c)
        (set_channel port true disable_all_events c) _
        (set_channel_lem port c disable_all_events (port.open_can c.channel o))
        (λ c' w. record {
          channel = w.channel;
          is_open = w.is_open;
          unwatched = w.changed;
          only = ap (call close_cb) w.only;
        }))

  -- On a connected or disconnecting connection with a registered channel, in the loop's thread:
  -- `handleClose` and then `destroyConnection` succeed, call the close and then the connection
  -- callback, take the channel out of the loop, leave the state disconnected and send nothing.
  pub close-IsDestroyed :
      (c : TcpConnection S)
      → IsUp c.state
      → port.IsOpen c.channel
      → Ensures
          (do c' ← handle_close port true c; destroy_connection port true c')
          (IsDestroyed c (close_cb ∷ connection_cb ∷ []))
  close-IsDestroyed c up o =
      Ensures-bind (IsClosed c) (IsDestroyed c (close_cb ∷ connection_cb ∷ []))
        (handle_close port true c) (destroy_connection port true) (handle_close-IsClosed c up o)
        (λ c' w. rw w.only (
          Ensures-mono (IsDestroyed (closed_by w.channel) (connection_cb ∷ []))
            (IsDestroyed c (close_cb ∷ connection_cb ∷ []))
            (destroy_connection port true (closed_by w.channel))
            (destroy_connection-IsDestroyed (closed_by w.channel) up w.is_open)
            (λ c'' d. record {
              gone = d.gone;
              state = d.state;
              told = d.told ∙ append_assoc c.calls (close_cb ∷ []) (connection_cb ∷ []);
              stream = d.stream;
            })))
    where
      closed_by : S → TcpConnection S
      closed_by s = call close_cb (record c { channel = s })
