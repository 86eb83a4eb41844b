-- ===== src/TcpConnection/Handlers/Writes.antt =====
-- The write callback of a connection, the last one of a round of `handleEvents`.
use yatwb.Base.{
  ℕ, zero, suc, ◌≤◌, ◌≡◌, refl, sym, ap, ap₂, ◌∙◌, Bool, true, false, not, ◌&&◌, List, [], ◌++◌,
  length, take, if◌then◌else◌, some, arith, append-nil,
}
use mathlib.Core.Bool.{true≢false}
use mathlib.Core.Path.{subst}
use yatwb.Base.Results.{Ensures, Ensures-mono}
use yatwb.Buffer.{content, SysCount, failed, count}
use yatwb.Buffer.Space.{IsValid}
use yatwb.Channel.{none_event, is_writing, call_if}
use yatwb.ChannelPort.{ChannelPort}
use yatwb.TcpConnection.{TcpConnection, Callback, is_writing_now, handle_write}
use yatwb.TcpConnection.Live.{Fits, IsLive}
use yatwb.TcpConnection.Drain.{IsFlushed, handle_write-IsFlushed}
use yatwb.TcpConnection.Handlers.{on_connection}
use yatwb.TcpConnection.Handlers.Reads.{HasHeard, on_connection-Ensures}

abbrev pub written_bytes : SysCount → List ℕ → List ℕ
written_bytes (failed errno) bytes = []
written_bytes (count n) bytes = take n bytes

module _ {S : Type 0} (port : ChannelPort S) where
  -- What the channel's flags make of `handleWrite`, at the end of a round.
  pub record HasWritten (c : TcpConnection S) (calls : List Callback) (closing : Bool)
      (bytes : List ℕ) (c' : TcpConnection S) : Type 0 where
    pub all_told : c'.calls ≡ c.calls ++ calls
    pub all_sent : c'.sent ≡ c.sent ++ bytes
    pub is_open : port.IsOpen c'.channel
    pub state_same : c'.state ≡ c.state
    pub input_valid : IsValid c'.input_buffer
    pub live : closing ≡ false → IsLive port c'
    pub shut : closing ≡ true → port.events c'.channel ≡ none_event

  -- What is watched for writing, where the round did not close the connection.
  abbrev pub goes_on : TcpConnection S → Bool → Bool
  goes_on c closing = is_writing_now port c && not closing

  heard-IsLive :
      (c : TcpConnection S) (calls : List Callback) (c' : TcpConnection S)
      → IsLive port c
      → HasHeard port c calls false c'
      → IsLive port c'
  heard-IsLive c calls c' v h = record {
    is_open = h.is_open;
    valid = subst IsValid (sym h.out_same) v.valid;
    idle = λ e. ap content h.out_same ∙ v.idle (sym (ap is_writing h.watched) ∙ e);
    busy =
        λ e none. v.busy (sym (ap is_writing h.watched) ∙ e) (sym (ap content h.out_same) ∙ none);
  }

  unsent :
      (c : TcpConnection S) (calls : List Callback) (closing : Bool) (c' : TcpConnection S)
      → IsLive port c
      → HasHeard port c calls closing c'
      → HasWritten c calls closing [] c'
  unsent c calls closing c' v h = record {
    all_told = h.told;
    all_sent = h.sent_same ∙ sym (append-nil c.sent);
    is_open = h.is_open;
    state_same = h.state_same;
    input_valid = h.input_valid;
    live = λ e. heard-IsLive c calls c' v (subst (λ b. HasHeard port c calls b c') e h);
    shut = λ e. h.watched ∙ ap (λ b. if b then none_event else port.events c.channel) e;
  }

  writes :
      (c : TcpConnection S) (calls : List Callback) (closing : Bool) (c' : TcpConnection S)
      → HasHeard port c calls closing c'
      → is_writing_now port c' ≡ goes_on c closing
  writes c calls closing c' h = ap is_writing h.watched ∙ ground arith

  write_lem :
      (c : TcpConnection S) (calls : List Callback) (closing going : Bool) (c' : TcpConnection S)
      (written : SysCount)
      → IsLive port c
      → Fits written (length (content c.output_buffer))
      → goes_on c closing ≡ going
      → HasHeard port c calls closing c'
      → Ensures (handle_write port true written c') (
          HasWritten c calls closing
            (if going then written_bytes written (content c.output_buffer) else []))
  unfolding handle_write
  write_lem c calls closing false c' written v f g h =
      rw (writes c calls closing c' h ∙ g) (unsent c calls closing c' v h)
  write_lem c calls closing true c' (failed errno) v f g h =
      rw (writes c calls closing c' h ∙ g) (unsent c calls closing c' v h)
  write_lem c calls closing true c' (count zero) v f g h =
      rw (writes c calls closing c' h ∙ g) (unsent c calls closing c' v h)
  write_lem c calls closing true c' (count (suc n)) v f g h =
      Ensures-mono (IsFlushed port c' (suc n))
        (HasWritten c calls closing (take (suc n) (content c.output_buffer)))
        (handle_write port true (count (suc n)) c')
        (handle_write-IsFlushed port c' (suc n)
          (heard-IsLive c calls c' v (subst (λ b. HasHeard port c calls b c') going_on h))
          (writes c calls closing c' h ∙ g) (omega arith)
          (subst (λ b. suc n ≤ length (content b)) (sym h.out_same) f))
        (λ c'' w. record {
          all_told = w.calls_same ∙ h.told;
          all_sent =
              w.sent_more ∙ ap₂ (λ l b. l ++ take (suc n) (content b)) h.sent_same h.out_same;
          is_open = w.live.is_open;
          state_same = w.state_same ∙ h.state_same;
          input_valid = subst IsValid (sym w.input_same) h.input_valid;
          live = λ _. w.live;
          shut = λ e. absurd (true≢false (sym e ∙ going_on));
        })
    where
      going_on : closing ≡ false
      going_on = ground (arith, g)

  pub write_step :
      (pollout : Bool) (c : TcpConnection S) (calls : List Callback) (closing : Bool)
      (r : TcpConnection S × Bool) (written : SysCount)
      → IsLive port c
      → Fits written (length (content c.output_buffer))
      → HasHeard port c calls closing r.0
      → Ensures (call_if pollout (some (on_connection (handle_write port true written))) r) (λ r'.
        HasWritten c calls closing
          (if pollout && goes_on c closing
            then written_bytes written (content c.output_buffer)
            else [])
          r'.0)
  write_step true c calls closing r written v f h =
      on_connection-Ensures port
        (HasWritten c calls closing
          (if goes_on c closing then written_bytes written (content c.output_buffer) else []))
        (handle_write port true written) r
        (write_lem c calls closing (goes_on c closing) r.0 written v f refl h)
  write_step false c calls closing r written v f h = unsent c calls closing r.0 v h
