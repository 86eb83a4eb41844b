-- ===== src/TcpConnection/Live.antt =====
-- A live connection waits for writing exactly while bytes wait, and `sendInLoop` keeps it so when
-- it buffers what was not written.
use yatwb.Base.{
  ℕ, ◌+◌, ◌≤◌, ◌≡◌, ◌≢◌, refl, sym, ap, ◌∙◌, inl, inr, true, false, List, [], ◌∷◌, ◌++◌, length,
  drop, ltb, if◌then◌else◌, arith, Bool-cases, append-nil, length-drop, append-ne_nil, drop-ne_nil,
  drop-length_le,
}
use yatwb.Base.Results.{ok, Ensures, Ensures-bind}
use yatwb.Buffer.{Buffer, max_size, content, append, SysCount, failed, count}
use yatwb.Buffer.Space.{IsValid}
use yatwb.Buffer.Contents.{IsAppended, append_lem}
use yatwb.Channel.{PollFlags, Interest, is_writing, change, enable_writing}
use yatwb.ChannelPort.{ChannelPort}
use yatwb.TcpConnection.{
  TcpConnection, Functor, write_cmpl_of, is_writing_now, set_channel, buffer_rest, queue_write_cmpl,
}

-- `write` takes at most what it was given.
abbrev pub Fits : SysCount → ℕ → Type 0
Fits (failed errno) n = Unit
Fits (count k) n = k ≤ n

-- What the connection has taken over so far.
abbrev pub delivered : {S : Type 0} → TcpConnection S → List ℕ
delivered c = c.sent ++ content c.output_buffer

-- `write_cmpl_cb_` or none: only the queue may change.
pub queue_write_cmpl-pending :
    {S : Type 0} (c : TcpConnection S)
    → (pending : List Functor) × (queue_write_cmpl c ≡ record c { pending = pending })
queue_write_cmpl-pending c =
    (if c.has_write_cmpl_cb then c.pending ++ write_cmpl_of ∷ [] else c.pending, ground arith)

module _ {S : Type 0} (port : ChannelPort S) where
  -- An open channel that waits for writing exactly while the output buffer holds bytes.
  pub record IsLive (c : TcpConnection S) : Type 0 where
    pub is_open : port.IsOpen c.channel
    pub valid : IsValid c.output_buffer
    pub idle : is_writing_now port c ≡ false → content c.output_buffer ≡ []
    pub busy : is_writing_now port c ≡ true → content c.output_buffer ≢ []

  -- `c'` is `c` with its channel's interest set changed.
  pub record HasInterest (c : TcpConnection S) (how : Interest) (c' : TcpConnection S)
      : Type 0 where
    pub channel : S
    pub is_open : port.IsOpen channel
    pub changed : port.events channel ≡ change how (port.events c.channel)
    pub only : c' ≡ record c { channel = channel }

  pub set_channel_lem :
      (c : TcpConnection S) (how : Interest)
      → port.CanSet c.channel
      → Ensures (set_channel port true how c) (HasInterest c how)
  unfolding set_channel
  set_channel_lem c how can =
      Ensures-bind (λ s. port.IsOpen s × (port.events s ≡ change how (port.events c.channel)))
        (HasInterest c how) (port.set_interest true how c.channel) _
        (port.set_opens c.channel how can)
        (λ s w. record { channel = s; is_open = w.0; changed = w.1; only = refl })

  -- `c'` is `c` with more bytes in the output buffer.
  pub record IsBuffered (c : TcpConnection S) (rest : List ℕ) (c' : TcpConnection S) : Type 0 where
    pub live : IsLive c'
    pub more : content c'.output_buffer ≡ content c.output_buffer ++ rest
    pub sent_same : c'.sent ≡ c.sent
    pub state_same : c'.state ≡ c.state
    pub input_same : c'.input_buffer ≡ c.input_buffer
    pub shut_same : c'.write_shut ≡ c.write_shut
    pub extent : c'.output_buffer.writer_idx ≤ c.output_buffer.writer_idx + length rest

  writing_enabled : (e : PollFlags) → is_writing (change enable_writing e) ≡ true
  writing_enabled e = ground arith

  buffered :
      (c : TcpConnection S) (channel : S) (out : Buffer) (rest : List ℕ)
      → IsAppended c.output_buffer rest out
      → rest ≢ []
      → port.IsOpen channel
      → is_writing (port.events channel) ≡ true
      → IsBuffered c rest (record c { output_buffer = out; channel = channel })
  buffered c channel out rest a some is_open writing = record {
    live = record {
      is_open = is_open;
      valid = a.0;
      idle = λ no_write. cc;
      busy = λ _. rw a.1 (append-ne_nil (content c.output_buffer) rest some);
    };
    more = a.1;
    sent_same = refl;
    state_same = refl;
    input_same = refl;
    shut_same = refl;
    extent = a.2;
  }

  -- After an append, `sendInLoop` enables writing unless it is enabled.
  enable_rest :
      (c : TcpConnection S) (out : Buffer) (rest : List ℕ)
      → IsLive c
      → IsAppended c.output_buffer rest out
      → rest ≢ []
      → let c' = record c { output_buffer = out } in
        Ensures
          (if is_writing_now port c' then ok c' else set_channel port true enable_writing c')
          (IsBuffered c rest)
  unfolding set_channel
  enable_rest c out rest v a some = elim (Bool-cases (is_writing_now port c)) [
    | inl writing ↦ rw writing (buffered c c.channel out rest a some v.is_open writing)
    | inr idle ↦ rw idle (
        Ensures-bind
          (λ s. port.IsOpen s × (port.events s ≡ change enable_writing (port.events c.channel)))
          (IsBuffered c rest) (port.set_interest true enable_writing c.channel) _
          (port.set_opens c.channel enable_writing (port.open_can c.channel v.is_open))
          (λ s w.
            buffered c s out rest a some w.0
              (ap is_writing w.1 ∙ writing_enabled (port.events c.channel))))
  ]

  pub buffer_rest_lem :
      (c : TcpConnection S) (message : List ℕ) (n : ℕ)
      → IsLive c
      → c.output_buffer.writer_idx + length message ≤ max_size
      → n ≤ length message
      → Ensures (buffer_rest port true message (c, n)) (IsBuffered c (drop n message))
  unfolding buffer_rest set_channel
  buffer_rest_lem c message n v h le = elim (Bool-cases (ltb n (length message))) [
    | inl more ↦ rw more (
        Ensures-bind (IsAppended c.output_buffer (drop n message)) (IsBuffered c (drop n message))
          (append c.output_buffer (drop n message)) _
          (append_lem c.output_buffer (drop n message) v.valid
            (omega (arith, length-drop n message)))
          (λ out a. enable_rest c out (drop n message) v a (drop-ne_nil n message (ground arith))))
    | inr all ↦ rw all (record {
      live = v;
      more = sym (
          ap (◌++◌ (content c.output_buffer)) (drop-length_le n message (ground arith))
          ∙ append-nil _);
      sent_same = refl;
      state_same = refl;
      input_same = refl;
      shut_same = refl;
      extent = omega arith;
    })
  ]
