-- ===== src/TcpConnection/Shutdown.antt =====
-- A graceful shutdown: `shutdown`, then as many `handleWrite` calls as the kernel needs.
use yatwb.Base.{
  ℕ, ◌-◌, ◌≤◌, ◌<◌, ◌≡◌, ◌≢◌, refl, sym, ap, ap₂, ◌∙◌, inl, inr, true, List, [], ◌∷◌, ◌++◌, length,
  take, ◌==◌, arith, Bool-cases, append_assoc, append-nil, take-append-drop, length-drop, ◌⊎◌,
}
use yatwb.Base.Results.{Result, ok, Ensures, Ensures-bind, Ensures-mono, ◌>>=◌}
use yatwb.Buffer.{content, count}
use yatwb.ChannelPort.{ChannelPort}
use yatwb.TcpConnection.{
  TcpConnection, connected, disconnecting, is_connected, is_writing_now, shutdown_in_loop, shutdown,
  handle_write,
}
use yatwb.TcpConnection.Live.{IsLive, delivered}
use yatwb.TcpConnection.Drain.{IsFlushed, handle_write-IsFlushed}

-- The chunks, none of them empty, make up `k` bytes.
abbrev pub MakeUp : List ℕ → ℕ → Type 0
MakeUp [] k = k ≡ 0
MakeUp (n ∷ ns) k = (0 < n) × (n ≤ k) × MakeUp ns (k - n)

nil_of_length : (xs : List ℕ) → length xs ≡ 0 → xs ≡ []
nil_of_length [] h = refl
nil_of_length (x ∷ xs) h = absurd (omega arith)

module _ {S : Type 0} (port : ChannelPort S) where
  -- The loop calls `handleWrite` once for each chunk that the kernel takes.
  unfoldable pub run_writes : List ℕ → TcpConnection S → Result (TcpConnection S)
  run_writes [] c = ok c
  run_writes (n ∷ ns) c = do c ← handle_write port true (count n) c; run_writes ns c

  -- All that `c` had taken over is sent, and then the write side is shut.
  pub record IsFinished (c c' : TcpConnection S) : Type 0 where
    pub all_sent : c'.sent ≡ delivered c
    pub empty : content c'.output_buffer ≡ []
    pub shut : c'.write_shut ≡ true
    pub not_connected : c'.state ≡ disconnecting

  pub flushed-delivered :
      (c c' : TcpConnection S) (n : ℕ) → IsFlushed port c n c' → delivered c' ≡ delivered c
  flushed-delivered c c' n f =
      ap₂ ◌++◌ f.sent_more f.rest
      ∙ append_assoc c.sent (take n (content c.output_buffer)) _
      ∙ ap (◌++◌ c.sent) (take-append-drop n (content c.output_buffer))

  is_writing_of :
      (c : TcpConnection S)
      → IsLive port c
      → content c.output_buffer ≢ []
      → is_writing_now port c ≡ true
  is_writing_of c v h = elim (Bool-cases (is_writing_now port c)) [
    | inl t ↦ t
    | inr f ↦ absurd (h (v.idle f))
  ]

  length_pos : (xs : List ℕ) → xs ≢ [] → 0 < length xs
  length_pos [] h = absurd (h refl)
  length_pos (x ∷ xs) h = omega arith

  ne_nil_of_length : (xs : List ℕ) → 0 < length xs → xs ≢ []
  ne_nil_of_length xs h e = absurd (omega (arith, ap length e))

  run_writes-IsFinished :
      (c : TcpConnection S) (ns : List ℕ)
      → IsLive port c
      → c.state ≡ disconnecting
      → MakeUp ns (length (content c.output_buffer))
      → (c.write_shut ≡ true) ⊎ (0 < length (content c.output_buffer))
      → Ensures (run_writes ns c) (IsFinished c)
  unfolding run_writes
  run_writes-IsFinished c [] v d m (inl shut) =
      let e = nil_of_length (content c.output_buffer) m in
      record {
        all_sent = sym (ap (◌++◌ c.sent) e ∙ append-nil c.sent);
        empty = e;
        shut = shut;
        not_connected = d;
      }
  run_writes-IsFinished c [] v d m (inr some) = absurd (omega arith)
  run_writes-IsFinished c (n ∷ ns) v d (pos, le, m) s =
      Ensures-bind (IsFlushed port c n) (IsFinished c) (handle_write port true (count n) c) _
        (handle_write-IsFlushed port c n v
          (is_writing_of c v (ne_nil_of_length (content c.output_buffer) (omega arith))) pos le)
        (λ c' f.
          Ensures-mono (IsFinished c') (IsFinished c) (run_writes ns c')
            (run_writes-IsFinished c' ns f.live (f.state_same ∙ d) (left c' f) (still c' f))
            (λ c'' g. record {
              all_sent = g.all_sent ∙ flushed-delivered c c' n f;
              empty = g.empty;
              shut = g.shut;
              not_connected = g.not_connected;
            }))
    where
      left :
          (c' : TcpConnection S)
          → IsFlushed port c n c'
          → MakeUp ns (length (content c'.output_buffer))
      left c' f = rw (f.rest, length-drop n (content c.output_buffer)) m

      still :
          (c' : TcpConnection S)
          → IsFlushed port c n c'
          → (c'.write_shut ≡ true) ⊎ (0 < length (content c'.output_buffer))
      still c' f = elim (Bool-cases (n == length (content c.output_buffer))) [
        | inl last ↦ inl (f.shut ∙ rw (d, last) (ground arith))
        | inr more ↦ inr (ground (arith, ap length f.rest, length-drop n (content c.output_buffer)))
      ]

  -- On a live and connected connection: after `shutdown` in the loop's thread, and `handleWrite`
  -- calls for which `write` takes nonempty chunks that make up what waited in the output buffer,
  -- every waiting byte has been sent in order, the output buffer is empty, the write side is shut
  -- and the state is disconnecting.
  pub shutdown-IsFinished :
      (c : TcpConnection S) (ns : List ℕ)
      → IsLive port c
      → c.state ≡ connected
      → MakeUp ns (length (content c.output_buffer))
      → Ensures (do c1 ← shutdown port true c; run_writes ns c1) (IsFinished c)
  unfolding shutdown shutdown_in_loop
  shutdown-IsFinished c ns v d m = elim (Bool-cases (is_writing_now port c)) [
    | inl busy ↦
        rw (ap is_connected d, busy)
          (finish (record c { state = disconnecting }) refl live refl refl
            (inr (length_pos (content c.output_buffer) (v.busy busy))))
    | inr idle ↦
        rw (ap is_connected d, idle)
          (finish (record c { state = disconnecting; write_shut = true }) refl live_shut refl refl
            (inl refl))
  ]
    where
      live : IsLive port (record c { state = disconnecting })
      live = record { is_open = v.is_open; valid = v.valid; idle = v.idle; busy = v.busy }

      live_shut : IsLive port (record c { state = disconnecting; write_shut = true })
      live_shut = record { is_open = v.is_open; valid = v.valid; idle = v.idle; busy = v.busy }

      finish :
          (c1 : TcpConnection S)
          → c1.output_buffer ≡ c.output_buffer
          → IsLive port c1
          → c1.sent ≡ c.sent
          → c1.state ≡ disconnecting
          → (c1.write_shut ≡ true) ⊎ (0 < length (content c1.output_buffer))
          → Ensures (run_writes ns c1) (IsFinished c)
      finish c1 same v' s d' h =
          Ensures-mono (IsFinished c1) (IsFinished c) (run_writes ns c1)
            (run_writes-IsFinished c1 ns v' d' (rw same m) h)
            (λ c'' g. record {
              all_sent = g.all_sent ∙ ap₂ ◌++◌ s (ap content same);
              empty = g.empty;
              shut = g.shut;
              not_connected = g.not_connected;
            })
