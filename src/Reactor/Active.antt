-- ===== src/Reactor/Active.antt =====
-- All active channels of a loop served, one after the other.
use mathlib.Core.Path.{subst}
use yatwb.Base.{ℕ, ◌≡◌, ◌≢◌, refl, sym, ap, ◌∙◌, inl, inr, Bool-cases, List, [], ◌∷◌, ◌==◌, arith}
use yatwb.Base.Results.{ok, ◌>>=◌, Ensures, Ensures-bind, Ensures-mono}
use yatwb.Buffer.{ReadOutcome, SysCount}
use yatwb.Channel.{Channel, is_writing}
use yatwb.EventLoop.{EventLoop, handle_active, run}
use yatwb.Poller.{Poller}
use yatwb.Poller.Fill.{AreDistinct, DiffersFrom}
use yatwb.Poller.Frame.{
  IsUntouched, IsUntouched-refl, IsUntouched-trans, framed-IsUntouched, untouched-IsRegistered,
}
use yatwb.Poller.Invariant.{IsConsistent}
use yatwb.Poller.Port.{poller_port}
use yatwb.Reactor.{Reactor, with_channel, serve, serve_channel, poll_reactor}
use yatwb.Reactor.Serve.{CanServe, IsServedAt, LeavesOthers, HasServed, serve_lem}
use yatwb.TcpConnection.{TcpConnection}
use yatwb.TcpConnection.Live.{IsLive}

module _ (loop : ℕ) (fd : ℕ → ℕ) (io : ℕ → ReadOutcome × SysCount) (wake : ℕ) where
  -- Those that are connections can be served; were served, from `r` to `r'`.
  abbrev pub CanServeAll : List ℕ → Reactor → Type 0
  CanServeAll [] r = Unit {0}
  CanServeAll (c ∷ cs) r =
      (c ≢ wake → CanServe loop fd io c r.poller (r.connections c)) × CanServeAll cs r

  abbrev pub AllServed : List ℕ → Reactor → Reactor → Type 0
  AllServed [] r r' = Unit {0}
  AllServed (c ∷ cs) r r' =
      (c ≢ wake
        → IsServedAt loop fd io c (r.poller.channels c) (r.connections c) r'.poller
            (r'.connections c))
      × AllServed cs r r'

  -- The loop after its active channels were served.
  pub record HasServedAll (cs : List ℕ) (lp lp' : EventLoop Reactor) : Type 0 where
    pub served : AllServed cs lp.program lp'.program
    pub consistent : IsConsistent lp'.program.poller
    pub rest :
        (d : ℕ)
        → DiffersFrom d cs
        → IsUntouched d lp.program.poller lp'.program.poller
          × (lp'.program.connections d ≡ lp.program.connections d)
    pub only : lp' ≡ record lp { program = lp'.program; wakeups = lp'.wakeups }

  IsLive-kept :
      (d : ℕ) (p p' : Poller) (conn : TcpConnection (Unit {0}))
      → IsUntouched d p p'
      → IsConsistent p'
      → IsLive (poller_port d (fd d) loop) (with_channel p conn)
      → IsLive (poller_port d (fd d) loop) (with_channel p' conn)
  IsLive-kept d p p' conn u v w =
      let same = ap (λ (ch : Channel). is_writing ch.events) u.channel in
      record {
        is_open = untouched-IsRegistered d (fd d) loop p p' u v w.is_open;
        valid = w.valid;
        idle = λ e. w.idle (sym same ∙ e);
        busy = λ e. w.busy (sym same ∙ e);
      }

  pub can_still :
      (d : ℕ) (r r' : Reactor)
      → IsUntouched d r.poller r'.poller
      → IsConsistent r'.poller
      → r'.connections d ≡ r.connections d
      → CanServe loop fd io d r.poller (r.connections d)
      → CanServe loop fd io d r'.poller (r'.connections d)
  can_still d r r' u v same w = subst (CanServe loop fd io d r'.poller) (sym same) (record {
    live = IsLive-kept d r.poller r'.poller (r.connections d) u v w.live;
    up = w.up;
    input_valid = w.input_valid;
    fits_read = w.fits_read;
    room = w.room;
    fits_write = w.fits_write;
    quiet = w.quiet;
  })

  still_served :
      (d : ℕ) (ch : Channel) (before : TcpConnection (Unit {0})) (r r' : Reactor)
      → IsUntouched d r.poller r'.poller
      → IsConsistent r'.poller
      → r'.connections d ≡ r.connections d
      → IsServedAt loop fd io d ch before r.poller (r.connections d)
      → IsServedAt loop fd io d ch before r'.poller (r'.connections d)
  still_served d ch before r r' u v same w =
      subst (IsServedAt loop fd io d ch before r'.poller) (sym same) (record {
        calls = w.calls;
        sent = w.sent;
        state_same = w.state_same;
        queued = w.queued;
        input_valid = w.input_valid;
        registered = untouched-IsRegistered d (fd d) loop r.poller r'.poller u v w.registered;
        live = λ e. IsLive-kept d r.poller r'.poller (r.connections d) u v (w.live e);
        shut = λ e. ap (λ ch. ch.events) u.channel ∙ w.shut e;
      })

  can_all_still :
      (c : ℕ) (ds : List ℕ) (r r' : Reactor)
      → DiffersFrom c ds
      → LeavesOthers loop fd io c r r'
      → CanServeAll ds r
      → CanServeAll ds r'
  can_all_still c [] r r' h o all = tt
  can_all_still c (d ∷ ds) r r' h o all = (
    λ conn.
        can_still d r r' (framed-IsUntouched c d r.poller r'.poller (λ e. h.0 (sym e)) o.frame)
          o.consistent (o.others d (λ e. h.0 (sym e))) (all.0 conn),
    can_all_still c ds r r' h.1 o all.1,
  )

  -- What was served from `r1` on was served from `r` on, where only `c` was served between them.
  served_before :
      (c : ℕ) (ds : List ℕ) (r r1 r' : Reactor)
      → DiffersFrom c ds
      → LeavesOthers loop fd io c r r1
      → AllServed ds r1 r'
      → AllServed ds r r'
  served_before c [] r r1 r' h o all = tt
  served_before c (d ∷ ds) r r1 r' h o all = (
    λ conn.
        subst
          (λ conn0.
            IsServedAt loop fd io d (r.poller.channels d) conn0 r'.poller (r'.connections d))
          (o.others d (λ e. h.0 (sym e)))
          (subst (λ ch. IsServedAt loop fd io d ch (r1.connections d) r'.poller (r'.connections d))
            (o.frame.others d (λ e. h.0 (sym e))) (all.0 conn)),
    served_before c ds r r1 r' h.1 o all.1,
  )

  one_more :
      (c : ℕ) (cs : List ℕ) (lp lp1 lp' : EventLoop Reactor)
      → DiffersFrom c cs
      → lp1 ≡ record lp { program = lp1.program }
      → HasServed loop fd io c lp.program lp1.program
      → HasServedAll cs lp1 lp'
      → HasServedAll (c ∷ cs) lp lp'
  one_more c cs lp lp1 lp' h is (served, left) w =
      let (u, same) = w.rest c h in
      record {
        served = (
          λ conn.
              still_served c (lp.program.poller.channels c) (lp.program.connections c) lp1.program
                lp'.program u w.consistent same served,
          served_before c cs lp.program lp1.program lp'.program h left w.served,
        );
        consistent = w.consistent;
        rest = λ d differs.
            let (u', same') = w.rest d differs.1 in
            (
              IsUntouched-trans d lp.program.poller lp1.program.poller lp'.program.poller
                  (framed-IsUntouched c d lp.program.poller lp1.program.poller differs.0 left.frame)
                  u',
              same' ∙ left.others d differs.0,
            );
        only =
            w.only
            ∙ ap
                (λ (l : EventLoop Reactor). record l {
                  program = lp'.program;
                  wakeups = lp'.wakeups;
                })
                is;
      }

  wake_up :
      (c : ℕ) (cs : List ℕ) (lp lp' : EventLoop Reactor)
      → c ≡ wake
      → HasServedAll cs (record lp { wakeups = 0 }) lp'
      → HasServedAll (c ∷ cs) lp lp'
  wake_up c cs lp lp' is w = record {
    served = (λ other. absurd (other is), w.served);
    consistent = w.consistent;
    rest = λ d differs. w.rest d differs.1;
    only = w.only;
  }

  abbrev Stepped : ℕ → EventLoop Reactor → EventLoop Reactor → Type 0
  Stepped c lp lp1 =
      (lp1 ≡ record lp { program = lp1.program }) × HasServed loop fd io c lp.program lp1.program

  pub handle_active_lem :
      (active : List ℕ) (lp : EventLoop Reactor)
      → IsConsistent lp.program.poller
      → AreDistinct active
      → CanServeAll active lp.program
      → Ensures
          (handle_active poll_reactor (serve_channel loop io wake) active lp)
          (HasServedAll active lp)
  unfolding handle_active run
  handle_active_lem [] lp v distinct can = record {
    served = tt;
    consistent = v;
    rest = λ d h. (IsUntouched-refl d lp.program.poller, refl);
    only = refl;
  }
  handle_active_lem (c ∷ cs) lp v distinct can = elim (Bool-cases (c == wake)) [
    | inl is ↦ rw is (
        Ensures-mono (HasServedAll cs (record lp { wakeups = 0 })) (HasServedAll (c ∷ cs) lp)
          (handle_active poll_reactor (serve_channel loop io wake) cs (record lp { wakeups = 0 }))
          (handle_active_lem cs (record lp { wakeups = 0 }) v distinct.1 can.1)
          (λ lp' w. wake_up c cs lp lp' (ground arith) w))
    | inr other ↦ rw other (
        Ensures-bind (Stepped c lp) (HasServedAll (c ∷ cs) lp)
          (serve loop io c lp.program >>= (λ s. ok (record lp { program = s }))) _
          (Ensures-bind (HasServed loop fd io c lp.program) (Stepped c lp)
            (serve loop io c lp.program) (λ s. ok (record lp { program = s }))
            (serve_lem loop fd io c lp.program (can.0 (λ e. ground arith))) (λ s w. (refl, w)))
          (λ lp1 w.
            Ensures-mono (HasServedAll cs lp1) (HasServedAll (c ∷ cs) lp)
              (handle_active poll_reactor (serve_channel loop io wake) cs lp1)
              (handle_active_lem cs lp1 w.1.1.consistent distinct.1
                (can_all_still c cs lp.program lp1.program distinct.0 w.1.1 can.1))
              (λ lp' all. one_more c cs lp lp1 lp' distinct.0 w.0 w.1 all)))
  ]
