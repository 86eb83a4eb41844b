-- ===== src/Reactor/Round.antt =====
-- The first half of an iteration of the loop: `poll`, and `handleEvents` of the active channels.
use mathlib.Core.Path.{subst}
use yatwb.Base.{ℕ, ◌≡◌, ◌≢◌, refl, sym, ap, ◌∙◌, Option, some, List, [], ◌∷◌, map, drop, get_elem?}
use yatwb.Base.Int.{ℤ, pos}
use yatwb.Base.Results.{Ensures, Ensures-bind, Ensures-mono}
use yatwb.Buffer.{ReadOutcome, SysCount}
use yatwb.Channel.{PollFlags, is_writing}
use yatwb.EventLoop.{EventLoop, dispatch, handle_active}
use yatwb.Poller.{Poller, PollFd, polled, poll}
use yatwb.Poller.Dispatch.{IsPolled, IsDispatched, poll-IsDispatched, fd-write_revents}
use yatwb.Poller.Fill.{ready, DiffersFrom}
use yatwb.Poller.Invariant.{IsConsistent}
use yatwb.Poller.Watch.{IsRegistered}
use yatwb.Reactor.{Reactor, serve_channel, serve_round, poll_reactor}
use yatwb.Reactor.Active.{CanServeAll, AllServed, HasServedAll, handle_active_lem, can_still}
use yatwb.Reactor.Serve.{CanServe}
use yatwb.TcpConnection.{TcpConnection}

-- A poll leaves registered what was registered.
polled-IsRegistered :
    (d n loop count : ℕ) (rs : List PollFlags) (p : Poller) (r : List ℕ × Poller)
    → IsDispatched p count rs r
    → IsRegistered p d n loop (p.channels d).events
    → IsRegistered r.1 d n loop (r.1.channels d).events
polled-IsRegistered d n loop count rs p r i w =
    let (fd, index, events, owner, lp) = i.placed d in
    let (pfd, at, same_fd, same_events) = fd-write_revents p.poll_fds rs w.slot w.pollfd w.at in
    record {
      consistent = i.consistent;
      mapped = record {
        numbered = fd ∙ w.mapped.numbered;
        entry = ap (λ m. m (pos n)) i.same_map ∙ w.mapped.entry;
      };
      slot = w.slot;
      pollfd = pfd;
      placed = index ∙ w.placed;
      at = ap (λ fds. get_elem? fds w.slot) i.slots ∙ at;
      synced = sym same_events ∙ w.synced ∙ sym events;
      own = refl;
      owned = (lp ∙ w.owned.0, owner ∙ w.owned.1);
    }

first_of : List (Option ℕ) → Option ℕ → Option ℕ
first_of [] d = d
first_of (x ∷ xs) d = x

module _ (loop : ℕ) (fd : ℕ → ℕ) (io : ℕ → ReadOutcome × SysCount) (wake : ℕ) where
  polled-CanServe :
      (d count : ℕ) (rs : List PollFlags) (p : Poller) (r : List ℕ × Poller)
      (conn : TcpConnection (Unit {0}))
      → IsDispatched p count rs r
      → CanServe loop fd io d p conn
      → CanServe loop fd io d r.1 conn
  polled-CanServe d count rs p r conn i w =
      let same = ap is_writing ((i.placed d).2) in
      record {
        live = record {
          is_open = polled-IsRegistered d (fd d) loop count rs p r i w.live.is_open;
          valid = w.live.valid;
          idle = λ e. w.live.idle (sym same ∙ e);
          busy = λ e. w.live.busy (sym same ∙ e);
        };
        up = w.up;
        input_valid = w.input_valid;
        fits_read = w.fits_read;
        room = w.room;
        fits_write = w.fits_write;
        quiet = w.quiet;
      }

  -- Active channels are mapped.
  all_can :
      (m : ℤ → Option ℕ) (r : Reactor) (cs : List ℕ) (xs : List PollFd)
      → ((k : ℤ) (d : ℕ)
          → m k ≡ some d
          → d ≢ wake
          → CanServe loop fd io d r.poller (r.connections d))
      → map some cs ≡ map (λ (pfd : PollFd). m pfd.fd) xs
      → CanServeAll loop fd io wake cs r
  unfolding first_of
  all_can m r [] xs h e = tt
  all_can m r (c ∷ cs) [] h e = cc
  all_can m r (c ∷ cs) (x ∷ xs) h e = (
    λ conn. h x.fd c (sym (ap (λ l. first_of l (some c)) e)) conn,
    all_can m r cs xs h (ap (drop 1) e),
  )

  -- `lp'` is `lp` after a poll that made `active` the active channels, each of which was served.
  pub record IsRound (n : ℕ) (rs : List PollFlags) (lp lp' : EventLoop Reactor) : Type 0 where
    pub active : List ℕ
    pub polled : Poller
    pub dispatched : IsDispatched lp.program.poller n rs (active, polled)
    pub served :
        AllServed loop fd io wake active (record lp.program { poller = polled }) lp'.program
    pub consistent : IsConsistent lp'.program.poller
    pub rest :
        (k : ℤ) (d : ℕ)
        → lp.program.poller.channel_map k ≡ some d
        → d ≢ wake
        → DiffersFrom d active
        → CanServe loop fd io d lp'.program.poller (lp'.program.connections d)
          × (lp'.program.connections d ≡ lp.program.connections d)
    pub only : lp' ≡ record lp { program = lp'.program; wakeups = lp'.wakeups }

  -- In a loop with a consistent poller whose mapped channels, but that of the wakeups, are those of
  -- live connections that are connected or disconnecting, with a valid input buffer that may grow by
  -- the stack buffer and without a write complete callback, whose close callback and message callback
  -- call nothing, and for a poll that keeps the promises of poll(2), and reads and writes that
  -- fail or move no more than they were given: `poll` and `handleEvents` of the active channels, one
  -- after the other on the one poller that they share, succeed. Each connection whose slot has
  -- events has had the round of `handleEvents` that these events, its own buffers and its interest
  -- before the poll ask for, whatever the others did: what the user heard and what was sent; it queued
  -- nothing; and it is live, or, where the round closed it, watched for nothing. Every other connection is the same
  -- and can be served still; the poller is consistent, and of the loop only the count of wakeups may
  -- have changed.
  pub serve_round-IsRound :
      (n : ℕ) (rs : List PollFlags) (lp : EventLoop Reactor)
      → IsConsistent lp.program.poller
      → IsPolled lp.program.poller n rs
      → ((k : ℤ) (d : ℕ)
          → lp.program.poller.channel_map k ≡ some d
          → d ≢ wake
          → CanServe loop fd io d lp.program.poller (lp.program.connections d))
      → Ensures (serve_round loop io wake (polled n rs) lp) (IsRound n rs lp)
  unfolding dispatch
  serve_round-IsRound n rs lp v w can =
      Ensures-bind After (IsRound n rs lp) (poll_reactor (polled n rs) lp.program) _
        (Ensures-bind (IsDispatched lp.program.poller n rs) After
          (poll (polled n rs) lp.program.poller) _ (poll-IsDispatched lp.program.poller n rs v w)
          (λ s i. (i, refl)))
        (λ a p.
          Ensures-mono (HasServedAll loop fd io wake a.0 (record lp { program = a.1 }))
            (IsRound n rs lp)
            (handle_active poll_reactor (serve_channel loop io wake) a.0
              (record lp { program = a.1 }))
            (handle_active_lem loop fd io wake a.0 (record lp { program = a.1 }) p.0.consistent
              p.0.distinct
              (all_can lp.program.poller.channel_map a.1 a.0 (ready a.1.poller.poll_fds)
                (can_each a p) p.0.active))
            (λ lp' h. record {
              active = a.0;
              polled = a.1.poller;
              dispatched = p.0;
              served = subst (λ s. AllServed loop fd io wake a.0 s lp'.program) p.1 h.served;
              consistent = h.consistent;
              rest = λ k d m conn differs.
                  let (u, same) = h.rest d differs in
                  (
                    can_still loop fd io wake d a.1 lp'.program u h.consistent same
                        (can_each a p k d m conn),
                    same ∙ ap (λ s. s.connections d) p.1,
                  );
              only = h.only;
            }))
    where
      After : List ℕ × Reactor → Type 0
      After s =
          IsDispatched lp.program.poller n rs (s.0, s.1.poller)
          × (s.1 ≡ record lp.program { poller = s.1.poller })

      can_each :
          (a : List ℕ × Reactor)
          → After a
          → (k : ℤ) (d : ℕ) → lp.program.poller.channel_map k ≡ some d
          → d ≢ wake
          → CanServe loop fd io d a.1.poller (a.1.connections d)
      can_each a p k d m conn =
          subst (CanServe loop fd io d a.1.poller) (sym (ap (λ s. s.connections d) p.1)) (
            polled-CanServe d n rs lp.program.poller (a.0, a.1.poller) (lp.program.connections d)
              p.0 (can k d m conn))
