-- ===== src/Poller/Port.antt =====
-- The poller as what a connection relies on, for the channel `c` of fd `n` of one loop.
use yatwb.Base.{ℕ, ◌≡◌, inr, none, true, ◌∙◌}
use yatwb.Base.Int.{pos}
use yatwb.Base.Results.{Ensures, Ensures-mono}
use yatwb.Channel.{Interest, change, none_event}
use yatwb.ChannelPort.{ChannelPort}
use yatwb.Poller.{Poller, set_interest, remove_channel, loop_remove_channel}
use yatwb.Poller.Invariant.{IsConsistent, maps_to_self}
use yatwb.Poller.Remove.{IsRemoved, remove_channel-IsRemoved}
use yatwb.Poller.Watch.{IsOwned, IsRegistered, CanWatch, set_interest-IsWatched}

module _ (c n loop : ℕ) where
  abbrev pub IsOpen : Poller → Type 0
  IsOpen p = IsRegistered p c n loop (p.channels c).events

  abbrev pub CanSet : Poller → Type 0
  CanSet p = IsConsistent p × IsOwned p c loop × CanWatch p c n

  abbrev pub IsGone : Poller → Type 0
  IsGone p = IsConsistent p × (p.channel_map (pos n) ≡ none)

  pub open_can : (p : Poller) → IsOpen p → CanSet p
  open_can p w = (w.consistent, w.owned, inr w.mapped)

  pub set_opens :
      (p : Poller) (how : Interest)
      → CanSet p
      → Ensures
          (set_interest true how c p)
          (λ p'. IsOpen p' × ((p'.channels c).events ≡ change how (p.channels c).events))
  set_opens p how (v, o, can) =
      Ensures-mono _ _ (set_interest true how c p) (set_interest-IsWatched p how c n loop v o can)
        (λ p' w. (rw w.registered.own w.registered, w.registered.own))

  pub remove_closes :
      (p : Poller)
      → IsOpen p
      → (p.channels c).events ≡ none_event
      → Ensures (loop_remove_channel true loop c p) IsGone
  unfolding loop_remove_channel
  remove_closes p w e =
      rw (w.owned.1, maps_to_self loop)
        (Ensures-mono (IsRemoved p n) IsGone (remove_channel true c p)
          (remove_channel-IsRemoved p c n w.slot w.pollfd w.consistent w.mapped w.placed w.at e
            (w.synced ∙ e))
          (λ p' r. (r.consistent, r.gone)))

  -- The poller keeps what a connection relies on.
  abbrev pub poller_port : ChannelPort Poller
  poller_port = record {
    events = λ p. (p.channels c).events;
    set_interest = λ in_loop how p. set_interest in_loop how c p;
    remove = λ in_loop p. loop_remove_channel in_loop loop c p;
    CanSet = CanSet;
    IsOpen = IsOpen;
    IsGone = IsGone;
    open_can = open_can;
    set_opens = set_opens;
    remove_closes = remove_closes;
  }
