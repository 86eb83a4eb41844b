-- ===== src/Poller/Frame.antt =====
-- `enableReading` and its likes on one channel leave the other channels and their slots alone.
use yatwb.Base.{
  ℕ, ◌≡◌, ◌≢◌, refl, sym, ap, ◌∙◌, inr, true, false, some, get_elem?, get_elem?-set_ne, arith,
}
use yatwb.Base.Int.{ℤ, pos, ltb_ℤ}
use yatwb.Base.Results.{Ensures, Ensures-both, Ensures-mono}
use yatwb.Channel.{Interest, change}
use yatwb.ChannelPort.{ChannelPort}
use yatwb.Poller.{Poller, set_interest, update_channel, loop_remove_channel}
use yatwb.Poller.Invariant.{IsConsistent, IsMapped, same_index}
use yatwb.Poller.Port.{IsGone, remove_closes}
use yatwb.Poller.Update.{update_pollfd_lem, updated_pollfd}
use yatwb.Poller.Watch.{
  IsRegistered, set_interest-IsWatched, with_events, with_events-IsConsistent, owned,
}

-- The map, every channel but `c`, and the slots of the other mapped channels are the same.
pub record IsFramed (c : ℕ) (p p' : Poller) : Type 0 where
  pub same_map : p'.channel_map ≡ p.channel_map
  pub others : (d : ℕ) → d ≢ c → p'.channels d ≡ p.channels d
  pub slots :
      (k : ℤ) (d i : ℕ)
      → d ≢ c
      → p.channel_map k ≡ some d
      → (p.channels d).index ≡ pos i
      → get_elem? p'.poll_fds i ≡ get_elem? p.poll_fds i

pub IsFramed-refl : (c : ℕ) (p : Poller) → IsFramed c p p
IsFramed-refl c p = record { same_map = refl; others = λ d h. refl; slots = λ k d i h m e. refl }

pub IsFramed-trans : (c : ℕ) (p q r : Poller) → IsFramed c p q → IsFramed c q r → IsFramed c p r
IsFramed-trans c p q r a b = record {
  same_map = b.same_map ∙ a.same_map;
  others = λ d h. b.others d h ∙ a.others d h;
  slots = λ k d i h m e.
      b.slots k d i h (ap (λ f. f k) a.same_map ∙ m) (ap (λ ch. ch.index) (a.others d h) ∙ e)
      ∙ a.slots k d i h m e;
}

-- The map, the channel `d` and its slot are the same.
pub record IsUntouched (d : ℕ) (p p' : Poller) : Type 0 where
  pub same_map : p'.channel_map ≡ p.channel_map
  pub channel : p'.channels d ≡ p.channels d
  pub slots :
      (k : ℤ) (i : ℕ)
      → p.channel_map k ≡ some d
      → (p.channels d).index ≡ pos i
      → get_elem? p'.poll_fds i ≡ get_elem? p.poll_fds i

pub IsUntouched-refl : (d : ℕ) (p : Poller) → IsUntouched d p p
IsUntouched-refl d p = record { same_map = refl; channel = refl; slots = λ k i m e. refl }

pub IsUntouched-trans :
    (d : ℕ) (p q r : Poller) → IsUntouched d p q → IsUntouched d q r → IsUntouched d p r
IsUntouched-trans d p q r a b = record {
  same_map = b.same_map ∙ a.same_map;
  channel = b.channel ∙ a.channel;
  slots = λ k i m e.
      b.slots k i (ap (λ f. f k) a.same_map ∙ m) (ap (λ ch. ch.index) a.channel ∙ e)
      ∙ a.slots k i m e;
}

pub framed-IsUntouched : (c d : ℕ) (p p' : Poller) → d ≢ c → IsFramed c p p' → IsUntouched d p p'
framed-IsUntouched c d p p' h f = record {
  same_map = f.same_map;
  channel = f.others d h;
  slots = λ k i m e. f.slots k d i h m e;
}

-- A channel that was not touched is registered as before.
pub untouched-IsRegistered :
    (d n loop : ℕ) (p p' : Poller)
    → IsUntouched d p p'
    → IsConsistent p'
    → IsRegistered p d n loop (p.channels d).events
    → IsRegistered p' d n loop (p'.channels d).events
untouched-IsRegistered d n loop p p' u v w = record {
  consistent = v;
  mapped = record {
    numbered = ap (λ ch. ch.fd) u.channel ∙ w.mapped.numbered;
    entry = ap (λ m. m (pos n)) u.same_map ∙ w.mapped.entry;
  };
  slot = w.slot;
  pollfd = w.pollfd;
  placed = ap (λ ch. ch.index) u.channel ∙ w.placed;
  at = u.slots (pos n) w.slot w.mapped.entry w.placed ∙ w.at;
  synced = w.synced ∙ ap (λ ch. ch.events) (sym u.channel);
  own = refl;
  owned =
      (ap (λ ch. ch.loop) u.channel ∙ w.owned.0, ap (λ ch. ch.owner_loop) u.channel ∙ w.owned.1);
}

set_interest-IsFramed :
    (p : Poller) (how : Interest) (c n loop : ℕ)
    → IsRegistered p c n loop (p.channels c).events
    → Ensures (set_interest true how c p) (IsFramed c p)
unfolding update_channel
set_interest-IsFramed p how c n loop w =
    let e = change how (p.channels c).events in
    let q = with_events p c e in
    let v = with_events-IsConsistent p c n e w.consistent in
    let m : IsMapped q c n = record {
      numbered = ground (arith, w.mapped.numbered);
      entry = w.mapped.entry;
    } in
    let (f, s) = v.mapped (pos n) c m.entry in
    let (i, old, ei, es, ef) = s in
    let placed : ltb_ℤ (q.channels c).index (pos 0) ≡ false = rw ei (ground arith) in
    let here : (p.channels c).index ≡ pos i = ground (arith, ei) in
    rw (owned p how c loop w.owned, placed, update_pollfd_lem q c n i old v m ei es (ground arith))
      (record {
        same_map = refl;
        others = λ d h. ground arith;
        slots = λ k d j h mk at.
            get_elem?-set_ne p.poll_fds i j (updated_pollfd (q.channels c) old) (λ ij. h (
              sym
                (same_index w.consistent (pos n) k c d i w.mapped.entry mk here
                  (at ∙ ap pos (sym ij))).1));
      })

-- The channel's interface to the poller, with what it leaves alone since `p0`.
module _ (p0 : Poller) (c n loop : ℕ) where
  abbrev pub IsKept : Poller → Type 0
  IsKept p = IsRegistered p c n loop (p.channels c).events × IsFramed c p0 p

  pub IsKept-opens :
      (p : Poller) (how : Interest)
      → IsKept p
      → Ensures
          (set_interest true how c p)
          (λ p'. IsKept p' × ((p'.channels c).events ≡ change how (p.channels c).events))
  IsKept-opens p how (w, f) =
      Ensures-mono _ _ (set_interest true how c p)
        (Ensures-both _ _ (set_interest true how c p)
          (set_interest-IsWatched p how c n loop w.consistent w.owned (inr w.mapped))
          (set_interest-IsFramed p how c n loop w))
        (λ p' r. (
          (rw r.0.registered.own r.0.registered, IsFramed-trans c p0 p p' f r.1),
          r.0.registered.own,
        ))

  abbrev pub framed_port : ChannelPort Poller
  framed_port = record {
    events = λ p. (p.channels c).events;
    set_interest = λ in_loop how p. set_interest in_loop how c p;
    remove = λ in_loop p. loop_remove_channel in_loop loop c p;
    CanSet = IsKept;
    IsOpen = IsKept;
    IsGone = IsGone c n loop;
    open_can = λ p w. w;
    set_opens = IsKept-opens;
    remove_closes = λ p w. remove_closes c n loop p w.0;
  }
