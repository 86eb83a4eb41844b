-- ===== src/Poller/Watch.antt =====
-- `enableReading` and its likes: a channel's interest set and the slot that poll(2) reads.
use yatwb.Base.{
  ℕ, ◌≡◌, refl, ◌⊎◌, inl, inr, Bool, true, false, some, length, get_elem?, arith, Bool-cases,
}
use mathlib.Core.Path.{subst}
use yatwb.Base.Results.{Result, ok, fault, Ensures}
use yatwb.Base.Int.{ℤ, pos, negsuc, ltb_ℤ}
use yatwb.Channel.{PollFlags, none_event, is_none_event, Interest, change}
use yatwb.Channel.{new_channel}
use yatwb.Base.Results.{assert_failed}
use yatwb.Poller.{
  loop_update_channel, maps_to, Poller, PollFd, put_channel, add_pollfd, update_channel,
  set_interest,
}
use yatwb.Poller.Invariant.{key, IsConsistent, IsNew, IsMapped, get_elem?-push}
use yatwb.Poller.Add.{new_pollfd, add_pollfd_lem, add_pollfd-IsConsistent}
use yatwb.Poller.Update.{updated_pollfd, update_pollfd_lem, updated_at, updated-IsConsistent}

-- The channel works for the loop, and the loop knows.
abbrev pub IsOwned : Poller → ℕ → ℕ → Type 0
IsOwned p c loop = ((p.channels c).loop ≡ loop) × ((p.channels c).owner_loop ≡ some loop)

-- The channel is mapped and owned by the loop, and its slot has the interest set `events`.
pub record IsRegistered (p : Poller) (c n loop : ℕ) (events : PollFlags) : Type 0 where
  pub consistent : IsConsistent p
  pub mapped : IsMapped p c n
  pub slot : ℕ
  pub pollfd : PollFd
  pub placed : (p.channels c).index ≡ pos slot
  pub at : get_elem? p.poll_fds slot ≡ some pollfd
  pub synced : pollfd.events ≡ events
  pub own : (p.channels c).events ≡ events
  pub owned : IsOwned p c loop

-- And the slot has no result.
pub record IsWatched (p : Poller) (c n loop : ℕ) (events : PollFlags) : Type 0 where
  pub registered : IsRegistered p c n loop events
  pub unread : registered.pollfd.revents ≡ none_event

-- The mask of one channel changed.
abbrev pub with_events : Poller → ℕ → PollFlags → Poller
with_events p c e = record p {
  channels = put_channel p.channels c (record (p.channels c) { events = e });
}

module _ (p : Poller) (c n : ℕ) (e : PollFlags) (v : IsConsistent p) where
  pub with_events-IsConsistent : IsConsistent (with_events p c e)
  with_events-IsConsistent = record {
    mapped = λ k d m.
        let (f, s) = v.mapped k d m in
        let (i, pfd, ei, es, ef) = s in (ground arith, (i, pfd, ground arith, es, ground arith));
    occupied = λ i pfd at. let (d, m, ix) = v.occupied i pfd at in (d, m, ground arith);
  }

Ensures-ok : {A : Type 0} (m : Result A) (P : A → Type 0) {a : A} → m ≡ ok a → Ensures m P → P a
Ensures-ok m P e h = subst (λ r. Ensures r P) e h

update_new :
    (p : Poller) (c n loop : ℕ) (e : PollFlags)
    → IsOwned p c loop
    → (p.channels c).events ≡ e
    → IsConsistent p
    → IsNew p c n
    → Ensures (update_channel true c p) (λ p'. IsWatched p' c n loop e)
unfolding update_channel new_pollfd
update_new p c n loop e o own v w =
    rw (w.unplaced, add_pollfd_lem p c n v w)
      (record {
        unread = refl;
        registered = record {
          consistent =
              Ensures-ok (add_pollfd c p) IsConsistent (add_pollfd_lem p c n v w)
                (add_pollfd-IsConsistent p c n v w);
          mapped = record { numbered = ground arith; entry = ground arith };
          slot = length p.poll_fds;
          pollfd = new_pollfd p c n v w;
          placed = ground arith;
          at = ground (arith, get_elem?-push p.poll_fds (new_pollfd p c n v w) (length p.poll_fds));
          synced = own;
          own = ground arith;
          owned = (ground arith, ground arith);
        };
      })

update_mapped :
    (p : Poller) (c n loop : ℕ) (e : PollFlags)
    → IsOwned p c loop
    → (p.channels c).events ≡ e
    → IsConsistent p
    → IsMapped p c n
    → Ensures (update_channel true c p) (λ p'. IsWatched p' c n loop e)
unfolding update_channel
update_mapped p c n loop e o own v w =
    let (f, s) = v.mapped (pos n) c w.entry in
    let (i, old, ei, es, ef) = s in
    let placed : ltb_ℤ (p.channels c).index (pos 0) ≡ false = rw ei (ground arith) in
    rw (placed, update_pollfd_lem p c n i old v w ei es (ground arith))
      (record {
        unread = refl;
        registered = record {
          consistent = updated-IsConsistent p c n i old v w ei es (ground arith);
          mapped = record { numbered = w.numbered; entry = w.entry };
          slot = i;
          pollfd = updated_pollfd (p.channels c) old;
          placed = ei;
          at = updated_at p c n i old v w ei es (ground arith);
          synced = own;
          own = own;
          owned = o;
        };
      })

-- The owner's loop passes the call on to the poller.
pub owned :
    (p : Poller) (how : Interest) (c loop : ℕ)
    → IsOwned p c loop
    → set_interest true how c p
      ≡ update_channel true c (with_events p c (change how (p.channels c).events))
unfolding set_interest loop_update_channel
owned p how c loop o =
    let test : maps_to ((with_events p c (change how (p.channels c).events)).channels c).owner_loop
          (p.channels c).loop
        ≡ true =
      ground arith in
    rw test

-- A channel just constructed, which no loop owns yet, cannot be watched: any change of its interest
-- fails an assertion.
pub set_interest-no_owner :
    (p : Poller) (in_loop : Bool) (how : Interest) (c loop : ℕ) (fd : ℤ)
    → p.channels c ≡ new_channel loop fd
    → set_interest in_loop how c p ≡ fault assert_failed
unfolding set_interest loop_update_channel new_channel
set_interest-no_owner p in_loop how c loop fd e = ground arith

-- A channel that is new or mapped.
abbrev pub CanWatch : Poller → ℕ → ℕ → Type 0
CanWatch p c n = IsNew p c n ⊎ IsMapped p c n

-- In a consistent poller, changing the interest of a new or a mapped channel that its loop owns,
-- in the loop's thread, fails no assertion, and leaves a consistent poller in which the channel is
-- mapped under its fd and its own slot asks for exactly the changed set; its loop owns it still.
pub set_interest-IsWatched :
    (p : Poller) (how : Interest) (c n loop : ℕ)
    → IsConsistent p
    → IsOwned p c loop
    → CanWatch p c n
    → Ensures
        (set_interest true how c p)
        (λ p'. IsWatched p' c n loop (change how (p.channels c).events))
set_interest-IsWatched p how c n loop v o (inl w) = rw (owned p how c loop o) (
    update_new (with_events p c (change how (p.channels c).events)) c n loop _
      (ground arith, ground arith) (ground arith) (with_events-IsConsistent p c n _ v)
      (record { unplaced = ground arith; numbered = ground arith; free = w.free }))
set_interest-IsWatched p how c n loop v o (inr w) = rw (owned p how c loop o) (
    update_mapped (with_events p c (change how (p.channels c).events)) c n loop _
      (ground arith, ground arith) (ground arith) (with_events-IsConsistent p c n _ v)
      (record { numbered = ground arith; entry = w.entry }))

update-stays_ignored :
    (p : Poller) (c n i : ℕ) (pfd : PollFd) (e : PollFlags)
    → (p.channels c).events ≡ e
    → IsConsistent p
    → IsMapped p c n
    → (p.channels c).index ≡ pos i
    → get_elem? p.poll_fds i ≡ some pfd
    → pfd.fd ≡ negsuc n
    → Ensures (update_channel true c p) (λ p'.
      (pfd' : PollFd) × (get_elem? p'.poll_fds i ≡ some pfd')
      × (pfd'.fd ≡ negsuc n)
      × (pfd'.events ≡ e))
unfolding update_channel
update-stays_ignored p c n i pfd e own v w ei es neg =
    let placed : ltb_ℤ (p.channels c).index (pos 0) ≡ false = rw ei (ground arith) in
    let mine : pos n ≡ pos (key pfd.fd) = rw neg in
    rw (placed, update_pollfd_lem p c n i pfd v w ei es mine)
      (updated_pollfd (p.channels c) pfd, updated_at p c n i pfd v w ei es mine, ignored, own)
  where
    ignored : (updated_pollfd (p.channels c) pfd).fd ≡ negsuc n
    ignored = elim (Bool-cases (is_none_event (p.channels c))) [
      | inl t ↦ rw (t, w.numbered)
      | inr f ↦ rw (f, neg)
    ]

-- In a consistent poller, once the slot of a mapped channel that its loop owns ignores its fd, no
-- change of the interest set in the loop's thread brings the fd back: the slot takes over the new
-- set and goes on ignoring the fd.
pub set_interest-stays_ignored :
    (p : Poller) (how : Interest) (c n i loop : ℕ) (pfd : PollFd)
    → IsConsistent p
    → IsMapped p c n
    → (p.channels c).index ≡ pos i
    → get_elem? p.poll_fds i ≡ some pfd
    → pfd.fd ≡ negsuc n
    → IsOwned p c loop
    → Ensures (set_interest true how c p) (λ p'.
      (pfd' : PollFd) × (get_elem? p'.poll_fds i ≡ some pfd')
      × (pfd'.fd ≡ negsuc n)
      × (pfd'.events ≡ change how (p.channels c).events))
set_interest-stays_ignored p how c n i loop pfd v w ei es neg o = rw (owned p how c loop o) (
    update-stays_ignored (with_events p c (change how (p.channels c).events)) c n i pfd _
      (ground arith) (with_events-IsConsistent p c n _ v)
      (record { numbered = ground arith; entry = w.entry }) (ground arith) es neg)
