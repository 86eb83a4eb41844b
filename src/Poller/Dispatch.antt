-- ===== src/Poller/Dispatch.antt =====
-- `poll`: which channels become active.
use yatwb.Base.{
  ◌+◌, ℕ, suc, zero, ◌≡◌, ◌≢◌, ◌⊎◌, refl, sym, ap, ◌∙◌, inl, inr, true, false, Option, some, List,
  [], ◌∷◌, map, length, get_elem?, arith,
}
use yatwb.Base.Results.{Ensures, Ensures-bind}
use yatwb.Base.Int.{ℤ, pos, negsuc}
use yatwb.Channel.{Channel, PollFlags, some_event}
use yatwb.Poller.{Poller, PollFd, fill_active_channels, polled, write_revents, poll}
use yatwb.Poller.Invariant.{key, IsConsistent}
use yatwb.Poller.Distinct.{distinct_lem}
use yatwb.Poller.Fill.{
  AreDistinct, results_of, slot_results, ready, SamePlace, IsDeliverable, AllDeliverable, IsFilled,
  length-map, nil_of_length, fill_lem,
}

ℤ-cases : (x : ℤ) → ((n : ℕ) × (x ≡ pos n)) ⊎ ((n : ℕ) × (x ≡ negsuc n))
ℤ-cases (pos n) = inl (n, refl)
ℤ-cases (negsuc n) = inr (n, refl)

true≢false : true ≢ false
true≢false e = cc

-- `::poll` writes results and leaves the fds.
write_revents-fd :
    (fds : List PollFd) (rs : List PollFlags) (i : ℕ) (pfd : PollFd)
    → get_elem? (write_revents fds rs) i ≡ some pfd
    → (old : PollFd) × (get_elem? fds i ≡ some old) × (old.fd ≡ pfd.fd)
write_revents-fd [] [] i pfd e = cc
write_revents-fd [] (r ∷ rs) i pfd e = cc
write_revents-fd (x ∷ fds) [] i pfd e = (pfd, e, refl)
write_revents-fd (x ∷ fds) (r ∷ rs) zero pfd e = (x, refl, ground arith)
write_revents-fd (x ∷ fds) (r ∷ rs) (suc i) pfd e = write_revents-fd fds rs i pfd e

pub fd-write_revents :
    (fds : List PollFd) (rs : List PollFlags) (i : ℕ) (old : PollFd)
    → get_elem? fds i ≡ some old
    → (pfd : PollFd) × (get_elem? (write_revents fds rs) i ≡ some pfd)
      × (old.fd ≡ pfd.fd)
      × (old.events ≡ pfd.events)
fd-write_revents [] [] i old e = cc
fd-write_revents [] (r ∷ rs) i old e = cc
fd-write_revents (x ∷ fds) [] i old e = (old, e, refl, refl)
fd-write_revents (x ∷ fds) (r ∷ rs) zero old e =
    (record x { revents = r }, refl, ground arith, ground arith)
fd-write_revents (x ∷ fds) (r ∷ rs) (suc i) old e = fd-write_revents fds rs i old e

AllDeliverable-of :
    (m : ℤ → Option ℕ) (channels : ℕ → Channel) (fds : List PollFd)
    → ((i : ℕ) (pfd : PollFd) → get_elem? fds i ≡ some pfd → IsDeliverable m channels pfd)
    → AllDeliverable m channels fds
AllDeliverable-of m channels [] h = tt
AllDeliverable-of m channels (pfd ∷ fds) h =
    (h 0 pfd refl, AllDeliverable-of m channels fds (λ i. h (suc i)))

-- What poll(2) promises: an ignored (negative) fd has no events, and the count is that of the
-- elements with events.
pub record IsPolled (p : Poller) (n : ℕ) (rs : List PollFlags) : Type 0 where
  pub ignored :
      (i k : ℕ) (pfd : PollFd)
      → get_elem? (write_revents p.poll_fds rs) i ≡ some pfd
      → pfd.fd ≡ negsuc k
      → some_event pfd.revents ≡ false
  pub counted : length (ready (write_revents p.poll_fds rs)) ≡ n

-- After a poll: the consistent poller, and the active channels in the order of their slots.
pub record IsDispatched (p : Poller) (n : ℕ) (rs : List PollFlags) (r : List ℕ × Poller)
    : Type 0 where
  pub consistent : IsConsistent r.1
  pub slots : r.1.poll_fds ≡ write_revents p.poll_fds rs
  pub same_map : r.1.channel_map ≡ p.channel_map
  pub active : map some r.0 ≡ map (λ (pfd : PollFd). p.channel_map pfd.fd) (ready r.1.poll_fds)
  pub complete : length r.0 ≡ n
  pub distinct : AreDistinct r.0
  pub results : results_of r.1.channels r.0 ≡ slot_results (ready r.1.poll_fds)
  pub placed : (d : ℕ) → SamePlace (r.1.channels d) (p.channels d)

module _ (p : Poller) (n : ℕ) (rs : List PollFlags) (v : IsConsistent p) (w : IsPolled p n rs) where
  deliverable :
      (i : ℕ) (pfd : PollFd)
      → get_elem? (write_revents p.poll_fds rs) i ≡ some pfd
      → IsDeliverable p.channel_map p.channels pfd
  deliverable i pfd e t = elim (ℤ-cases pfd.fd) [
    | inl (k, is) ↦
        let (old, at, same) = write_revents-fd p.poll_fds rs i pfd e in
        let (c, entry, ix) = v.occupied i old at in
        let own : p.channel_map pfd.fd ≡ some c = ground arith in
        (c, own, (v.mapped pfd.fd c own).0)
    | inr (k, is) ↦ let never = w.ignored i k pfd e is in absurd (true≢false (sym t ∙ never))
  ]

  indexed :
      (i : ℕ) (pfd : PollFd)
      → get_elem? (write_revents p.poll_fds rs) i ≡ some pfd
      → some_event pfd.revents ≡ true
      → (c : ℕ) × (p.channel_map pfd.fd ≡ some c) × ((p.channels c).index ≡ pos (0 + i))
  indexed i pfd e t = elim (ℤ-cases pfd.fd) [
    | inl (k, is) ↦
        let (old, at, same) = write_revents-fd p.poll_fds rs i pfd e in
        let (c, entry, ix) = v.occupied i old at in (c, ground arith, ix ∙ ap pos (omega arith))
    | inr (k, is) ↦ let never = w.ignored i k pfd e is in absurd (true≢false (sym t ∙ never))
  ]

  -- Results change neither fds nor indices.
  polled-IsConsistent :
      (channels : ℕ → Channel)
      → ((d : ℕ) → SamePlace (channels d) (p.channels d))
      → IsConsistent (record p { poll_fds = write_revents p.poll_fds rs; channels = channels })
  polled-IsConsistent channels same = record {
    mapped = λ k d e.
        let (f, slot) = v.mapped k d e in
        let (i, old, ix, at, own) = slot in
        let (pfd, at', is, _) = fd-write_revents p.poll_fds rs i old at in
        (
          (same d).0 ∙ f,
          (i, pfd, (same d).1 ∙ ix, at', (same d).0 ∙ own ∙ ap (λ x. pos (key x)) is),
        );
    occupied = λ i pfd e.
        let (old, at, is) = write_revents-fd p.poll_fds rs i pfd e in
        let (c, entry, ix) = v.occupied i old at in
        (c, ap (λ x. p.channel_map (pos (key x))) (sym is) ∙ entry, (same c).1 ∙ ix);
  }

  filled-IsDispatched :
      (r : List ℕ × (ℕ → Channel))
      → IsFilled p.channel_map (write_revents p.poll_fds rs) ([], p.channels) r
      → IsDispatched p n rs
          (r.0, record p { poll_fds = write_revents p.poll_fds rs; channels = r.1 })
  filled-IsDispatched (active, channels) (cs, is, found, same, rest, results) = record {
    consistent = polled-IsConsistent channels same;
    slots = refl;
    same_map = refl;
    active = rw is found;
    distinct = rw is distinct;
    results = rw is (results distinct);
    placed = same;
    complete = omega (
      arith,
      ap length is,
      ap length found,
      length-map cs (λ (c : ℕ). some c),
      length-map (ready (write_revents p.poll_fds rs)) (λ (pfd : PollFd). p.channel_map pfd.fd),
      w.counted,
    );
  }
    where
      distinct : AreDistinct cs
      distinct =
          (distinct_lem p.channel_map p.channels (write_revents p.poll_fds rs) 0 cs indexed found).0

-- In a consistent poller, a poll that keeps the promises of poll(2) on the events it returns fails
-- no assertion, and makes active exactly the channels whose slots have events, each once and in
-- slot order, and each active channel holds the events of its slot; the poller stays consistent, and
-- channels keep their fds, indices, interest sets and loops.
pub poll-IsDispatched :
    (p : Poller) (n : ℕ) (rs : List PollFlags)
    → IsConsistent p
    → IsPolled p n rs
    → Ensures (poll (polled n rs) p) (IsDispatched p n rs)
unfolding poll
poll-IsDispatched p zero rs v w =
    filled-IsDispatched p zero rs v w ([], p.channels)
      (
        [],
        refl,
        sym (
            ap (map (λ (pfd : PollFd). p.channel_map pfd.fd))
              (nil_of_length (ready (write_revents p.poll_fds rs)) (omega (arith, w.counted)))),
        λ d. (refl, refl, refl, refl, refl),
        λ d h. refl,
        λ distinct. sym (
            ap slot_results
              (nil_of_length (ready (write_revents p.poll_fds rs)) (omega (arith, w.counted)))),
      )
poll-IsDispatched p (suc n) rs v w =
    Ensures-bind (IsFilled p.channel_map (write_revents p.poll_fds rs) ([], p.channels))
      (IsDispatched p (suc n) rs)
      (fill_active_channels p.channel_map (write_revents p.poll_fds rs) (suc n) ([], p.channels)) _
      (fill_lem p.channel_map (write_revents p.poll_fds rs) (suc n) [] p.channels
        (AllDeliverable-of p.channel_map p.channels (write_revents p.poll_fds rs)
          (deliverable p (suc n) rs v w))
        (omega (arith, w.counted)))
      (filled-IsDispatched p (suc n) rs v w)
