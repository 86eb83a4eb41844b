-- ===== src/Poller/Add.antt =====
-- `updateChannel` on a channel that has no index yet: it gets the next slot.
use yatwb.Base.{ℕ, ◌-◌, ◌≡◌, some, [], ◌∷◌, ◌++◌, length, get_elem?, arith, ℕ_discrete}
use yatwb.Base.Results.{ok, Ensures}
use yatwb.Base.Int.{ℤ, pos}
use yatwb.Channel.{none_event}
use yatwb.Poller.{Poller, PollFd, set_key, set_index, emplace, add_pollfd}
use yatwb.Poller.Invariant.{
  key, HasSlot, IsConsistent, IsNew, get_elem?-push, get_elem?-lt, length-push,
}

module _ (p : Poller) (c n : ℕ) (v : IsConsistent p) (w : IsNew p c n) where
  unfoldable pub new_pollfd : PollFd
  new_pollfd = record { fd = pos n; events = (p.channels c).events; revents = none_event }

  abbrev pub added : Poller
  added = record {
    poll_fds = p.poll_fds ++ new_pollfd ∷ [];
    channel_map = set_key p.channel_map (pos n) (some c);
    channels = set_index p.channels c (length p.poll_fds);
  }

  pub add_pollfd_lem : add_pollfd c p ≡ ok added
  unfolding add_pollfd new_pollfd
  add_pollfd_lem =
      let e : length (p.poll_fds ++ new_pollfd ∷ []) - 1 ≡ length p.poll_fds =
        omega (arith, length-push p.poll_fds new_pollfd) in
      rw (w.numbered, w.free, emplace, ← e) (rw w.numbered)

  pub added_mapped :
      (k : ℤ) (d : ℕ) → added.channel_map k ≡ some d → ((added.channels d).fd ≡ k) × HasSlot added d
  unfolding new_pollfd
  added_mapped k d e = elim (ℕ_discrete d c) [
    | yes same ↦
        let at : k ≡ pos n = ground (arith, v.mapped k d) in
        (
          ground arith,
          (
            length p.poll_fds,
            new_pollfd,
            ground arith,
            ground (arith, get_elem?-push p.poll_fds new_pollfd (length p.poll_fds)),
            ground arith,
          ),
        )
    | no other ↦
        let old : p.channel_map k ≡ some d = ground arith in
        let (f, slot) = v.mapped k d old in
        let (i, pfd, ei, es, ef) = slot in
        (
          ground arith,
          (
            i,
            pfd,
            ground arith,
            ground (arith, get_elem?-push p.poll_fds new_pollfd i, get_elem?-lt p.poll_fds i pfd),
            ground arith,
          ),
        )
  ]

  added_occupied :
      (i : ℕ) (pfd : PollFd)
      → get_elem? added.poll_fds i ≡ some pfd
      → (d : ℕ) × (added.channel_map (pos (key pfd.fd)) ≡ some d)
        × ((added.channels d).index ≡ pos i)
  unfolding new_pollfd
  added_occupied i pfd e = elim (ℕ_discrete i (length p.poll_fds)) [
    | yes last ↦ (c, ground (arith, get_elem?-push p.poll_fds new_pollfd i), ground arith)
    | no other ↦
        let old : get_elem? p.poll_fds i ≡ some pfd =
          ground (arith, get_elem?-push p.poll_fds new_pollfd i) in
        let (d, m, ix) = v.occupied i pfd old in (d, ground arith, ground arith)
  ]

  -- Registering a new channel keeps the structure.
  pub add_pollfd-IsConsistent : Ensures (add_pollfd c p) IsConsistent
  add_pollfd-IsConsistent =
      rw add_pollfd_lem (record { mapped = added_mapped; occupied = added_occupied })
