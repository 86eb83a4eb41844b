-- ===== src/Poller/Update.antt =====
-- `updateChannel` on a channel that has a slot: the slot takes over its interest set.
use yatwb.Base.{
  ℕ, ◌≡◌, ◌≢◌, sym, ◌∙◌, inl, inr, some, get_elem?, set, if◌then◌else◌, arith, Bool-cases,
  ℕ_discrete, get_elem?-set_self, get_elem?-set_ne,
}
use yatwb.Base.Results.{ok}
use yatwb.Base.Int.{ℤ, pos}
use yatwb.Channel.{Channel, none_event, is_none_event}
use yatwb.Poller.{Poller, PollFd, flip, update_pollfd}
use yatwb.Poller.Invariant.{
  key, HasSlot, IsConsistent, IsMapped, maps_to_self, checked_index_lem, fd_or_flip, get_elem?-lt,
}

-- The slot of a channel after `updateChannel`.
abbrev pub updated_pollfd : Channel → PollFd → PollFd
updated_pollfd ch pfd = record {
  fd = if is_none_event ch then flip ch.fd else pfd.fd;
  events = ch.events;
  revents = none_event;
}

updated_pollfd-key :
    (ch : Channel) (pfd : PollFd)
    → ch.fd ≡ pos (key pfd.fd)
    → key (updated_pollfd ch pfd).fd ≡ key pfd.fd
updated_pollfd-key ch pfd e = elim (Bool-cases (is_none_event ch)) [
  | inl t ↦ rw (t, e)
  | inr f ↦ rw f
]

module _ (p : Poller) (c n i : ℕ) (old : PollFd) (v : IsConsistent p) (w : IsMapped p c n)
    (placed : (p.channels c).index ≡ pos i) (at : get_elem? p.poll_fds i ≡ some old)
    (mine : pos n ≡ pos (key old.fd)) where
  abbrev pub new : PollFd
  new = updated_pollfd (p.channels c) old

  abbrev pub updated : Poller
  updated = record p { poll_fds = set p.poll_fds i new }

  pub new-key : key new.fd ≡ key old.fd
  new-key = updated_pollfd-key (p.channels c) old (w.numbered ∙ mine)

  pub update_pollfd_lem : update_pollfd c p ≡ ok updated
  unfolding update_pollfd
  update_pollfd_lem = rw (
    w.numbered,
    w.entry,
    maps_to_self c,
    placed,
    checked_index_lem p.poll_fds i old at,
    at,
    fd_or_flip old.fd n mine,
  )

  pub updated_at : get_elem? updated.poll_fds i ≡ some new
  updated_at = get_elem?-set_self p.poll_fds i new (get_elem?-lt p.poll_fds i old at)

  pub updated_at_ne : (j : ℕ) → j ≢ i → get_elem? updated.poll_fds j ≡ get_elem? p.poll_fds j
  updated_at_ne j h = get_elem?-set_ne p.poll_fds i j new (λ e. h (sym e))

  updated_mapped :
      (k : ℤ) (d : ℕ)
      → updated.channel_map k ≡ some d
      → ((updated.channels d).fd ≡ k) × HasSlot updated d
  updated_mapped k d e =
      let (f, s) = v.mapped k d e in
      let (j, pfd, ej, es, ef) = s in
      elim (ℕ_discrete j i) [
        | yes same ↦ (f, (i, new, ground arith, updated_at, ground (arith, new-key)))
        | no other ↦ (f, (j, pfd, ej, updated_at_ne j other ∙ es, ef))
      ]

  updated_occupied :
      (j : ℕ) (pfd : PollFd)
      → get_elem? updated.poll_fds j ≡ some pfd
      → (d : ℕ) × (updated.channel_map (pos (key pfd.fd)) ≡ some d)
        × ((updated.channels d).index ≡ pos j)
  updated_occupied j pfd e = elim (ℕ_discrete j i) [
    | yes same ↦
        let is_new : key pfd.fd ≡ n = ground (arith, updated_at, new-key) in
        (c, rw is_new w.entry, ground arith)
    | no other ↦ v.occupied j pfd (sym (updated_at_ne j other) ∙ e)
  ]

  pub updated-IsConsistent : IsConsistent updated
  updated-IsConsistent = record { mapped = updated_mapped; occupied = updated_occupied }
