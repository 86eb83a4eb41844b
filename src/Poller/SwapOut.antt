-- ===== src/Poller/SwapOut.antt =====
-- The two ways in which a slot leaves the array: it was the last one, or the last one takes its place.
use yatwb.Base.{
  ℕ, suc, zero, ◌-◌, ◌<◌, ◌≡◌, ◌≢◌, sym, none, some, List, [], ◌∷◌, length, get_elem?, set, take,
  ltb, ◌==◌, if◌then◌else◌, arith, ℕ_discrete, length-set, get_elem?-set_self, get_elem?-set_ne,
}
use yatwb.Base.Results.{ok}
use yatwb.Base.Int.{ℤ, pos}
use yatwb.Poller.{Poller, PollFd, set_key, set_index, channel_fd, swap_out, pop_back}
use yatwb.Poller.Invariant.{key, HasSlot, IsConsistent, IsMapped, same_index, get_elem?-lt}

get_elem?-take :
    (m : ℕ) (xs : List PollFd) (j : ℕ)
    → get_elem? (take m xs) j ≡ (if ltb j m then get_elem? xs j else none)
get_elem?-take zero xs j = ground arith
get_elem?-take (suc m) [] j = ground arith
get_elem?-take (suc m) (x ∷ xs) zero = ground arith
get_elem?-take (suc m) (x ∷ xs) (suc j) = ground (arith, get_elem?-take m xs j)

channel_fd-key : (x : ℤ) → channel_fd x ≡ pos (key x)
channel_fd-key x = ground arith

-- The index of the last slot.
abbrev pub last_slot : Poller → ℕ
last_slot p = length p.poll_fds - 1

-- The slot was the last one.
abbrev pub popped : Poller → ℕ → Poller
popped p n = record p {
  channel_map = set_key p.channel_map (pos n) none;
  poll_fds = pop_back p.poll_fds;
}

-- The slot `i`, with the element `old`, was not the last one, which `back` of the channel `moved` was.
abbrev pub swapped : Poller → ℕ → ℕ → PollFd → PollFd → ℕ → Poller
swapped p n i old back moved = record p {
  poll_fds = pop_back (set (set p.poll_fds i back) (last_slot p) old);
  channel_map = set_key p.channel_map (pos n) none;
  channels = set_index p.channels moved i;
}

module _ (p : Poller) (c n i : ℕ) (old : PollFd) (v : IsConsistent p) (w : IsMapped p c n)
    (placed : (p.channels c).index ≡ pos i) (at : get_elem? p.poll_fds i ≡ some old)
    (mine : pos n ≡ pos (key old.fd)) where
  -- The slots other than `i` belong to channels other than `c`.
  elsewhere :
      (j d : ℕ) (k : ℤ)
      → p.channel_map k ≡ some d
      → (p.channels d).index ≡ pos j
      → j ≢ i
      → k ≢ pos n
  elsewhere j d k e ej h same = ground arith

  -- An entry for another fd leads to a slot other than `i`.
  apart :
      (k : ℤ) (d j : ℕ)
      → p.channel_map k ≡ some d
      → (p.channels d).index ≡ pos j
      → k ≢ pos n
      → j ≢ i
  apart k d j e ej h same = ground (arith, same_index v k (pos n) d c i e w.entry)

  module _ (is_last : i ≡ (last_slot p)) where
    popped_mapped :
        (k : ℤ) (d : ℕ)
        → (popped p n).channel_map k ≡ some d
        → (((popped p n).channels d).fd ≡ k) × HasSlot (popped p n) d
    popped_mapped k d e =
        let other : k ≢ pos n = ground arith in
        let entry : p.channel_map k ≡ some d = ground arith in
        let (f, s) = v.mapped k d entry in
        let (j, pfd, ej, es, ef) = s in
        (
          f,
          (
            j,
            pfd,
            ej,
            ground (
              arith,
              get_elem?-take (last_slot p) p.poll_fds j,
              get_elem?-lt p.poll_fds j pfd es,
              apart k d j entry ej other,
            ),
            ef,
          ),
        )

    popped_occupied :
        (j : ℕ) (pfd : PollFd)
        → get_elem? (popped p n).poll_fds j ≡ some pfd
        → (d : ℕ) × ((popped p n).channel_map (pos (key pfd.fd)) ≡ some d)
          × (((popped p n).channels d).index ≡ pos j)
    popped_occupied j pfd e =
        let before : (j < (last_slot p)) × (get_elem? p.poll_fds j ≡ some pfd) =
          ground (arith, get_elem?-take (last_slot p) p.poll_fds j) in
        let (d, entry, ej) = v.occupied j pfd before.1 in
        (d, ground (arith, elsewhere j d (pos (key pfd.fd)) entry ej), ej)

    pub popped-IsConsistent : IsConsistent (popped p n)
    popped-IsConsistent = record { mapped = popped_mapped; occupied = popped_occupied }

  -- The slot was not the (last_slot p) one.
  module _ (back : PollFd) (moved : ℕ) (not_last : i ≢ (last_slot p))
      (end : get_elem? p.poll_fds (last_slot p) ≡ some back)
      (owner : p.channel_map (pos (key back.fd)) ≡ some moved)
      (its : (p.channels moved).index ≡ pos (last_slot p)) where
    swapped_slots :
        (j : ℕ)
        → get_elem? (swapped p n i old back moved).poll_fds j ≡ (
            if ltb j (last_slot p)
            then (if j == i then some back else get_elem? p.poll_fds j)
            else none)
    swapped_slots j = ground (
      arith,
      length-set (set p.poll_fds i back) (last_slot p) old,
      length-set p.poll_fds i back,
      get_elem?-take (last_slot p) (set (set p.poll_fds i back) (last_slot p) old) j,
      get_elem?-set_ne (set p.poll_fds i back) (last_slot p) j old,
      get_elem?-set_ne p.poll_fds i j back,
      get_elem?-set_self p.poll_fds i back,
      get_elem?-lt p.poll_fds i old at,
    )

    back_other : pos (key back.fd) ≢ pos n
    back_other = elsewhere (last_slot p) moved (pos (key back.fd)) owner its (λ e. not_last (sym e))

    swapped_mapped :
        (k : ℤ) (d : ℕ)
        → (swapped p n i old back moved).channel_map k ≡ some d
        → (((swapped p n i old back moved).channels d).fd ≡ k)
          × HasSlot (swapped p n i old back moved) d
    swapped_mapped k d e =
        let other : k ≢ pos n = ground arith in
        let entry : p.channel_map k ≡ some d = ground arith in
        let (f, s) = v.mapped k d entry in
        let (j, pfd, ej, es, ef) = s in
        elim (ℕ_discrete d moved) [
          | yes same ↦ (
            ground arith,
            (
              i,
              back,
              ground arith,
              ground (arith, swapped_slots i, get_elem?-lt p.poll_fds i old at),
              ground arith,
            ),
          )
          | no differs ↦
              let ne : j ≢ (last_slot p) = λ e.
                ground
                  (arith, same_index v k (pos (key back.fd)) d moved (last_slot p) entry owner) in
              (
                ground arith,
                (
                  j,
                  pfd,
                  ground arith,
                  ground (
                    arith,
                    swapped_slots j,
                    get_elem?-lt p.poll_fds j pfd es,
                    apart k d j entry ej other,
                  ),
                  ground arith,
                ),
              )
        ]

    swapped_occupied :
        (j : ℕ) (pfd : PollFd)
        → get_elem? (swapped p n i old back moved).poll_fds j ≡ some pfd
        → (d : ℕ) × ((swapped p n i old back moved).channel_map (pos (key pfd.fd)) ≡ some d)
          × (((swapped p n i old back moved).channels d).index ≡ pos j)
    swapped_occupied j pfd e = elim (ℕ_discrete j i) [
      | yes same ↦
          let is_back : pfd ≡ back = ground (arith, swapped_slots j) in
          (moved, rw is_back (ground (arith, back_other)), ground arith)
      | no differs ↦
          let before : (j < (last_slot p)) × (get_elem? p.poll_fds j ≡ some pfd) =
            ground (arith, swapped_slots j) in
          let (d, entry, ej) = v.occupied j pfd before.1 in
          (d, ground (arith, elsewhere j d (pos (key pfd.fd)) entry ej), ground arith)
    ]

    pub swapped-IsConsistent : IsConsistent (swapped p n i old back moved)
    swapped-IsConsistent = record { mapped = swapped_mapped; occupied = swapped_occupied }

    pub swap_out_lem :
        swap_out i old (record p { channel_map = set_key p.channel_map (pos n) none })
        ≡ ok (swapped p n i old back moved)
    unfolding swap_out
    swap_out_lem =
        let found : set_key p.channel_map (pos n) none (pos (key back.fd)) ≡ some moved =
          ground (arith, back_other) in
        rw (end, channel_fd-key back.fd, found)
