-- ===== src/Poller/Remove.antt =====
-- `removeChannel`: the last slot takes the place of the one that goes, and its channel is told.
use yatwb.Base.{
  ℕ, suc, zero, ◌+◌, ◌-◌, ◌<◌, ◌≡◌, ◌≢◌, inl, inr, true, none, some, List, [], ◌∷◌, length,
  get_elem?, set, ◌==◌, arith, Bool-cases, Option-cases, length-set, length-take,
}
use yatwb.Base.Results.{Ensures}
use yatwb.Base.Int.{ℤ, pos}
use yatwb.Channel.{none_event, is_none_event}
use yatwb.Poller.{Poller, PollFd, set_key, same_events, swap_out, remove_channel}
use yatwb.Poller.Invariant.{
  key, IsConsistent, IsMapped, maps_to_self, checked_index_lem, flip_or_fd, get_elem?-lt,
}
use yatwb.Poller.SwapOut.{
  last_slot, popped, popped-IsConsistent, swapped-IsConsistent, swap_out_lem,
}

-- What `removeChannel` leaves when it takes out the channel of fd `n`.
pub record IsRemoved (p : Poller) (n : ℕ) (p' : Poller) : Type 0 where
  pub consistent : IsConsistent p'
  pub gone : p'.channel_map (pos n) ≡ none
  pub others : (k : ℤ) → k ≢ pos n → p'.channel_map k ≡ p.channel_map k
  pub shorter : length p'.poll_fds + 1 ≡ length p.poll_fds

get_elem?-ne_none : (xs : List PollFd) (i : ℕ) → i < length xs → get_elem? xs i ≢ none
get_elem?-ne_none [] i h e = absurd (omega arith)
get_elem?-ne_none (x ∷ xs) zero h e = cc
get_elem?-ne_none (x ∷ xs) (suc i) h e = get_elem?-ne_none xs i (omega arith) e

module _ (p : Poller) (c n i : ℕ) (old : PollFd) (v : IsConsistent p) (w : IsMapped p c n)
    (placed : (p.channels c).index ≡ pos i) (at : get_elem? p.poll_fds i ≡ some old)
    (mine : pos n ≡ pos (key old.fd)) where
  popped-IsRemoved : i ≡ last_slot p → IsRemoved p n (popped p n)
  popped-IsRemoved e = record {
    consistent = popped-IsConsistent p c n i old v w placed at mine e;
    gone = ground arith;
    others = λ k h. ground arith;
    shorter = omega (arith, length-take (last_slot p) p.poll_fds, get_elem?-lt p.poll_fds i old at);
  }

  swap_out-IsRemoved :
      i ≢ last_slot p
      → Ensures
          (swap_out i old (record p { channel_map = set_key p.channel_map (pos n) none }))
          (IsRemoved p n)
  swap_out-IsRemoved h = elim (Option-cases (get_elem? p.poll_fds (last_slot p))) [
    | inl e ↦ absurd (
        get_elem?-ne_none p.poll_fds (last_slot p) (omega (arith, get_elem?-lt p.poll_fds i old at))
          e)
    | inr (back, e) ↦
        let (moved, owner, its) = v.occupied (last_slot p) back e in
        rw (swap_out_lem p c n i old v w placed at mine back moved h e owner its) (record {
          consistent = swapped-IsConsistent p c n i old v w placed at mine back moved h e owner its;
          gone = ground arith;
          others = λ k h. ground arith;
          shorter = omega (
            arith,
            length-take (length (set (set p.poll_fds i back) (last_slot p) old) - 1)
                (set (set p.poll_fds i back) (last_slot p) old),
            length-set (set p.poll_fds i back) (last_slot p) old,
            length-set p.poll_fds i back,
            get_elem?-lt p.poll_fds i old at,
          );
        })
  ]

  remove_channel_cases :
      is_none_event (p.channels c) ≡ true
      → same_events old.events (p.channels c).events ≡ true
      → Ensures (remove_channel true c p) (IsRemoved p n)
  unfolding remove_channel
  remove_channel_cases idle agree =
      rw
        (
          w.numbered,
          w.entry,
          maps_to_self c,
          idle,
          placed,
          checked_index_lem p.poll_fds i old at,
          at,
          flip_or_fd old.fd n mine,
          agree,
        )
        (elim (Bool-cases (i == (last_slot p))) [
          | inl is_last ↦ rw is_last (popped-IsRemoved (ground arith))
          | inr differs ↦ rw differs (swap_out-IsRemoved (ground arith))
        ])

-- Removing a mapped channel of a consistent poller, in the loop's thread, whose interest set is
-- empty and whose slot says so, fails no assertion and reads no missing entry; it takes exactly
-- that channel out of the map and one slot out of the array, and the poller stays consistent.
pub remove_channel-IsRemoved :
    (p : Poller) (c n i : ℕ) (pfd : PollFd)
    → IsConsistent p
    → IsMapped p c n
    → (p.channels c).index ≡ pos i
    → get_elem? p.poll_fds i ≡ some pfd
    → (p.channels c).events ≡ none_event
    → pfd.events ≡ none_event
    → Ensures (remove_channel true c p) (IsRemoved p n)
remove_channel-IsRemoved p c n i pfd v w placed at idle synced =
    let (f, s) = v.mapped (pos n) c w.entry in
    let (j, old, ej, es, ef) = s in
    let mine : pos n ≡ pos (key pfd.fd) = ground arith in
    remove_channel_cases p c n i pfd v w placed at mine (rw idle) (rw (idle, synced))
