-- ===== src/Poller/Tests.antt =====
-- Runs of the poller, and its theorems at concrete inputs.
use yatwb.Base.{
  ◌≡◌, refl, ℕ, zero, suc, [], ◌∷◌, none, some, inl, inr, arith, Bool-cases, true, false, ◌==◌,
  if◌then◌else◌, get_elem?,
}
use yatwb.Base.Int.{ℤ, pos, negsuc, ◌==ℤ◌, ==ℤ_iff}
use yatwb.Base.Results.{ok, Ensures, ◌>>=◌}
use yatwb.Channel.{Channel, some_event, none_event, read_event, write_event, enable_writing}
use yatwb.Poller.{
  Poller, PollFd, set_key, set_interest, remove_channel, polled, poll, swap_out, write_revents,
}
use yatwb.Poller.Invariant.{IsConsistent, IsMapped, HasSlot, key}
use yatwb.Poller.Remove.{IsRemoved, remove_channel-IsRemoved}
use yatwb.Poller.Watch.{IsWatched, set_interest-IsWatched, set_interest-stays_ignored}
use yatwb.Poller.Dispatch.{IsPolled, IsDispatched, poll-IsDispatched}

-- Channel 0 on fd 5 and channel 1 on fd 6, of loop 0.
abbrev channels : ℕ → Channel
channels c = record {
  loop = 0;
  fd = if c == 0 then pos 5 else pos 6;
  events = if c == 0 then none_event else read_event;
  revents = none_event;
  index = if c == 0 then pos 0 else pos 1;
  owner_loop = some 0;
  events_handling = false;
}

abbrev ignored : PollFd
ignored = record { fd = negsuc 5; events = none_event; revents = none_event }

abbrev watched : PollFd
watched = record { fd = pos 6; events = read_event; revents = none_event }

-- Channel 0 has no interest and is ignored; channel 1 reads.
abbrev two : Poller
two = record {
  poll_fds = ignored ∷ watched ∷ [];
  channel_map = set_key (set_key (λ _. none) (pos 5) (some 0)) (pos 6) (some 1);
  channels = channels;
}

two_mapped :
    (k : ℤ) (c : ℕ) → two.channel_map k ≡ some c → ((two.channels c).fd ≡ k) × HasSlot two c
two_mapped k c e = elim (Bool-cases (k ==ℤ pos 6)) [
  | inl six ↦
      let is : c ≡ 1 = ground arith in
      rw is (ground (arith, ==ℤ_iff k (pos 6)), (1, watched, refl, refl, refl))
  | inr other ↦
      let is : c ≡ 0 = ground arith in
      rw is (ground (arith, ==ℤ_iff k (pos 5)), (0, ignored, refl, refl, refl))
]

two_occupied :
    (i : ℕ) (pfd : PollFd)
    → get_elem? two.poll_fds i ≡ some pfd
    → (c : ℕ) × (two.channel_map (pos (key pfd.fd)) ≡ some c) × ((two.channels c).index ≡ pos i)
two_occupied zero pfd e = let is : pfd ≡ ignored = cc in (0, rw is, refl)
two_occupied (suc zero) pfd e = let is : pfd ≡ watched = cc in (1, rw is, refl)
two_occupied (suc (suc i)) pfd e = cc

two-IsConsistent : IsConsistent two
two-IsConsistent = record { mapped = two_mapped; occupied = two_occupied }

first-IsMapped : IsMapped two 0 5
first-IsMapped = record { numbered = refl; entry = refl }

-- Removing the ignored channel moves the other one into its slot.
removed_moves : (do p ← remove_channel true 0 two; ok p.poll_fds) ≡ ok (watched ∷ [])
unfolding remove_channel swap_out
removed_moves = refl

remove_channel-IsRemoved_example : Ensures (remove_channel true 0 two) (IsRemoved two 5)
remove_channel-IsRemoved_example =
    remove_channel-IsRemoved two 0 5 0 ignored two-IsConsistent first-IsMapped refl refl refl refl

set_interest-IsWatched_example :
    Ensures (set_interest true enable_writing 0 two) (λ p'. IsWatched p' 0 5 0 write_event)
set_interest-IsWatched_example =
    set_interest-IsWatched two enable_writing 0 5 0 two-IsConsistent (refl, refl)
      (inr first-IsMapped)

-- Channel 0 asks for writing, and its slot still ignores fd 5.
set_interest-stays_ignored_example : Ensures (set_interest true enable_writing 0 two) (λ p'.
    (pfd : PollFd) × (get_elem? p'.poll_fds 0 ≡ some pfd)
    × (pfd.fd ≡ negsuc 5)
    × (pfd.events ≡ write_event))
set_interest-stays_ignored_example =
    set_interest-stays_ignored two enable_writing 0 5 0 0 ignored two-IsConsistent first-IsMapped
      refl refl refl (refl, refl)

-- Only fd 6 has an event.
two_revents-IsPolled : IsPolled two 1 (none_event ∷ read_event ∷ [])
two_revents-IsPolled = record { ignored = quiet; counted = refl }
  where
    quiet :
        (i k : ℕ) (pfd : PollFd)
        → get_elem? (write_revents two.poll_fds (none_event ∷ read_event ∷ [])) i ≡ some pfd
        → pfd.fd ≡ negsuc k
        → some_event pfd.revents ≡ false
    quiet zero k pfd e is = let is' : pfd ≡ ignored = cc in rw is'
    quiet (suc zero) k pfd e is = absurd (ground arith)
    quiet (suc (suc i)) k pfd e is = cc

poll-IsDispatched_example :
    Ensures
      (poll (polled 1 (none_event ∷ read_event ∷ [])) two)
      (IsDispatched two 1 (none_event ∷ read_event ∷ []))
poll-IsDispatched_example =
    poll-IsDispatched two 1 (none_event ∷ read_event ∷ []) two-IsConsistent two_revents-IsPolled
