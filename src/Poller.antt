-- ===== src/Poller.antt =====
-- src/include/poller.h and src/poller.cpp: the array of `pollfd` and the map from fd to channel.
-- A `Channel*` is a number that `channels` takes to the object it points at. `in_loop` says
-- whether the caller runs in the loop's thread. The return of `Timestamp::now()` is left out.
pub mod Invariant
pub mod Add
pub mod Update
pub mod SwapOut
pub mod Remove
pub mod Watch
pub mod Fill
pub mod Distinct
pub mod Dispatch
pub mod Port
pub mod Frame
mod Tests
use yatwb.Base.{
  ℕ, suc, ◌+◌, ◌-◌, zero, not, Bool, true, false, ◌&&◌, ◌||◌, Option, none, some, List, [], ◌∷◌,
  ◌++◌, length, get_elem?, set, take, ltb, ◌==◌, if◌then◌else◌,
}
use yatwb.Base.Results.{
  Result, ok, fault, assert, assert_failed, require, bad_access, not_in_loop_thread, ◌>>=◌, ◌>>◌,
}
use yatwb.Base.Int.{ℤ, pos, negsuc, ltb_ℤ, ◌==ℤ◌}
use yatwb.Channel.{
  Channel, PollFlags, none_event, some_event, is_none_event, Interest, change, without,
}

-- `struct pollfd`
pub record PollFd : Type 0 where
  pub fd : ℤ
  pub events : PollFlags
  pub revents : PollFlags

pub record Poller : Type 0 where
  pub poll_fds : List PollFd
  pub channel_map : ℤ → Option ℕ
  pub channels : ℕ → Channel

abbrev pub new_poller : (ℕ → Channel) → Poller
new_poller channels = record { poll_fds = []; channel_map = λ _. none; channels = channels }

-- -fd - 1
abbrev pub flip : ℤ → ℤ
flip (pos n) = negsuc n
flip (negsuc n) = pos n

-- The key of a map set to a value, or cleared.
abbrev pub set_key : (ℤ → Option ℕ) → ℤ → Option ℕ → ℤ → Option ℕ
set_key m k v j = if j ==ℤ k then v else m j

-- The object behind a pointer replaced.
abbrev pub put_channel : (ℕ → Channel) → ℕ → Channel → ℕ → Channel
put_channel f c ch d = if d == c then ch else f d

abbrev pub set_index : (ℕ → Channel) → ℕ → ℕ → ℕ → Channel
set_index f c i = put_channel f c (record (f c) { index = pos i })

-- `m.find(k) == m.end()` is `is_missing`; `m[k] == c` for a key that is there is `maps_to`.
abbrev pub is_missing : Option ℕ → Bool
is_missing none = true
is_missing (some c) = false

abbrev pub maps_to : Option ℕ → ℕ → Bool
maps_to none c = false
maps_to (some d) c = d == c

-- `assert(0 <= idx && idx < poll_fds_.size())`, with the index as a number.
abbrev pub checked_index : ℤ → List PollFd → Result ℕ
checked_index (pos i) fds = do assert (ltb i (length fds)); ok i
checked_index (negsuc i) fds = fault assert_failed

abbrev pub deref {ℓ} : {A : Type ℓ} → Option A → Result A
deref none = fault bad_access
deref (some a) = ok a

-- `m.emplace(k, c)`, which keeps an element that is there.
abbrev pub emplace : (ℤ → Option ℕ) → ℤ → ℕ → ℤ → Option ℕ
emplace m k c = elim (m k) [ none ↦ set_key m k (some c) | some d ↦ m ]

-- The two branches of `updateChannel`.
unfoldable pub add_pollfd : ℕ → Poller → Result Poller
add_pollfd c p = do
  let ch = p.channels c
  assert (is_missing (p.channel_map ch.fd))
  let fds = p.poll_fds ++ record { fd = ch.fd; events = ch.events; revents = none_event } ∷ []
  ok (record {
    poll_fds = fds;
    channel_map = emplace p.channel_map ch.fd c;
    channels = set_index p.channels c (length fds - 1);
  })

unfoldable pub update_pollfd : ℕ → Poller → Result Poller
update_pollfd c p = do
  let ch = p.channels c
  assert (maps_to (p.channel_map ch.fd) c)
  i ← checked_index ch.index p.poll_fds
  pfd ← deref (get_elem? p.poll_fds i)
  assert (pfd.fd ==ℤ ch.fd || pfd.fd ==ℤ flip ch.fd)
  let fd' = if is_none_event ch then flip ch.fd else pfd.fd
  ok (record p {
    poll_fds = set p.poll_fds i (record { fd = fd'; events = ch.events; revents = none_event });
  })

unfoldable pub update_channel : Bool → ℕ → Poller → Result Poller
update_channel in_loop c p = do
  require in_loop not_in_loop_thread
  if ltb_ℤ (p.channels c).index (pos 0) then add_pollfd c p else update_pollfd c p

-- `EventLoop::updateChannel` of the loop `loop`. An owner that was never set is no loop.
unfoldable pub loop_update_channel : Bool → ℕ → ℕ → Poller → Result Poller
loop_update_channel in_loop loop c p = do
  assert (maps_to (p.channels c).owner_loop loop)
  require in_loop not_in_loop_thread
  update_channel in_loop c p

-- `Channel::enableReading` and its likes, with `Channel::update`.
unfoldable pub set_interest : Bool → Interest → ℕ → Poller → Result Poller
set_interest in_loop how c p =
    let ch = p.channels c in
    loop_update_channel in_loop ch.loop c (record p {
      channels = put_channel p.channels c (record ch { events = change how ch.events });
    })

-- Equality of two masks.
abbrev pub same_events : PollFlags → PollFlags → Bool
same_events a b = not (some_event (without a b)) && not (some_event (without b a))

-- `poll_fds_.pop_back()`
abbrev pub pop_back : List PollFd → List PollFd
pop_back fds = take (length fds - 1) fds

-- The fd of the channel whose `pollfd` holds `fd`.
abbrev pub channel_fd : ℤ → ℤ
channel_fd fd = if ltb_ℤ fd (pos 0) then flip fd else fd

-- The end of `removeChannel` where the element at `i`, `pfd`, is not the last: the last one moves
-- to its place, and its channel is told.
unfoldable pub swap_out : ℕ → PollFd → Poller → Result Poller
swap_out i pfd p = do
  let n = length p.poll_fds - 1
  back ← deref (get_elem? p.poll_fds n)
  moved ← deref (p.channel_map (channel_fd back.fd))
  ok (record p {
    poll_fds = pop_back (set (set p.poll_fds i back) n pfd);
    channels = set_index p.channels moved i;
  })

unfoldable pub remove_channel : Bool → ℕ → Poller → Result Poller
remove_channel in_loop c p = do
  require in_loop not_in_loop_thread
  let ch = p.channels c
  assert (maps_to (p.channel_map ch.fd) c)
  assert (is_none_event ch)
  i ← checked_index ch.index p.poll_fds
  pfd ← deref (get_elem? p.poll_fds i)
  assert (pfd.fd ==ℤ flip ch.fd || pfd.fd ==ℤ ch.fd)
  assert (same_events pfd.events ch.events)
  let p' = record p { channel_map = set_key p.channel_map ch.fd none }
  if i == length p.poll_fds - 1
      then ok (record p' { poll_fds = pop_back p.poll_fds })
      else swap_out i pfd p'

-- `EventLoop::removeChannel` of the loop `loop`.
unfoldable pub loop_remove_channel : Bool → ℕ → ℕ → Poller → Result Poller
loop_remove_channel in_loop loop c p = do
  assert (maps_to (p.channels c).owner_loop loop)
  require in_loop not_in_loop_thread
  remove_channel in_loop c p

-- `fillActiveChannels`: the loop over `poll_fds_`, with the events still to be found and the list
-- of active channels.
unfoldable pub fill_active_channels :
    (ℤ → Option ℕ) → List PollFd → ℕ → List ℕ × (ℕ → Channel) → Result (List ℕ × (ℕ → Channel))
fill_active_channels m [] num_events s = ok s
fill_active_channels m (pfd ∷ fds) zero s = ok s
fill_active_channels m (pfd ∷ fds) (suc n) (active, channels) =
    let found = (do
      assert (not (is_missing (m pfd.fd)))
      c ← deref (m pfd.fd)
      assert ((channels c).fd ==ℤ pfd.fd)
      fill_active_channels m fds n (
        active ++ c ∷ [],
        put_channel channels c (record (channels c) { revents = pfd.revents }),
      )) in
    let rest = fill_active_channels m fds (suc n) (active, channels) in
    if some_event pfd.revents then found else rest

-- What `::poll` does: it writes `revents` of each element, and returns a count or fails.
pub data PollOutcome : Type 0 where
  poll_failed : PollOutcome
  polled : (num_events : ℕ) (revents : List PollFlags) → PollOutcome

abbrev pub write_revents : List PollFd → List PollFlags → List PollFd
write_revents (pfd ∷ fds) (r ∷ rs) = record pfd { revents = r } ∷ write_revents fds rs
write_revents fds _ = fds

-- `activeChannels` is empty when `EventLoop::loop` calls.
unfoldable pub poll : PollOutcome → Poller → Result (List ℕ × Poller)
poll poll_failed p = ok ([], p)
poll (polled zero revents) p = ok ([], record p { poll_fds = write_revents p.poll_fds revents })
poll (polled (suc n) revents) p = do
  let fds = write_revents p.poll_fds revents
  (active, channels) ← fill_active_channels p.channel_map fds (suc n) ([], p.channels)
  ok (active, record p { poll_fds = fds; channels = channels })
