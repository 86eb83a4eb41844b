-- ===== src/Channel.antt =====
-- src/include/channel.h and src/channel.cpp: the interest set, the index and the dispatch of a
-- channel. An event mask of poll(2) is the set of its flags, so that `|`, `&` and `~` act flag by
-- flag and no flag's number matters.
use yatwb.Base.{ℕ, Bool, true, false, not, ◌&&◌, ◌||◌, Option, none, some, if◌then◌else◌}
use yatwb.Base.Results.{Result, ok, ◌>>=◌}
use yatwb.Base.Int.{ℤ, negsuc}

pub record PollFlags : Type 0 where
  pub pollin : Bool
  pub pollpri : Bool
  pub pollout : Bool
  pub pollerr : Bool
  pub pollhup : Bool
  pub pollnval : Bool
  pub pollrdhup : Bool

abbrev pub none_event : PollFlags
none_event = record {
  pollin = false;
  pollpri = false;
  pollout = false;
  pollerr = false;
  pollhup = false;
  pollnval = false;
  pollrdhup = false;
}

abbrev pub read_event : PollFlags
read_event = record none_event { pollin = true; pollpri = true }

abbrev pub write_event : PollFlags
write_event = record none_event { pollout = true }

-- a | b
abbrev pub union : PollFlags → PollFlags → PollFlags
union a b = record {
  pollin = a.pollin || b.pollin;
  pollpri = a.pollpri || b.pollpri;
  pollout = a.pollout || b.pollout;
  pollerr = a.pollerr || b.pollerr;
  pollhup = a.pollhup || b.pollhup;
  pollnval = a.pollnval || b.pollnval;
  pollrdhup = a.pollrdhup || b.pollrdhup;
}

-- a & ~b
abbrev pub without : PollFlags → PollFlags → PollFlags
without a b = record {
  pollin = a.pollin && not b.pollin;
  pollpri = a.pollpri && not b.pollpri;
  pollout = a.pollout && not b.pollout;
  pollerr = a.pollerr && not b.pollerr;
  pollhup = a.pollhup && not b.pollhup;
  pollnval = a.pollnval && not b.pollnval;
  pollrdhup = a.pollrdhup && not b.pollrdhup;
}

-- Some flag is set: the mask is not 0, which for the `short` of poll(2) is `revents > 0`.
abbrev pub some_event : PollFlags → Bool
some_event a =
    a.pollin || a.pollpri || a.pollout || a.pollerr || a.pollhup || a.pollnval || a.pollrdhup

-- The object, without its callbacks. `owner_loop` is `none` until `setOwnerLoop`: the constructor
-- leaves `owner_loop_` as it is.
pub record Channel : Type 0 where
  pub loop : ℕ
  pub fd : ℤ
  pub events : PollFlags
  pub revents : PollFlags
  pub index : ℤ
  pub owner_loop : Option ℕ
  pub events_handling : Bool

unfoldable pub new_channel : ℕ → ℤ → Channel
new_channel loop fd = record {
  loop = loop;
  fd = fd;
  events = none_event;
  revents = none_event;
  index = negsuc 0;
  owner_loop = none;
  events_handling = false;
}

abbrev pub is_none_event : Channel → Bool
is_none_event ch = not (some_event ch.events)

-- `isWriting`
abbrev pub is_writing : PollFlags → Bool
is_writing events = events.pollout

-- What `enableReading` and its likes do to `events_`, before `update`.
pub data Interest : Type 0 where
  enable_reading enable_writing disable_reading disable_writing disable_all_events : Interest

abbrev pub change : Interest → PollFlags → PollFlags
change enable_reading e = union e read_event
change enable_writing e = union e write_event
change disable_reading e = without e read_event
change disable_writing e = without e write_event
change disable_all_events e = none_event

-- The callbacks over the state `S` that they act on, and the flag `events_handling_` in it.
pub record Handlers (S T : Type 0) : Type 0 where
  pub read_cb : Option (T → S → Result S)
  pub write_cb : Option (S → Result S)
  pub error_cb : Option (S → Result S)
  pub close_cb : Option (S → Result S)
  pub set_events_handling : Bool → S → S

-- `if (test) { if (cb) cb(); }`
abbrev pub call_if : {S : Type 0} → Bool → Option (S → Result S) → S → Result S
call_if test none s = ok s
call_if test (some cb) s = if test then cb s else ok s

-- `cb(recv_time)` for the read callback.
abbrev pub at_time : {S T : Type 0} → T → Option (T → S → Result S) → Option (S → Result S)
at_time t none = none
at_time t (some cb) = some (cb t)

unfoldable pub handle_events : {S T : Type 0} → Handlers S T → PollFlags → T → S → Result S
handle_events h revents recv_time s = do
  s ← call_if (revents.pollhup && not revents.pollin) h.close_cb (h.set_events_handling true s)
  s ← call_if (revents.pollerr || revents.pollnval) h.error_cb s
  s ←
      call_if (revents.pollin || revents.pollpri || revents.pollrdhup) (at_time recv_time h.read_cb)
        s
  s ← call_if revents.pollout h.write_cb s
  ok (h.set_events_handling false s)
