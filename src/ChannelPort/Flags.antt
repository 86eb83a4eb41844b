-- ===== src/ChannelPort/Flags.antt =====
-- The channel of src/include/channel.h as a port, where the loop's side of it is no more than its
-- interest set.
use yatwb.Base.{◌≡◌, refl}
use yatwb.Base.Results.{ok, Ensures}
use yatwb.Channel.{PollFlags, Interest, change}
use yatwb.ChannelPort.{ChannelPort}

pub flags_open :
    (s : PollFlags) (how : Interest)
    → Unit {0}
    → Ensures {A = PollFlags} (ok (change how s)) (λ s'. Unit {0} × (s' ≡ change how s))
flags_open s how _ = (tt, refl)

abbrev pub flags_port : ChannelPort PollFlags
flags_port = record {
  events = λ s. s;
  set_interest = λ in_loop how s. ok (change how s);
  remove = λ in_loop s. ok s;
  CanSet = λ s. Unit {0};
  IsOpen = λ s. Unit {0};
  IsGone = λ s. Unit {0};
  open_can = λ s o. o;
  set_opens = flags_open;
  remove_closes = λ s o e. tt;
}
