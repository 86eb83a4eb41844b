-- ===== src/ChannelPort.antt =====
-- What a connection uses of its channel and its loop: `channel_->enableReading()` and its likes,
-- the interest set, and `loop_->removeChannel(channel_.get())`, with what it may rely on.
pub mod Flags
use yatwb.Base.{◌≡◌, Bool, true}
use yatwb.Base.Results.{Result, Ensures}
use yatwb.Channel.{PollFlags, none_event, Interest, change}

-- `S` is the loop's side of the channel; the `Bool` says whether the caller is in the loop's thread.
pub record ChannelPort (S : Type 0) : Type 1 where
  pub events : S → PollFlags
  pub set_interest : Bool → Interest → S → Result S
  pub remove : Bool → S → Result S
  -- May be given an interest set; is registered; is gone.
  pub CanSet : S → Type 0
  pub IsOpen : S → Type 0
  pub IsGone : S → Type 0
  pub open_can : (s : S) → IsOpen s → CanSet s
  pub set_opens :
      (s : S) (how : Interest)
      → CanSet s
      → Ensures (set_interest true how s) (λ s'. IsOpen s' × (events s' ≡ change how (events s)))
  pub remove_closes : (s : S) → IsOpen s → events s ≡ none_event → Ensures (remove true s) IsGone
