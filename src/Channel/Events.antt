-- ===== src/Channel/Events.antt =====
-- src/Channel.h: the calls that change `events_` and pass it to the loop's poller.
use moduo.Prelude.{ℕ, Outcome, bit_and, bit_or}
use moduo.Os.{Kernel}
use moduo.Channel.{Channel, none_event, read_event, write_event, complement}
use moduo.EventLoop.{EventLoop}
use moduo.EventLoop

module _ {F : Type 0} (k : Kernel) (c : Channel) (l : EventLoop F) where
  unfoldable pub update_events : ℕ → Outcome (Channel × EventLoop F)
  update_events events = EventLoop.update_channel k (record c { events = events }) l

  unfoldable pub enable_reading : Outcome (Channel × EventLoop F)
  enable_reading = update_events (bit_or c.events read_event)

  unfoldable pub disable_reading : Outcome (Channel × EventLoop F)
  disable_reading = update_events (bit_and c.events (complement read_event))

  unfoldable pub enable_writing : Outcome (Channel × EventLoop F)
  enable_writing = update_events (bit_or c.events write_event)

  -- `events_ &= kWriteEvent`, as in the source.
  unfoldable pub disable_writing : Outcome (Channel × EventLoop F)
  disable_writing = update_events (bit_and c.events write_event)

  unfoldable pub disable_all : Outcome (Channel × EventLoop F)
  disable_all = update_events none_event

  unfoldable pub remove : Outcome (Channel × EventLoop F)
  remove = EventLoop.remove_channel k c l
