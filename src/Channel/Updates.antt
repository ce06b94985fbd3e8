-- ===== src/Channel/Updates.antt =====
-- The calls that change a channel's events, on a channel that its poller has added.
use moduo.Prelude.{ℕ, ◌≡◌, Bool-cases, inl, inr, true, ◌∷◌, ok, arith, ◌==◌, if◌then◌else◌}
use moduo.Os.{Kernel, ctl_mod, ctl_del, epoll_ctl}
use moduo.Channel.{Channel, added}
use moduo.Channel.Events.{update_events}
use moduo.Poller.Interest.{EpollLaws, registered, update_channel-modifies, update_channel-deletes}
use moduo.EventLoop.{EventLoop, update_channel}

abbrev pub controlled : {F : Type 0} → Channel → ℕ → EventLoop F → EventLoop F
controlled c events l = record l {
  calls = epoll_ctl (if events == 0 then ctl_del else ctl_mod) c.fd events c.address ∷ l.calls;
}

-- Of an added channel in the interest list, setting the events modifies the entry, or deletes it
-- when no event is left; the channel stays marked.
pub update_events_lem :
    {F : Type 0} (k : Kernel) (c : Channel) (l : EventLoop F) (events : ℕ)
    → EpollLaws k
    → c.index ≡ added
    → registered k c.fd l.calls ≡ true
    → update_events k c l events ≡ ok (record c { events = events }, controlled c events l)
unfolding update_events update_channel
update_events_lem k c l events laws marked listed = elim (Bool-cases (events == 0)) [
  | inl none_left ↦ rw (
    update_channel-deletes k (record c { events = events }) l.poller l.calls marked (ground arith),
    none_left,
  )
  | inr some_event ↦ rw (
    update_channel-modifies k (record c { events = events }) l.poller l.calls laws marked some_event
        listed,
    some_event,
  )
]
