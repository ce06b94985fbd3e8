-- ===== src/Examples/Pollers.antt =====
-- Channels and pollers.
use moduo.Prelude.{ℕ, ◌<◌, ◌≡◌, refl, true, List, [], ◌∷◌, ◌++◌, map, Outcome, ok, exits, arith}
use moduo.Os.{ctl_add, epoll_ctl}
use moduo.Channel.{Channel, Callback, read_callback, write_callback, added, fresh, handle_event}
use moduo.Channel.Dispatch.{handle_event-callbacks}
use moduo.Poller.{Poller, Registered, update_channel}
use moduo.Poller.Interest.{update_channel_reenabled}
use moduo.Poller.Wait.{Event, Active, ready, poll, last_revents, poll_ready}
use moduo.Examples.Kernels.{kernel, kernel-EpollLaws}

-- A channel that reads and writes, registered.
abbrev plain : Channel
plain = record {
  address = 40;
  fd = 7;
  events = 3;
  revents = 5;
  index = fresh;
  tied = true;
  has_read = true;
  has_write = true;
  has_close = true;
  has_error = true;
}

abbrev quiet : Channel
quiet = record plain { index = added; events = 0 }

abbrev note : Callback → List Callback → Outcome (List Callback)
note x log = ok (log ++ (x ∷ []))

handle_event-callbacks_example :
    handle_event note true plain [] ≡ ok (read_callback ∷ write_callback ∷ [])
handle_event-callbacks_example = handle_event-callbacks note true plain []

abbrev empty : Poller
empty = record { channels = []; event_count = 16; epollfd = 3 }

abbrev after_add : Registered
after_add = record {
  channel = record plain { index = added };
  poller = record { channels = (7, 40) ∷ []; event_count = 16; epollfd = 3 };
  calls = epoll_ctl ctl_add 7 3 40 ∷ [];
}

update_channel_reenabled_example :
    (r : Registered) × (update_channel (kernel 0 []) quiet empty [] ≡ ok r)
    × (update_channel (kernel 0 []) (record r.channel { events = 3 }) r.poller r.calls ≡ exits)
update_channel_reenabled_example =
    update_channel_reenabled (kernel 0 []) quiet empty [] 3 (kernel-EpollLaws 0 []) refl refl
      (omega arith)

abbrev idle_store : Active
idle_store = record { store = λ a. record plain { address = a }; active_channels = [] }

abbrev two_events : List Event
two_events = record { pointer = 40; events = 1 } ∷ record { pointer = 41; events = 4 } ∷ []

poll_ready_example :
    (p' : Poller) × (a' : Active) × (poll
        (ready two_events)
        (record { channels = []; event_count = 2; epollfd = 3 })
        idle_store
      ≡ ok (p', a'))
    × (a'.active_channels ≡ map (λ e. e.pointer) two_events)
    × ((address : ℕ)
        → a'.store address
          ≡ record (idle_store.store address) { revents = last_revents address two_events 5 })
    × (2 < p'.event_count)
    × (p'.channels ≡ [])
poll_ready_example =
    poll_ready two_events (record { channels = []; event_count = 2; epollfd = 3 }) idle_store
      (omega arith) (omega arith)
