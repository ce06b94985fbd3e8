-- ===== src/Examples/Polls.antt =====
-- Calls of a poller.
use moduo.Prelude.{ℕ, ◌≡◌, refl, true, List, [], ◌∷◌, ok}
use moduo.Os.{ctl_add, ctl_del, epoll_ctl}
use moduo.Channel.{added, fresh}
use moduo.Channel
use moduo.Poller.{
  Poller, Registered, new, insert, erase, has_channel, update, register, update_channel,
  update_channel_at, remove_channel, remove_channel_at,
}
use moduo.Poller.Wait.{Store}
use moduo.Poller.Whole.{PollerCall, updates, removes, Polled, put, make_call, make_calls, AreApart}
use moduo.Poller.Whole.Members.{has_channel_updated}
use moduo.Examples.Kernels.{kernel}

-- A channel at each address, on the descriptor of that number.
abbrev channels : Store
channels a = Channel.new a a

channels-AreApart : AreApart channels
unfolding Channel.new
channels-AreApart = record { placed = λ a. refl; apart = λ a b e. e }

abbrev poller : List (ℕ × ℕ) → Poller
poller m = record { channels = m; event_count = 16; epollfd = 3 }

-- After each of three calls.
abbrev first : Registered
first = record {
  channel = record (Channel.new 40 40) { events = 3; index = added };
  poller = poller ((40, 40) ∷ []);
  calls = epoll_ctl ctl_add 40 3 40 ∷ [];
}

abbrev second : Registered
second = record {
  channel = record (Channel.new 41 41) { events = 1; index = added };
  poller = poller ((40, 40) ∷ (41, 41) ∷ []);
  calls = epoll_ctl ctl_add 41 1 41 ∷ first.calls;
}

abbrev third : Registered
third = record {
  channel = record (Channel.new 40 40) { events = 3; index = fresh };
  poller = poller ((41, 41) ∷ []);
  calls = epoll_ctl ctl_del 40 3 40 ∷ second.calls;
}

abbrev polled : Polled
polled = put 40 third (put 41 second (put 40 first channels).store).store

abbrev three_calls : List PollerCall
three_calls = updates 40 3 ∷ updates 41 1 ∷ removes 40 ∷ []

polled_lem :
    make_calls (kernel 0 []) three_calls (record { store = channels; poller = new 3; calls = [] })
    ≡ ok polled
unfolding make_calls make_call new insert erase update register update_channel update_channel_at
    remove_channel remove_channel_at Channel.new
polled_lem = refl

has_channel_updated_example :
    (has_channel polled.poller (polled.store 41) ≡ true) × ((polled.store 41).index ≡ added)
unfolding Channel.new
has_channel_updated_example =
    has_channel_updated (kernel 0 []) 3 channels [] three_calls polled channels-AreApart (λ a. refl)
      polled_lem 41
