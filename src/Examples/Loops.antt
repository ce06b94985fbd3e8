-- ===== src/Examples/Loops.antt =====
-- Event loops.
use moduo.Prelude.{ℕ, ◌+◌, ◌<◌, ◌≡◌, refl, true, false, List, [], ◌∷◌, ok, if◌then◌else◌}
use moduo.Os.{ctl_add, epoll_ctl, eventfd, epoll_create}
use moduo.Channel.{fresh, added}
use moduo.Channel
use moduo.Channel.Events
use moduo.Poller
use moduo.EventLoop.{EventLoop, push_functor, needs_wakeup, do_pending_functors, update_channel}
use moduo.EventLoop.Lifetime.{IsReady, new, create_eventfd, new_default_poller, bare_loop}
use moduo.Os.{Calls, close}
use moduo.Prelude.{none}
use moduo.EventLoop.Lifetime
use moduo.EventLoop.Ending.{loop_lifetime}
use moduo.Poller.Interest.{registered}
use moduo.Examples.Kernels.{kernel, kernel-EpollLaws}
use moduo.EventLoop.Functors.{note_and_spawn, do_pending_functors_lem}
use moduo.EventLoop.Wakeup.{System, polling, push, here, next, Reach-polling}

-- A loop of the thread 5, whose functors are numbers.
abbrev pub loop : {F : Type 0} → List F → EventLoop F
loop functors = record {
  looping = true;
  quitting = false;
  thread_id = 5;
  wakeup_fd = 4;
  wakeup_channel = Channel.new 30 4;
  poller = record { channels = []; event_count = 16; epollfd = 3 };
  active_channels = [];
  poll_return_time = 0;
  calling_pending_functors = false;
  pending_functors = functors;
  calls = [];
}

-- A functor that queues its successor.
abbrev successor : ℕ → List ℕ
successor n = (n + 1) ∷ []

do_pending_functors_lem_example :
    (l' : EventLoop ℕ) × (do_pending_functors (note_and_spawn 5 successor) ([], loop (7 ∷ 8 ∷ []))
      ≡ ok (7 ∷ 8 ∷ [], l'))
    × (l'.pending_functors ≡ 8 ∷ 9 ∷ [])
    × (l'.calling_pending_functors ≡ false)
do_pending_functors_lem_example = do_pending_functors_lem 5 successor [] (loop (7 ∷ 8 ∷ []))

abbrev waiting : System ℕ
waiting = record { loop = loop []; phase = polling; counter = 0; wakers = 0 }

-- Another thread has queued a functor, and not yet written.
abbrev pushed : System ℕ
pushed = record {
  loop = push_functor 7 (loop []);
  phase = polling;
  counter = 0;
  wakers = if needs_wakeup {F = ℕ} 6 (push_functor 7 (loop [])) then 1 else 0;
}

Reach-polling_example : 0 < pushed.counter + pushed.wakers
unfolding push_functor
Reach-polling_example =
    Reach-polling {s = waiting} {t = pushed} refl refl (next here (push waiting 6 7 refl)) refl
      (λ e. cc)

-- A loop that the thread 5 constructs, with its wakeup channel at the address 30.
abbrev constructed : EventLoop ℕ
constructed = record (loop []) {
  looping = false;
  wakeup_channel = record (Channel.new 30 4) { events = 3; index = added; has_read = true };
  poller = record { channels = (4, 30) ∷ []; event_count = 16; epollfd = 3 };
  calls = epoll_ctl ctl_add 4 3 30 ∷ epoll_create ∷ eventfd ∷ [];
}

loop_lifetime_example :
    IsReady (kernel 10 []) 5 constructed
    × ((l' : EventLoop ℕ) × (rest : Calls) × (Lifetime.destroy (kernel 10 []) constructed ≡ ok l')
        × (l'.calls ≡ close 3 ∷ close 4 ∷ rest)
        × (registered (kernel 10 []) 4 l'.calls ≡ false)
        × (Poller.find 4 l'.poller.channels ≡ none))
unfolding new create_eventfd new_default_poller Events.enable_reading Events.update_events
    update_channel bare_loop Channel.new Poller.update_channel Poller.update_channel_at
    Poller.register Poller.update Poller.insert Poller.find Poller.has_channel Poller.new
loop_lifetime_example =
    loop_lifetime (kernel 10 []) false false 30 5 [] constructed (kernel-EpollLaws 10 []) refl
