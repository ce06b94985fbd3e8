-- ===== src/EventLoop/Ending.antt =====
-- The life of a loop: what is left of its descriptors.
use moduo.Prelude.{ℕ, Bool, ◌≡◌, refl, subst, false, none, ◌∷◌, ok, ap, arith}
use moduo.Os.{Kernel, Calls, close}
use moduo.Channel.{Channel}
use moduo.Channel.Events
use moduo.Channel.Updates.{controlled, update_events_lem}
use moduo.Poller.{Poller, Registered, find, remove_channel, remove_channel_at}
use moduo.Poller
use moduo.Poller.Registry.{remove_channel_total}
use moduo.Poller.Interest.{EpollLaws, registered}
use moduo.EventLoop.{EventLoop}
use moduo.EventLoop
use moduo.EventLoop.Lifetime.{new, destroy, IsReady, new-IsReady}

remove_channel_keeps :
    (k : Kernel) (c : Channel) (p : Poller) (calls : Calls) (r : Registered)
    → remove_channel k c p calls ≡ ok r
    → r.poller.epollfd ≡ p.epollfd
unfolding remove_channel remove_channel_at Poller.update
remove_channel_keeps k c p calls r removed = ground arith

destroy_lem :
    {F : Type 0} (k : Kernel) (tid : ℕ) (l : EventLoop F)
    → EpollLaws k
    → IsReady k tid l
    → (l' : EventLoop F) × (rest : Calls) × (destroy k l ≡ ok l')
      × (l'.calls ≡ close l.poller.epollfd ∷ close l.wakeup_fd ∷ rest)
      × (registered k l.wakeup_fd l'.calls ≡ false)
      × (find l.wakeup_fd l'.poller.channels ≡ none)
unfolding destroy Poller.destroy Events.disable_all Events.remove EventLoop.remove_channel
    registered
destroy_lem k tid l laws v =
    let (r, removed, reset, gone, _) =
      remove_channel_total k (record (l.wakeup_channel) { events = 0 }) l.poller
        (controlled l.wakeup_channel 0 l).calls in
    let same_epollfd =
      remove_channel_keeps k (record (l.wakeup_channel) { events = 0 }) l.poller
        (controlled l.wakeup_channel 0 l).calls r removed in
    (
      record (record l { poller = r.poller; calls = r.calls }) {
        wakeup_channel = r.channel;
        calls = close r.poller.epollfd ∷ close l.wakeup_fd ∷ r.calls;
      },
      r.calls,
      rw (update_events_lem k l.wakeup_channel l 0 laws v.marked v.listens, removed) refl,
      ap (λ fd. close fd ∷ close l.wakeup_fd ∷ r.calls) same_epollfd,
      ground arith,
      subst (λ fd. find fd r.poller.channels ≡ none) v.same_fd (gone v.marked),
    )

-- Where the constructor of a loop returns, the loop is ready: it is of its own thread, with nothing queued,
-- and its wakeup channel is in the poller, in the kernel's interest list and asks for input. Its destructor
-- then returns; last of all it has closed the eventfd and the epoll descriptor, and the eventfd is neither
-- in the interest list nor in the poller's map.
pub loop_lifetime :
    {F : Type 0} (k : Kernel) (use_poll exists : Bool) (address tid : ℕ) (calls : Calls)
    (l : EventLoop F)
    → EpollLaws k
    → new k use_poll exists address tid calls ≡ ok l
    → IsReady k tid l
      × ((l' : EventLoop F) × (rest : Calls) × (destroy k l ≡ ok l')
          × (l'.calls ≡ close l.poller.epollfd ∷ close l.wakeup_fd ∷ rest)
          × (registered k l.wakeup_fd l'.calls ≡ false)
          × (find l.wakeup_fd l'.poller.channels ≡ none))
loop_lifetime k use_poll exists address tid calls l laws made =
    let (v, _, _) = new-IsReady k use_poll exists address tid calls l made in
    (v, destroy_lem k tid l laws v)
