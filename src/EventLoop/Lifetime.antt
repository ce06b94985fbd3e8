-- ===== src/EventLoop/Lifetime.antt =====
-- The constructor and the destructor of src/EventLoop.cc, with `createEventfd` and the poller that
-- src/DefaultPoller.cc and the constructor of src/EPollPoller.cc make.
use moduo.Prelude.{
  ℕ, Option, none, some, ◌≡◌, Bool, true, false, [], ◌∷◌, Outcome, ok, exits, undefined, ◌>>=◌,
  arith, if◌then◌else◌,
}
use moduo.Os.{Kernel, Calls, returns, fails, close, eventfd, epoll_create}
use moduo.Channel.{Channel, fresh, added}
use moduo.Channel
use moduo.Channel.Events
use moduo.Poller.{Poller, Registered, find}
use moduo.Poller
use moduo.Poller.Interest.{registered}
use moduo.EventLoop.{EventLoop, update_channel, has_channel}

unfoldable pub create_eventfd : Kernel → Calls → Outcome (ℕ × Calls)
create_eventfd k calls = elim (k.reply calls eventfd) [
  | returns fd ↦ ok (fd, eventfd ∷ calls)
  | fails errno ↦ exits
]

-- `use_poll` is whether MUDUO_USE_POLL is set: then the poller is a null pointer.
unfoldable pub new_default_poller : Kernel → Bool → Calls → Outcome (Option Poller × Calls)
new_default_poller k use_poll calls =
    let made : Outcome (Option Poller × Calls) = elim (k.reply calls epoll_create) [
      | returns fd ↦ ok (some (Poller.new fd), epoll_create ∷ calls)
      | fails errno ↦ exits
    ] in
    if use_poll then ok (none, calls) else made

abbrev pub dereference : Option Poller → Outcome Poller
dereference none = undefined
dereference (some p) = ok p

module _ {F : Type 0} where
  -- The loop before its last statement, with the read callback set on the wakeup channel.
  unfoldable pub bare_loop : ℕ → ℕ → ℕ → Poller → Calls → EventLoop F
  bare_loop address tid fd p calls = record {
    looping = false;
    quitting = false;
    thread_id = tid;
    wakeup_fd = fd;
    wakeup_channel = Channel.set_read_callback true (Channel.new address fd);
    poller = p;
    active_channels = [];
    poll_return_time = 0;
    calling_pending_functors = false;
    pending_functors = [];
    calls = calls;
  }

  -- `exists` is whether the thread has a loop already; `address` is where the wakeup channel lies.
  unfoldable pub new : Kernel → Bool → Bool → ℕ → ℕ → Calls → Outcome (EventLoop F)
  new k use_poll exists address tid calls = do
    (fd, calls₁) ← create_eventfd k calls
    (pointer, calls₂) ← new_default_poller k use_poll calls₁
    p ← (if exists then exits else dereference pointer)
    l ← ok (bare_loop address tid fd p calls₂)
    (ch, l') ← Events.enable_reading k l.wakeup_channel l
    ok (record l' { wakeup_channel = ch })

  -- The destructor, with that of the poller.
  unfoldable pub destroy : Kernel → EventLoop F → Outcome (EventLoop F)
  destroy k l = do
    (ch₁, l₁) ← Events.disable_all k l.wakeup_channel l
    (ch₂, l₂) ← Events.remove k ch₁ l₁
    ok (record l₂ {
      wakeup_channel = ch₂;
      calls = Poller.destroy l₂.poller (close l.wakeup_fd ∷ l₂.calls);
    })

-- What a loop has once it is constructed.
pub record IsReady {F : Type 0} (k : Kernel) (tid : ℕ) (l : EventLoop F) : Type 0 where
  pub own_thread : l.thread_id ≡ tid
  pub has_wakeup : has_channel l l.wakeup_channel ≡ true
  pub marked : l.wakeup_channel.index ≡ added
  pub same_fd : l.wakeup_channel.fd ≡ l.wakeup_fd
  pub reads_wakeup : l.wakeup_channel.events ≡ 3
  pub listens : registered k l.wakeup_channel.fd l.calls ≡ true
  pub nothing_queued : l.pending_functors ≡ []
  pub not_running : l.calling_pending_functors ≡ false

-- The constructor, where it returns, leaves a loop of its own thread with nothing queued, whose wakeup
-- channel is in the poller, in the kernel's interest list and asks for input.
pub new-IsReady :
    {F : Type 0} (k : Kernel) (use_poll exists : Bool) (address tid : ℕ) (calls : Calls)
    (l : EventLoop F)
    → new k use_poll exists address tid calls ≡ ok l
    → IsReady k tid l × (use_poll ≡ false) × (exists ≡ false)
unfolding new create_eventfd new_default_poller Events.enable_reading Events.update_events
    update_channel bare_loop Channel.new Poller.update_channel Poller.update_channel_at
    Poller.register Poller.update Poller.insert Poller.find Poller.has_channel Poller.new
    has_channel registered
new-IsReady k use_poll exists address tid calls l h = ground arith
