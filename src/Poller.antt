-- ===== src/Poller.antt =====
-- src/Poller.h, src/Poller.cc, src/EPollPoller.h and src/EPollPoller.cc: the map from descriptors to
-- channels, and the calls of epoll. The kernel's answers come from the parameter `Kernel`.
pub mod Registry
pub mod Interest
pub mod Wait
pub mod Whole
use moduo.Prelude.{
  ℕ, ◌+◌, ◌*◌, ◌≡◌, Bool, true, false, ◌&&◌, ◌||◌, Option, none, some, List, [], ◌∷◌, ◌++◌, Outcome,
  ok, exits, ◌>>=◌, length, ◌==◌, if◌then◌else◌,
}
use moduo.Os.{
  Kernel, Calls, CtlOp, ctl_add, ctl_mod, ctl_del, Reply, returns, fails, epoll_ctl, close,
}
use moduo.Channel.{Channel, Index, fresh, added, deleted, is_none_event}

-- `ChannelMap`: the addresses of channels by descriptor. `insert` is `channels_[fd] = channel`.
abbrev pub ChannelMap : Type 0
ChannelMap = List (ℕ × ℕ)

unfoldable pub find : ℕ → ChannelMap → Option ℕ
find fd [] = none
find fd ((key, value) ∷ m) = if key == fd then some value else find fd m

unfoldable pub insert : ℕ → ℕ → ChannelMap → ChannelMap
insert fd address [] = (fd, address) ∷ []
insert fd address ((key, value) ∷ m) =
    if key == fd then (fd, address) ∷ m else (key, value) ∷ insert fd address m

unfoldable pub erase : ℕ → ChannelMap → ChannelMap
erase fd [] = []
erase fd ((key, value) ∷ m) = if key == fd then erase fd m else (key, value) ∷ erase fd m

-- `event_count` is the size of `events_`, the array that `epoll_wait` fills.
pub record Poller : Type 0 where
  pub channels : ChannelMap
  pub event_count : ℕ
  pub epollfd : ℕ

abbrev pub init_event_list_size : ℕ
init_event_list_size = 16

unfoldable pub new : (epollfd : ℕ) → Poller
new epollfd = record { channels = []; event_count = init_event_list_size; epollfd = epollfd }

-- The destructor.
unfoldable pub destroy : Poller → Calls → Calls
destroy p calls = close p.epollfd ∷ calls

abbrev pub holds : ℕ → Option ℕ → Bool
holds address none = false
holds address (some a) = a == address

unfoldable pub has_channel : Poller → Channel → Bool
has_channel p c = holds c.address (find c.fd p.channels)

abbrev pub is_del : CtlOp → Bool
is_del ctl_del = true
is_del _ = false

-- A failed `EPOLL_CTL_DEL` is logged; any other failure is `LOG_FATAL`, which exits.
unfoldable pub update : Kernel → CtlOp → Channel → Calls → Outcome Calls
update k op c calls =
    let call = epoll_ctl op c.fd c.events c.address in
    elim (k.reply calls call) [
      | returns n ↦ ok (call ∷ calls)
      | fails errno ↦ if is_del op then ok (call ∷ calls) else exits
    ]

pub record Registered : Type 0 where
  pub channel : Channel
  pub poller : Poller
  pub calls : Calls

-- The branch of `updateChannel` for `kNew` and `kDeleted`.
unfoldable pub register : Kernel → Channel → Poller → Calls → Outcome Registered
register k c p calls = do
  calls' ← update k ctl_add (record c { index = added }) calls
  ok (record { channel = record c { index = added }; poller = p; calls = calls' })

unfoldable pub update_channel_at : Index → Kernel → Channel → Poller → Calls → Outcome Registered
update_channel_at fresh k c p calls =
    register k c (record p { channels = insert c.fd c.address p.channels }) calls
update_channel_at deleted k c p calls = register k c p calls
update_channel_at added k c p calls = do
  calls' ← update k (if is_none_event c then ctl_del else ctl_mod) c calls
  ok (record { channel = c; poller = p; calls = calls' })

unfoldable pub update_channel : Kernel → Channel → Poller → Calls → Outcome Registered
update_channel k c p calls = update_channel_at c.index k c p calls

unfoldable pub remove_channel_at : Index → Kernel → Channel → Poller → Calls → Outcome Registered
remove_channel_at added k c p calls = do
  calls' ← update k ctl_del c calls
  ok (record {
    channel = record c { index = fresh };
    poller = record p { channels = erase c.fd p.channels };
    calls = calls';
  })
remove_channel_at _ k c p calls =
    ok (record { channel = record c { index = fresh }; poller = p; calls = calls })

unfoldable pub remove_channel : Kernel → Channel → Poller → Calls → Outcome Registered
remove_channel k c p calls = remove_channel_at c.index k c p calls
