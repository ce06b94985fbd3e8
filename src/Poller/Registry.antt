-- ===== src/Poller/Registry.antt =====
-- The channel map under `updateChannel` and `removeChannel`.
use moduo.Prelude.{ℕ, ◌≡◌, ◌≢◌, refl, true, none, some, [], ◌∷◌, ok, arith, ◌==◌, if◌then◌else◌}
use moduo.Os.{Kernel, Calls, ctl_del, epoll_ctl}
use moduo.Channel.{Channel, Index, fresh, added, deleted}
use moduo.Poller.{
  ChannelMap, find, insert, erase, Poller, has_channel, update, Registered, register,
  update_channel_at, update_channel, remove_channel_at, remove_channel,
}

pub find-insert :
    (key fd address : ℕ) (m : ChannelMap)
    → find key (insert fd address m) ≡ (if fd == key then some address else find key m)
unfolding find insert
find-insert key fd address [] = refl
find-insert key fd address ((j, value) ∷ m) = ground (arith, find-insert key fd address m)

pub find-erase :
    (key fd : ℕ) (m : ChannelMap) → find key (erase fd m) ≡ (if fd == key then none else find key m)
unfolding find erase
find-erase key fd [] = ground arith
find-erase key fd ((j, value) ∷ m) = ground (arith, find-erase key fd m)

-- A deletion never ends the process: its failure is only logged.
pub update_del_returns :
    (k : Kernel) (c : Channel) (calls : Calls)
    → update k ctl_del c calls ≡ ok (epoll_ctl ctl_del c.fd c.events c.address ∷ calls)
unfolding update
update_del_returns k c calls = ground arith

-- A channel that is marked as added stands in the map, under its descriptor.
abbrev pub IsListed : Channel → Poller → Type 0
IsListed c p = c.index ≢ fresh → find c.fd p.channels ≡ some c.address

update_channel_at-IsListed :
    (i : Index) (k : Kernel) (c : Channel) (p : Poller) (calls : Calls) (r : Registered)
    → c.index ≡ i
    → IsListed c p
    → update_channel_at i k c p calls ≡ ok r
    → (has_channel r.poller r.channel ≡ true)
      × (r.channel.index ≡ added)
      × ((fd : ℕ) → fd ≢ c.fd → find fd r.poller.channels ≡ find fd p.channels)
unfolding update_channel_at register has_channel
update_channel_at-IsListed fresh k c p calls r e listed h = (
  ground (arith, find-insert c.fd c.fd c.address p.channels),
  ground arith,
  λ fd ne. ground (arith, find-insert fd c.fd c.address p.channels),
)
update_channel_at-IsListed added k c p calls r e listed h =
    (ground (arith, listed), ground arith, λ fd ne. ground arith)
update_channel_at-IsListed deleted k c p calls r e listed h =
    (ground (arith, listed), ground arith, λ fd ne. ground arith)

-- After an `updateChannel` that returns, the poller has the channel, marked as added, and finds every
-- other descriptor as before; a channel that was marked before has to stand in the map.
pub update_channel-IsListed :
    (k : Kernel) (c : Channel) (p : Poller) (calls : Calls) (r : Registered)
    → IsListed c p
    → update_channel k c p calls ≡ ok r
    → (has_channel r.poller r.channel ≡ true)
      × (r.channel.index ≡ added)
      × ((fd : ℕ) → fd ≢ c.fd → find fd r.poller.channels ≡ find fd p.channels)
unfolding update_channel
update_channel-IsListed k c p calls r listed h =
    update_channel_at-IsListed c.index k c p calls r refl listed h

pub remove_channel_at-total :
    (i : Index) (k : Kernel) (c : Channel) (p : Poller) (calls : Calls)
    → c.index ≡ i
    → (r : Registered) × (remove_channel_at i k c p calls ≡ ok r)
      × (r.channel ≡ record c { index = fresh })
      × (find c.fd r.poller.channels ≡ (elim i [ added ↦ none | _ ↦ find c.fd p.channels ]))
      × ((fd : ℕ) → fd ≢ c.fd → find fd r.poller.channels ≡ find fd p.channels)
unfolding remove_channel_at
remove_channel_at-total added k c p calls e =
    let calls' = epoll_ctl ctl_del c.fd c.events c.address ∷ calls in
    (
      record {
        channel = record c { index = fresh };
        poller = record p { channels = erase c.fd p.channels };
        calls = calls';
      },
      rw (update_del_returns k c calls),
      refl,
      ground (arith, find-erase c.fd c.fd p.channels),
      λ fd ne. ground (arith, find-erase fd c.fd p.channels),
    )
remove_channel_at-total fresh k c p calls e = (
  record { channel = record c { index = fresh }; poller = p; calls = calls },
  refl,
  refl,
  refl,
  λ fd ne. refl,
)
remove_channel_at-total deleted k c p calls e = (
  record { channel = record c { index = fresh }; poller = p; calls = calls },
  refl,
  refl,
  refl,
  λ fd ne. refl,
)

-- `removeChannel` returns whatever the kernel answers, resets the channel, drops its descriptor from
-- the map if it was marked as added, and leaves every other descriptor.
pub remove_channel_total :
    (k : Kernel) (c : Channel) (p : Poller) (calls : Calls)
    → (r : Registered) × (remove_channel k c p calls ≡ ok r)
      × (r.channel ≡ record c { index = fresh })
      × (c.index ≡ added → find c.fd r.poller.channels ≡ none)
      × ((fd : ℕ) → fd ≢ c.fd → find fd r.poller.channels ≡ find fd p.channels)
unfolding remove_channel
remove_channel_total k c p calls =
    let (r, done, reset, found, others) = remove_channel_at-total c.index k c p calls refl in
    (r, done, reset, λ e. ground (arith, found), others)
