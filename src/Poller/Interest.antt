-- ===== src/Poller/Interest.antt =====
-- The interest list of the kernel under `updateChannel` and `removeChannel`.
use moduo.Prelude.{
  ℕ, ◌≡◌, ◌≢◌, ◌∙◌, Bool, true, false, not, ◌&&◌, [], ◌∷◌, ok, arith, exits, ◌==◌, if◌then◌else◌,
}
use moduo.Os.{
  Kernel, Calls, ctl_add, ctl_del, ctl_mod, epoll_ctl, close, Reply, returns, fails, enoent,
}
use moduo.Channel.{Channel, Index, fresh, added, deleted, is_none_event}
use moduo.Poller.Registry.{update_del_returns}
use moduo.Poller.{is_del, Poller, update, Registered, register, update_channel_at, update_channel}

abbrev pub succeeds : Reply → Bool
succeeds (returns n) = true
succeeds (fails errno) = false

-- Whether a descriptor is in the interest list after some calls.
unfoldable pub registered : Kernel → ℕ → Calls → Bool
registered k fd [] = false
registered k fd (epoll_ctl op f events a ∷ calls) =
    if f == fd && succeeds (k.reply calls (epoll_ctl op f events a))
    then not (is_del op)
    else registered k fd calls
registered k fd (close f ∷ calls) = if f == fd then false else registered k fd calls
registered k fd (_ ∷ calls) = registered k fd calls

-- epoll_ctl(2): `EPOLL_CTL_MOD` fails with ENOENT for a descriptor that is not in the list, and works
-- on one that is; so does `EPOLL_CTL_DEL`.
pub record EpollLaws (k : Kernel) : Type 0 where
  pub mod_absent :
      (calls : Calls) (fd events a : ℕ)
      → registered k fd calls ≡ false
      → k.reply calls (epoll_ctl ctl_mod fd events a) ≡ fails enoent
  pub mod_present :
      (calls : Calls) (fd events a : ℕ)
      → registered k fd calls ≡ true
      → k.reply calls (epoll_ctl ctl_mod fd events a) ≡ returns 0
  pub del_present :
      (calls : Calls) (fd events a : ℕ)
      → registered k fd calls ≡ true
      → k.reply calls (epoll_ctl ctl_del fd events a) ≡ returns 0

-- What `update` leaves in the list, if it returns.
registered-update_del :
    (k : Kernel) (c : Channel) (calls calls' : Calls)
    → EpollLaws k
    → update k ctl_del c calls ≡ ok calls'
    → registered k c.fd calls' ≡ false
unfolding update registered
registered-update_del k c calls calls' laws h =
    ground (arith, laws.del_present calls c.fd c.events c.address)

registered-update_mod :
    (k : Kernel) (c : Channel) (calls calls' : Calls)
    → EpollLaws k
    → update k ctl_mod c calls ≡ ok calls'
    → registered k c.fd calls' ≡ true
unfolding update registered
registered-update_mod k c calls calls' laws h =
    ground (arith, laws.mod_absent calls c.fd c.events c.address)

registered-update_add :
    (k : Kernel) (c : Channel) (calls calls' : Calls)
    → update k ctl_add c calls ≡ ok calls'
    → registered k c.fd calls' ≡ true
unfolding update registered
registered-update_add k c calls calls' h = ground arith

-- What the list holds for a channel after an update: of one marked as added, whether it has events.
abbrev pub interested : Index → Channel → Bool
interested added c = not (is_none_event c)
interested fresh c = true
interested deleted c = true

registered-update_channel_at :
    (i : Index) (k : Kernel) (c : Channel) (p : Poller) (calls : Calls) (r : Registered)
    → EpollLaws k
    → update_channel_at i k c p calls ≡ ok r
    → registered k c.fd r.calls ≡ interested i c
unfolding update_channel_at register
registered-update_channel_at fresh k c p calls r laws h =
    ground (arith, registered-update_add k (record c { index = added }) calls r.calls)
registered-update_channel_at deleted k c p calls r laws h =
    ground (arith, registered-update_add k (record c { index = added }) calls r.calls)
registered-update_channel_at added k c p calls r laws h = ground (
  arith,
  registered-update_del k c calls r.calls laws,
  registered-update_mod k c calls r.calls laws,
)

-- After an `updateChannel` that returns, a channel marked as added is in the kernel's interest list
-- exactly if it asks for some event, and one that was not marked is in it whatever it asks for.
pub registered-update_channel :
    (k : Kernel) (c : Channel) (p : Poller) (calls : Calls) (r : Registered)
    → EpollLaws k
    → update_channel k c p calls ≡ ok r
    → registered k c.fd r.calls ≡ interested c.index c
unfolding update_channel
registered-update_channel k c p calls r laws h =
    registered-update_channel_at c.index k c p calls r laws h

-- An added channel that is in the list and asks for something is modified there.
pub update_channel-modifies :
    (k : Kernel) (c : Channel) (p : Poller) (calls : Calls)
    → EpollLaws k
    → c.index ≡ added
    → is_none_event c ≡ false
    → registered k c.fd calls ≡ true
    → update_channel k c p calls
      ≡ ok (record {
        channel = c;
        poller = p;
        calls = epoll_ctl ctl_mod c.fd c.events c.address ∷ calls;
      })
unfolding update_channel update_channel_at update
update_channel-modifies k c p calls laws e some_event present =
    ground (arith, laws.mod_present calls c.fd c.events c.address present)

update_channel-absent :
    (k : Kernel) (c : Channel) (p : Poller) (calls : Calls)
    → EpollLaws k
    → c.index ≡ added
    → is_none_event c ≡ false
    → registered k c.fd calls ≡ false
    → update_channel k c p calls ≡ exits
unfolding update_channel update_channel_at update
update_channel-absent k c p calls laws e some_event absent =
    ground (arith, laws.mod_absent calls c.fd c.events c.address absent)

pub update_channel-deletes :
    (k : Kernel) (c : Channel) (p : Poller) (calls : Calls)
    → c.index ≡ added
    → c.events ≡ 0
    → update_channel k c p calls
      ≡ ok (record {
        channel = c;
        poller = p;
        calls = epoll_ctl ctl_del c.fd c.events c.address ∷ calls;
      })
unfolding update_channel update_channel_at
update_channel-deletes k c p calls e none_left = ground (arith, update_del_returns k c calls)

interested_none : (c : Channel) → c.index ≡ added → c.events ≡ 0 → interested c.index c ≡ false
interested_none c e none_left = ground arith

-- A channel marked as added that has given up all its events ends the process when it asks for one
-- again: `updateChannel` deletes it from the interest list, keeps the mark, and then modifies it.
pub update_channel_reenabled :
    (k : Kernel) (c : Channel) (p : Poller) (calls : Calls) (events : ℕ)
    → EpollLaws k
    → c.index ≡ added
    → c.events ≡ 0
    → events ≢ 0
    → (r : Registered) × (update_channel k c p calls ≡ ok r)
      × (update_channel k (record r.channel { events = events }) r.poller r.calls ≡ exits)
update_channel_reenabled k c p calls events laws e none_left some_event =
    let deletion = epoll_ctl ctl_del c.fd c.events c.address in
    let deleted = update_channel-deletes k c p calls e none_left in
    (
      record { channel = c; poller = p; calls = deletion ∷ calls },
      deleted,
      update_channel-absent k (record c { events = events }) p (deletion ∷ calls) laws e
          (ground arith)
          (registered-update_channel k c p calls _ laws deleted ∙ interested_none c e none_left),
    )
