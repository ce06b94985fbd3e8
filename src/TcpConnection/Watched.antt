-- ===== src/TcpConnection/Watched.antt =====
-- The interest list and a connection's state: what each operation does to both.
pub mod Operations
pub mod Writing
pub mod Handlers
pub mod Whole
use moduo.Prelude.{
  ℕ, ◌≡◌, refl, sym, subst, ap, ◌∙◌, ◌⊎◌, inl, inr, Bool, Bool-cases, true, false, not, ◌==◌, some,
  List, [], ◌∷◌, Outcome, ok, ◌>>=◌, >>=-eq-ok, arith, if◌then◌else◌, bit_or, bit_and,
}
use moduo.Os.{Kernel, Reply, ctl_mod, ctl_del, epoll_ctl}
use moduo.Poller.{find}
use moduo.Poller.Interest.{EpollLaws, registered, update_channel-deletes}
use moduo.Channel.{added, is_writing}
use moduo.Channel.Events
use moduo.Channel.Updates.{controlled, update_events_lem}
use moduo.EventLoop.{EventLoop}
use moduo.EventLoop
use moduo.TcpConnection.{
  Connection, Session, Task, App, is_disconnected, disconnected, with_channel,
}

-- The events that a connection asks for while it is not disconnected: to read, to read and write, and to
-- write.
abbrev pub InUse : ℕ → Type 0
InUse events = (events ≡ 3) ⊎ (events ≡ 7) ⊎ (events ≡ 4)

-- The connection of the descriptor `fd` at `address`: the poller has its channel, and the kernel watches
-- the descriptor exactly while the connection is not disconnected.
pub record IsWatched (k : Kernel) (fd address : ℕ) (st : Session) : Type 0 where
  pub marked : st.0.channel.index ≡ added
  pub same_fd : st.0.channel.fd ≡ fd
  pub same_address : st.0.channel.address ≡ address
  pub same_socket : st.0.socket ≡ fd
  pub found : find fd st.1.poller.channels ≡ some address
  pub listed : registered k fd (st.1.calls) ≡ not (is_disconnected (st.0.state))
  pub asks :
      ((is_disconnected (st.0.state) ≡ true) × (st.0.channel.events ≡ 0))
      ⊎ ((is_disconnected (st.0.state) ≡ false) × InUse (st.0.channel.events))

module _ (k : Kernel) (fd address : ℕ) where
  -- What changes neither the channel nor the interest list.
  pub quiet-IsWatched :
      (c c' : Connection) (l l' : EventLoop Task)
      → c'.channel ≡ c.channel
      → c'.socket ≡ c.socket
      → is_disconnected c'.state ≡ is_disconnected c.state
      → l'.poller ≡ l.poller
      → registered k fd l'.calls ≡ registered k fd l.calls
      → IsWatched k fd address (c, l)
      → IsWatched k fd address (c', l')
  quiet-IsWatched c c' l l' channel socket state poller calls v = record {
    marked = ground (arith, v.marked);
    same_fd = ground (arith, v.same_fd);
    same_address = ground (arith, v.same_address);
    same_socket = socket ∙ v.same_socket;
    found = ap (λ p. find fd p.channels) poller ∙ v.found;
    listed = ground (arith, v.listed);
    asks = ground (arith, v.asks);
  }

  some_event : (events : ℕ) → InUse events → (events == 0) ≡ false
  some_event events in_use = ground arith

  modified :
      (l : EventLoop Task) (events a : ℕ)
      → EpollLaws k
      → registered k fd l.calls ≡ true
      → registered k fd (epoll_ctl ctl_mod fd events a ∷ l.calls) ≡ true
  unfolding registered
  modified l events a laws watched = ground (arith, laws.mod_present l.calls fd events a watched)

  pub gone :
      (l : EventLoop Task) (events a : ℕ)
      → EpollLaws k
      → registered k fd (epoll_ctl ctl_del fd events a ∷ l.calls) ≡ false
  unfolding registered
  gone l events a laws = elim (Bool-cases (registered k fd l.calls)) [
    | inl watched ↦ ground (arith, laws.del_present l.calls fd events a watched)
    | inr absent ↦ ground (arith, absent)
  ]

  -- Asking for other events that are in use.
  pub update_events-IsWatched :
      (c : Connection) (l : EventLoop Task) (events : ℕ) (st : Session)
      → EpollLaws k
      → is_disconnected c.state ≡ false
      → InUse events
      → (Events.update_events k c.channel l events >>= (λ r. ok (with_channel c r))) ≡ ok st
      → IsWatched k fd address (c, l)
      → IsWatched k fd address st
  update_events-IsWatched c l events st laws up in_use done v =
      let watched' : registered k fd l.calls ≡ true = v.listed ∙ ap not up in
      let watched : registered k c.channel.fd l.calls ≡ true = rw v.same_fd watched' in
      let updated = update_events_lem k c.channel l events laws v.marked watched in
      let same_session : st ≡ (
        record c { channel = record (c.channel) { events = events } },
        controlled c.channel events l,
      ) =
        ground (arith, updated, done) in
      subst (IsWatched k fd address) (sym same_session) (record {
        marked = v.marked;
        same_fd = v.same_fd;
        same_address = v.same_address;
        same_socket = v.same_socket;
        found = v.found;
        listed =
            rw (v.same_fd, some_event events in_use)
              (rw (modified l events c.channel.address laws watched') (sym (ap not up)));
        asks = inr (up, in_use);
      })

  -- Giving up all events, as a connection is disconnected.
  pub disable_all-IsWatched :
      (c : Connection) (l : EventLoop Task)
      → EpollLaws k
      → IsWatched k fd address (c, l)
      → (l' : EventLoop Task) × (Events.disable_all k c.channel l
          ≡ ok (record (c.channel) { events = 0 }, l'))
        × IsWatched k fd address
            (record c { state = disconnected; channel = record (c.channel) { events = 0 } }, l')
  unfolding Events.disable_all Events.update_events EventLoop.update_channel registered
  disable_all-IsWatched c l laws v =
      let deletion = epoll_ctl ctl_del c.channel.fd 0 c.channel.address in
      let deleted =
        update_channel-deletes k (record (c.channel) { events = 0 }) l.poller l.calls v.marked
          refl in
      (
        record l { calls = deletion ∷ l.calls },
        rw deleted refl,
        record {
          marked = v.marked;
          same_fd = v.same_fd;
          same_address = v.same_address;
          same_socket = v.same_socket;
          found = v.found;
          listed = rw v.same_fd (gone l 0 c.channel.address laws);
          asks = inl (refl, refl);
        },
      )
