-- ===== src/TcpConnection/Watched/Whole.antt =====
-- The whole life of a connection's descriptor in the interest list, to `connectionDestroyed`.
use moduo.Prelude.{
  ℕ, ◌≡◌, refl, sym, subst, ◌∙◌, inl, inr, Bool, Bool-cases, true, false, not, ◌&&◌, none, List, [],
  ◌∷◌, ok, >>=-eq-ok, arith, if◌then◌else◌,
}
use moduo.Os.{Kernel, epoll_ctl, ctl_del}
use moduo.Poller.{find, erase}
use moduo.Poller.Registry.{update_del_returns, find-erase}
use moduo.Poller.Interest.{EpollLaws, registered}
use moduo.Channel.{fresh, added}
use moduo.Channel.Events
use moduo.EventLoop
use moduo.Poller
use moduo.EventLoop.{EventLoop}
use moduo.TcpConnection.{Connection, Session, Task, App, is_connected}
use moduo.TcpConnection.Handlers.{announce_end, remove_from_poller, connection_destroyed}
use moduo.TcpConnection.History.{
  Happening, sending, shutting_down, event, functor, destroying, reported, happen, happen_all,
}
use moduo.TcpConnection.Watched.{IsWatched, gone, disable_all-IsWatched}
use moduo.TcpConnection.Watched.Operations.{carried, send-Watched, shutdown-Watched}
use moduo.TcpConnection.Watched.Handlers.{
  KeepsWatch, call_if-Watched, handle_event-Watched, run_task-Watched,
}

-- The connection of a descriptor that neither the kernel nor the poller has any more.
pub record IsGone (k : Kernel) (fd : ℕ) (st : Session) : Type 0 where
  pub unwatched : registered k fd (st.1.calls) ≡ false
  pub unknown : find fd st.1.poller.channels ≡ none
  pub reset : st.0.channel.index ≡ fresh
  pub same_socket : st.0.socket ≡ fd

abbrev pub is_end : Happening → Bool
is_end destroying = true
is_end _ = false

abbrev pub is_before_end : List Happening → Bool
is_before_end [] = true
is_before_end (x ∷ xs) = not (is_end x) && is_before_end xs

module _ (k : Kernel) (fd address : ℕ) (app : App) (laws : EpollLaws k)
    (keeps : KeepsWatch k fd address app) where
  reported-Watched :
      (revents : ℕ) (c : Connection) (l : EventLoop Task)
      → IsWatched k fd address (c, l)
      → IsWatched k fd address (reported revents (c, l))
  reported-Watched revents c l v = record {
    marked = v.marked;
    same_fd = v.same_fd;
    same_address = v.same_address;
    same_socket = v.same_socket;
    found = v.found;
    listed = v.listed;
    asks = v.asks;
  }

  pub happen-Watched :
      (x : Happening) (st st' : Session)
      → is_end x ≡ false
      → happen k app x st ≡ ok st'
      → IsWatched k fd address st
      → IsWatched k fd address st'
  unfolding happen
  happen-Watched (sending tid at_address bytes) st st' e h v =
      send-Watched k fd address tid at_address bytes st st' laws h v
  happen-Watched (shutting_down tid) st st' e h v =
      carried k fd address tid h (shutdown-Watched k fd address tid st v)
  happen-Watched (event tid time revents alive) (c, l) st' e h v =
      handle_event-Watched k fd address app laws keeps tid time alive (reported revents (c, l)) st'
        h (reported-Watched revents c l v)
  happen-Watched (functor tid t) st st' e h v =
      run_task-Watched k fd address app laws keeps tid t st st' h v
  happen-Watched destroying st st' e h v = absurd_of e
    where
      absurd_of : {A : Type 0} → true ≡ false → A
      absurd_of e = cc

  pub happen_all-Watched :
      (xs : List Happening) (st st' : Session)
      → is_before_end xs ≡ true
      → happen_all k app xs st ≡ ok st'
      → IsWatched k fd address st
      → IsWatched k fd address st'
  unfolding happen_all
  happen_all-Watched [] st st' e h v = carried k fd address 0 h v
  happen_all-Watched (x ∷ xs) st st' e h v =
      let (st₁, first, rest) = >>=-eq-ok (happen k app x st) _ h in
      happen_all-Watched xs st₁ st' (ground arith) rest
        (happen-Watched x st st₁ (ground arith) first v)

  announced-Watched :
      (st st' : Session)
      → (if is_connected (st.0.state) then announce_end k app st else ok st) ≡ ok st'
      → IsWatched k fd address st
      → IsWatched k fd address st'
  unfolding announce_end
  announced-Watched (c, l) st' done v = elim (Bool-cases (is_connected c.state)) [
    | inr down ↦ carried k fd address 0 (rw down at done) v
    | inl up ↦
        let (l', disabled, w) = disable_all-IsWatched k fd address c l laws v in
        call_if-Watched k fd address app laws keeps app.on_connection keeps.connection
          c.has_connection _ st' (rw (up, disabled) at done) w
  ]

  -- The session once the poller has given up the channel.
  abbrev removed_from : Connection → EventLoop Task → Session
  removed_from c l = (
    record c { channel = record (c.channel) { index = fresh } },
    record l {
      poller = record (l.poller) { channels = erase c.channel.fd l.poller.channels };
      calls = epoll_ctl ctl_del c.channel.fd c.channel.events c.channel.address ∷ l.calls;
    },
  )

  remove_from_poller_added :
      (c : Connection) (l : EventLoop Task)
      → c.channel.index ≡ added
      → remove_from_poller k app (c, l) ≡ ok (removed_from c l)
  unfolding remove_from_poller Events.remove EventLoop.remove_channel Poller.remove_channel
      Poller.remove_channel_at Poller.update erase
  remove_from_poller_added c l marked = rw marked (rw (update_del_returns k c.channel l.calls) refl)

  removed_unwatches :
      (c : Connection) (l : EventLoop Task)
      → IsWatched k fd address (c, l)
      → IsGone k fd (removed_from c l)
  removed_unwatches c l w = record {
    unwatched = rw w.same_fd (gone k fd address l c.channel.events c.channel.address laws);
    unknown = rw w.same_fd (find-erase fd fd l.poller.channels ∙ (ground arith));
    reset = refl;
    same_socket = w.same_socket;
  }

  -- `connectionDestroyed` takes the channel out of the interest list and the poller's map.
  pub connection_destroyed_unwatches :
      (st st' : Session)
      → connection_destroyed k app st ≡ ok st'
      → IsWatched k fd address st
      → IsGone k fd st'
  unfolding connection_destroyed
  connection_destroyed_unwatches (c, l) st' done v =
      let (st₁, told, removed) =
        >>=-eq-ok (if is_connected c.state then announce_end k app (c, l) else ok (c, l)) _ done in
      let w = announced-Watched (c, l) st₁ told v in
      let (c₁, l₁) = st₁ in
      let same_session : ok (removed_from c₁ l₁) ≡ ok st' =
        sym (remove_from_poller_added c₁ l₁ w.marked) ∙ removed in
      subst (IsGone k fd) (cc same_session) (removed_unwatches c₁ l₁ w)
