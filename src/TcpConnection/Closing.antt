-- ===== src/TcpConnection/Closing.antt =====
-- `handleClose` and `connectionDestroyed`: who is told of the end, and what is left registered.
use moduo.Prelude.{◌≡◌, true, false, none, ok, ◌>>=◌, arith}
use moduo.Os.{Kernel}
use moduo.Channel.{added, fresh}
use moduo.Channel.Events
use moduo.Channel.Updates.{controlled, update_events_lem}
use moduo.Poller.{find}
use moduo.Poller.Registry.{remove_channel_total}
use moduo.Poller.Interest.{EpollLaws, registered}
use moduo.EventLoop.{EventLoop}
use moduo.EventLoop
use moduo.TcpConnection.{Connection, Session, Task, App, disconnected, is_connected}
use moduo.TcpConnection.Handlers.{
  handle_close, announce_end, remove_from_poller, connection_destroyed,
}

-- A connection whose channel is in the interest list, with the callbacks that end it set.
pub record IsRegistered (k : Kernel) (st : Session) : Type 0 where
  pub marked : st.0.channel.index ≡ added
  pub listed : registered k (st.0.channel.fd) (st.1.calls) ≡ true
  pub tells : st.0.has_connection ≡ true
  pub closes : st.0.has_close ≡ true

-- The session at its end: disconnected, asking for nothing, and out of the interest list.
abbrev pub ended : Session → Session
ended (c, l) = (
  record c { state = disconnected; channel = record (c.channel) { events = 0 } },
  controlled c.channel 0 l,
)

-- `handleClose` takes a registered connection out of the kernel's interest list, and then calls the
-- connection callback and after it the close callback, both on the disconnected connection.
pub handle_close_lem :
    (k : Kernel) (app : App) (st : Session)
    → EpollLaws k
    → IsRegistered k st
    → (handle_close k app st ≡ (app.on_connection (ended st) >>= app.on_close))
      × (registered k (st.0.channel.fd) ((ended st).1.calls) ≡ false)
unfolding handle_close Events.disable_all registered
handle_close_lem k app (c, l) laws r = (
  rw (update_events_lem k c.channel l 0 laws r.marked r.listed, r.tells, r.closes),
  ground (arith, laws.del_present l.calls c.channel.fd 0 c.channel.address r.listed),
)

remove_from_poller_lem :
    (k : Kernel) (app : App) (c : Connection) (l : EventLoop Task)
    → (l' : EventLoop Task) × (remove_from_poller k app (c, l)
        ≡ ok (record c { channel = record (c.channel) { index = fresh } }, l'))
      × (c.channel.index ≡ added → find c.channel.fd l'.poller.channels ≡ none)
unfolding remove_from_poller Events.remove EventLoop.remove_channel
remove_from_poller_lem k app c l =
    let (r, removed, reset, gone, _) = remove_channel_total k c.channel l.poller l.calls in
    (record l { poller = r.poller; calls = r.calls }, rw (removed, reset), gone)

-- `connectionDestroyed` on a connection that is not connected calls nobody and returns whatever the
-- kernel answers: the channel is reset, and its descriptor is gone from the poller's map.
pub connection_destroyed_silent :
    (k : Kernel) (app : App) (c : Connection) (l : EventLoop Task)
    → is_connected c.state ≡ false
    → (l' : EventLoop Task) × (connection_destroyed k app (c, l)
        ≡ ok (record c { channel = record (c.channel) { index = fresh } }, l'))
      × (c.channel.index ≡ added → find c.channel.fd l'.poller.channels ≡ none)
unfolding connection_destroyed
connection_destroyed_silent k app c l over =
    let (l', removed, gone) = remove_from_poller_lem k app c l in (l', rw over removed, gone)

-- On a registered connection that is connected, `connectionDestroyed` first disconnects it, takes it out
-- of the interest list and calls the connection callback once, and then removes the channel.
pub connection_destroyed_connected :
    (k : Kernel) (app : App) (st : Session)
    → EpollLaws k
    → IsRegistered k st
    → is_connected (st.0.state) ≡ true
    → connection_destroyed k app st ≡ (app.on_connection (ended st) >>= remove_from_poller k app)
unfolding connection_destroyed announce_end Events.disable_all
connection_destroyed_connected k app (c, l) laws r up =
    rw (up, update_events_lem k c.channel l 0 laws r.marked r.listed, r.tells)
