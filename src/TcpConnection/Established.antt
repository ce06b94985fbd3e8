-- ===== src/TcpConnection/Established.antt =====
-- `connectionEstablished`: what a new connection is when its user first sees it.
use moduo.Prelude.{ℕ, ◌≡◌, true, some, ◌∷◌, arith}
use moduo.Os.{Kernel, returns, ctl_add, epoll_ctl}
use moduo.Buffer
use moduo.Channel.{fresh, added, tie}
use moduo.Channel.Events
use moduo.Poller.{find, insert}
use moduo.Poller
use moduo.Poller.Registry.{find-insert}
use moduo.Poller.Interest.{registered}
use moduo.EventLoop.{EventLoop}
use moduo.EventLoop
use moduo.TcpConnection.{Connection, Session, Task, App, connected}
use moduo.TcpConnection.Handlers.{connection_established}
use moduo.TcpConnection.Sending.{IsIdle}

-- A connection that is connected, waits for input, has nothing to write, and whose channel its poller
-- has under the descriptor.
pub record IsOpen (k : Kernel) (st : Session) : Type 0 where
  pub idle : IsIdle k st
  pub open_now : st.0.state ≡ connected
  pub reads_in : st.0.channel.has_read ≡ true
  pub tied : st.0.channel.tied ≡ true
  pub found : find (st.0.channel.fd) st.1.poller.channels ≡ some (st.0.channel.address)

-- The members of the connection at `address`, before anything is done with it, and when its user first
-- sees it.
abbrev pub opened : Connection → Connection
opened c = record c {
  state = connected;
  channel = record (c.channel) { tied = true; events = 3; index = added };
}

-- The loop that has added the connection's channel.
abbrev pub watching : Connection → EventLoop Task → EventLoop Task
watching c l = record l {
  poller = record (l.poller) { channels = insert c.channel.fd c.channel.address l.poller.channels };
  calls = epoll_ctl ctl_add c.channel.fd 3 c.channel.address ∷ l.calls;
}

module _ (k : Kernel) (app : App) (c : Connection) (l : EventLoop Task) (n : ℕ)
    (unknown : c.channel.index ≡ fresh) (quiet : c.channel.events ≡ 0)
    (tells : c.has_connection ≡ true)
    (accepted : k.reply l.calls (epoll_ctl ctl_add c.channel.fd 3 c.channel.address)
      ≡ returns n) where
  pub connection_established_lem :
      connection_established k app (c, l) ≡ app.on_connection (opened c, watching c l)
  unfolding connection_established Events.enable_reading Events.update_events tie
      EventLoop.update_channel Poller.update_channel Poller.update_channel_at Poller.register
      Poller.update
  connection_established_lem = ground arith

  pub opened-IsOpen :
      c.output_buffer ≡ Buffer.new Buffer.initial_size
      → c.channel.has_read ≡ true
      → IsOpen k (opened c, watching c l)
  unfolding registered Buffer.new
  opened-IsOpen empty reads =
      ground (arith, find-insert c.channel.fd c.channel.fd c.channel.address l.poller.channels)
