-- ===== src/TcpServer/Opening.antt =====
-- The connection that a server makes, up to the first call of its user.
use moduo.Prelude.{ℕ, ◌≡◌, refl, true}
use moduo.Os.{Kernel, returns, ctl_add, epoll_ctl}
use moduo.EventLoop.{EventLoop}
use moduo.Socket
use moduo.Channel
use moduo.TcpConnection.{Session, Task, App, Identity}
use moduo.TcpConnection
use moduo.TcpConnection.Handlers.{connection_established}
use moduo.TcpConnection.Closing.{IsRegistered}
use moduo.TcpConnection.Established.{
  IsOpen, opened, watching, connection_established_lem, opened-IsOpen,
}
use moduo.TcpServer.{TcpServer, make_connection}

-- What `newConnection` makes, `connectionEstablished` opens: where the server has a connection callback
-- and the kernel adds the descriptor, it comes to one call of that callback, on a connection that is
-- connected, idle and found by its poller, that is told of its end, and that calls back for messages and
-- completed writes exactly as the server was set to.
pub make_connection-IsOpen :
    (k : Kernel) (app : App) (s : TcpServer) (who : Identity) (address sockfd : ℕ)
    (l : EventLoop Task) (n : ℕ)
    → s.has_connection ≡ true
    → k.reply (Socket.set_keep_alive sockfd true l.calls) (epoll_ctl ctl_add sockfd 3 address)
      ≡ returns n
    → (st : Session) × (connection_established k app (make_connection s who address sockfd l)
        ≡ app.on_connection st)
      × IsOpen k st
      × IsRegistered k st
      × (st.0.has_message ≡ s.has_message)
      × (st.0.has_write_complete ≡ s.has_write_complete)
unfolding make_connection TcpConnection.new TcpConnection.set_close_callback
    TcpConnection.set_message_callback TcpConnection.set_write_complete_callback
    TcpConnection.set_connection_callback Channel.new
make_connection-IsOpen k app s who address sockfd l n tells accepted =
    let (c, l') = make_connection s who address sockfd l in
    let v = opened-IsOpen k app c l' n refl refl tells accepted refl refl in
    (
      (opened c, watching c l'),
      connection_established_lem k app c l' n refl refl tells accepted,
      v,
      record { marked = v.idle.marked; listed = v.idle.listed; tells = tells; closes = refl },
      refl,
      refl,
    )
