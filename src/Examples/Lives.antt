-- ===== src/Examples/Lives.antt =====
-- The whole life of a connection of the echo server, and sends from another thread.
use moduo.Prelude.{◌≡◌, refl, false, true, none, some, List, [], ◌∷◌, ok, undefined, ◌>>=◌}
use moduo.Os.{ctl_del, epoll_ctl, shutdown_wr, close}
use moduo.Poller.{find, insert}
use moduo.Poller
use moduo.Poller.Interest.{registered}
use moduo.Socket
use moduo.Channel.{fresh}
use moduo.Channel
use moduo.Channel.Events
use moduo.EventLoop
use moduo.EventLoop.{is_in_loop_thread, do_pending_functors}
use moduo.TcpConnection.{Session, App, is_disconnected, disconnected}
use moduo.TcpConnection
use moduo.TcpConnection.Send.{send, shutdown, shutdown_in_loop}
use moduo.TcpConnection.Handlers.{
  connection_established, connection_destroyed, handle_event, handle_close, call_callback,
  remove_from_poller, run_task,
}
use moduo.TcpConnection.History.{Happening, shutting_down, event, happen, happen_all}
use moduo.TcpConnection.Established.{opened, watching}
use moduo.TcpConnection.Crossing.{send_reads_later}
use moduo.TcpConnection.Watched.Operations.{carried}
use moduo.TcpConnection.Watched.Handlers.{KeepsWatch}
use moduo.TcpServer.{make_connection}
use moduo.TcpServer.Lifetime.{watched_while_open, closed_unwatched}
use moduo.EchoServer.{echo, on_connection}
use moduo.EchoServer.Watching.{echo-KeepsWatch}
use moduo.Examples.Kernels.{kernel, kernel-EpollLaws}
use moduo.Examples.Loops.{loop}
use moduo.Examples.Connections.{who}
use moduo.Examples.Echo.{server}

abbrev pub echoes : App
echoes = echo (kernel 9 []) 5 90 ok

-- The user shuts the connection down, and a hang-up is reported.
abbrev pub happenings : List Happening
happenings = shutting_down 5 ∷ event 5 3 16 true ∷ []

abbrev pub established : Session
established = let (c, l) = make_connection server who 40 7 (loop []) in (opened c, watching c l)

abbrev pub hung_up : Session
hung_up =
    let (c, l) = established in
    (
      record c { state = disconnected; channel = record (c.channel) { events = 0; revents = 16 } },
      record l { calls = epoll_ctl ctl_del 7 0 40 ∷ shutdown_wr 7 ∷ l.calls },
    )

pub hung_up_lem :
    (connection_established (kernel 9 []) echoes (make_connection server who 40 7 (loop []))
      >>= happen_all (kernel 9 []) echoes happenings)
    ≡ ok hung_up
unfolding make_connection TcpConnection.new TcpConnection.set_close_callback
    TcpConnection.set_write_complete_callback TcpConnection.set_message_callback
    TcpConnection.set_connection_callback Channel.new Channel.tie Socket.set_keep_alive
    Socket.shutdown_write Events.enable_reading Events.disable_all Events.update_events
    EventLoop.update_channel Poller.update_channel Poller.update_channel_at Poller.register
    Poller.update insert echo on_connection connection_established happen_all happen shutdown
    shutdown_in_loop handle_event Channel.handle_event Channel.handle_event_with_guard call_callback
    handle_close
hung_up_lem = refl

pub echoes-KeepsWatch : KeepsWatch (kernel 9 []) 7 40 echoes
echoes-KeepsWatch =
    echo-KeepsWatch (kernel 9 []) 7 40 5 90 (kernel-EpollLaws 9 []) ok
      (λ st st' e v. carried (kernel 9 []) 7 40 5 e v)

watched_while_open_example :
    (registered (kernel 9 []) 7 (hung_up.1.calls) ≡ false)
    × (find 7 hung_up.1.poller.channels ≡ some 40)
watched_while_open_example =
    watched_while_open (kernel 9 []) echoes server who 40 7 (loop []) 0 happenings hung_up
      (kernel-EpollLaws 9 []) echoes-KeepsWatch refl refl refl hung_up_lem

abbrev destroyed : Session
destroyed =
    let (c, l) = hung_up in
    (
      record c { channel = record (c.channel) { index = fresh } },
      record l {
        poller = record (l.poller) { channels = [] };
        calls = epoll_ctl ctl_del 7 0 40 ∷ l.calls;
      },
    )

destroyed_lem : connection_destroyed (kernel 9 []) echoes hung_up ≡ ok destroyed
unfolding make_connection TcpConnection.new TcpConnection.set_close_callback
    TcpConnection.set_write_complete_callback TcpConnection.set_message_callback
    TcpConnection.set_connection_callback Channel.new connection_destroyed remove_from_poller
    Events.remove EventLoop.remove_channel Poller.remove_channel Poller.remove_channel_at
    Poller.update insert Poller.erase
destroyed_lem = refl

closed_unwatched_example :
    (registered (kernel 9 []) 7 (destroyed.1.calls) ≡ false)
    × (find 7 (TcpConnection.destroy destroyed).poller.channels ≡ none)
    × ((TcpConnection.destroy destroyed).calls ≡ close 7 ∷ destroyed.1.calls)
closed_unwatched_example =
    closed_unwatched (kernel 9 []) echoes server who 40 7 (loop []) 0 happenings destroyed
      (kernel-EpollLaws 9 []) echoes-KeepsWatch refl refl refl (rw hung_up_lem destroyed_lem)

-- The string of the caller is gone when the loop of the thread 5 runs what the thread 6 queued.
abbrev forgetful : App
forgetful = record echoes { memory = λ address len. undefined }

send_reads_later_example :
    (st : Session) × (send (kernel 9 []) 6 70 (1 ∷ 2 ∷ []) established ≡ ok st)
    × (st.0 ≡ established.0)
    × (do_pending_functors (run_task (kernel 9 []) forgetful 5) st ≡ undefined)
unfolding make_connection TcpConnection.new
send_reads_later_example =
    let (c, l) = established in
    send_reads_later (kernel 9 []) forgetful 6 70 (1 ∷ 2 ∷ []) c l refl refl refl
