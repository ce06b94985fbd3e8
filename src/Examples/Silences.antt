-- ===== src/Examples/Silences.antt =====
-- A connection of the echo server that was hung up, when EPOLLOUT is still reported.
use moduo.Prelude.{ℕ, ◌≡◌, refl, List, [], ◌∷◌, ok, arith, true}
use moduo.Channel
use moduo.TcpConnection.{Session, disconnected}
use moduo.TcpConnection
use moduo.TcpConnection.Send.{send, send_in_loop}
use moduo.TcpConnection.Handlers.{handle_write, handle_event, call_callback}
use moduo.TcpConnection.History.{event, happen, happen_all}
use moduo.TcpServer.{make_connection}
use moduo.TcpServer.Silent.{silent_once_disconnected}
use moduo.EchoServer.Watching.{echo-IsOrderly}
use moduo.Examples.Kernels.{kernel, kernel-EpollLaws}
use moduo.Examples.Loops.{loop}
use moduo.Examples.Connections.{who}
use moduo.Examples.Echo.{server}
use moduo.Examples.Lives.{echoes, echoes-KeepsWatch, happenings, hung_up, hung_up_lem}

abbrev reported_again : Session
reported_again =
    let (c, l) = hung_up in (record c { channel = record (c.channel) { revents = 4 } }, l)

reported_again_lem :
    happen_all (kernel 9 []) echoes (event 5 4 4 true ∷ []) hung_up ≡ ok reported_again
unfolding make_connection TcpConnection.new TcpConnection.set_close_callback
    TcpConnection.set_write_complete_callback TcpConnection.set_message_callback
    TcpConnection.set_connection_callback Channel.new happen_all happen handle_event
    Channel.handle_event Channel.handle_event_with_guard call_callback handle_write
reported_again_lem = refl

silent_once_disconnected_example :
    (disconnected ≡ disconnected)
    × ((tid at : ℕ) (bytes : List ℕ)
        → send (kernel 9 []) tid at bytes reported_again ≡ ok reported_again)
    × ((tid : ℕ) (bytes : List ℕ)
        → send_in_loop (kernel 9 []) tid bytes reported_again ≡ ok reported_again)
    × ((tid : ℕ) → handle_write (kernel 9 []) tid reported_again ≡ ok reported_again)
silent_once_disconnected_example =
    silent_once_disconnected (kernel 9 []) echoes server who 40 7 (loop []) 0 happenings
      (event 5 4 4 true ∷ []) hung_up reported_again (kernel-EpollLaws 9 []) echoes-KeepsWatch
      (echo-IsOrderly (kernel 9 []) 5 90 ok (λ st st' e. ground arith)) refl refl refl refl
      hung_up_lem refl reported_again_lem
