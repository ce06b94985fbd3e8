-- ===== src/TcpServer/Silent.antt =====
-- A connection that the server made, once it is disconnected: what it still sends.
use moduo.Prelude.{ℕ, ◌≡◌, refl, inl, inr, true, List, ok, ◌>>=◌, arith}
use moduo.Os.{Kernel, returns, ctl_add, epoll_ctl}
use moduo.Socket
use moduo.Poller.Interest.{EpollLaws}
use moduo.EventLoop.{EventLoop}
use moduo.TcpConnection.{Session, Task, App, Identity, disconnected}
use moduo.TcpConnection.Send.{send_in_loop, send}
use moduo.TcpConnection.Handlers.{connection_established, handle_write}
use moduo.TcpConnection.History.{Happening, happen_all, happen_all_disconnected}
use moduo.TcpConnection.Lifecycle.{IsOrderly}
use moduo.TcpConnection.Watched.{IsWatched}
use moduo.TcpConnection.Watched.Handlers.{KeepsWatch}
use moduo.TcpConnection.Watched.Whole.{is_before_end, happen_all-Watched}
use moduo.TcpServer.{TcpServer, make_connection}
use moduo.TcpServer.Lifetime.{whole_life-Watched}

-- A disconnected connection asks for no events, so that an EPOLLOUT that is still reported writes nothing.
handle_write_silent :
    (k : Kernel) (fd address tid : ℕ) (st : Session)
    → IsWatched k fd address st
    → st.0.state ≡ disconnected
    → handle_write k tid st ≡ ok st
unfolding handle_write
handle_write_silent k fd address tid (c, l) v closed = elim v.asks [
  | inl (_, nothing) ↦ rw nothing refl
  | inr (open_state, _) ↦ ground (arith, closed)
]

-- Of a connection that a server with a connection callback makes, whose callbacks do no more to its
-- channel than a connection does and do not take its state back, on a kernel that keeps to the
-- documentation of epoll and adds the descriptor: once it is disconnected, whatever is called, reported or
-- run afterwards and returns, before `connectionDestroyed`, it is disconnected, and `send`, a `sendInLoop` that
-- was still queued, and `handleWrite` on an EPOLLOUT that is still reported write, buffer and change nothing.
pub silent_once_disconnected :
    (k : Kernel) (app : App) (s : TcpServer) (who : Identity) (address sockfd : ℕ)
    (l : EventLoop Task) (n : ℕ) (xs ys : List Happening) (st st' : Session)
    → EpollLaws k
    → KeepsWatch k sockfd address app
    → IsOrderly app
    → s.has_connection ≡ true
    → k.reply (Socket.set_keep_alive sockfd true l.calls) (epoll_ctl ctl_add sockfd 3 address)
      ≡ returns n
    → is_before_end xs ≡ true
    → is_before_end ys ≡ true
    → (connection_established k app (make_connection s who address sockfd l)
        >>= happen_all k app xs)
      ≡ ok st
    → st.0.state ≡ disconnected
    → happen_all k app ys st ≡ ok st'
    → (st'.0.state ≡ disconnected)
      × ((tid at : ℕ) (bytes : List ℕ) → send k tid at bytes st' ≡ ok st')
      × ((tid : ℕ) (bytes : List ℕ) → send_in_loop k tid bytes st' ≡ ok st')
      × ((tid : ℕ) → handle_write k tid st' ≡ ok st')
silent_once_disconnected k app s who address sockfd l n xs ys st st' laws keeps orderly tells
      accepted before before' lived closed went_on =
    let v =
      whole_life-Watched k app s who address sockfd l n laws keeps tells accepted xs st before
        lived in
    let v' = happen_all-Watched k sockfd address app laws keeps ys st st' before' went_on v in
    let (still, no_send, no_send_in_loop) =
      happen_all_disconnected k app orderly ys st st' closed went_on in
    (still, no_send, no_send_in_loop, λ tid. handle_write_silent k sockfd address tid st' v' still)
