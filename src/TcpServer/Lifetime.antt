-- ===== src/TcpServer/Lifetime.antt =====
-- The life of a connection that the server makes: when the kernel watches its descriptor.
use moduo.Prelude.{
  ℕ, ◌≡◌, refl, sym, ap, ◌∙◌, inr, inl, true, false, not, none, some, List, ◌∷◌, ok, ◌>>=◌,
  >>=-eq-ok,
}
use moduo.Os.{Kernel, returns, ctl_add, epoll_ctl, close}
use moduo.Socket
use moduo.Poller.{find}
use moduo.Poller.Interest.{EpollLaws, registered}
use moduo.EventLoop.{EventLoop}
use moduo.Channel
use moduo.TcpConnection.{Session, Task, App, Identity, is_disconnected}
use moduo.TcpConnection
use moduo.TcpConnection.Handlers.{connection_established, connection_destroyed}
use moduo.TcpConnection.History.{Happening, happen_all}
use moduo.TcpConnection.Established.{opened, watching, connection_established_lem, opened-IsOpen}
use moduo.TcpConnection.Watched.{IsWatched}
use moduo.TcpConnection.Watched.Handlers.{KeepsWatch}
use moduo.TcpConnection.Watched.Whole.{
  is_before_end, happen_all-Watched, connection_destroyed_unwatches,
}
use moduo.TcpServer.{TcpServer, make_connection}

module _ (k : Kernel) (app : App) (s : TcpServer) (who : Identity) (address sockfd : ℕ)
    (l : EventLoop Task) (n : ℕ) (laws : EpollLaws k) (keeps : KeepsWatch k sockfd address app)
    (tells : s.has_connection ≡ true)
    (accepted : k.reply
        (Socket.set_keep_alive sockfd true l.calls)
        (epoll_ctl ctl_add sockfd 3 address)
      ≡ returns n) where
  pub established-Watched :
      (st : Session)
      → connection_established k app (make_connection s who address sockfd l) ≡ ok st
      → IsWatched k sockfd address st
  unfolding make_connection TcpConnection.new TcpConnection.set_close_callback
      TcpConnection.set_message_callback TcpConnection.set_write_complete_callback
      TcpConnection.set_connection_callback Channel.new
  established-Watched st done =
      let (c, l') = make_connection s who address sockfd l in
      let v = opened-IsOpen k app c l' n refl refl tells accepted refl refl in
      keeps.connection (opened c, watching c l') st
        (sym (connection_established_lem k app c l' n refl refl tells accepted) ∙ done)
        (record {
          marked = refl;
          same_fd = refl;
          same_address = refl;
          same_socket = refl;
          found = v.found;
          listed = v.idle.listed;
          asks = inr (refl, inl refl);
        })

  pub whole_life-Watched :
      (xs : List Happening) (st : Session)
      → is_before_end xs ≡ true
      → (connection_established k app (make_connection s who address sockfd l)
          >>= happen_all k app xs)
        ≡ ok st
      → IsWatched k sockfd address st
  whole_life-Watched xs st before done =
      let (st₀, first, rest) =
        >>=-eq-ok (connection_established k app (make_connection s who address sockfd l)) _ done in
      happen_all-Watched k sockfd address app laws keeps xs st₀ st before rest
        (established-Watched st₀ first)

-- Of a connection that a server with a connection callback makes, whose callbacks do no more to its
-- channel than a connection does, on a kernel that keeps to the documentation of epoll and adds the
-- descriptor: after any calls, events of whatever kind and functors that return, from
-- `connectionEstablished` on and before `connectionDestroyed`, the kernel watches the descriptor exactly if
-- the connection is not disconnected, and the poller's map has the connection's channel under it.
pub watched_while_open :
    (k : Kernel) (app : App) (s : TcpServer) (who : Identity) (address sockfd : ℕ)
    (l : EventLoop Task) (n : ℕ) (xs : List Happening) (st : Session)
    → EpollLaws k
    → KeepsWatch k sockfd address app
    → s.has_connection ≡ true
    → k.reply (Socket.set_keep_alive sockfd true l.calls) (epoll_ctl ctl_add sockfd 3 address)
      ≡ returns n
    → is_before_end xs ≡ true
    → (connection_established k app (make_connection s who address sockfd l)
        >>= happen_all k app xs)
      ≡ ok st
    → (registered k sockfd (st.1.calls) ≡ not (is_disconnected (st.0.state)))
      × (find sockfd st.1.poller.channels ≡ some address)
watched_while_open k app s who address sockfd l n xs st laws keeps tells accepted before done =
    let v =
      whole_life-Watched k app s who address sockfd l n laws keeps tells accepted xs st before
        done in
    (v.listed, v.found)

-- Of a connection that a server with a connection callback makes, whose callbacks do no more to its
-- channel than a connection does, on a kernel that keeps to the documentation of epoll and adds the
-- descriptor: after any calls, events and functors from `connectionEstablished` on, and `connectionDestroyed`
-- at the end, where all return, the kernel does not watch the descriptor and the poller's map has nothing
-- under it, when the destructor of the connection closes that descriptor.
pub closed_unwatched :
    (k : Kernel) (app : App) (s : TcpServer) (who : Identity) (address sockfd : ℕ)
    (l : EventLoop Task) (n : ℕ) (xs : List Happening) (st : Session)
    → EpollLaws k
    → KeepsWatch k sockfd address app
    → s.has_connection ≡ true
    → k.reply (Socket.set_keep_alive sockfd true l.calls) (epoll_ctl ctl_add sockfd 3 address)
      ≡ returns n
    → is_before_end xs ≡ true
    → (connection_established k app (make_connection s who address sockfd l)
        >>= happen_all k app xs
        >>= connection_destroyed k app)
      ≡ ok st
    → (registered k sockfd (st.1.calls) ≡ false)
      × (find sockfd (TcpConnection.destroy st).poller.channels ≡ none)
      × ((TcpConnection.destroy st).calls ≡ close sockfd ∷ st.1.calls)
unfolding TcpConnection.destroy Socket.destroy
closed_unwatched k app s who address sockfd l n xs st laws keeps tells accepted before done =
    let (st₁, lived, destroyed) =
      >>=-eq-ok
        (connection_established k app (make_connection s who address sockfd l)
          >>= happen_all k app xs)
        _ done in
    let v =
      whole_life-Watched k app s who address sockfd l n laws keeps tells accepted xs st₁ before
        lived in
    let over = connection_destroyed_unwatches k sockfd address app laws keeps st₁ st destroyed v in
    (over.unwatched, over.unknown, ap (λ fd. close fd ∷ st.1.calls) over.same_socket)
