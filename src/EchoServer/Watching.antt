-- ===== src/EchoServer/Watching.antt =====
-- The echo server's callbacks leave the descriptor of their connection where it is watched, and move the
-- connection's state only forward.
use moduo.Prelude.{ℕ, ◌≡◌, refl, Outcome, ok, >>=-eq-ok, arith, subst}
use moduo.Os.{Kernel}
use moduo.Poller.Interest.{EpollLaws}
use moduo.Buffer
use moduo.TcpConnection.{Session}
use moduo.TcpConnection.Send.{send, shutdown}
use moduo.TcpConnection.Watched.{IsWatched, quiet-IsWatched}
use moduo.TcpConnection.Watched.Operations.{carried, send-Watched, shutdown-Watched}
use moduo.TcpConnection.Watched.Handlers.{KeepsWatch}
use native.Mathlib.Nat.{le_trans}
use moduo.TcpConnection.Lifecycle.{Later, IsOrderly, send-Later, shutdown-Later}
use moduo.EchoServer.{on_connection, on_message, echo}

module _ (k : Kernel) (fd address tid message : ℕ) (laws : EpollLaws k) where
  on_message-IsWatched :
      (st st' : Session)
      → on_message k tid message st ≡ ok st'
      → IsWatched k fd address st
      → IsWatched k fd address st'
  unfolding on_message
  on_message-IsWatched (c, l) st' done v =
      let ((msg, b), _, rest) = >>=-eq-ok (Buffer.retrieve_all_as_string c.input_buffer) _ done in
      let (st₁, sent, shut) =
        >>=-eq-ok (send k tid message msg (record c { input_buffer = b }, l)) _ rest in
      let taken =
        quiet-IsWatched k fd address c (record c { input_buffer = b }) l l refl refl refl refl refl
          v in
      carried k fd address tid shut (
        shutdown-Watched k fd address tid st₁
          (send-Watched k fd address tid message msg _ st₁ laws sent taken))

  pub echo-KeepsWatch :
      (on_close : Session → Outcome Session)
      → ((st st' : Session)
          → on_close st ≡ ok st'
          → IsWatched k fd address st
          → IsWatched k fd address st')
      → KeepsWatch k fd address (echo k tid message on_close)
  unfolding on_connection echo
  echo-KeepsWatch on_close closes = record {
    connection = λ st st' done v. carried k fd address tid done v;
    message = λ time st st' done v. on_message-IsWatched st st' done v;
    write_complete = λ st st' done v. carried k fd address tid done v;
    high_water_mark = λ n st st' done v. carried k fd address tid done v;
    close = closes;
  }

on_message-Later :
    (k : Kernel) (tid message : ℕ) (st st' : Session)
    → on_message k tid message st ≡ ok st'
    → Later st st'
unfolding on_message
on_message-Later k tid message (c, l) st' done =
    let ((msg, b), _, rest) = >>=-eq-ok (Buffer.retrieve_all_as_string c.input_buffer) _ done in
    let (st₁, sent, shut) =
      >>=-eq-ok (send k tid message msg (record c { input_buffer = b }, l)) _ rest in
    let same : shutdown tid st₁ ≡ st' = cc shut in
    le_trans (send-Later k tid message msg _ st₁ sent)
      (subst (Later st₁) same (shutdown-Later k tid st₁))

pub echo-IsOrderly :
    (k : Kernel) (tid message : ℕ) (on_close : Session → Outcome Session)
    → ((st st' : Session) → on_close st ≡ ok st' → Later st st')
    → IsOrderly (echo k tid message on_close)
unfolding on_connection echo
echo-IsOrderly k tid message on_close closes = record {
  connection = λ st st' done. ground arith;
  message = λ time st st' done. on_message-Later k tid message st st' done;
  write_complete = λ st st' done. ground arith;
  high_water_mark = λ n st st' done. ground arith;
  close = closes;
}
