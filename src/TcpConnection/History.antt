-- ===== src/TcpConnection/History.antt =====
-- Any sequence of calls and events on an established connection.
use moduo.Prelude.{ℕ, ◌≤◌, ◌≡◌, Bool, List, [], ◌∷◌, Outcome, ok, ◌>>=◌, >>=-eq-ok, arith}
use native.Mathlib.Nat.{le_trans}
use moduo.Os.{Kernel}
use moduo.TcpConnection.{State, disconnected, Session, Task, App}
use moduo.TcpConnection.Send.{send_in_loop, send, shutdown}
use moduo.TcpConnection.Handlers.{connection_destroyed, handle_event, run_task}
use moduo.TcpConnection.Lifecycle.{
  rank, Later, IsOrderly, send-Later, shutdown-Later, handle_event-Later, run_task-Later,
  connection_destroyed-Later,
}

-- What happens to a connection once it is established: calls of its methods from any thread, events of
-- its channel with what the poller reports, functors run by its loop, and `connectionDestroyed`.
pub data Happening : Type 0 where
  sending : ℕ → ℕ → List ℕ → Happening
  shutting_down : ℕ → Happening
  event : (tid time revents : ℕ) → Bool → Happening
  functor : ℕ → Task → Happening
  destroying : Happening

-- The poller has reported these events of the channel.
abbrev pub reported : ℕ → Session → Session
reported revents (c, l) = (record c { channel = record (c.channel) { revents = revents } }, l)

module _ (k : Kernel) (app : App) where
  unfoldable pub happen : Happening → Session → Outcome Session
  happen (sending tid address bytes) st = send k tid address bytes st
  happen (shutting_down tid) st = ok (shutdown tid st)
  happen (event tid time revents alive) st = handle_event k app tid time alive (reported revents st)
  happen (functor tid t) st = run_task k app tid t st
  happen destroying st = connection_destroyed k app st

  unfoldable pub happen_all : List Happening → Session → Outcome Session
  happen_all [] st = ok st
  happen_all (x ∷ xs) st = happen x st >>= happen_all xs

module _ (k : Kernel) (app : App) (orderly : IsOrderly app) where
  pub happen-Later : (x : Happening) (st st' : Session) → happen k app x st ≡ ok st' → Later st st'
  unfolding happen
  happen-Later (sending tid address bytes) st st' h = send-Later k tid address bytes st st' h
  happen-Later (shutting_down tid) st st' h = ground (arith, shutdown-Later k tid st)
  happen-Later (event tid time revents alive) st st' h =
      handle_event-Later k app orderly tid time alive (reported revents st) st' h
  happen-Later (functor tid t) st st' h = run_task-Later k app orderly tid t st st' h
  happen-Later destroying st st' h = connection_destroyed-Later k app orderly st st' h

  happen_all-Later :
      (xs : List Happening) (st st' : Session) → happen_all k app xs st ≡ ok st' → Later st st'
  unfolding happen_all
  happen_all-Later [] st st' h = ground arith
  happen_all-Later (x ∷ xs) st st' h =
      let (st₁, first, rest) = >>=-eq-ok (happen k app x st) _ h in
      le_trans (happen-Later x st st₁ first) (happen_all-Later xs st₁ st' rest)

stays_last : (s t : State) → s ≡ disconnected → rank s ≤ rank t → rank t ≡ 3
stays_last s t e h = ground arith

last_rank : (s : State) → rank s ≡ 3 → s ≡ disconnected
last_rank s h = ground arith

send_disconnected :
    (k : Kernel) (tid address : ℕ) (bytes : List ℕ) (st : Session)
    → rank (st.0.state) ≡ 3
    → send k tid address bytes st ≡ ok st
unfolding send
send_disconnected k tid address bytes (c, l) h = ground arith

send_in_loop_disconnected :
    (k : Kernel) (tid : ℕ) (bytes : List ℕ) (st : Session)
    → rank (st.0.state) ≡ 3
    → send_in_loop k tid bytes st ≡ ok st
unfolding send_in_loop
send_in_loop_disconnected k tid bytes (c, l) h = ground arith

-- With callbacks that take no connection back, whatever happens to an established connection moves its
-- state only forward, from connecting to connected, disconnecting and disconnected.
pub happen_all_forward :
    (k : Kernel) (app : App)
    → IsOrderly app
    → (xs : List Happening) (st st' : Session) → happen_all k app xs st ≡ ok st'
    → rank (st.0.state) ≤ rank (st'.0.state)
happen_all_forward k app orderly xs st st' h = happen_all-Later k app orderly xs st st' h

-- Once a connection is disconnected, whatever happens to it later, it is disconnected, and neither
-- `send` nor a `sendInLoop` that was still queued writes, buffers or changes anything.
pub happen_all_disconnected :
    (k : Kernel) (app : App)
    → IsOrderly app
    → (xs : List Happening) (st st' : Session) → st.0.state ≡ disconnected
    → happen_all k app xs st ≡ ok st'
    → (st'.0.state ≡ disconnected)
      × ((tid address : ℕ) (bytes : List ℕ) → send k tid address bytes st' ≡ ok st')
      × ((tid : ℕ) (bytes : List ℕ) → send_in_loop k tid bytes st' ≡ ok st')
happen_all_disconnected k app orderly xs st st' closed h =
    let last : rank (st'.0.state) ≡ 3 =
      stays_last (st.0.state) (st'.0.state) closed (happen_all-Later k app orderly xs st st' h) in
    (
      last_rank (st'.0.state) last,
      λ tid address bytes. send_disconnected k tid address bytes st' last,
      λ tid bytes. send_in_loop_disconnected k tid bytes st' last,
    )
