-- ===== src/EventLoop/Rounds.antt =====
-- `EventLoop::loop`: one round for each return of `epoll_wait`.
use moduo.Prelude.{
  ℕ, ◌≡◌, Bool-cases, inl, inr, true, false, List, [], ◌∷◌, Outcome, ok, ◌>>=◌, if◌then◌else◌,
}
use moduo.Poller.Wait.{Waited, Store, poll}
use moduo.EventLoop.{EventLoop, is_in_loop_thread, wakeup, quit, do_pending_functors}

-- What `epoll_wait` returns, and the time then.
pub record Round : Type 0 where
  pub now : ℕ
  pub waited : Waited

-- The channels lie in a store by their addresses. `handle` is `handleEvent` of the channel at an
-- address. A list of rounds that runs out leaves the loop waiting in `epoll_wait`.
module _ {F S : Type 0} (run : F → (Store × S) × EventLoop F → Outcome ((Store × S) × EventLoop F))
    (handle : ℕ → ℕ → (Store × S) × EventLoop F → Outcome ((Store × S) × EventLoop F)) where
  unfoldable pub handle_all :
      ℕ → List ℕ → (Store × S) × EventLoop F → Outcome ((Store × S) × EventLoop F)
  handle_all time [] st = ok st
  handle_all time (address ∷ rest) st = handle time address st >>= handle_all time rest

  unfoldable pub round : Round → (Store × S) × EventLoop F → Outcome ((Store × S) × EventLoop F)
  round r ((store, s), l) = do
    (p, a) ← poll r.waited l.poller (record { store = store; active_channels = [] })
    st ← handle_all r.now a.active_channels (
      (a.store, s),
      record l { poller = p; active_channels = a.active_channels; poll_return_time = r.now },
    )
    do_pending_functors run st

  unfoldable pub rounds :
      List Round → (Store × S) × EventLoop F → Outcome ((Store × S) × EventLoop F)
  rounds [] st = ok st
  rounds (r ∷ rs) (s, l) =
      let rest = round r (s, l) >>= rounds rs in if l.quitting then ok (s, l) else rest

  abbrev pub stop_looping : (Store × S) × EventLoop F → Outcome ((Store × S) × EventLoop F)
  stop_looping (s, l) = ok (s, if l.quitting then record l { looping = false } else l)

  unfoldable pub loop : List Round → (Store × S) × EventLoop F → Outcome ((Store × S) × EventLoop F)
  loop rs (s, l) = rounds rs (s, record l { looping = true; quitting = false }) >>= stop_looping

  -- A `quit` that comes before `loop` is forgotten: the loop runs as if nobody had asked it to stop,
  -- but for the write to the eventfd where another thread called `quit`.
  pub loop-quit :
      (rs : List Round) (s : Store × S) (l : EventLoop F) (tid : ℕ)
      → loop rs (s, quit tid l) ≡ loop rs (s, if is_in_loop_thread tid l then l else wakeup l)
  unfolding loop quit wakeup
  loop-quit rs s l tid = elim (Bool-cases (is_in_loop_thread tid l)) [
    | inl own ↦ rw own
    | inr other ↦ rw other
  ]
