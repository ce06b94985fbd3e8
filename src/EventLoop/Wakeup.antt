-- ===== src/EventLoop/Wakeup.antt =====
-- The loop's thread against the threads that queue functors, as steps in any order. The mutex makes
-- the push a step of its own; the test that follows it and the write to the eventfd are another.
use moduo.Prelude.{
  ℕ, suc, ◌+◌, ◌<◌, ◌≡◌, ◌≢◌, ◌⊎◌, inl, inr, Bool, true, false, List, [], ◌∷◌, arith, if◌then◌else◌,
}
use moduo.EventLoop.{EventLoop, is_in_loop_thread, push_functor, needs_wakeup}

-- Where the loop's thread is in `EventLoop::loop`. `running` holds the functors still to be run.
pub data Phase (F : Type 0) : Type 0 where
  polling : Phase F
  handling : Phase F
  running : List F → Phase F

-- `counter` is the value of the eventfd; `wakers` counts the threads between their push and their
-- write.
pub record System (F : Type 0) : Type 0 where
  pub loop : EventLoop F
  pub phase : Phase F
  pub counter : ℕ
  pub wakers : ℕ

-- A push and the later write of another thread; the loop's thread returning from `epoll_wait`, which it
-- may do at any time, reading the eventfd, and going through `doPendingFunctors`. The thread itself may
-- queue while it handles events or runs functors.
pub data Step {F : Type 0} : System F → System F → Type 0 where
  push :
      (s : System F) (tid : ℕ) (f : F)
      → is_in_loop_thread tid s.loop ≡ false
      → Step s (record s {
        loop = push_functor f s.loop;
        wakers = if needs_wakeup tid (push_functor f s.loop) then suc s.wakers else s.wakers;
      })
  wake :
      (s : System F) (n : ℕ)
      → s.wakers ≡ suc n
      → Step s (record s { counter = suc s.counter; wakers = n })
  poll_returns : (s : System F) → s.phase ≡ polling → Step s (record s { phase = handling })
  drain : (s : System F) → s.phase ≡ handling → Step s (record s { counter = 0 })
  queue :
      (s : System F) (tid : ℕ) (f : F)
      → is_in_loop_thread tid s.loop ≡ true
      → s.phase ≢ polling
      → Step s (record s {
        loop = push_functor f s.loop;
        counter = if needs_wakeup tid (push_functor f s.loop) then suc s.counter else s.counter;
      })
  swap :
      (s : System F)
      → s.phase ≡ handling
      → Step s (record s {
        loop = record (s.loop) { calling_pending_functors = true; pending_functors = [] };
        phase = running (s.loop.pending_functors);
      })
  run_one :
      (s : System F) (f : F) (fs : List F)
      → s.phase ≡ running (f ∷ fs)
      → Step s (record s { phase = running fs })
  finish :
      (s : System F)
      → s.phase ≡ running []
      → Step s (record s {
        loop = record (s.loop) { calling_pending_functors = false };
        phase = polling;
      })

pub data Reach {F : Type 0} (s : System F) : System F → Type 0 where
  here : Reach s s
  next : {t u : System F} → Reach s t → Step t u → Reach s u

abbrev pub is_running : {F : Type 0} → Phase F → Bool
is_running polling = false
is_running handling = false
is_running (running fs) = true

-- Something wakes the loop's thread: a value in the eventfd, or a thread about to write one.
abbrev pub Woken : {F : Type 0} → System F → Type 0
Woken s = (s.loop.pending_functors ≡ []) ⊎ (0 < s.counter + s.wakers)

pub record NoLostWakeup {F : Type 0} (s : System F) : Type 0 where
  pub marked : s.loop.calling_pending_functors ≡ is_running s.phase
  pub woken : (s.phase ≡ handling) ⊎ Woken s

Step-NoLostWakeup : {F : Type 0} {s t : System F} → Step s t → NoLostWakeup s → NoLostWakeup t
unfolding push_functor needs_wakeup
Step-NoLostWakeup (push s tid f other) v = ground arith
Step-NoLostWakeup (wake s n e) v = ground arith
Step-NoLostWakeup (poll_returns s e) v = ground arith
Step-NoLostWakeup (drain s e) v = ground arith
Step-NoLostWakeup (queue s tid f own busy) v = ground arith
Step-NoLostWakeup (swap s e) v = ground arith
Step-NoLostWakeup (run_one s f fs e) v = ground arith
Step-NoLostWakeup (finish s e) v = ground arith

Reach-NoLostWakeup : {F : Type 0} {s t : System F} → Reach s t → NoLostWakeup s → NoLostWakeup t
Reach-NoLostWakeup here v = v
Reach-NoLostWakeup (next r st) v = Step-NoLostWakeup st (Reach-NoLostWakeup r v)

-- No wakeup is lost: from a system with an empty queue, in which `callingPendingFunctors_` says whether
-- the loop runs functors, whatever the threads do, a system at `epoll_wait` whose queue is not empty has
-- a value in the eventfd or a thread about to write.
pub Reach-polling :
    {F : Type 0} {s t : System F}
    → s.loop.calling_pending_functors ≡ is_running s.phase
    → s.loop.pending_functors ≡ []
    → Reach s t
    → t.phase ≡ polling
    → t.loop.pending_functors ≢ []
    → 0 < t.counter + t.wakers
Reach-polling {s} {t} marked empty r at_poll some_functor =
    ground (arith, Reach-NoLostWakeup r (record { marked = marked; woken = inr (inl empty) }))
