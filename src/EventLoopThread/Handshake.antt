-- ===== src/EventLoopThread/Handshake.antt =====
-- `startLoop` against `threadFunc`: it returns whatever the order of the steps.
use moduo.Prelude.{ℕ, ◌+◌, ◌*◌, if◌then◌else◌, ◌-◌, ◌<◌, ◌≡◌, refl, ◌⊎◌, inl, inr, false, arith}
use moduo.EventLoopThread.{
  waiting, running, Worker, unborn, constructing, initializing, publishing, entering, looping,
  leaving, clearing, finished, EventLoopThread, new, Step, start_thread, construct, call_back,
  publish, fall_asleep, wake, enter, ask, leave, clear, vanish, destroy_idle, see_loop, see_none,
  read_loop, quit_null, set_quit, set_gone, finish_quit, finish_gone, join, Reach,
}
use moduo.EventLoopThread.Soundness.{stage, IsUnasked, Step-IsUnasked, Reach-IsUnasked}
use moduo.EventLoopThread.Inevitable.{Inevitably, Inevitably_by}

abbrev IsWaiting : EventLoopThread → Type 0
IsWaiting s = (s.owner ≡ waiting) × IsUnasked s

waiting_on : (s : EventLoopThread) → IsWaiting s → (u : EventLoopThread) × Step false s u
waiting_on s (e, v) = go (s.worker) refl
  where
    go : (w : Worker) → s.worker ≡ w → (u : EventLoopThread) × Step false s u
    go unborn h = absurd (ground arith)
    go constructing h = (_, construct s h)
    go initializing h = (_, call_back s h)
    go publishing h = (_, publish s h)
    go entering h = (_, enter s h)
    go looping h = (_, wake s e (ground arith) (ground arith))
    go leaving h = absurd (ground arith)
    go clearing h = absurd (ground arith)
    go finished h = absurd (ground arith)

-- What is left until the owner runs.
abbrev left : EventLoopThread → ℕ
left s = (if s.asleep then 0 else 1) + 2 * (8 - stage s.worker)

waiting_lower :
    {s t : EventLoopThread}
    → Step false s t
    → s.owner ≡ waiting
    → IsUnasked s
    → (t.owner ≡ running) ⊎ ((t.owner ≡ waiting) × (left t < left s))
waiting_lower (start_thread s e) w v = ground arith
waiting_lower (construct s e) w v = ground arith
waiting_lower (call_back s e) w v = ground arith
waiting_lower (publish s e) w v = ground arith
waiting_lower (fall_asleep s e a q) w v = ground arith
waiting_lower (wake s e a q) w v = inl refl
waiting_lower (enter s e) w v = ground arith
waiting_lower (ask s e q) w v = cc
waiting_lower (leave s e q) w v = ground arith
waiting_lower (clear s e) w v = ground arith
waiting_lower (vanish s e) w v = ground arith
waiting_lower (destroy_idle s e) w v = ground arith
waiting_lower (see_loop s e q) w v = ground arith
waiting_lower (see_none s e q) w v = ground arith
waiting_lower (read_loop s e q) w v = ground arith
waiting_lower (quit_null s e q) w v = ground arith
waiting_lower (set_quit s e q) w v = ground arith
waiting_lower (set_gone s e q) w v = ground arith
waiting_lower (finish_quit s e q) w v = ground arith
waiting_lower (finish_gone s e q) w v = ground arith
waiting_lower (join s e q) w v = ground arith

-- Where nobody but the destructor asks the loop to quit, `startLoop`, which waits to be
-- notified, returns, in whatever order the threads take their steps.
pub start_loop_returns :
    (t : EventLoopThread)
    → Reach false new t
    → t.owner ≡ waiting
    → Inevitably false (λ u. u.owner ≡ running) t
start_loop_returns t r e =
    Inevitably_by {I = IsWaiting} left waiting_on
      (λ s u v st. elim (waiting_lower st (v.0) (v.1)) [
        | inl done ↦ inl done
        | inr (still, falls) ↦ inr ((still, Step-IsUnasked st (v.1)), falls)
      ])
      20 t (ground arith) (e, Reach-IsUnasked r)
