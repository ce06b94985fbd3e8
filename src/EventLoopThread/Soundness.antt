-- ===== src/EventLoopThread/Soundness.antt =====
-- What holds in every state of an `EventLoopThread`.
use moduo.Prelude.{ℕ, ◌≤◌, ◌≡◌, ◌≢◌, refl, ◌⊎◌, Bool, true, false, arith}
use moduo.EventLoopThread.{
  Owner, idle, waiting, running, quitting, calling, waking, gone, faulted, Worker, unborn,
  constructing, initializing, publishing, entering, looping, leaving, clearing, finished,
  EventLoopThread, new, Step, start_thread, construct, call_back, publish, fall_asleep, wake, enter,
  ask, leave, clear, vanish, destroy_idle, see_loop, see_none, read_loop, quit_null, set_quit,
  set_gone, finish_quit, finish_gone, join, Reach, here, next,
}

-- How far the thread is.
abbrev pub stage : Worker → ℕ
stage unborn = 0
stage constructing = 1
stage initializing = 2
stage publishing = 3
stage entering = 4
stage looping = 5
stage leaving = 6
stage clearing = 7
stage finished = 8

-- `loop_` points to the loop.
abbrev pub is_live : Worker → Bool
is_live entering = true
is_live looping = true
is_live leaving = true
is_live _ = false

-- The thread is as far as the owner may rely on.
abbrev pub Follows : Owner → Worker → Type 0
Follows idle w = w ≡ unborn
Follows waiting w = 1 ≤ stage w
Follows gone w = (w ≡ unborn) ⊎ (w ≡ finished)
Follows _ w = 4 ≤ stage w

pub record IsSound (s : EventLoopThread) : Type 0 where
  pub points : s.published ≡ is_live s.worker
  pub follows : Follows s.owner s.worker

-- No loop has been asked to quit by anybody but the destructor, and the owner does not sleep on a loop that
-- is published.
abbrev pub Unasked : Owner → Worker → (asleep quit : Bool) → Type 0
Unasked waiting w a q = (q ≡ false) × (stage w ≤ 5) × ((a ≡ false) ⊎ (stage w ≤ 3))
Unasked running w a q = (q ≡ false) × (stage w ≤ 5)
Unasked quitting w a q = (q ≡ false) × (stage w ≤ 5)
Unasked calling w a q = (q ≡ false) × (stage w ≤ 5)
Unasked idle w a q = q ≡ false
Unasked _ w a q = Unit {0}

pub Step-IsSound : {asked : Bool} {s t : EventLoopThread} → Step asked s t → IsSound s → IsSound t
Step-IsSound (start_thread s e) v = ground arith
Step-IsSound (construct s e) v = ground arith
Step-IsSound (call_back s e) v = ground arith
Step-IsSound (publish s e) v = ground arith
Step-IsSound (fall_asleep s e a q) v = ground arith
Step-IsSound (wake s e a q) v = ground arith
Step-IsSound (enter s e) v = ground arith
Step-IsSound (ask s e q) v = ground arith
Step-IsSound (leave s e q) v = ground arith
Step-IsSound (clear s e) v = ground arith
Step-IsSound (vanish s e) v = ground arith
Step-IsSound (destroy_idle s e) v = ground arith
Step-IsSound (see_loop s e q) v = ground arith
Step-IsSound (see_none s e q) v = ground arith
Step-IsSound (read_loop s e q) v = ground arith
Step-IsSound (quit_null s e q) v = ground arith
Step-IsSound (set_quit s e q) v = ground arith
Step-IsSound (set_gone s e q) v = ground arith
Step-IsSound (finish_quit s e q) v = ground arith
Step-IsSound (finish_gone s e q) v = ground arith
Step-IsSound (join s e q) v = ground arith

abbrev pub IsUnasked : EventLoopThread → Type 0
IsUnasked s = IsSound s × Unasked s.owner s.worker s.asleep s.quit

pub Step-IsUnasked : {s t : EventLoopThread} → Step false s t → IsUnasked s → IsUnasked t
Step-IsUnasked st (v, u) = (Step-IsSound st v, Step-Unasked st v u)
  where
    Step-Unasked :
        {s t : EventLoopThread}
        → Step false s t
        → IsSound s
        → Unasked s.owner s.worker s.asleep s.quit
        → Unasked t.owner t.worker t.asleep t.quit
    Step-Unasked (start_thread s e) v u = ground arith
    Step-Unasked (construct s e) v u = ground arith
    Step-Unasked (call_back s e) v u = ground arith
    Step-Unasked (publish s e) v u = ground arith
    Step-Unasked (fall_asleep s e a q) v u = ground arith
    Step-Unasked (wake s e a q) v u = ground arith
    Step-Unasked (enter s e) v u = ground arith
    Step-Unasked (ask s e q) v u = cc
    Step-Unasked (leave s e q) v u = ground arith
    Step-Unasked (clear s e) v u = ground arith
    Step-Unasked (vanish s e) v u = ground arith
    Step-Unasked (destroy_idle s e) v u = ground arith
    Step-Unasked (see_loop s e q) v u = ground arith
    Step-Unasked (see_none s e q) v u = ground arith
    Step-Unasked (read_loop s e q) v u = ground arith
    Step-Unasked (quit_null s e q) v u = ground arith
    Step-Unasked (set_quit s e q) v u = ground arith
    Step-Unasked (set_gone s e q) v u = ground arith
    Step-Unasked (finish_quit s e q) v u = ground arith
    Step-Unasked (finish_gone s e q) v u = ground arith
    Step-Unasked (join s e q) v u = ground arith

pub new-IsSound : IsSound new
new-IsSound = record { points = refl; follows = refl }

pub Reach-IsSound : {asked : Bool} {s t : EventLoopThread} → Reach asked s t → IsSound s → IsSound t
Reach-IsSound here v = v
Reach-IsSound (next r st) v = Step-IsSound st (Reach-IsSound r v)

pub Reach-IsUnasked : {t : EventLoopThread} → Reach false new t → IsUnasked t
Reach-IsUnasked here = (new-IsSound, refl)
Reach-IsUnasked (next r st) = Step-IsUnasked st (Reach-IsUnasked r)

Step-faults :
    {s t : EventLoopThread}
    → Step false s t
    → IsUnasked s
    → s.owner ≢ faulted
    → t.owner ≡ faulted
    → (s.owner ≡ waking) × (s.worker ≡ finished)
Step-faults (start_thread s e) v n f = ground arith
Step-faults (construct s e) v n f = ground arith
Step-faults (call_back s e) v n f = ground arith
Step-faults (publish s e) v n f = ground arith
Step-faults (fall_asleep s e a q) v n f = ground arith
Step-faults (wake s e a q) v n f = ground arith
Step-faults (enter s e) v n f = ground arith
Step-faults (ask s e q) v n f = cc
Step-faults (leave s e q) v n f = ground arith
Step-faults (clear s e) v n f = ground arith
Step-faults (vanish s e) v n f = ground arith
Step-faults (destroy_idle s e) v n f = ground arith
Step-faults (see_loop s e q) v n f = ground arith
Step-faults (see_none s e q) v n f = ground arith
Step-faults (read_loop s e q) v n f = ground arith
Step-faults (quit_null s e q) v n f = ground arith
Step-faults (set_quit s e q) v n f = ground arith
Step-faults (set_gone s e q) v n f = ground arith
Step-faults (finish_quit s e q) v n f = ground arith
Step-faults (finish_gone s e q) v n f = ground arith
Step-faults (join s e q) v n f = ground arith

-- Where nobody but the destructor asks the loop to quit: the one step that leads a good state to a fault is
-- the rest of `EventLoop::quit`, in the destructor, on a loop that has seen `quit_`, left `loop ()` and been
-- destroyed. No schedule leads to a null `loop_`, to a loop that is gone before `quit_` is set, or to a thread
-- that is left unjoined.
pub unasked_faults_in_wakeup :
    (s t : EventLoopThread)
    → Reach false new s
    → s.owner ≢ faulted
    → Step false s t
    → t.owner ≡ faulted
    → (s.owner ≡ waking) × (s.worker ≡ finished)
unasked_faults_in_wakeup s t r good st f = Step-faults st (Reach-IsUnasked r) good f
