-- ===== src/EventLoopThread/Endings.antt =====
-- The destructor against the loop: when `join` returns, and when it cannot.
use moduo.Prelude.{ℕ, ◌+◌, Bool, ◌-◌, ◌≤◌, ◌≡◌, ◌∙◌, ap, ◌⊎◌, inl, true, false, arith}
use moduo.EventLoopThread.{
  Owner, waiting, running, quitting, calling, waking, joining, gone, faulted, Worker, entering,
  looping, finished, EventLoopThread, new, Step, start_thread, construct, call_back, publish,
  fall_asleep, wake, enter, ask, leave, clear, vanish, destroy_idle, see_loop, see_none, read_loop,
  quit_null, set_quit, set_gone, finish_quit, finish_gone, join, Reach, here, next,
}
use moduo.EventLoopThread.Soundness.{stage, is_live, new-IsSound, Reach-IsSound}

-- The destructor on a thread that is in `loop ()`, or, once `quit_` is set, past it.
abbrev Ending : Owner → Worker → (published quit : Bool) → Type 0
Ending running w p q = (w ≡ looping) × (p ≡ true) × (q ≡ false)
Ending quitting w p q = (w ≡ looping) × (p ≡ true) × (q ≡ false)
Ending calling w p q = (w ≡ looping) × (q ≡ false)
Ending waking w p q = ((w ≡ looping) × (q ≡ true)) ⊎ (6 ≤ stage w)
Ending joining w p q = ((w ≡ looping) × (q ≡ true)) ⊎ (6 ≤ stage w)
Ending _ w p q = ⊥

abbrev IsEnding : EventLoopThread → Type 0
IsEnding s = Ending s.owner s.worker s.published s.quit

-- How many steps of the destructor are left.
abbrev owner_left : Owner → ℕ
owner_left running = 5
owner_left quitting = 4
owner_left calling = 3
owner_left waking = 2
owner_left _ = 1

abbrev steps_left : EventLoopThread → ℕ
steps_left s = owner_left s.owner + (8 - stage s.worker)

-- The destructor is over.
abbrev pub IsOver : EventLoopThread → Type 0
IsOver s = (s.owner ≡ gone) ⊎ (s.owner ≡ faulted)

-- The destructor called `quit` on a loop that had not yet entered `loop ()`, which forgets it.
abbrev IsLost : EventLoopThread → Type 0
IsLost s = (s.owner ≡ joining) × ((s.worker ≡ entering) ⊎ ((s.worker ≡ looping) × (s.quit ≡ false)))

Step-IsLost : {s t : EventLoopThread} → Step false s t → IsLost s → IsLost t
Step-IsLost (start_thread s e) v = ground arith
Step-IsLost (construct s e) v = ground arith
Step-IsLost (call_back s e) v = ground arith
Step-IsLost (publish s e) v = ground arith
Step-IsLost (fall_asleep s e a q) v = ground arith
Step-IsLost (wake s e a q) v = ground arith
Step-IsLost (enter s e) v = ground arith
Step-IsLost (ask s e q) v = cc
Step-IsLost (leave s e q) v = ground arith
Step-IsLost (clear s e) v = ground arith
Step-IsLost (vanish s e) v = ground arith
Step-IsLost (destroy_idle s e) v = ground arith
Step-IsLost (see_loop s e q) v = ground arith
Step-IsLost (see_none s e q) v = ground arith
Step-IsLost (read_loop s e q) v = ground arith
Step-IsLost (quit_null s e q) v = ground arith
Step-IsLost (set_quit s e q) v = ground arith
Step-IsLost (set_gone s e q) v = ground arith
Step-IsLost (finish_quit s e q) v = ground arith
Step-IsLost (finish_gone s e q) v = ground arith
Step-IsLost (join s e q) v = ground arith

Reach-IsLost : {s t : EventLoopThread} → Reach false s t → IsLost s → IsLost t
Reach-IsLost here v = v
Reach-IsLost (next r st) v = Step-IsLost st (Reach-IsLost r v)

-- Where the destructor calls `quit` after the loop is published and before the thread is in `loop ()`,
-- and nobody else calls `quit`, the destructor stays in `join` for ever.
pub lost_quit :
    (s t : EventLoopThread)
    → s.owner ≡ joining
    → s.worker ≡ entering
    → Reach false s t
    → t.owner ≡ joining
lost_quit s t e w r = (Reach-IsLost r (e, inl w)).0

-- The loop was published, ran and was left before the owner looked.
abbrev IsMissed : EventLoopThread → Type 0
IsMissed s = (s.owner ≡ waiting) × ((s.worker ≡ finished) × (s.published ≡ false))

Step-IsMissed : {s t : EventLoopThread} → Step true s t → IsMissed s → IsMissed t
Step-IsMissed (start_thread s e) v = ground arith
Step-IsMissed (construct s e) v = ground arith
Step-IsMissed (call_back s e) v = ground arith
Step-IsMissed (publish s e) v = ground arith
Step-IsMissed (fall_asleep s e a q) v = ground arith
Step-IsMissed (wake s e a q) v = ground arith
Step-IsMissed (enter s e) v = ground arith
Step-IsMissed (ask s e q) v = ground arith
Step-IsMissed (leave s e q) v = ground arith
Step-IsMissed (clear s e) v = ground arith
Step-IsMissed (vanish s e) v = ground arith
Step-IsMissed (destroy_idle s e) v = ground arith
Step-IsMissed (see_loop s e q) v = ground arith
Step-IsMissed (see_none s e q) v = ground arith
Step-IsMissed (read_loop s e q) v = ground arith
Step-IsMissed (quit_null s e q) v = ground arith
Step-IsMissed (set_quit s e q) v = ground arith
Step-IsMissed (set_gone s e q) v = ground arith
Step-IsMissed (finish_quit s e q) v = ground arith
Step-IsMissed (finish_gone s e q) v = ground arith
Step-IsMissed (join s e q) v = ground arith

Reach-IsMissed : {s t : EventLoopThread} → Reach true s t → IsMissed s → IsMissed t
Reach-IsMissed here v = v
Reach-IsMissed (next r st) v = Step-IsMissed st (Reach-IsMissed r v)

-- Where the loop ends before the owner has seen it in `startLoop`, `startLoop` never returns.
pub start_loop_stuck :
    (s t : EventLoopThread)
    → Reach true new s
    → s.owner ≡ waiting
    → s.worker ≡ finished
    → Reach true s t
    → t.owner ≡ waiting
start_loop_stuck s t r e w more =
    let v = Reach-IsSound r new-IsSound in (Reach-IsMissed more (e, (w, v.points ∙ ap is_live w))).0
