-- ===== src/EventLoopThread/Inevitable.antt =====
-- What comes in whatever order the threads take their steps.
use moduo.Prelude.{ℕ, zero, suc, ◌<◌, ◌⊎◌, inl, inr, Bool, arith}
use moduo.EventLoopThread.{EventLoopThread, Step}

-- Whatever steps are taken, a state with `P` comes: a step can be taken, and each that can be taken leads
-- on to such a state.
pub data Inevitably (asked : Bool) (P : EventLoopThread → Type 0) : EventLoopThread → Type 0 where
  now : {s : EventLoopThread} → P s → Inevitably asked P s
  later :
      {s : EventLoopThread} (u : EventLoopThread)
      → Step asked s u
      → ((t : EventLoopThread) → Step asked s t → Inevitably asked P t)
      → Inevitably asked P s

-- A number that every step lowers until `P` holds.
pub Inevitably_by :
    {asked : Bool} {P I : EventLoopThread → Type 0} (left : EventLoopThread → ℕ)
    → ((s : EventLoopThread) → I s → (u : EventLoopThread) × Step asked s u)
    → ((s t : EventLoopThread) → I s → Step asked s t → P t ⊎ (I t × (left t < left s)))
    → (n : ℕ) (s : EventLoopThread) → left s < n
    → I s
    → Inevitably asked P s
Inevitably_by left on lower zero s h v = absurd (omega arith)
Inevitably_by left on lower (suc n) s h v =
    let (u, st) = on s v in
    later u st (λ t st'. elim (lower s t v st') [
      | inl done ↦ now done
      | inr (v', falls) ↦ Inevitably_by left on lower n t (omega arith) v'
    ])
