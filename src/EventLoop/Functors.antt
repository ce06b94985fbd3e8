-- ===== src/EventLoop/Functors.antt =====
-- `queueInLoop`, `runInLoop` and `doPendingFunctors`: what is queued runs once, in order.
use mathlib.Core.List.{append-nil, append_assoc}
use moduo.Prelude.{
  ℕ, ◌≡◌, Bool-cases, inl, inr, refl, sym, ap, ◌∙◌, true, false, List, [], ◌∷◌, ◌++◌, Outcome, ok,
  arith, if◌then◌else◌,
}
use moduo.Os.{write}
use moduo.EventLoop.{
  EventLoop, is_in_loop_thread, one, wakeup, push_functor, needs_wakeup, queue_in_loop, run_in_loop,
  run_functors, do_pending_functors,
}

-- `queueInLoop` adds the functor at the end of the queue, and writes to the eventfd once exactly if the
-- caller is another thread or the loop is running functors; nothing else changes.
pub queue_in_loop_lem :
    {F : Type 0} (tid : ℕ) (f : F) (l : EventLoop F)
    → queue_in_loop tid f l ≡ record l {
      pending_functors = l.pending_functors ++ (f ∷ []);
      calls = if needs_wakeup tid l then write l.wakeup_fd one ∷ l.calls else l.calls;
    }
unfolding queue_in_loop push_functor wakeup needs_wakeup
queue_in_loop_lem tid f l = ground arith

-- What functors queue, in the order in which they run.
abbrev pub spawned : {F : Type 0} → (F → List F) → List F → List F
spawned spawn [] = []
spawned spawn (f ∷ fs) = spawn f ++ spawned spawn fs

-- A functor that notes that it ran and then queues others, from the thread `tid`.
module _ {F : Type 0} (tid : ℕ) (spawn : F → List F) where
  unfoldable pub queue_all : List F → EventLoop F → EventLoop F
  queue_all [] l = l
  queue_all (f ∷ fs) l = queue_all fs (queue_in_loop tid f l)

  unfoldable pub note_and_spawn : F → List F × EventLoop F → Outcome (List F × EventLoop F)
  note_and_spawn f (log, l) = ok (log ++ (f ∷ []), queue_all (spawn f) l)

  pending-queue_all :
      (fs : List F) (l : EventLoop F) → (queue_all fs l).pending_functors ≡ l.pending_functors ++ fs
  unfolding queue_all
  pending-queue_all [] l = sym (append-nil l.pending_functors)
  pending-queue_all (f ∷ fs) l =
      pending-queue_all fs (queue_in_loop tid f l)
      ∙ ap (λ (m : EventLoop F). m.pending_functors ++ fs) (queue_in_loop_lem tid f l)
      ∙ append_assoc l.pending_functors (f ∷ []) fs

  run_functors_lem :
      (fs log : List F) (l : EventLoop F)
      → (l' : EventLoop F) × (run_functors note_and_spawn fs (log, l) ≡ ok (log ++ fs, l'))
        × (l'.pending_functors ≡ l.pending_functors ++ spawned spawn fs)
  unfolding run_functors note_and_spawn
  run_functors_lem [] log l =
      (l, ap (λ xs. ok (xs, l)) (sym (append-nil log)), sym (append-nil l.pending_functors))
  run_functors_lem (f ∷ fs) log l =
      let (l', ran, queued) = run_functors_lem fs (log ++ (f ∷ [])) (queue_all (spawn f) l) in
      (
        l',
        ran ∙ ap (λ xs. ok (xs, l')) (append_assoc log (f ∷ []) fs),
        queued
            ∙ ap (λ xs. xs ++ spawned spawn fs) (pending-queue_all (spawn f) l)
            ∙ append_assoc l.pending_functors (spawn f) (spawned spawn fs),
      )

-- One call of `doPendingFunctors` runs the functors that were queued, each once and in the order of the
-- queue; what they queue, from whichever thread, waits for the next call, in order.
pub do_pending_functors_lem :
    {F : Type 0} (tid : ℕ) (spawn : F → List F) (log : List F) (l : EventLoop F)
    → (l' : EventLoop F) × (do_pending_functors (note_and_spawn tid spawn) (log, l)
        ≡ ok (log ++ l.pending_functors, l'))
      × (l'.pending_functors ≡ spawned spawn l.pending_functors)
      × (l'.calling_pending_functors ≡ false)
unfolding do_pending_functors
do_pending_functors_lem tid spawn log l =
    let (l', ran, queued) =
      run_functors_lem tid spawn l.pending_functors log
        (record l { calling_pending_functors = true; pending_functors = [] }) in
    (record l' { calling_pending_functors = false }, rw ran, queued, refl)

-- `runInLoop` runs the callback at once in the loop's thread; in any other it leaves the callback at
-- the end of the queue and one write to the eventfd, and runs nothing.
pub run_in_loop_lem :
    {F S : Type 0} (run : F → S × EventLoop F → Outcome (S × EventLoop F)) (tid : ℕ) (f : F) (s : S)
    (l : EventLoop F)
    → run_in_loop run tid f (s, l) ≡ (
        if is_in_loop_thread tid l
        then run f (s, l)
        else ok (
          s,
          record l {
            pending_functors = l.pending_functors ++ (f ∷ []);
            calls = write l.wakeup_fd one ∷ l.calls;
          },
        ))
unfolding run_in_loop queue_in_loop push_functor wakeup needs_wakeup
run_in_loop_lem run tid f s l = elim (Bool-cases (is_in_loop_thread tid l)) [
  | inl here ↦ rw here
  | inr there ↦ rw there
]
