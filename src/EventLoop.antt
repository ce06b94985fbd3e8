-- ===== src/EventLoop.antt =====
-- src/EventLoop.h and src/EventLoop.cc. `F` is the type of the functors; a thread is its id. The
-- state beside the loop that functors and callbacks change is `S`.
pub mod Lifetime
pub mod Ending
pub mod Functors
pub mod Wakeup
pub mod Rounds
use moduo.Prelude.{
  ℕ, ◌≡◌, Bool, true, false, not, ◌||◌, List, [], ◌∷◌, ◌++◌, Outcome, ok, ◌>>=◌, ◌==◌,
  if◌then◌else◌,
}
use moduo.Os.{Kernel, Calls, write, read}
use moduo.Channel.{Channel}
use moduo.Poller.{Poller}
use moduo.Poller

-- `calls` are the system calls made for the loop and its channels.
pub record EventLoop (F : Type 0) : Type 0 where
  pub looping : Bool
  pub quitting : Bool
  pub thread_id : ℕ
  pub wakeup_fd : ℕ
  pub wakeup_channel : Channel
  pub poller : Poller
  pub active_channels : List ℕ
  pub poll_return_time : ℕ
  pub calling_pending_functors : Bool
  pub pending_functors : List F
  pub calls : Calls

-- `uint64_t one = 1`, as the 8 bytes that an eventfd takes.
abbrev pub one : List ℕ
one = 1 ∷ 0 ∷ 0 ∷ 0 ∷ 0 ∷ 0 ∷ 0 ∷ 0 ∷ []

module _ {F : Type 0} where
  abbrev pub is_in_loop_thread : ℕ → EventLoop F → Bool
  is_in_loop_thread tid l = l.thread_id == tid

  -- A short or failed write is only logged.
  unfoldable pub wakeup : EventLoop F → EventLoop F
  wakeup l = record l { calls = write l.wakeup_fd one ∷ l.calls }

  unfoldable pub handle_read : EventLoop F → EventLoop F
  handle_read l = record l { calls = read l.wakeup_fd 8 ∷ l.calls }

  unfoldable pub quit : ℕ → EventLoop F → EventLoop F
  quit tid l =
      let l' = record l { quitting = true } in
      if not (is_in_loop_thread tid l') then wakeup l' else l'

  -- `queueInLoop`: the part under the mutex, and the test after it.
  unfoldable pub push_functor : F → EventLoop F → EventLoop F
  push_functor f l = record l { pending_functors = l.pending_functors ++ (f ∷ []) }

  unfoldable pub needs_wakeup : ℕ → EventLoop F → Bool
  needs_wakeup tid l = not (is_in_loop_thread tid l) || l.calling_pending_functors

  unfoldable pub queue_in_loop : ℕ → F → EventLoop F → EventLoop F
  queue_in_loop tid f l = let l' = push_functor f l in if needs_wakeup tid l' then wakeup l' else l'

  unfoldable pub update_channel : Kernel → Channel → EventLoop F → Outcome (Channel × EventLoop F)
  update_channel k c l = do
    r ← Poller.update_channel k c l.poller l.calls
    ok (r.channel, record l { poller = r.poller; calls = r.calls })

  unfoldable pub remove_channel : Kernel → Channel → EventLoop F → Outcome (Channel × EventLoop F)
  remove_channel k c l = do
    r ← Poller.remove_channel k c l.poller l.calls
    ok (r.channel, record l { poller = r.poller; calls = r.calls })

  unfoldable pub has_channel : EventLoop F → Channel → Bool
  has_channel l c = Poller.has_channel l.poller c

module _ {F S : Type 0} (run : F → S × EventLoop F → Outcome (S × EventLoop F)) where
  -- The callback runs at once in the loop's thread, and is queued by any other.
  unfoldable pub run_in_loop : ℕ → F → S × EventLoop F → Outcome (S × EventLoop F)
  run_in_loop tid f (s, l) =
      if is_in_loop_thread tid l then run f (s, l) else ok (s, queue_in_loop tid f l)

  unfoldable pub run_functors : List F → S × EventLoop F → Outcome (S × EventLoop F)
  run_functors [] st = ok st
  run_functors (f ∷ fs) st = run f st >>= run_functors fs

  abbrev pub finish_functors : S × EventLoop F → Outcome (S × EventLoop F)
  finish_functors (s, l) = ok (s, record l { calling_pending_functors = false })

  -- `functors.swap (pendingFunctors_)`, then the loop over what was swapped out.
  unfoldable pub do_pending_functors : S × EventLoop F → Outcome (S × EventLoop F)
  do_pending_functors (s, l) =
      run_functors l.pending_functors
        (s, record l { calling_pending_functors = true; pending_functors = [] })
      >>= finish_functors
