-- ===== src/EventLoopThreadPool.antt =====
-- src/EventLoopThreadPool.h and src/EventLoopThreadPool.cc. Loops are pointers, and `setThreadNum` is given no negative number.
pub mod RoundRobin
pub mod Naming
use moduo.Prelude.{
  ℕ, zero, suc, ◌+◌, Bool, true, false, not, ◌&&◌, Option, none, some, List, [], ◌∷◌, ◌++◌, Outcome,
  ok, undefined, ◌>>=◌, length, get_elem?, leb, ◌==◌, Text, take, if◌then◌else◌,
}

pub record EventLoopThreadPool : Type 0 where
  pub base_loop : ℕ
  pub name : Text
  pub num_threads : ℕ
  pub started : Bool
  pub next : ℕ
  pub loops : List ℕ

unfoldable pub new : (base_loop : ℕ) (name : Text) → EventLoopThreadPool
new base_loop name = record {
  base_loop = base_loop;
  name = name;
  num_threads = 0;
  started = false;
  next = 0;
  loops = [];
}

unfoldable pub set_thread_num : ℕ → EventLoopThreadPool → EventLoopThreadPool
set_thread_num n p = record p { num_threads = n }

-- `buf`, which `start` names the thread `i` by: `print` is the `%d` of `snprintf`.
unfoldable pub thread_name : (print : ℕ → Text) → EventLoopThreadPool → ℕ → Text
thread_name print p i = take (length p.name + 31) (p.name ++ print i)

-- The loops of the threads `i` to `i + n - 1`: `start_loop` is what `startLoop` of each returns.
unfoldable pub start_loops : (ℕ → ℕ) → ℕ → ℕ → List ℕ
start_loops start_loop i zero = []
start_loops start_loop i (suc n) = start_loop i ∷ start_loops start_loop (i + 1) n

-- The pool, and the loops on which `start` itself calls the callback, if one is given.
unfoldable pub start : (ℕ → ℕ) → Bool → EventLoopThreadPool → EventLoopThreadPool × List ℕ
start start_loop has_callback p = (
  record p { started = true; loops = p.loops ++ start_loops start_loop 0 p.num_threads },
  if p.num_threads == 0 && has_callback then p.base_loop ∷ [] else [],
)

-- `loops_[next_]`, out of range undefined.
abbrev pub element : Option ℕ → Outcome ℕ
element none = undefined
element (some x) = ok x

abbrev pub is_empty : List ℕ → Bool
is_empty [] = true
is_empty (x ∷ xs) = false

abbrev pub wrap : ℕ → ℕ → ℕ
wrap n next = if leb n next then 0 else next

unfoldable pub get_next_loop : EventLoopThreadPool → Outcome (ℕ × EventLoopThreadPool)
get_next_loop p =
    let chosen = do
      loop ← element (get_elem? p.loops p.next)
      ok (loop, record p { next = wrap (length p.loops) (p.next + 1) })
    in if is_empty p.loops then ok (p.base_loop, p) else chosen

unfoldable pub get_all_loops : EventLoopThreadPool → List ℕ
get_all_loops p = if is_empty p.loops then p.base_loop ∷ [] else p.loops
