-- ===== src/EventLoopThreadPool/Naming.antt =====
-- The names that the pool gives its threads.
use moduo.Prelude.{
  ℕ, ◌+◌, ◌^◌, ◌<◌, ◌≡◌, sym, ◌∙◌, ◌++◌, arith, length, length-append, take_all, Text, PrintLaws,
}
use mathlib.Core.List.{append_cancel_left}
use moduo.EventLoopThreadPool.{EventLoopThreadPool, thread_name}

-- The name of a thread is that of the pool and the number: nothing of it is cut off.
pub thread_name_lem :
    (print : ℕ → Text) (p : EventLoopThreadPool) (i : ℕ)
    → PrintLaws print
    → i < 2 ^ 31
    → thread_name print p i ≡ p.name ++ print i
unfolding thread_name
thread_name_lem print p i laws h =
    take_all (length p.name + 31) (p.name ++ print i)
      (omega (arith, length-append p.name (print i), laws.short i h))

-- Different threads of a pool have different names.
pub thread_name_injective :
    (print : ℕ → Text) (p : EventLoopThreadPool) (i j : ℕ)
    → PrintLaws print
    → i < 2 ^ 31
    → j < 2 ^ 31
    → thread_name print p i ≡ thread_name print p j
    → i ≡ j
thread_name_injective print p i j laws hi hj e = laws.injective i j hi hj (
    append_cancel_left p.name (print i) (print j)
      (sym (thread_name_lem print p i laws hi) ∙ e ∙ thread_name_lem print p j laws hj))
