-- ===== src/Thread.antt =====
-- src/Thread.h and src/Thread.cc: a thread's object, from its constructor to its destructor. The
-- function that the thread runs is what the users of the object model.
pub mod Protocol
use moduo.Prelude.{
  ℕ, suc, ◌^◌, ◌%◌, Bool, true, false, not, ◌&&◌, Option, none, some, List, [], ◌∷◌, ◌++◌, Outcome,
  ok, undefined, exits, ◌>>=◌, if◌then◌else◌, take, Text, codes,
}
use moduo.CurrentThread

-- `thread_`: whether the `std::thread` it points to is joinable, if it points to one. `tid` is what the
-- thread itself stores in `tid_`.
pub record Thread : Type 0 where
  pub started : Bool
  pub joined : Bool
  pub thread : Option Bool
  pub tid : ℕ
  pub name : Text

-- "Thread-", and the number printed by `%d`, cut off by the buffer of 32 characters. `num_created` is
-- the bit pattern of a 32-bit int.
unfoldable pub set_default_name : (print : ℕ → Text) (num_created : ℕ) → Thread → Thread × ℕ
set_default_name print num_created t =
    let after = suc num_created % 2 ^ 32 in
    elim t.name [
      | [] ↦ (record t { name = take 31 (codes "Thread-" ++ print num_created) }, after)
      | _ ↦ (t, after)
    ]

unfoldable pub new : (print : ℕ → Text) (num_created : ℕ) (name : Text) → Thread × ℕ
unfolding set_default_name
new print num_created name =
    set_default_name print num_created
      (record { started = false; joined = false; thread = none; tid = 0; name = name })

-- The thread that `thread_` pointed to is destroyed when another takes its place: `std::terminate`, if it
-- is joinable.
unfoldable pub drop_thread : Option Bool → Outcome (Unit {0})
drop_thread none = ok tt
drop_thread (some false) = ok tt
drop_thread (some true) = exits

-- `start` returns once the thread has stored its id; `gettid` is the kernel's answer in it.
unfoldable pub start : (gettid : ℕ) → Thread → Outcome Thread
unfolding drop_thread CurrentThread.tid
start gettid t =
    let (id, cached) = CurrentThread.tid gettid 0 in
    do _ ← drop_thread t.thread; ok (record t { started = true; thread = some true; tid = id })

-- The end of the thread, after its function has returned.
unfoldable pub finish : Thread → Thread
finish t = record t { tid = 0 }

-- A call through a null pointer, or `std::system_error` from a thread that is not joinable, which nobody
-- catches; else it returns when the thread has ended.
unfoldable pub join : Thread → Outcome Thread
unfolding finish
join t = elim t.thread [
  | none ↦ undefined
  | some false ↦ exits
  | some true ↦ ok (finish (record t { joined = true; thread = some false }))
]

-- The destructor. `pthread_detach` gets the kernel's id, which is no `pthread_t`.
unfoldable pub destroy : Thread → Outcome (Unit {0})
unfolding drop_thread
destroy t = if t.started && not t.joined then undefined else drop_thread t.thread
