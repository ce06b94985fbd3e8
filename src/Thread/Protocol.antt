-- ===== src/Thread/Protocol.antt =====
-- The calls that an object of class `Thread` takes.
use moduo.Prelude.{
  ℕ, ◌≡◌, refl, ◌⊎◌, inl, inr, Bool, true, false, none, some, List, [], ◌∷◌, Outcome, ok, undefined,
  exits, ◌>>=◌, arith, Text,
}
use moduo.CurrentThread
use moduo.Thread.{Thread, new, start, finish, join, destroy}

pub data Call : Type 0 where
  starts joins : Call

-- Calls in turn, and the destructor.
unfoldable pub life : (gettid : ℕ) → List Call → Thread → Outcome (Unit {0})
life gettid [] t = destroy t
life gettid (starts ∷ calls) t = start gettid t >>= (λ u. life gettid calls u)
life gettid (joins ∷ calls) t = join t >>= (λ u. life gettid calls u)

unfoldable pub is_ok : Outcome (Unit {0}) → Bool
is_ok (ok u) = true
is_ok exits = false
is_ok undefined = false

-- Each `start` is followed by a `join`, and each `join` follows a `start`. The first argument is whether
-- the thread runs.
unfoldable pub alternates : Bool → List Call → Bool
alternates false [] = true
alternates true [] = false
alternates false (starts ∷ calls) = alternates true calls
alternates true (starts ∷ calls) = false
alternates false (joins ∷ calls) = false
alternates true (joins ∷ calls) = alternates false calls

abbrev IsIn : Bool → Thread → Type 0
IsIn false t =
    ((t.thread ≡ none) × (t.started ≡ false)) ⊎ ((t.thread ≡ some false) × (t.joined ≡ true))
IsIn true t = (t.thread ≡ some true) × (t.started ≡ true)

abbrev started_by : ℕ → Thread → Thread
started_by gettid t = record t {
  started = true;
  thread = some true;
  tid = (CurrentThread.tid gettid 0).0;
}

start_idle :
    (gettid : ℕ) (t : Thread) → IsIn false t → (u : Thread) × (start gettid t ≡ ok u) × IsIn true u
unfolding start
start_idle gettid t (inl (e, v)) = (started_by gettid t, rw e refl, (refl, refl))
start_idle gettid t (inr (e, v)) = (started_by gettid t, rw e refl, (refl, refl))

join_running : (t : Thread) → IsIn true t → (u : Thread) × (join t ≡ ok u) × IsIn false u
unfolding join finish
join_running t (e, v) =
    (finish (record t { joined = true; thread = some false }), rw e refl, inr (refl, refl))

life_in :
    (gettid : ℕ) (runs : Bool) (calls : List Call) (t : Thread)
    → IsIn runs t
    → is_ok (life gettid calls t) ≡ alternates runs calls
unfolding life is_ok alternates start join destroy
life_in gettid false [] t v = ground arith
life_in gettid true [] t v = ground arith
life_in gettid false (starts ∷ calls) t v =
    let (u, e, w) = start_idle gettid t v in rw e (life_in gettid true calls u w)
life_in gettid true (starts ∷ calls) t v = ground arith
life_in gettid false (joins ∷ calls) t v = ground arith
life_in gettid true (joins ∷ calls) t v =
    let (u, e, w) = join_running t v in rw e (life_in gettid false calls u w)

new_idle :
    (print : ℕ → Text) (num_created : ℕ) (name : Text) → IsIn false (new print num_created name).0
unfolding new
new_idle print num_created [] = inl (refl, refl)
new_idle print num_created (c ∷ cs) = inl (refl, refl)

-- The calls of `start` and `join` on a new object, and then its destructor, come to an end without
-- undefined behaviour and without the end of the process exactly when each `start` is followed by a
-- `join` before the next call, and each `join` follows a `start`.
pub life-alternates :
    (print : ℕ → Text) (num_created : ℕ) (name : Text) (gettid : ℕ) (calls : List Call)
    → is_ok (life gettid calls (new print num_created name).0) ≡ alternates false calls
life-alternates print num_created name gettid calls =
    life_in gettid false calls _ (new_idle print num_created name)
