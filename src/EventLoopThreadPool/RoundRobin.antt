-- ===== src/EventLoopThreadPool/RoundRobin.antt =====
-- `getNextLoop` goes round the loops of the pool.
use Prim.Native.Nat.add
use native.Mathlib.Nat.{mod-eq_of_lt, mod-add-mod, mod-lt, add-zero}
use moduo.Prelude.{
  Text, ℕ, zero, suc, ◌+◌, ◌%◌, ◌<◌, ◌≡◌, refl, gt→==, sym, ap, ◌∙◌, Bool, true, false, some, List,
  [], ◌∷◌, Outcome, ok, ◌>>=◌, arith, length, get_elem?, if◌then◌else◌, ◌==◌,
}
use moduo.EventLoopThreadPool.{
  EventLoopThreadPool, new, set_thread_num, start_loops, start, wrap, get_next_loop, is_empty,
}

-- There is a loop to hand out, and the index of the next one is in range.
abbrev pub IsReady : EventLoopThreadPool → Type 0
IsReady p = p.next < length p.loops

pub get_elem?-some {ℓ} :
    {A : Type ℓ} (xs : List A) (i : ℕ) → i < length xs → (x : A) × (get_elem? xs i ≡ some x)
get_elem?-some [] i h = absurd (omega arith)
get_elem?-some (x ∷ xs) zero h = (x, refl)
get_elem?-some (x ∷ xs) (suc i) h = get_elem?-some xs i (omega arith)

pub length-start_loops : (start_loop : ℕ → ℕ) (i n : ℕ) → length (start_loops start_loop i n) ≡ n
unfolding start_loops
length-start_loops start_loop i zero = refl
length-start_loops start_loop i (suc n) = ap suc (length-start_loops start_loop (i + 1) n)

pub get_elem?-start_loops :
    (start_loop : ℕ → ℕ) (i n j : ℕ)
    → j < n
    → get_elem? (start_loops start_loop i n) j ≡ some (start_loop (i + j))
unfolding start_loops
get_elem?-start_loops start_loop i zero j h = absurd (omega arith)
get_elem?-start_loops start_loop i (suc n) zero h = ap (λ k. some (start_loop k)) (omega arith)
get_elem?-start_loops start_loop i (suc n) (suc j) h =
    get_elem?-start_loops start_loop (i + 1) n j (omega arith)
    ∙ ap (λ k. some (start_loop k)) (omega arith)

-- The pool after `i` calls of `getNextLoop`.
unfoldable pub advance : ℕ → EventLoopThreadPool → Outcome EventLoopThreadPool
advance zero p = ok p
advance (suc i) p = get_next_loop p >>= λ r. advance i r.1

not-is_empty : (xs : List ℕ) (i : ℕ) → i < length xs → is_empty xs ≡ false
not-is_empty [] i h = absurd (omega arith)
not-is_empty (x ∷ xs) i h = refl

wrap-mod : (n next : ℕ) → next < n → wrap n (next + 1) ≡ (next + 1) % n
wrap-mod n next h = grind arith

pub get_next_loop_lem :
    (p : EventLoopThreadPool) (loop : ℕ)
    → IsReady p
    → get_elem? p.loops p.next ≡ some loop
    → get_next_loop p ≡ ok (loop, record p { next = (p.next + 1) % length p.loops })
unfolding get_next_loop
get_next_loop_lem p loop ready e =
    rw (not-is_empty p.loops p.next ready, e, wrap-mod (length p.loops) p.next ready)

next-mod : (n next i : ℕ) → ((next + 1) % n + i) % n ≡ (next + suc i) % n
next-mod n next i = rw mod-add-mod (ap (λ k. k % n) (omega arith))

-- After `i` calls a ready pool has the same loops, and has gone `i` steps round them.
advance_lem :
    (i : ℕ) (p : EventLoopThreadPool)
    → IsReady p
    → advance i p ≡ ok (record p { next = (p.next + i) % length p.loops })
unfolding advance
advance_lem zero p ready =
    ap (λ k. ok (record p { next = k }))
      (sym (ap (λ k. k % length p.loops) (add-zero p.next) ∙ mod-eq_of_lt ready))
advance_lem (suc i) p ready =
    let (loop, e) = get_elem?-some p.loops p.next ready in
    let p₁ = record p { next = (p.next + 1) % length p.loops } in
    rw (get_next_loop_lem p loop ready e) (
      advance_lem i p₁ (mod-lt (p.next + 1) (omega arith))
      ∙ ap (λ k. ok (record p { next = k })) (next-mod (length p.loops) p.next i))

advance_empty : (i : ℕ) (p : EventLoopThreadPool) → is_empty p.loops ≡ true → advance i p ≡ ok p
unfolding advance get_next_loop
advance_empty zero p e = refl
advance_empty (suc i) p e = rw e (advance_empty i p e)

-- The pool of a server with `n` threads, once it is started.
abbrev pub started_pool : (ℕ → ℕ) → Bool → ℕ → Text → ℕ → EventLoopThreadPool
started_pool start_loop has_callback base name n =
    (start start_loop has_callback (set_thread_num n (new base name))).0

round_robin_none :
    (start_loop : ℕ → ℕ) (has_callback : Bool) (base : ℕ) (name : Text)
    → let p = started_pool start_loop has_callback base name 0 in
      (is_empty p.loops ≡ true) × (get_next_loop p ≡ ok (base, p))
unfolding start set_thread_num new start_loops get_next_loop
round_robin_none start_loop has_callback base name = (refl, refl)

round_robin_some :
    (start_loop : ℕ → ℕ) (has_callback : Bool) (base : ℕ) (name : Text) (m i : ℕ)
    → let p = started_pool start_loop has_callback base name (suc m) in
      IsReady p
      × (get_elem? p.loops ((p.next + i) % length p.loops) ≡ some (start_loop (i % suc m)))
unfolding start set_thread_num new
round_robin_some start_loop has_callback base name m i =
    let size = length-start_loops start_loop 0 (suc m) in
    (
      omega (arith, size),
      rw size (
          ap (λ j. get_elem? (start_loops start_loop 0 (suc m)) (j % suc m)) (add.zero i)
          ∙ get_elem?-start_loops start_loop 0 (suc m) (i % suc m) (mod-lt i (omega arith))
          ∙ ap (λ k. some (start_loop k)) (add.zero (i % suc m))),
    )

-- In a pool that is started with `n` threads the `i`-th call of `getNextLoop`, counted from 0, returns
-- the loop of the thread `i % n`; with no threads every call returns the base loop.
pub get_next_loop_round_robin :
    (start_loop : ℕ → ℕ) (has_callback : Bool) (base : ℕ) (name : Text) (n i : ℕ)
    → (p p' : EventLoopThreadPool) × (advance i (started_pool start_loop has_callback base name n)
        ≡ ok p)
      × (get_next_loop p ≡ ok (if n == 0 then base else start_loop (i % n), p'))
get_next_loop_round_robin start_loop has_callback base name zero i =
    let p = started_pool start_loop has_callback base name 0 in
    let (empty, chosen) = round_robin_none start_loop has_callback base name in
    (p, p, advance_empty i p empty, chosen)
get_next_loop_round_robin start_loop has_callback base name (suc m) i =
    let p = started_pool start_loop has_callback base name (suc m) in
    let (ready, e) = round_robin_some start_loop has_callback base name m i in
    let p' = record p { next = (p.next + i) % length p.loops } in
    (
      p',
      record p' { next = (p'.next + 1) % length p.loops },
      advance_lem i p ready,
      get_next_loop_lem p' (start_loop (i % suc m)) (mod-lt (p.next + i) (omega arith)) e
          ∙ rw (gt→== (suc m) 0 (omega arith)),
    )
