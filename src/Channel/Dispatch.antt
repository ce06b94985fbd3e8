-- ===== src/Channel/Dispatch.antt =====
-- Which callbacks `handleEvent` calls, and in which order.
use mathlib.Core.Path.{fun_ext}
use moduo.Prelude.{
  >>=-ok, ap, sym, ◌≡◌, refl, Bool, true, false, not, ◌&&◌, List, [], ◌∷◌, Outcome, ok, ◌>>=◌,
  bit_or, if◌then◌else◌,
}
use moduo.Channel.{
  Channel, Callback, when, close_callback, error_callback, read_callback, write_callback, has_bits,
  epoll_in, epoll_pri, epoll_out, epoll_err, epoll_hup, handle_event_with_guard, handle_event,
}

-- A callback is wanted if it is set and its event came. A hang-up is not acted on while there is
-- something to read.
abbrev pub wanted : Channel → Callback → Bool
wanted c close_callback =
    has_bits c.revents epoll_hup && not (has_bits c.revents epoll_in) && c.has_close
wanted c error_callback = has_bits c.revents epoll_err && c.has_error
wanted c read_callback = has_bits c.revents (bit_or epoll_in epoll_pri) && c.has_read
wanted c write_callback = has_bits c.revents epoll_out && c.has_write

abbrev pub select {ℓ} : {A : Type ℓ} → (A → Bool) → List A → List A
select p [] = []
select p (x ∷ xs) = if p x then x ∷ select p xs else select p xs

-- The callbacks of a round.
abbrev pub callbacks : Channel → List Callback
callbacks c =
    select (wanted c) (close_callback ∷ error_callback ∷ read_callback ∷ write_callback ∷ [])

abbrev pub run_callbacks {ℓ} :
    {S : Type ℓ} → (Callback → S → Outcome S) → List Callback → S → Outcome S
run_callbacks call [] s = ok s
run_callbacks call (x ∷ xs) s = call x s >>= run_callbacks call xs

module _ {ℓ} {S : Type ℓ} (call : Callback → S → Outcome S) where
  guarded :
      (test : Bool) (x : Callback) (xs : List Callback) (f : S → Outcome S)
      → ((s : S) → f s ≡ run_callbacks call xs s)
      → (s : S) → (when test (call x) s >>= f) ≡ run_callbacks call (if test then x ∷ xs else xs) s
  guarded true x xs f h s = ap (λ g. call x s >>= g) (fun_ext h)
  guarded false x xs f h s = h s

  guarded_last :
      (test : Bool) (x : Callback) (s : S)
      → when test (call x) s ≡ run_callbacks call (if test then x ∷ [] else []) s
  guarded_last true x s = sym (>>=-ok (call x s))
  guarded_last false x s = refl

  pub handle_event_with_guard-callbacks :
      (c : Channel) (s : S) → handle_event_with_guard call c s ≡ run_callbacks call (callbacks c) s
  unfolding handle_event_with_guard
  handle_event_with_guard-callbacks c s =
      guarded (wanted c close_callback) close_callback _ _
        (guarded (wanted c error_callback) error_callback _ _ (
          guarded (wanted c read_callback) read_callback _ _
            (guarded_last (wanted c write_callback) write_callback)))
        s

  under_tie :
      (tied alive : Bool) (m : Outcome S) (xs : List Callback) (s : S)
      → m ≡ run_callbacks call xs s
      → (if tied then (if alive then m else ok s) else m)
        ≡ run_callbacks call (if tied && not alive then [] else xs) s
  under_tie true true m xs s h = h
  under_tie true false m xs s h = refl
  under_tie false true m xs s h = h
  under_tie false false m xs s h = h

-- `handleEvent` calls the wanted callbacks in the order close, error, read, write, each once, and
-- stops where one does not return; on a tied channel whose owner is gone it calls none.
pub handle_event-callbacks {ℓ} :
    {S : Type ℓ} (call : Callback → S → Outcome S) (alive : Bool) (c : Channel) (s : S)
    → handle_event call alive c s
      ≡ run_callbacks call (if c.tied && not alive then [] else callbacks c) s
unfolding handle_event
handle_event-callbacks call alive c s =
    under_tie call c.tied alive (handle_event_with_guard call c s) (callbacks c) s
      (handle_event_with_guard-callbacks call c s)

-- An EPOLLIN event on a channel whose owner is there.
pub handle_event_in {ℓ} :
    {S : Type ℓ} (call : Callback → S → Outcome S) (c : Channel) (s : S)
    → c.revents ≡ epoll_in
    → c.tied ≡ true
    → c.has_read ≡ true
    → handle_event call true c s ≡ call read_callback s
unfolding handle_event handle_event_with_guard
handle_event_in call c s came tied reads = rw (tied, came, reads) (>>=-ok (call read_callback s))
