-- ===== src/Poller/Whole/Members.antt =====
-- Which channels the poller has after any calls.
use moduo.Prelude.{
  ℕ, ◌≡◌, refl, sym, ap, subst, ◌∙◌, Bool, true, false, Bool-cases, inl, inr, Option, none, some,
  List, [], ◌∷◌, ok, >>=-eq-ok, ◌==◌, ==_iff, if◌then◌else◌,
}
use moduo.Os.{Kernel, Calls}
use moduo.Channel.{Channel, Index, fresh, added}
use moduo.Poller.{find, new, holds, has_channel, Registered, update_channel, remove_channel}
use moduo.Poller.Registry.{IsListed, update_channel-IsListed, remove_channel_at-total}
use moduo.Poller.Wait.{Store}
use moduo.Poller.Whole.{
  PollerCall, updates, removes, Polled, put, make_call, make_calls, is_updated, AreApart, Has,
  update_channel_at-same, holds-some, put-Has,
}

-- What `removeChannel` leaves under the descriptor.
removed-none :
    (b : Bool) (i : Index) (before : Option ℕ) (address : ℕ)
    → i ≡ (if b then added else fresh)
    → before ≡ (if b then some address else none)
    → (elim i as (λ _. Option ℕ) [ added ↦ none | _ ↦ before ]) ≡ none
removed-none true i before address e h = rw e refl
removed-none false i before address e h = rw e h

-- A channel that is marked stands in the map.
Has-IsListed :
    (is_in : ℕ → Bool) (s : Polled) (a events : ℕ)
    → Has is_in s
    → IsListed (record (s.store a) { events = events }) s.poller
Has-IsListed is_in s a events has listed = elim (Bool-cases (is_in a)) [
  | inl e ↦ has.found a ∙ rw e (ap (λ x. some x) (sym (has.apart.placed a)))
  | inr e ↦ absurd (listed (has.marked a ∙ rw e refl))
]

update-Has :
    (k : Kernel) (a events : ℕ) (is_in : ℕ → Bool) (s : Polled) (r : Registered)
    → Has is_in s
    → update_channel k (record (s.store a) { events = events }) s.poller s.calls ≡ ok r
    → Has (λ c. if a == c then true else is_in c) (put a r s.store)
unfolding update_channel has_channel
update-Has k a events is_in s r has e =
    let asked = record (s.store a) { events = events } in
    let (known, marked, others) =
      update_channel-IsListed k asked s.poller s.calls r (Has-IsListed is_in s a events has) e in
    let same = update_channel_at-same (s.store a).index k asked s.poller s.calls r e in
    let found = holds-some r.channel.address (find r.channel.fd r.poller.channels) known in
    put-Has a true is_in s r has same marked
      (ap (λ fd. find fd r.poller.channels) (sym same.0)
        ∙ found
        ∙ ap (λ x. some x) (same.1 ∙ has.apart.placed a))
      others

remove-Has :
    (k : Kernel) (a : ℕ) (is_in : ℕ → Bool) (s : Polled) (r : Registered)
    → Has is_in s
    → remove_channel k (s.store a) s.poller s.calls ≡ ok r
    → Has (λ c. if a == c then false else is_in c) (put a r s.store)
unfolding remove_channel
remove-Has k a is_in s r has e =
    let (r', done, reset, found, others) =
      remove_channel_at-total (s.store a).index k (s.store a) s.poller s.calls refl in
    let equal : r' ≡ r = cc in
    subst (λ x. Has (λ c. if a == c then false else is_in c) (put a x s.store)) equal
      (put-Has a false is_in s r' has
        (ap (λ (c : Channel). c.fd) reset, ap (λ (c : Channel). c.address) reset)
        (ap (λ (c : Channel). c.index) reset)
        (found ∙ removed-none (is_in a) (s.store a).index _ a (has.marked a) (has.found a)) others)

make_calls-Has :
    (k : Kernel) (calls : List PollerCall) (is_in : ℕ → Bool) (s t : Polled)
    → Has is_in s
    → make_calls k calls s ≡ ok t
    → Has (λ a. is_updated calls (is_in a) a) t
unfolding make_calls make_call
make_calls-Has k [] is_in s t has e = let equal : s ≡ t = cc in subst (Has is_in) equal has
make_calls-Has k (updates a events ∷ calls) is_in s t has e =
    let (u, first, rest) = >>=-eq-ok (make_call k (updates a events) s) (make_calls k calls) e in
    let (r, done, equal) = >>=-eq-ok (update_channel k _ s.poller s.calls) _ first in
    let same : put a r s.store ≡ u = cc in
    make_calls-Has k calls _ u t (subst (Has _) same (update-Has k a events is_in s r has done))
      rest
make_calls-Has k (removes a ∷ calls) is_in s t has e =
    let (u, first, rest) = >>=-eq-ok (make_call k (removes a) s) (make_calls k calls) e in
    let (r, done, equal) = >>=-eq-ok (remove_channel k _ s.poller s.calls) _ first in
    let same : put a r s.store ≡ u = cc in
    make_calls-Has k calls _ u t (subst (Has _) same (remove-Has k a is_in s r has done)) rest

holds-if : (b : Bool) (a : ℕ) → holds a (if b then some a else none) ≡ b
holds-if true a = (==_iff a a).1 refl
holds-if false a = refl

-- A new poller and fresh channels, each at its own address and no two of one descriptor, on any kernel:
-- after any calls of `updateChannel` and `removeChannel` that return, with any events asked for,
-- `hasChannel` holds exactly of the channels whose last call was `updateChannel`; these are
-- marked as added and the others as new.
pub has_channel_updated :
    (k : Kernel) (epollfd : ℕ) (store : Store) (before : Calls) (calls : List PollerCall)
    (t : Polled)
    → AreApart store
    → ((a : ℕ) → (store a).index ≡ fresh)
    → make_calls k calls (record { store = store; poller = new epollfd; calls = before }) ≡ ok t
    → (a : ℕ)
    → (has_channel t.poller (t.store a) ≡ is_updated calls false a)
      × ((t.store a).index ≡ (if is_updated calls false a then added else fresh))
unfolding new find has_channel
has_channel_updated k epollfd store before calls t apart unmarked done a =
    let start : Has (λ c. false) (record { store = store; poller = new epollfd; calls = before }) =
      record { apart = apart; marked = unmarked; found = λ c. refl } in
    let has = make_calls-Has k calls (λ c. false) _ t start done in
    let b = is_updated calls false a in
    (
      ap (holds (t.store a).address) (has.found a)
          ∙ ap (λ x. holds x (if b then some a else none)) (has.apart.placed a)
          ∙ holds-if b a,
      has.marked a,
    )
