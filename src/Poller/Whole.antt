-- ===== src/Poller/Whole.antt =====
-- src/Poller.h: the calls that a loop makes of its poller, one after the other, on the channels that lie
-- at different addresses with different descriptors.
pub mod Members
use moduo.Prelude.{
  ℕ, ◌≡◌, ◌≢◌, refl, sym, ap, subst, ◌∙◌, Bool, true, false, Bool-cases, inl, inr, Option, none,
  some, List, [], ◌∷◌, Outcome, ok, ◌>>=◌, >>=-eq-ok, arith, ◌==◌, ==_iff, if◌then◌else◌,
}
use moduo.Os.{Kernel, Calls}
use moduo.Channel.{Channel, Index, fresh, added, deleted}
use moduo.Channel
use moduo.Poller.{
  find, insert, Poller, new, holds, has_channel, update, Registered, register, update_channel_at,
  update_channel, remove_channel_at, remove_channel,
}
use moduo.Poller.Registry.{update_channel-IsListed, remove_channel_total}
use moduo.Poller.Wait.{Store}

-- `updateChannel` on the channel at an address, which asks for some events by then, and `removeChannel`.
pub data PollerCall : Type 0 where
  updates : (address events : ℕ) → PollerCall
  removes : (address : ℕ) → PollerCall

pub record Polled : Type 0 where
  pub store : Store
  pub poller : Poller
  pub calls : Calls

abbrev pub put : ℕ → Registered → Store → Polled
put address r store = record {
  store = λ a. if address == a then r.channel else store a;
  poller = r.poller;
  calls = r.calls;
}

unfoldable pub make_call : Kernel → PollerCall → Polled → Outcome Polled
make_call k (updates address events) s = do
  r ← update_channel k (record (s.store address) { events = events }) s.poller s.calls
  ok (put address r s.store)
make_call k (removes address) s = do
  r ← remove_channel k (s.store address) s.poller s.calls
  ok (put address r s.store)

unfoldable pub make_calls : Kernel → List PollerCall → Polled → Outcome Polled
make_calls k [] s = ok s
make_calls k (call ∷ calls) s = make_call k call s >>= make_calls k calls

-- Whether the last call on the channel was an update; `before` is for a channel with no call.
abbrev pub is_updated : List PollerCall → (before : Bool) → ℕ → Bool
is_updated [] before a = before
is_updated (updates address events ∷ calls) before a =
    is_updated calls (if address == a then true else before) a
is_updated (removes address ∷ calls) before a =
    is_updated calls (if address == a then false else before) a

-- Channels that lie at their own addresses, and have different descriptors.
pub record AreApart (store : Store) : Type 0 where
  pub placed : (a : ℕ) → (store a).address ≡ a
  pub apart : (a b : ℕ) → (store a).fd ≡ (store b).fd → a ≡ b

-- The poller has exactly the channels of `is_in`, and has marked them.
pub record Has (is_in : ℕ → Bool) (s : Polled) : Type 0 where
  pub apart : AreApart s.store
  pub marked : (a : ℕ) → (s.store a).index ≡ (if is_in a then added else fresh)
  pub found : (a : ℕ) → find (s.store a).fd s.poller.channels ≡ (if is_in a then some a else none)

-- What a call leaves of the channel.
abbrev pub SameChannel : Channel → Channel → Type 0
SameChannel c d = (d.fd ≡ c.fd) × (d.address ≡ c.address)

pub update_channel_at-same :
    (i : Index) (k : Kernel) (c : Channel) (p : Poller) (calls : Calls) (r : Registered)
    → update_channel_at i k c p calls ≡ ok r
    → SameChannel c r.channel
unfolding update_channel_at register
update_channel_at-same fresh k c p calls r e = ground arith
update_channel_at-same added k c p calls r e = ground arith
update_channel_at-same deleted k c p calls r e = ground arith

pub holds-some : (address : ℕ) (o : Option ℕ) → holds address o ≡ true → o ≡ some address
holds-some address none h = cc
holds-some address (some a) h = ap (λ x. some x) ((==_iff a address).0 h)

-- A call on the channel at `here` leaves it in the poller, or out of it, as `b` says, and leaves the
-- others.
module _ (here : ℕ) (b : Bool) (is_in : ℕ → Bool) (s : Polled) (r : Registered) (has : Has is_in s)
    (same : SameChannel (s.store here) r.channel)
    (marked : r.channel.index ≡ (if b then added else fresh))
    (found : find (s.store here).fd r.poller.channels ≡ (if b then some here else none))
    (others : (fd : ℕ)
      → fd ≢ (s.store here).fd
      → find fd r.poller.channels ≡ find fd s.poller.channels) where
  at_other : (a : ℕ) → (here == a) ≡ false → (s.store a).fd ≢ (s.store here).fd
  at_other a different e =
      let equal : here ≡ a = sym (has.apart.apart a here e) in
      cc (different, (==_iff here a).1 equal)

  put-fd : (a : ℕ) → ((put here r s.store).store a).fd ≡ (s.store a).fd
  put-fd a = elim (Bool-cases (here == a)) [
    | inl at ↦ rw at (same.0 ∙ ap (λ x. (s.store x).fd) ((==_iff here a).0 at))
    | inr different ↦ rw different refl
  ]

  put-placed : (a : ℕ) → ((put here r s.store).store a).address ≡ a
  put-placed a = elim (Bool-cases (here == a)) [
    | inl at ↦ rw at (same.1 ∙ has.apart.placed here ∙ (==_iff here a).0 at)
    | inr different ↦ rw different (has.apart.placed a)
  ]

  put-marked :
      (a : ℕ)
      → ((put here r s.store).store a).index
        ≡ (if (if here == a then b else is_in a) then added else fresh)
  put-marked a = elim (Bool-cases (here == a)) [
    | inl at ↦ rw at marked
    | inr different ↦ rw different (has.marked a)
  ]

  put-found :
      (a : ℕ)
      → find (s.store a).fd r.poller.channels
        ≡ (if (if here == a then b else is_in a) then some a else none)
  put-found a = elim (Bool-cases (here == a)) [
    | inl at ↦
        let equal : here ≡ a = (==_iff here a).0 at in
        rw at (
          subst (λ x. find (s.store x).fd r.poller.channels ≡ (if b then some x else none)) equal
            found)
    | inr different ↦ rw different (others (s.store a).fd (at_other a different) ∙ has.found a)
  ]

  pub put-Has : Has (λ a. if here == a then b else is_in a) (put here r s.store)
  put-Has = record {
    apart = record {
      placed = put-placed;
      apart = λ a c e. has.apart.apart a c (sym (put-fd a) ∙ e ∙ put-fd c);
    };
    marked = put-marked;
    found = λ a. ap (λ fd. find fd r.poller.channels) (put-fd a) ∙ put-found a;
  }
