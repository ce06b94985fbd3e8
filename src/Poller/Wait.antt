-- ===== src/Poller/Wait.antt =====
-- `EPollPoller::poll`: what `epoll_wait` reports goes to the channels that it points at.
use moduo.Prelude.{
  ℕ, ◌*◌, ◌≤◌, ◌<◌, ◌≡◌, lt→ltb, refl, sym, ◌∙◌, inl, inr, Bool-cases, List, [], ◌∷◌, ◌++◌, map,
  Outcome, ok, exits, arith, length, ltb, ◌==◌, if◌then◌else◌,
}
use mathlib.Core.List.{append-nil, append_assoc}
use moduo.Channel.{Channel}
use moduo.Poller.{Poller}

-- One `epoll_event`: the pointer stored with the descriptor, and the events that came.
pub record Event : Type 0 where
  pub pointer : ℕ
  pub events : ℕ

pub data Waited : Type 0 where
  ready : List Event → Waited
  failed : ℕ → Waited

-- The channels by address, and the list `activeChannels`.
abbrev pub Store : Type 0
Store = ℕ → Channel

pub record Active : Type 0 where
  pub store : Store
  pub active_channels : List ℕ

abbrev pub eintr : ℕ
eintr = 4

abbrev pub set_revents : Store → ℕ → ℕ → Store
set_revents store address events a =
    if address == a then record (store a) { revents = events } else store a

unfoldable pub fill_active_channels : List Event → Active → Active
fill_active_channels [] a = a
fill_active_channels (e ∷ es) a = fill_active_channels es (record {
  store = set_revents a.store e.pointer e.events;
  active_channels = a.active_channels ++ (e.pointer ∷ []);
})

unfoldable pub poll : Waited → Poller → Active → Outcome (Poller × Active)
poll (failed errno) p a = if errno == eintr then ok (p, a) else exits
poll (ready events) p a =
    let n = length events in
    if ltb 0 n
    then ok (
      (if n == p.event_count then record p { event_count = p.event_count * 2 } else p),
      fill_active_channels events a,
    )
    else ok (p, a)

pub active_channels-fill_active_channels :
    (events : List Event) (a : Active)
    → (fill_active_channels events a).active_channels
      ≡ a.active_channels ++ map (λ e. e.pointer) events
unfolding fill_active_channels
active_channels-fill_active_channels [] a = sym (append-nil a.active_channels)
active_channels-fill_active_channels (e ∷ es) a =
    active_channels-fill_active_channels es _
    ∙ append_assoc a.active_channels (e.pointer ∷ []) (map (λ e. e.pointer) es)

-- What the last event for an address reports, if there is one.
abbrev pub last_revents : ℕ → List Event → ℕ → ℕ
last_revents address [] old = old
last_revents address (e ∷ es) old =
    last_revents address es (if e.pointer == address then e.events else old)

pub store-fill_active_channels :
    (events : List Event) (a : Active) (address : ℕ)
    → (fill_active_channels events a).store address
      ≡ record (a.store address) { revents = last_revents address events (a.store address).revents }
unfolding fill_active_channels
store-fill_active_channels [] a address = refl
store-fill_active_channels (e ∷ es) a address = elim (Bool-cases (e.pointer == address)) [
  | inl here ↦ store-fill_active_channels es _ address ∙ rw here
  | inr there ↦ store-fill_active_channels es _ address ∙ rw there
]

-- A `poll` that is told of at most as many events as its array holds makes exactly their channels
-- active, in their order, behind those that were; each channel has the last events reported for it and
-- is otherwise as it was; and the array has room for more events than came.
pub poll_ready :
    (events : List Event) (p : Poller) (a : Active)
    → 0 < p.event_count
    → length events ≤ p.event_count
    → (p' : Poller) × (a' : Active) × (poll (ready events) p a ≡ ok (p', a'))
      × (a'.active_channels ≡ a.active_channels ++ map (λ e. e.pointer) events)
      × ((address : ℕ)
          → a'.store address ≡ record (a.store address) {
            revents = last_revents address events (a.store address).revents;
          })
      × (length events < p'.event_count)
      × (p'.channels ≡ p.channels)
unfolding poll
poll_ready [] p a room fits =
    (p, a, refl, sym (append-nil a.active_channels), λ x. refl, room, refl)
poll_ready (e ∷ es) p a room fits = (
  grown,
  fill_active_channels (e ∷ es) a,
  rw (lt→ltb 0 (length (e ∷ es)) (omega arith)),
  active_channels-fill_active_channels (e ∷ es) a,
  store-fill_active_channels (e ∷ es) a,
  ground arith,
  ground arith,
)
  where
    grown : Poller
    grown =
        if length (e ∷ es) == p.event_count then record p { event_count = p.event_count * 2 } else p
