-- ===== src/Acceptor/Listening.antt =====
-- The life of an acceptor: what the kernel and the poller know of its socket.
use moduo.Prelude.{
  ℕ, Bool, ◌<◌, ◌≡◌, refl, subst, true, false, none, [], ◌∷◌, ok, arith, not, ◌&&◌, ◌||◌, ◌==◌,
}
use moduo.Os.{Kernel, Calls, Reply, returns, fails}
use moduo.Os
use moduo.Channel.{Channel, added}
use moduo.Channel
use moduo.Channel.Events
use moduo.Channel.Updates.{controlled, update_events_lem}
use moduo.Poller.{find}
use moduo.Poller
use moduo.Poller.Registry.{remove_channel_total}
use moduo.Poller.Interest.{EpollLaws, registered}
use moduo.EventLoop.{EventLoop}
use moduo.EventLoop
use moduo.Acceptor.{Acceptor, new, set_new_connection_callback, listen, destroy, create_nonblocking}
use moduo.Socket

-- The call was answered with 0.
abbrev is_granted : Reply → Bool
is_granted (returns n) = n == 0
is_granted (fails errno) = false

-- `fd` was bound to an address and not closed since.
unfoldable is_bound : Kernel → ℕ → Calls → Bool
is_bound k fd [] = false
is_bound k fd (Os.bind n ∷ calls) =
    (n == fd && is_granted (k.reply calls (Os.bind n))) || is_bound k fd calls
is_bound k fd (Os.close n ∷ calls) = not (n == fd) && is_bound k fd calls
is_bound k fd (_ ∷ calls) = is_bound k fd calls

-- The kernel has `fd` listen: `listen` was called when it was bound, and it was not closed since.
unfoldable pub accepts_connections : Kernel → ℕ → Calls → Bool
unfolding is_bound
accepts_connections k fd [] = false
accepts_connections k fd (Os.listen n ∷ calls) =
    (n == fd && is_granted (k.reply calls (Os.listen n)) && is_bound k fd calls)
    || accepts_connections k fd calls
accepts_connections k fd (Os.close n ∷ calls) = not (n == fd) && accepts_connections k fd calls
accepts_connections k fd (_ ∷ calls) = accepts_connections k fd calls

-- An acceptor whose socket the kernel has listen, on a loop that watches the socket for connections.
pub record IsListening {F : Type 0} (k : Kernel) (a : Acceptor) (l : EventLoop F) : Type 0 where
  pub own_socket : a.accept_channel.fd ≡ a.accept_socket
  pub not_standard : 2 < a.accept_socket
  pub listens : accepts_connections k a.accept_socket l.calls ≡ true
  pub noted : a.listenning ≡ true
  pub marked : a.accept_channel.index ≡ added
  pub reads : a.accept_channel.events ≡ 3
  pub watched : registered k a.accept_socket l.calls ≡ true

pub listen-IsListening :
    {F : Type 0} (k : Kernel) (address : ℕ) (reuse_port : Bool) (l l₁ l₂ : EventLoop F)
    (a a' : Acceptor)
    → new k address reuse_port l ≡ ok (a, l₁)
    → listen k (set_new_connection_callback true a) l₁ ≡ ok (a', l₂)
    → IsListening k a' l₂
unfolding new listen create_nonblocking Socket.bind_address Socket.listen Socket.set_reuse_addr
    Socket.set_reuse_port Events.enable_reading Events.update_events EventLoop.update_channel
    Channel.new Poller.update_channel Poller.update_channel_at Poller.register Poller.update
    registered accepts_connections Socket.require_zero
listen-IsListening k address reuse_port l l₁ l₂ a a' made listened = ground arith

destroy_lem :
    {F : Type 0} (k : Kernel) (a : Acceptor) (l : EventLoop F)
    → EpollLaws k
    → IsListening k a l
    → (l' : EventLoop F) × (destroy k a l ≡ ok l')
      × (registered k a.accept_socket l'.calls ≡ false)
      × (find a.accept_socket l'.poller.channels ≡ none)
unfolding destroy Socket.destroy Events.disable_all Events.remove EventLoop.remove_channel
    registered
destroy_lem k a l laws v =
    let (r, removed, _, gone, _) =
      remove_channel_total k (record (a.accept_channel) { events = 0 }) l.poller
        (controlled a.accept_channel 0 l).calls in
    (
      record (record l { poller = r.poller; calls = r.calls }) {
        calls = Os.close a.accept_socket ∷ r.calls;
      },
      rw
          (
            update_events_lem k a.accept_channel l 0 laws v.marked (rw v.own_socket v.watched),
            removed,
          )
          refl,
      ground arith,
      subst (λ fd. find fd r.poller.channels ≡ none) v.own_socket (gone v.marked),
    )

-- Where the constructor of an acceptor and, once its callback is set, `listen` return, the
-- kernel has the acceptor's socket listen: it was bound first, then told to listen, and not closed; it is no
-- standard stream; and the loop watches it for input. Its destructor then
-- returns, and leaves the socket out of the kernel's interest list and of the poller's map.
pub acceptor_lifetime :
    {F : Type 0} (k : Kernel) (address : ℕ) (reuse_port : Bool) (l l₁ l₂ : EventLoop F)
    (a a' : Acceptor)
    → EpollLaws k
    → new k address reuse_port l ≡ ok (a, l₁)
    → listen k (set_new_connection_callback true a) l₁ ≡ ok (a', l₂)
    → IsListening k a' l₂
      × ((l₃ : EventLoop F) × (destroy k a' l₂ ≡ ok l₃)
          × (registered k a'.accept_socket l₃.calls ≡ false)
          × (find a'.accept_socket l₃.poller.channels ≡ none))
acceptor_lifetime k address reuse_port l l₁ l₂ a a' laws made listened =
    let v = listen-IsListening k address reuse_port l l₁ l₂ a a' made listened in
    (v, destroy_lem k a' l₂ laws v)
