-- ===== src/Acceptor.antt =====
-- src/Acceptor.h and src/Acceptor.cc: the listening socket. `S` is the state that the callback for a
-- connection changes.
pub mod Listening
use moduo.Prelude.{
  ℕ, ◌≡◌, ◌≢◌, refl, Bool, true, false, none, ◌∷◌, Outcome, ok, exits, ◌>>=◌, >>=-eq-ok, leb, ◌==◌,
  arith, if◌then◌else◌,
}
use moduo.Os.{Kernel, Calls, Syscall, Reply, returns, fails, close, socket_stream, bind, accept}
use moduo.Socket
use moduo.Channel.{Channel, added}
use moduo.Channel
use moduo.Channel.Events
use moduo.Channel.Updates.{controlled, update_events_lem}
use moduo.Poller.{find}
use moduo.Poller
use moduo.Poller.Registry.{remove_channel_total}
use moduo.Poller.Interest.{EpollLaws, registered}
use moduo.EventLoop.{EventLoop}
use moduo.InetAddress.{InetAddress}
use moduo.EventLoop

pub record Acceptor : Type 0 where
  pub accept_socket : ℕ
  pub accept_channel : Channel
  pub has_new_connection : Bool
  pub listenning : Bool

-- `is_set` is whether the `std::function` given holds a callback.
abbrev pub set_new_connection_callback : Bool → Acceptor → Acceptor
set_new_connection_callback is_set a = record a { has_new_connection = is_set }

unfoldable pub create_nonblocking : Kernel → Calls → Outcome (ℕ × Calls)
create_nonblocking k calls = elim (k.reply calls socket_stream) [
  | returns fd ↦ if leb fd 2 then exits else ok (fd, socket_stream ∷ calls)
  | fails errno ↦ exits
]

module _ {F : Type 0} where
  unfoldable pub new : Kernel → ℕ → Bool → EventLoop F → Outcome (Acceptor × EventLoop F)
  new k address reuse_port l = do
    (fd, calls₁) ← create_nonblocking k l.calls
    calls₂ ←
        Socket.bind_address k fd
          (Socket.set_reuse_port fd reuse_port (Socket.set_reuse_addr fd true calls₁))
    ok (
      record {
        accept_socket = fd;
        accept_channel = Channel.set_read_callback true (Channel.new address fd);
        has_new_connection = false;
        listenning = false;
      },
      record l { calls = calls₂ },
    )

  unfoldable pub listen : Kernel → Acceptor → EventLoop F → Outcome (Acceptor × EventLoop F)
  listen k a l = do
    calls ← Socket.listen k a.accept_socket l.calls
    (ch, l') ← Events.enable_reading k a.accept_channel (record l { calls = calls })
    ok (record a { listenning = true; accept_channel = ch }, l')

  -- The callback gets the descriptor of the connection and the address of its peer; `unset` is the address
  -- that `peerAddr` is made with.
  unfoldable pub handle_read {ℓ} :
      {S : Type ℓ}
      → Kernel
      → (unset : InetAddress) → (ℕ → InetAddress → S × EventLoop F → Outcome (S × EventLoop F))
      → Acceptor
      → S × EventLoop F
      → Outcome (S × EventLoop F)
  handle_read k unset new_connection a (s, l) =
      let (reply, peer, calls) = Socket.accept k a.accept_socket unset l.calls in
      elim reply [
        | fails errno ↦ ok (s, record l { calls = calls })
        | returns fd ↦
            if a.has_new_connection
            then new_connection fd peer (s, record l { calls = calls })
            else ok (s, record l { calls = close fd ∷ calls })
      ]

  -- The destructor, with that of the socket.
  unfoldable pub destroy : Kernel → Acceptor → EventLoop F → Outcome (EventLoop F)
  destroy k a l = do
    (ch₁, l₁) ← Events.disable_all k a.accept_channel l
    (ch₂, l₂) ← Events.remove k ch₁ l₁
    ok (record l₂ { calls = Socket.destroy a.accept_socket l₂.calls })
