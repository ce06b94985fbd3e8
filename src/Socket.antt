-- ===== src/Socket.antt =====
-- src/Socket.h and src/Socket.cc: the calls made on a descriptor.
use moduo.Prelude.{ℕ, Bool, ◌∷◌, Outcome, ok, exits, ◌==◌, if◌then◌else◌}
use moduo.Os.{
  Kernel, Calls, Syscall, Reply, returns, fails, close, shutdown_wr, setsockopt, tcp_nodelay,
  so_reuseaddr, so_reuseport, so_keepalive,
}
use moduo.Os
use moduo.InetAddress.{InetAddress, set_sock_addr}

-- The destructor.
unfoldable pub destroy : ℕ → Calls → Calls
destroy sockfd calls = close sockfd ∷ calls

-- `if (0 != …) LOG_FATAL (…)`.
unfoldable pub require_zero : Kernel → Syscall → Calls → Outcome Calls
require_zero k call calls = elim (k.reply calls call) [
  | returns n ↦ if n == 0 then ok (call ∷ calls) else exits
  | fails errno ↦ exits
]

unfoldable pub bind_address : Kernel → ℕ → Calls → Outcome Calls
unfolding require_zero
bind_address k sockfd calls = require_zero k (Os.bind sockfd) calls

unfoldable pub listen : Kernel → ℕ → Calls → Outcome Calls
unfolding require_zero
listen k sockfd calls = require_zero k (Os.listen sockfd) calls

-- `peeraddr->setSockAddr (addr)`, which a failure does not come to.
abbrev pub store_peer : Reply → InetAddress → (peeraddr : InetAddress) → InetAddress
store_peer (returns connfd) addr peeraddr = set_sock_addr addr peeraddr
store_peer (fails errno) addr peeraddr = peeraddr

unfoldable pub accept : Kernel → ℕ → (peeraddr : InetAddress) → Calls → Reply × InetAddress × Calls
accept k sockfd peeraddr calls =
    let call = Os.accept sockfd in
    (k.reply calls call, store_peer (k.reply calls call) (k.peer calls call) peeraddr, call ∷ calls)

-- A failure is only logged, here and below.
unfoldable pub shutdown_write : ℕ → Calls → Calls
shutdown_write sockfd calls = shutdown_wr sockfd ∷ calls

unfoldable pub set_tcp_no_delay : ℕ → Bool → Calls → Calls
set_tcp_no_delay sockfd on calls = setsockopt sockfd tcp_nodelay on ∷ calls

unfoldable pub set_reuse_addr : ℕ → Bool → Calls → Calls
set_reuse_addr sockfd on calls = setsockopt sockfd so_reuseaddr on ∷ calls

unfoldable pub set_reuse_port : ℕ → Bool → Calls → Calls
set_reuse_port sockfd on calls = setsockopt sockfd so_reuseport on ∷ calls

unfoldable pub set_keep_alive : ℕ → Bool → Calls → Calls
set_keep_alive sockfd on calls = setsockopt sockfd so_keepalive on ∷ calls
