-- ===== src/Os.antt =====
-- The system calls that the sources make. The kernel is not under src/: it is the parameter `Kernel`,
-- which answers a call from the calls made before it, so that its state is the history of calls.
use moduo.Prelude.{ℕ, Bool, ◌+◌, ◌≤◌, ◌≡◌, List, [], ◌∷◌, length}
use moduo.InetAddress.{InetAddress}

-- The operations of `epoll_ctl`.
pub data CtlOp : Type 0 where
  ctl_add ctl_mod ctl_del : CtlOp

-- The options of sockets that are set.
pub data SockOpt : Type 0 where
  tcp_nodelay so_reuseaddr so_reuseport so_keepalive : SockOpt

-- `epoll_ctl` carries the descriptor, the events and the pointer of its `epoll_event`; `write` the
-- bytes offered; `readv` the lengths of its buffers; an eventfd `read` its 8 bytes.
pub data Syscall : Type 0 where
  epoll_ctl : CtlOp → ℕ → ℕ → ℕ → Syscall
  write : ℕ → List ℕ → Syscall
  readv : ℕ → List ℕ → Syscall
  read : ℕ → ℕ → Syscall
  shutdown_wr : ℕ → Syscall
  get_so_error : ℕ → Syscall
  close : ℕ → Syscall
  eventfd epoll_create socket_stream : Syscall
  bind listen accept : ℕ → Syscall
  setsockopt : ℕ → SockOpt → Bool → Syscall

-- The calls made so far, the latest first.
abbrev pub Calls : Type 0
Calls = List Syscall

-- A result that is a number or -1 with an errno.
pub data Reply : Type 0 where
  returns : ℕ → Reply
  fails : ℕ → Reply

-- A result that is received bytes or -1 with an errno.
pub data Input : Type 0 where
  delivers : List ℕ → Input
  refuses : ℕ → Input

-- `peer` is the address that `accept` stores with a descriptor.
pub record Kernel : Type 0 where
  pub reply : Calls → Syscall → Reply
  pub input : Calls → Syscall → Input
  pub peer : Calls → Syscall → InetAddress

abbrev pub enoent : ℕ
enoent = 2

abbrev pub ewouldblock : ℕ
ewouldblock = 11

abbrev pub epipe : ℕ
epipe = 32

abbrev pub econnreset : ℕ
econnreset = 104

abbrev pub sum : List ℕ → ℕ
sum [] = 0
sum (x ∷ xs) = x + sum xs

-- `readv` fills its buffers and no more; `write` takes at most the bytes offered.
abbrev pub ReadvFits : Kernel → Type 0
ReadvFits k =
    (calls : Calls) (fd : ℕ) (lengths bytes : List ℕ)
    → k.input calls (readv fd lengths) ≡ delivers bytes
    → length bytes ≤ sum lengths

abbrev pub WriteFits : Kernel → Type 0
WriteFits k =
    (calls : Calls) (fd : ℕ) (bytes : List ℕ) (n : ℕ)
    → k.reply calls (write fd bytes) ≡ returns n
    → n ≤ length bytes
