-- ===== src/TcpServer.antt =====
-- src/TcpServer.h and src/TcpServer.cc: the server's connections. What the server asks of the loops is
-- kept in `requests`; what a loop does with a request is in EventLoop. A text is a list of characters.
pub mod Accounts
pub mod Names
pub mod Adding
pub mod Balance
pub mod Steps
pub mod Opening
pub mod Spread
pub mod Protocol
pub mod Lifetime
pub mod Accepting
pub mod Named
pub mod Silent
pub use moduo.Prelude.{Text}
use moduo.Prelude.{
  ℕ, suc, ◌+◌, ◌^◌, ◌%◌, Bool, true, false, ◌&&◌, Option, none, some, List, [], ◌∷◌, ◌++◌, Outcome,
  ok, exits, undefined, ◌>>=◌, take, ltb, ◌==◌, if◌then◌else◌,
}
use moduo.InetAddress.{Net, InetAddress, to_ip_port}
use moduo.EventLoopThreadPool.{EventLoopThreadPool, get_next_loop}
use moduo.EventLoopThreadPool
use moduo.EventLoop.{EventLoop}
use moduo.TcpConnection.{Session}
use moduo.TcpConnection

abbrev pub same : Text → Text → Bool
same [] [] = true
same [] (y ∷ ys) = false
same (x ∷ xs) [] = false
same (x ∷ xs) (y ∷ ys) = (x == y) && same xs ys

-- What the server keeps of a connection: the name, the loop and the descriptor it is made with.
pub record Handle : Type 0 where
  pub name : Text
  pub loop : ℕ
  pub socket : ℕ

-- The functors that the server hands to loops.
pub data Task : Type 0 where
  listens : Task
  establishes removes destroys : Handle → Task

-- A call of `runInLoop` or of `queueInLoop` on a loop.
pub data Request : Type 0 where
  run_in_loop queue_in_loop : ℕ → Task → Request

-- `ConnectionMap`. The key of a connection is its name; the order of the list is that in which the map
-- is gone through.
abbrev pub ConnectionMap : Type 0
ConnectionMap = List Handle

unfoldable pub find : Text → ConnectionMap → Option Handle
find name [] = none
find name (h ∷ rest) = if same name h.name then some h else find name rest

unfoldable pub erase : Text → ConnectionMap → ConnectionMap
erase name [] = []
erase name (h ∷ rest) = let kept = erase name rest in if same name h.name then kept else h ∷ kept

-- `requests` has the latest first. `started` is the bit pattern of a 32-bit int. `has_…` say which
-- callbacks are set.
pub record TcpServer : Type 0 where
  pub loop : ℕ
  pub ip_port : Text
  pub name : Text
  pub pool : EventLoopThreadPool
  pub started : ℕ
  pub next_conn_id : ℕ
  pub connections : ConnectionMap
  pub has_connection : Bool
  pub has_message : Bool
  pub has_write_complete : Bool
  pub has_thread_init : Bool
  pub requests : List Request

-- What the constructor leaves. It does not set `started_`, which holds what is in the memory.
abbrev pub constructed : (memory loop : ℕ) (ip_port name : Text) → TcpServer
constructed memory loop ip_port name = record {
  loop = loop;
  ip_port = ip_port;
  name = name;
  pool = EventLoopThreadPool.new loop name;
  started = memory;
  next_conn_id = 1;
  connections = [];
  has_connection = false;
  has_message = false;
  has_write_complete = false;
  has_thread_init = false;
  requests = [];
}

-- A null pointer is `LOG_FATAL`.
abbrev pub check_loop_not_null : Option ℕ → Outcome ℕ
check_loop_not_null none = exits
check_loop_not_null (some loop) = ok loop

-- The acceptor that is made on the same address is in Acceptor.
unfoldable pub new :
    Net → (memory : ℕ) (loop : Option ℕ) → InetAddress → (name : Text) → Outcome TcpServer
new net memory pointer address name = do
  loop ← check_loop_not_null pointer
  ip_port ← to_ip_port net address
  ok (constructed memory loop ip_port name)

-- The setters of callbacks: `is_set` is whether the `std::function` given holds one.
unfoldable pub set_thread_init_callback : Bool → TcpServer → TcpServer
set_thread_init_callback is_set s = record s { has_thread_init = is_set }

unfoldable pub set_connection_callback : Bool → TcpServer → TcpServer
set_connection_callback is_set s = record s { has_connection = is_set }

unfoldable pub set_message_callback : Bool → TcpServer → TcpServer
set_message_callback is_set s = record s { has_message = is_set }

unfoldable pub set_write_complete_callback : Bool → TcpServer → TcpServer
set_write_complete_callback is_set s = record s { has_write_complete = is_set }

unfoldable pub set_thread_num : ℕ → TcpServer → TcpServer
set_thread_num n s = record s {
  pool = EventLoopThreadPool.set_thread_num n s.pool;
  requests = run_in_loop s.loop listens ∷ s.requests;
}

-- The pool is started without a callback.
unfoldable pub start : (ℕ → ℕ) → TcpServer → TcpServer
start start_loop s =
    let s' = record s { started = (s.started + 1) % 2 ^ 32 } in
    if s.started == 0
    then record s' { pool = (EventLoopThreadPool.start start_loop false s.pool).0 }
    else s'

-- `print` is what `%d` prints. `snprintf` keeps 63 characters.
unfoldable pub connection_name : (ℕ → Text) → TcpServer → ℕ → Text
connection_name print s i = s.name ++ take 63 (45 ∷ s.ip_port ++ 35 ∷ print i)

-- `++ nextConnId_` on an int.
abbrev pub increment : ℕ → Outcome ℕ
increment i = if ltb (i + 1) (2 ^ 31) then ok (i + 1) else undefined

unfoldable pub new_connection : (ℕ → Text) → ℕ → TcpServer → Outcome TcpServer
new_connection print sockfd s = do
  (io_loop, pool) ← get_next_loop s.pool
  next ← increment s.next_conn_id
  conn ←
      ok (record { name = connection_name print s s.next_conn_id; loop = io_loop; socket = sockfd })
  ok (record s {
    pool = pool;
    next_conn_id = next;
    connections = conn ∷ erase conn.name s.connections;
    requests = run_in_loop io_loop (establishes conn) ∷ s.requests;
  })

-- `local` after `getsockname`, which leaves the zeros of `bzero` if it fails.
abbrev pub own_address : Option InetAddress → InetAddress
own_address none = record { sin_family = 0; sin_port = 0; sin_addr = 0 }
own_address (some address) = address

-- What `newConnection` gives the connection: `local` is what `getsockname` finds.
unfoldable pub identify :
    (ℕ → Text)
    → (local : Option InetAddress) → (peer : InetAddress) → TcpServer
    → TcpConnection.Identity
identify print local peer s = record {
  name = connection_name print s s.next_conn_id;
  local_address = own_address local;
  peer_address = peer;
}

-- The connection that `newConnection` makes and hands its callbacks to; it lies with its channel at
-- `address`, on the loop `l`.
unfoldable pub make_connection :
    TcpServer
    → TcpConnection.Identity
    → (address sockfd : ℕ) → EventLoop TcpConnection.Task
    → Session
make_connection s identity address sockfd l =
    let (c, l') = TcpConnection.new identity address sockfd l in
    (
      TcpConnection.set_close_callback true (
          TcpConnection.set_write_complete_callback s.has_write_complete (
            TcpConnection.set_message_callback s.has_message
              (TcpConnection.set_connection_callback s.has_connection c))),
      l',
    )

unfoldable pub remove_connection : Handle → TcpServer → TcpServer
remove_connection conn s = record s { requests = run_in_loop s.loop (removes conn) ∷ s.requests }

unfoldable pub remove_connection_in_loop : Handle → TcpServer → TcpServer
remove_connection_in_loop conn s = record s {
  connections = erase conn.name s.connections;
  requests = queue_in_loop conn.loop (destroys conn) ∷ s.requests;
}

-- The loop of the destructor, over the connections that are left.
unfoldable pub destroy_all : ConnectionMap → List Request → List Request
destroy_all [] requests = requests
destroy_all (conn ∷ rest) requests =
    destroy_all rest (run_in_loop conn.loop (destroys conn) ∷ requests)

unfoldable pub destroy : TcpServer → TcpServer
destroy s = record s { connections = []; requests = destroy_all s.connections s.requests }
