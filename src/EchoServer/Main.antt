-- ===== src/EchoServer/Main.antt =====
-- `main` of example/test_server.cc, up to `loop.loop ()`, and what it serves then.
pub mod Granted
pub mod Served
use moduo.Prelude.{
  ℕ, ◌+◌, ◌^◌, ◌<◌, ◌≡◌, refl, sym, ap, ◌∙◌, Bool, true, false, some, List, [], ◌∷◌, ◌++◌, Outcome,
  ok, ◌>>=◌, >>=-eq-ok, >>=-returns, arith, length, codes,
}
use moduo.Os.{
  Kernel, Calls, Reply, returns, ctl_add, epoll_ctl, eventfd, epoll_create, socket_stream,
  setsockopt, so_reuseaddr, so_reuseport,
}
use moduo.Os
use moduo.Socket
use moduo.Channel.{Channel, fresh, added}
use moduo.Channel
use moduo.Channel.Events
use moduo.Poller
use moduo.Poller.Interest.{registered}
use moduo.EventLoop.{EventLoop}
use moduo.EventLoop
use moduo.EventLoop.Lifetime
use moduo.EventLoop.Lifetime.{IsReady, new-IsReady}
use moduo.Acceptor.{Acceptor, set_new_connection_callback}
use moduo.Acceptor
use moduo.Acceptor.Listening.{IsListening, listen-IsListening}
use moduo.InetAddress.{Net, to_ip}
use moduo.InetAddress
use moduo.InetAddress.Printing.{NetLaws, to_ip_port_lem}
use moduo.TcpServer.{Text, TcpServer, Task}
use moduo.TcpServer
use moduo.TcpServer.Spread.{IsAt, accept_all, accept_all_from, with_establishments}
use moduo.EchoServer

-- The objects of `main`: the server with its acceptor, and the loop.
pub record Program : Type 0 where
  pub server : TcpServer
  pub acceptor : Acceptor
  pub base : EventLoop Task

-- Where the loop, its wakeup channel and the acceptor's channel lie, and what lies where the server is
-- made.
pub record Places : Type 0 where
  pub loop : ℕ
  pub wakeup_channel : ℕ
  pub accept_channel : ℕ
  pub memory : ℕ

-- `main` runs in the thread `tid`, which is the loop's, so that `setThreadNum` listens at once.
unfoldable pub main :
    Kernel → Net → (use_poll : Bool) → Places → (tid : ℕ) → (start_loop : ℕ → ℕ) → Outcome Program
main k net use_poll places tid start_loop = do
  base ← EventLoop.Lifetime.new k use_poll false places.wakeup_channel tid []
  server ←
      EchoServer.new net places.memory places.loop (InetAddress.new net 8000 (codes "127.0.0.1"))
        (codes "EchoServer-01")
  (acceptor, base₁) ← Acceptor.new k places.accept_channel false base
  (acceptor₁, base₂) ← Acceptor.listen k (set_new_connection_callback true acceptor) base₁
  ok (record { server = EchoServer.start start_loop server; acceptor = acceptor₁; base = base₂ })
