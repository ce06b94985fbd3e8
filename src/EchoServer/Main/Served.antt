-- ===== src/EchoServer/Main/Served.antt =====
-- `main`: what listens, and what becomes of the connections that come.
use moduo.Prelude.{ℕ, true, ◌∷◌, ◌++◌, codes}
use moduo.EventLoop.{EventLoop}
use moduo.InetAddress.{Net, InetAddress}
use moduo.InetAddress
use moduo.TcpServer.{Text, TcpServer, Task}
use moduo.TcpServer
use moduo.EventLoopThreadPool
use moduo.EchoServer

-- The text of the address of `main`.
abbrev pub own_ip_port : Net → Text
own_ip_port net = net.inet_ntop (net.inet_addr (codes "127.0.0.1")) ++ 58 ∷ net.print 8000

-- The server as its constructor leaves it.
abbrev pub own_server : Net → ℕ → TcpServer
own_server net loop = TcpServer.set_thread_num 3 (
    TcpServer.set_message_callback true (
      TcpServer.set_connection_callback true
        (TcpServer.constructed 0 loop (own_ip_port net) (codes "EchoServer-01"))))
