-- ===== src/EchoServer.antt =====
-- example/test_server.cc: a server that sends each message back and shuts its end down.
pub mod Replies
pub mod Serving
pub mod Stalling
pub mod Watching
pub mod Main
use moduo.Prelude.{some, ℕ, false, true, [], Outcome, ok, ◌>>=◌}
use moduo.Os.{Kernel}
use moduo.Buffer
use moduo.TcpConnection.{Session, App}
use moduo.TcpConnection.Send.{send, shutdown}
use moduo.InetAddress.{Net, InetAddress}
use moduo.TcpServer.{Text, TcpServer}
use moduo.TcpServer

-- The callback only logs.
unfoldable pub on_connection : Session → Outcome Session
on_connection st = ok st

-- `address` is where the message lies.
unfoldable pub on_message : Kernel → (tid address : ℕ) → Session → Outcome Session
on_message k tid address (c, l) = do
  (msg, b) ← Buffer.retrieve_all_as_string c.input_buffer
  st ← send k tid address msg (record c { input_buffer = b }, l)
  ok (shutdown tid st)

-- The callbacks of a connection of the server; `on_close` is the server's, and the server sets no
-- callback for a completed write or a high-water mark.
unfoldable pub echo : Kernel → (tid address : ℕ) → (Session → Outcome Session) → App
echo k tid address on_close = record {
  on_connection = on_connection;
  on_message = λ time st. on_message k tid address st;
  on_write_complete = ok;
  on_high_water_mark = λ n st. ok st;
  on_close = on_close;
  memory = λ a n. ok [];
}

-- The constructor of `EchoServer`, and `start`, on what `TcpServer` is with the memory it is made in.
unfoldable pub new : Net → (memory loop : ℕ) → InetAddress → (name : Text) → Outcome TcpServer
new net memory loop addr name = do
  server ← TcpServer.new net memory (some loop) addr name
  ok (
      TcpServer.set_thread_num 3
        (TcpServer.set_message_callback true (TcpServer.set_connection_callback true server)))

unfoldable pub start : (ℕ → ℕ) → TcpServer → TcpServer
start start_loop s = TcpServer.start start_loop s
