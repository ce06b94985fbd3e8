-- ===== src/Examples/Echo.antt =====
-- New connections, messages that come, and the echo server.
use moduo.Prelude.{ℕ, ◌≡◌, refl, inl, true, false, List, [], ◌∷◌, ◌++◌, ok, arith}
use moduo.Os.{Calls, delivers, fails, ewouldblock}
use moduo.Buffer.{Buffer}
use moduo.Buffer.Bounds.{IsValid}
use moduo.Buffer.Contents.{contents}
use moduo.Channel.{is_writing, is_reading}
use moduo.Poller.{find}
use moduo.Poller.Interest.{registered}
use moduo.EventLoop.{EventLoop}
use moduo.TcpConnection.{Connection, Session, Task, disconnecting}
use moduo.TcpConnection.Send.{send_in_loop}
use moduo.TcpConnection.Handlers.{connection_established, handle_read, handle_write, handle_event}
use moduo.TcpConnection.Established.{IsOpen}
use moduo.TcpConnection.Reading.{after_readv, handle_read_lem}
use moduo.TcpConnection.Refused.{send_in_loop_refused}
use moduo.Prelude.{codes, c_string, store}
use moduo.Buffer
use moduo.EventLoopThreadPool
use moduo.InetAddress.{InetAddress, to_ip_port, ip_buffer}
use moduo.InetAddress
use moduo.EchoServer
use moduo.TcpServer
use moduo.TcpConnection.Draining.{shutdowns, handle_writes}
use moduo.EchoServer.Stalling.{partial_reply_stalls}
use moduo.EchoServer.Serving.{with_input, first_message_echoes}
use moduo.Examples.Addresses.{net}
use moduo.TcpServer.{listens, run_in_loop, set_thread_num, TcpServer, make_connection, constructed}
use moduo.EchoServer.{echo}
use moduo.EchoServer.Replies.{IsEchoed, handle_read_echoes}
use moduo.Examples.Kernels.{
  kernel, kernel_of, kernel_of-EpollLaws, kernel-EpollLaws, kernel-ReadvFits, kernel-WriteFits,
}
use moduo.Examples.Loops.{loop}
use moduo.Examples.Connections.{
  who, channel, connection, drained, registered_loop, idle-IsIdle, app,
}

-- A server with its callbacks for connections and messages set.
abbrev pub server : TcpServer
server = record (constructed 0 7 [] []) { has_connection = true; has_message = true }

-- The idle connection, found by its poller.
abbrev open_loop : EventLoop Task
open_loop = record registered_loop {
  poller = record { channels = (7, 40) ∷ []; event_count = 16; epollfd = 3 };
}

abbrev open_connection : Connection
open_connection = connection (channel 3) drained

established-IsOpen :
    (n : ℕ) (received : List ℕ) → IsOpen (kernel n received) (open_connection, open_loop)
unfolding registered find
established-IsOpen n received = record {
  idle = record {
    open_state = refl;
    marked = refl;
    reads = refl;
    listed = refl;
    valid = omega arith;
    reset = refl;
    drained = refl;
  };
  open_now = refl;
  reads_in = refl;
  tied = refl;
  found = refl;
}

handle_read_lem_example :
    (b : Buffer) × (handle_read (kernel 9 (1 ∷ 2 ∷ [])) app 3 (open_connection, open_loop)
      ≡ app.on_message 3 (after_readv open_connection open_loop b))
    × (contents b ≡ contents drained ++ 1 ∷ 2 ∷ [])
    × IsValid b
handle_read_lem_example =
    handle_read_lem (kernel 9 (1 ∷ 2 ∷ [])) app 3 open_connection open_loop (delivers (1 ∷ 2 ∷ []))
      (kernel-ReadvFits 9 (1 ∷ 2 ∷ [])) (omega arith) (omega arith) refl refl (inl (omega arith))

-- The third byte goes out later.
two_of_three :
    (st' : Session) × (handle_read
        (kernel 2 (1 ∷ 2 ∷ 3 ∷ []))
        (echo (kernel 2 (1 ∷ 2 ∷ 3 ∷ [])) 5 90 ok)
        3
        (open_connection, open_loop)
      ≡ ok st')
    × IsEchoed (1 ∷ 2 ∷ 3 ∷ []) 2 (open_connection, open_loop) st'
two_of_three =
    handle_read_echoes (kernel 2 (1 ∷ 2 ∷ 3 ∷ [])) 5 90 3 ok (1 ∷ 2 ∷ 3 ∷ []) open_connection
      open_loop 2 (kernel-EpollLaws 2 (1 ∷ 2 ∷ 3 ∷ [])) (kernel-ReadvFits 2 (1 ∷ 2 ∷ 3 ∷ []))
      (kernel-WriteFits 2 (1 ∷ 2 ∷ 3 ∷ [])) (established-IsOpen 2 (1 ∷ 2 ∷ 3 ∷ [])) refl refl
      (omega arith) refl (omega arith) (omega arith) (inl (omega arith)) (omega arith) refl refl

partial_reply_stalls_example :
    (st'' : Session) × (handle_write (kernel 2 (1 ∷ 2 ∷ 3 ∷ [])) 5 (two_of_three.0) ≡ ok st'')
    × (contents (st''.0.output_buffer) ≡ [])
    × (shutdowns (st''.1.calls) ≡ 0)
    × (st''.0.state ≡ disconnecting)
    × (is_writing (st''.0.channel) ≡ true)
    × (is_reading (st''.0.channel) ≡ false)
    × ((rounds : ℕ)
        → (calls : Calls) × (handle_writes (kernel 2 (1 ∷ 2 ∷ 3 ∷ [])) 5 rounds st''
            ≡ ok (st''.0, record (st''.1) { calls = calls }))
          × (shutdowns calls ≡ 0))
partial_reply_stalls_example =
    partial_reply_stalls (kernel 2 (1 ∷ 2 ∷ 3 ∷ [])) 5 90 3 ok (1 ∷ 2 ∷ 3 ∷ []) open_connection
      open_loop 2 (two_of_three.0) (kernel-EpollLaws 2 (1 ∷ 2 ∷ 3 ∷ []))
      (kernel-ReadvFits 2 (1 ∷ 2 ∷ 3 ∷ [])) (kernel-WriteFits 2 (1 ∷ 2 ∷ 3 ∷ []))
      (established-IsOpen 2 (1 ∷ 2 ∷ 3 ∷ [])) refl refl (omega arith) refl (omega arith)
      (omega arith) (inl (omega arith)) (omega arith) refl refl (two_of_three.1) refl

-- The kernel's buffer is full.
send_in_loop_refused_example :
    (st' : Session) × (send_in_loop
        (kernel_of (λ bytes. fails ewouldblock) [])
        5
        (1 ∷ 2 ∷ [])
        (open_connection, registered_loop)
      ≡ ok st')
    × (contents (st'.0.output_buffer) ≡ 1 ∷ 2 ∷ [])
    × (is_writing (st'.0.channel) ≡ true)
    × (st'.0.state ≡ open_connection.state)
    × (st'.1.pending_functors ≡ [])
send_in_loop_refused_example =
    send_in_loop_refused (kernel_of (λ bytes. fails ewouldblock) []) 5 (1 ∷ 2 ∷ []) open_connection
      registered_loop ewouldblock (kernel_of-EpollLaws (λ bytes. fails ewouldblock) [])
      (idle-IsIdle _) (omega arith) (omega arith) refl

-- The echo server at the address "1:8".
abbrev echo_server : TcpServer
echo_server = record (constructed 0 7 (codes "1:8") (codes "e")) {
  pool = record {
    base_loop = 7;
    name = codes "e";
    num_threads = 3;
    started = false;
    next = 0;
    loops = [];
  };
  has_connection = true;
  has_message = true;
  requests = run_in_loop 7 listens ∷ [];
}

echo_server_lem :
    EchoServer.new net 0 7 (InetAddress.new net 8 (codes "1.0.0.127")) (codes "e") ≡ ok echo_server
unfolding EchoServer.new TcpServer.new InetAddress.new to_ip_port ip_buffer c_string store
    set_thread_num TcpServer.set_message_callback TcpServer.set_connection_callback
    EventLoopThreadPool.new EventLoopThreadPool.set_thread_num
echo_server_lem = refl

first_message_echoes_example :
    (st st' : Session) × (connection_established
        (kernel 2 (1 ∷ 2 ∷ 3 ∷ []))
        (echo (kernel 2 (1 ∷ 2 ∷ 3 ∷ [])) 5 90 ok)
        (make_connection echo_server who 40 7 (loop []))
      ≡ ok st)
    × (handle_event
          (kernel 2 (1 ∷ 2 ∷ 3 ∷ []))
          (echo (kernel 2 (1 ∷ 2 ∷ 3 ∷ [])) 5 90 ok)
          5
          3
          true
          (with_input st)
        ≡ ok st')
    × IsEchoed (1 ∷ 2 ∷ 3 ∷ []) 2 st st'
unfolding Buffer.new
first_message_echoes_example =
    first_message_echoes (kernel 2 (1 ∷ 2 ∷ 3 ∷ [])) net 5 90 3 0 7 40 7
      (InetAddress.new net 8 (codes "1.0.0.127")) (codes "e") who ok (1 ∷ 2 ∷ 3 ∷ []) echo_server
      (loop []) 0 2 (kernel-EpollLaws 2 (1 ∷ 2 ∷ 3 ∷ [])) (kernel-ReadvFits 2 (1 ∷ 2 ∷ 3 ∷ []))
      (kernel-WriteFits 2 (1 ∷ 2 ∷ 3 ∷ [])) echo_server_lem refl (omega arith) (omega arith) refl
      refl refl
