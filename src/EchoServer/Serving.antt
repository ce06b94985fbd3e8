-- ===== src/EchoServer/Serving.antt =====
-- The echo server from its constructor to the first message of a client.
use moduo.Prelude.{
  some, ℕ, ◌^◌, ◌<◌, ◌≡◌, refl, sym, ap, ◌∙◌, true, List, [], ◌∷◌, Outcome, ok, >>=-eq-ok, Text,
  length, arith,
}
use moduo.Os.{
  Kernel, Calls, returns, delivers, ctl_add, epoll_ctl, write, readv, ReadvFits, WriteFits,
}
use moduo.Socket
use moduo.Buffer.{Buffer, read_lengths}
use moduo.Buffer
use moduo.Buffer.Bounds.{new-IsValid}
use moduo.Buffer.Contents.{contents, Fits}
use moduo.Channel.{epoll_in}
use moduo.Poller.Interest.{EpollLaws}
use moduo.EventLoop.{EventLoop}
use moduo.InetAddress.{Net, InetAddress}
use moduo.TcpConnection.{Identity, Connection, Session, Task}
use moduo.TcpConnection.History.{reported}
use moduo.TcpConnection.Handlers.{connection_established, handle_event}
use moduo.TcpConnection.Established.{
  IsOpen, opened, watching, connection_established_lem, opened-IsOpen,
}
use moduo.TcpConnection.Reading.{handle_event_lem}
use moduo.TcpServer.{TcpServer, make_connection}
use moduo.TcpServer
use moduo.TcpConnection
use moduo.Channel
use moduo.EchoServer.{new, echo, on_connection}
use moduo.EchoServer.Replies.{IsEchoed, handle_read_echoes}

-- The calls made for a new connection before its first event.
abbrev pub opening_calls : (address sockfd : ℕ) → Calls → Calls
opening_calls address sockfd calls =
    epoll_ctl ctl_add sockfd 3 address ∷ Socket.set_keep_alive sockfd true calls

-- The `readv` of the first message, into the buffer of a new connection.
abbrev pub first_readv : ℕ → Calls → Calls
first_readv sockfd calls = readv sockfd (read_lengths (Buffer.new Buffer.initial_size)) ∷ calls

-- The poller has reported EPOLLIN.
abbrev pub with_input : Session → Session
with_input st = reported epoll_in st

with_input-IsOpen : (k : Kernel) (st : Session) → IsOpen k st → IsOpen k (with_input st)
with_input-IsOpen k st v = record {
  idle = record {
    open_state = v.idle.open_state;
    marked = v.idle.marked;
    reads = v.idle.reads;
    listed = v.idle.listed;
    valid = v.idle.valid;
    reset = v.idle.reset;
    drained = v.idle.drained;
  };
  open_now = v.open_now;
  reads_in = v.reads_in;
  tied = v.tied;
  found = v.found;
}

-- The echo server has its callbacks for connections and messages set.
new_callbacks :
    (net : Net) (memory loop : ℕ) (addr : InetAddress) (name : Text) (s : TcpServer)
    → new net memory loop addr name ≡ ok s
    → (s.has_connection ≡ true) × (s.has_message ≡ true)
unfolding new TcpServer.set_thread_num TcpServer.set_message_callback
    TcpServer.set_connection_callback
new_callbacks net memory loop addr name s made =
    let (server, _, e) = >>=-eq-ok (TcpServer.new net memory (some loop) addr name) _ made in
    (
      sym (ap (λ (u : TcpServer). u.has_connection) (ok-injective e)),
      sym (ap (λ (u : TcpServer). u.has_message) (ok-injective e)),
    )
  where
    ok-injective : {u v : TcpServer} → ok u ≡ ok v → u ≡ v
    ok-injective e = cc e

-- Whatever came first fits the buffer of a new connection.
new-Fits : (n : ℕ) → Fits n (Buffer.new Buffer.initial_size)
unfolding Buffer.new
new-Fits n = ground arith

-- The buffer of a new connection.
first_buffer :
    (contents (Buffer.new Buffer.initial_size) ≡ [])
    × (length (Buffer.new Buffer.initial_size).buffer < 2 ^ 62)
unfolding Buffer.new
first_buffer = (refl, omega arith)

-- A connection that the echo server takes, in its loop's thread: where the kernel adds the descriptor,
-- `connectionEstablished` returns; and when EPOLLIN is then reported and the kernel delivers a message of fewer than 2 ^ 62 bytes, and
-- takes `n` bytes of the reply, the event of the channel returns too, with the bytes from the `n`-th on
-- waiting in the output buffer in order, nothing unread, and the connection disconnecting, its write end
-- shut down once if all went out and otherwise not.
pub first_message_echoes :
    (k : Kernel) (net : Net) (tid at time memory loop address sockfd : ℕ) (addr : InetAddress)
    (name : Text) (who : Identity) (on_close : Session → Outcome Session) (bytes : List ℕ)
    (s : TcpServer) (l : EventLoop Task) (m n : ℕ)
    → EpollLaws k
    → ReadvFits k
    → WriteFits k
    → new net memory loop addr name ≡ ok s
    → l.thread_id ≡ tid
    → 0 < length bytes
    → length bytes < 2 ^ 62
    → k.reply (Socket.set_keep_alive sockfd true l.calls) (epoll_ctl ctl_add sockfd 3 address)
      ≡ returns m
    → k.input
        (opening_calls address sockfd l.calls)
        (readv sockfd (read_lengths (Buffer.new Buffer.initial_size)))
      ≡ delivers bytes
    → k.reply (first_readv sockfd (opening_calls address sockfd l.calls)) (write sockfd bytes)
      ≡ returns n
    → (st st' : Session) × (connection_established k
          (echo k tid at on_close)
          (make_connection s who address sockfd l)
        ≡ ok st)
      × (handle_event k (echo k tid at on_close) tid time true (with_input st) ≡ ok st')
      × IsEchoed bytes n st st'
unfolding make_connection TcpConnection.new TcpConnection.set_close_callback
    TcpConnection.set_message_callback TcpConnection.set_write_complete_callback
    TcpConnection.set_connection_callback Channel.new echo on_connection
first_message_echoes k net tid at time memory loop address sockfd addr name who on_close bytes s l m
      n laws rfits wfits made own some_byte small added_fd came taken =
    let (tells, told) = new_callbacks net memory loop addr name s made in
    let app = echo k tid at on_close in
    let (c, l') = make_connection s who address sockfd l in
    let v = opened-IsOpen k app c l' m refl refl tells added_fd refl refl in
    let (c₁, l₁) = with_input (opened c, watching c l') in
    let v₁ = with_input-IsOpen k (opened c, watching c l') v in
    let (st', read, echoed) =
      handle_read_echoes k tid at time on_close bytes c₁ l₁ n laws rfits wfits v₁ told own
        (new-IsValid Buffer.initial_size (omega arith)) (first_buffer.0) (first_buffer.1) some_byte
        (new-Fits (length bytes)) small came taken in
    (
      (opened c, watching c l'),
      st',
      connection_established_lem k app c l' m refl refl tells added_fd,
      handle_event_lem k app tid time c₁ l₁ refl refl refl ∙ read,
      record {
        rest = echoed.rest;
        consumed = echoed.consumed;
        writes = echoed.writes;
        ending = echoed.ending;
        shut = echoed.shut;
      },
    )
