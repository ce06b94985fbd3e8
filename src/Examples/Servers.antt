-- ===== src/Examples/Servers.antt =====
-- Servers.
use moduo.Prelude.{
  PrintLaws, ℕ, ◌≡◌, refl, false, true, none, some, [], ◌∷◌, ok, arith, codes, c_string, store,
}
use moduo.InetAddress.{InetAddress, to_ip_port, ip_buffer}
use moduo.InetAddress
use moduo.Examples.Addresses.{net}
use moduo.Os.{
  ctl_add, epoll_ctl, socket_stream, bind, listen, setsockopt, so_reuseaddr, so_reuseport,
}
use moduo.Socket
use moduo.Channel.{Channel, added}
use moduo.Channel
use moduo.Channel.Events
use moduo.Poller
use moduo.Poller.Interest.{registered}
use moduo.EventLoop.{EventLoop}
use moduo.EventLoop
use moduo.Acceptor.{Acceptor}
use moduo.Acceptor
use moduo.Acceptor.Listening.{IsListening, acceptor_lifetime}
use moduo.Examples.Kernels.{kernel, kernel-EpollLaws}
use moduo.Examples.Loops.{loop}
use moduo.TcpServer.{Text, Handle, establishes, run_in_loop, TcpServer, constructed, new}
use moduo.TcpServer.Spread.{handle_at}
use moduo.Prelude.{◌+◌}

-- A printer that gives each int a character of its own.
abbrev pub print : ℕ → Text
print i = i ∷ []

pub print-PrintLaws : PrintLaws print
print-PrintLaws = record { short = λ i h. omega arith; injective = λ i j hi hj e. ground arith }

-- A server of the loop 7 at the address "1:8".
abbrev pub fresh_server : TcpServer
fresh_server = constructed 0 7 (codes "1:8") (101 ∷ [])

abbrev address : InetAddress
address = InetAddress.new net 8 (codes "1.0.0.127")

pub fresh_server_lem :
    new net 0 (some 7) (InetAddress.new net 8 (codes "1.0.0.127")) (101 ∷ []) ≡ ok fresh_server
unfolding new InetAddress.new to_ip_port ip_buffer c_string store
fresh_server_lem = refl

-- A connection of the descriptor 9, and the server with it.
abbrev pub conn : Handle
conn = record { name = 101 ∷ 45 ∷ 49 ∷ 58 ∷ 56 ∷ 35 ∷ 1 ∷ []; loop = 7; socket = 9 }

abbrev pub one_connection : TcpServer
one_connection = record {
  loop = 7;
  ip_port = 49 ∷ 58 ∷ 56 ∷ [];
  name = 101 ∷ [];
  pool = record {
    base_loop = 7;
    name = 101 ∷ [];
    num_threads = 0;
    started = false;
    next = 0;
    loops = [];
  };
  started = 0;
  next_conn_id = 2;
  connections = conn ∷ [];
  has_connection = false;
  has_message = false;
  has_write_complete = false;
  has_thread_init = false;
  requests = run_in_loop 7 (establishes conn) ∷ [];
}

-- An acceptor on the descriptor 6, made and listening on a loop.
abbrev made : Acceptor
made = record {
  accept_socket = 6;
  accept_channel = record (Channel.new 50 6) { has_read = true };
  has_new_connection = false;
  listenning = false;
}

abbrev listening : Acceptor
listening = record made {
  accept_channel = record (Channel.new 50 6) { has_read = true; events = 3; index = added };
  has_new_connection = true;
  listenning = true;
}

abbrev bound_loop : EventLoop ℕ
bound_loop = record (loop []) {
  calls =
      bind 6
      ∷ setsockopt 6 so_reuseport false
      ∷ setsockopt 6 so_reuseaddr true
      ∷ socket_stream
      ∷ [];
}

abbrev watching_loop : EventLoop ℕ
watching_loop = record (loop []) {
  poller = record { channels = (6, 50) ∷ []; event_count = 16; epollfd = 3 };
  calls =
      epoll_ctl ctl_add 6 3 50
      ∷ listen 6
      ∷ bind 6
      ∷ setsockopt 6 so_reuseport false
      ∷ setsockopt 6 so_reuseaddr true
      ∷ socket_stream
      ∷ [];
}

acceptor_lifetime_example :
    IsListening (kernel 9 []) listening watching_loop
    × ((l : EventLoop ℕ) × (Acceptor.destroy (kernel 9 []) listening watching_loop ≡ ok l)
        × (registered (kernel 9 []) 6 l.calls ≡ false)
        × (Poller.find 6 l.poller.channels ≡ none))
unfolding Acceptor.new Acceptor.listen Acceptor.create_nonblocking Socket.bind_address Socket.listen
    Socket.set_reuse_addr Socket.set_reuse_port Events.enable_reading Events.update_events
    EventLoop.update_channel Channel.new Poller.update_channel Poller.update_channel_at
    Poller.register Poller.update Poller.insert Socket.require_zero
acceptor_lifetime_example =
    acceptor_lifetime (kernel 9 []) 50 false (loop []) bound_loop watching_loop made listening
      (kernel-EpollLaws 9 []) refl refl

third_on_first : (handle_at print (λ i. i + 20) 1 (codes "1:8") (codes "e") 2 11).loop ≡ 20
third_on_first = refl
