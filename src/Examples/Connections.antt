-- ===== src/Examples/Connections.antt =====
-- Connections.
use moduo.Prelude.{codes, ℕ, ◌≡◌, refl, true, List, [], ◌∷◌, ◌++◌, replicate, ok, arith}
use moduo.Os.{Reply, write, ctl_add, epoll_ctl}
use moduo.Buffer
use moduo.Buffer.{Buffer}
use moduo.Channel.{Channel, added}
use moduo.Poller.Interest.{registered}
use moduo.EventLoop.{EventLoop}
use moduo.TcpConnection.{Identity, Connection, Session, Task, App, connected, disconnecting}
use moduo.TcpConnection.Send.{send_in_loop, shutdown}
use moduo.TcpConnection.Lifecycle.{IsOrderly}
use moduo.TcpConnection.Sending.{IsIdle}
use moduo.TcpConnection.Idle.{IsSent, send_in_loop-IsSent}
use moduo.TcpConnection.Closing.{IsRegistered}
use moduo.Examples.Kernels.{kernel, kernel_of, kernel-EpollLaws, kernel-WriteFits}
use moduo.Examples.Loops.{loop}

abbrev pub channel : ℕ → Channel
channel events = record {
  address = 40;
  fd = 7;
  events = events;
  revents = 0;
  index = added;
  tied = true;
  has_read = true;
  has_write = true;
  has_close = true;
  has_error = true;
}

abbrev pub drained : Buffer
drained = record { buffer = replicate 12 0; reader_index = 8; writer_index = 8 }

abbrev three_bytes : Buffer
three_bytes = record {
  buffer = replicate 8 0 ++ (1 ∷ 2 ∷ 3 ∷ []);
  reader_index = 8;
  writer_index = 11;
}

abbrev pub who : Identity
who = record {
  name = codes "c";
  local_address = record { sin_family = 2; sin_port = 8; sin_addr = 1 };
  peer_address = record { sin_family = 2; sin_port = 5; sin_addr = 2 };
}

abbrev pub connection : Channel → Buffer → Connection
connection ch b = record {
  identity = who;
  state = connected;
  reading = true;
  channel = ch;
  socket = 7;
  high_water_mark = 64;
  input_buffer = drained;
  output_buffer = b;
  has_connection = true;
  has_message = true;
  has_write_complete = true;
  has_high_water_mark = true;
  has_close = true;
}

abbrev pub registered_loop : EventLoop Task
registered_loop = record (loop []) { calls = epoll_ctl ctl_add 7 3 40 ∷ [] }

abbrev pub idle : Session
idle = (connection (channel 3) drained, registered_loop)

pub idle-IsIdle : (writes : List ℕ → Reply) → IsIdle (kernel_of writes []) idle
unfolding registered
idle-IsIdle writes = record {
  open_state = refl;
  marked = refl;
  reads = refl;
  listed = refl;
  valid = omega arith;
  reset = refl;
  drained = refl;
}

send_in_loop-IsSent_example :
    (st' : Session) × (send_in_loop (kernel 2 []) 5 (1 ∷ 2 ∷ 3 ∷ []) idle ≡ ok st')
    × IsSent (1 ∷ 2 ∷ 3 ∷ []) 2 idle st'
send_in_loop-IsSent_example =
    send_in_loop-IsSent (kernel 2 []) 5 (1 ∷ 2 ∷ 3 ∷ []) idle 2 (kernel-EpollLaws 2 [])
      (kernel-WriteFits 2 []) (idle-IsIdle _) (omega arith) refl

-- A connection that is shutting down with three bytes to go.
abbrev leaving : Connection
leaving = record (connection (channel 7) three_bytes) { state = disconnecting }

-- Callbacks that do nothing, and memory that holds a byte for each address.
abbrev pub app : App
app = record {
  on_connection = ok;
  on_message = λ time st. ok st;
  on_write_complete = ok;
  on_high_water_mark = λ n st. ok st;
  on_close = ok;
  memory = λ address len. ok (replicate len address);
}

app-IsOrderly : IsOrderly app
app-IsOrderly = record {
  connection = λ st st' h. ground arith;
  message = λ time st st' h. ground arith;
  write_complete = λ st st' h. ground arith;
  high_water_mark = λ n st st' h. ground arith;
  close = λ st st' h. ground arith;
}

idle-IsRegistered : IsRegistered (kernel 9 []) idle
unfolding registered
idle-IsRegistered = record { marked = refl; listed = refl; tells = refl; closes = refl }

-- A connection of the thread 5 is shut down by the thread 6.
abbrev shut_by_other : Session
shut_by_other = shutdown 6 idle

-- Two bytes are sent behind the three, and then the kernel takes two.
abbrev five_bytes : ℕ → Connection
five_bytes reader = record leaving {
  output_buffer = record {
    buffer = replicate 8 0 ++ (1 ∷ 2 ∷ 3 ∷ 4 ∷ 5 ∷ []);
    reader_index = reader;
    writer_index = 13;
  };
}

abbrev wrote_five : EventLoop Task
wrote_five = record registered_loop {
  calls = write 7 (1 ∷ 2 ∷ 3 ∷ 4 ∷ 5 ∷ []) ∷ registered_loop.calls;
}
