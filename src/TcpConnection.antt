-- ===== src/TcpConnection.antt =====
-- src/TcpConnection.h and src/TcpConnection.cc. A method takes and returns the connection and its loop;
-- the callbacks of the user and of the server are the parameter `App`.
pub mod Send
pub mod Handlers
pub mod Lifecycle
pub mod History
pub mod Sending
pub mod Idle
pub mod Draining
pub mod Queueing
pub mod Stream
pub mod Closing
pub mod Established
pub mod Kept
pub mod Reading
pub mod Refused
pub mod Watched
pub mod Crossing
use moduo.Prelude.{ℕ, ◌*◌, Bool, true, false, List, Outcome, exits, if◌then◌else◌, Text}
use moduo.InetAddress.{InetAddress}
use moduo.Buffer.{Buffer}
use moduo.Buffer
use moduo.Socket
use moduo.Channel.{Channel}
use moduo.Channel
use moduo.EventLoop.{EventLoop}

-- `StateE`.
pub data State : Type 0 where
  disconnected connecting connected disconnecting : State

abbrev pub is_connected : State → Bool
is_connected connected = true
is_connected _ = false

abbrev pub is_disconnected : State → Bool
is_disconnected disconnected = true
is_disconnected _ = false

abbrev pub is_disconnecting : State → Bool
is_disconnecting disconnecting = true
is_disconnecting _ = false

-- The functors that a connection hands to its loop. `sends` carries the pointer and the length that
-- `std::bind` copies, not the bytes.
pub data Task : Type 0 where
  sends : ℕ → ℕ → Task
  shuts_down : Task
  write_completes : Task
  high_water : ℕ → Task

-- The members that are `const`.
pub record Identity : Type 0 where
  pub name : Text
  pub local_address : InetAddress
  pub peer_address : InetAddress

-- `has_…` say which callbacks are set.
pub record Connection : Type 0 where
  pub identity : Identity
  pub state : State
  pub reading : Bool
  pub channel : Channel
  pub socket : ℕ
  pub high_water_mark : ℕ
  pub input_buffer : Buffer
  pub output_buffer : Buffer
  pub has_connection : Bool
  pub has_message : Bool
  pub has_write_complete : Bool
  pub has_high_water_mark : Bool
  pub has_close : Bool

abbrev pub Session : Type 0
Session = Connection × EventLoop Task

-- The callbacks, on what they can reach; `memory` is what lies at an address when it is read.
pub record App : Type 0 where
  pub on_connection : Session → Outcome Session
  pub on_message : ℕ → Session → Outcome Session
  pub on_write_complete : Session → Outcome Session
  pub on_high_water_mark : ℕ → Session → Outcome Session
  pub on_close : Session → Outcome Session
  pub memory : ℕ → ℕ → Outcome (List ℕ)

-- An empty `std::function` throws when it is called, and nothing catches.
abbrev pub call_if : Bool → (Session → Outcome Session) → Session → Outcome Session
call_if is_set f st = if is_set then f st else exits

-- The members that the constructor sets, with the callbacks that it binds to the channel.
abbrev pub bare : Identity → ℕ → ℕ → Connection
bare identity address sockfd = record {
  identity = identity;
  state = connecting;
  reading = true;
  channel = Channel.set_error_callback true (
      Channel.set_close_callback true (
        Channel.set_write_callback true
          (Channel.set_read_callback true (Channel.new address sockfd))));
  socket = sockfd;
  high_water_mark = 64 * 1024 * 1024;
  input_buffer = Buffer.new Buffer.initial_size;
  output_buffer = Buffer.new Buffer.initial_size;
  has_connection = false;
  has_message = false;
  has_write_complete = false;
  has_high_water_mark = false;
  has_close = false;
}

unfoldable pub new : Identity → ℕ → ℕ → EventLoop Task → Session
new identity address sockfd l =
    (bare identity address sockfd, record l { calls = Socket.set_keep_alive sockfd true l.calls })

-- The setters of callbacks: `is_set` is whether the `std::function` given holds one.
unfoldable pub set_connection_callback : Bool → Connection → Connection
set_connection_callback is_set c = record c { has_connection = is_set }

unfoldable pub set_message_callback : Bool → Connection → Connection
set_message_callback is_set c = record c { has_message = is_set }

unfoldable pub set_write_complete_callback : Bool → Connection → Connection
set_write_complete_callback is_set c = record c { has_write_complete = is_set }

unfoldable pub set_high_water_mark : Bool → ℕ → Connection → Connection
set_high_water_mark is_set mark c = record c {
  has_high_water_mark = is_set;
  high_water_mark = mark;
}

unfoldable pub set_close_callback : Bool → Connection → Connection
set_close_callback is_set c = record c { has_close = is_set }

-- The destructor, with that of the socket. The poller is not told.
unfoldable pub destroy : Session → EventLoop Task
unfolding Socket.destroy
destroy (c, l) = record l { calls = Socket.destroy c.socket l.calls }

abbrev pub with_channel : Connection → Channel × EventLoop Task → Session
with_channel c (ch, l) = (record c { channel = ch }, l)
