-- ===== src/TcpConnection/Reading.antt =====
-- `handleRead`: a message, the end of the stream, or an error.
use moduo.Prelude.{ℕ, ◌^◌, ◌<◌, ◌≡◌, refl, true, [], ◌∷◌, ◌++◌, ok, length, arith, lt→ltb}
use moduo.Os.{Kernel, Input, delivers, refuses, readv, get_so_error, ReadvFits}
use moduo.Buffer.{Buffer, read_fd, read_lengths}
use moduo.Buffer.Bounds.{IsValid}
use moduo.Buffer.Contents.{contents, Fits}
use moduo.Buffer.ReadFd.{read_fd_refines}
use moduo.EventLoop.{EventLoop}
use moduo.TcpConnection.{Connection, Session, Task, App}
use moduo.Channel.{epoll_in}
use moduo.Channel.Dispatch.{handle_event_in}
use moduo.TcpConnection.Handlers.{
  handle_event, call_callback, handle_read, handle_close, after_read_fd, handle_error,
}

-- How many bytes came.
abbrev pub received : Input → ℕ
received (delivers bytes) = length bytes
received (refuses errno) = 0

-- The session with `b` for its input buffer, once `readv` was called.
abbrev pub after_readv : Connection → EventLoop Task → Buffer → Session
after_readv c l b = (
  record c { input_buffer = b },
  record l { calls = readv c.channel.fd (read_lengths c.input_buffer) ∷ l.calls },
)

-- What a read comes to: bytes go to the message callback, behind what was there; no bytes close the
-- connection; an error is asked for and logged.
abbrev pub ReadsAs : Kernel → App → ℕ → Connection → EventLoop Task → Input → Type 0
ReadsAs k app time c l (delivers (x ∷ xs)) =
    (b : Buffer) × (handle_read k app time (c, l) ≡ app.on_message time (after_readv c l b))
    × (contents b ≡ contents c.input_buffer ++ x ∷ xs)
    × IsValid b
ReadsAs k app time c l (delivers []) =
    (b : Buffer) × (handle_read k app time (c, l) ≡ handle_close k app (after_readv c l b))
    × (contents b ≡ contents c.input_buffer ++ [])
    × IsValid b
ReadsAs k app time c l (refuses errno) =
    let (c', l') = after_readv c l c.input_buffer in
    handle_read k app time (c, l)
    ≡ ok (c, record l' { calls = get_so_error c.channel.fd ∷ l'.calls })

-- Where the kernel keeps to the buffers that it is given, `handleRead` on a connection with the message
-- callback set, a valid input buffer of fewer than 2 ^ 62 bytes, and room for what comes: bytes are added to
-- the input buffer and the message callback is called once, the end of the stream closes the connection,
-- and an error only asks for SO_ERROR.
pub handle_read_lem :
    (k : Kernel) (app : App) (time : ℕ) (c : Connection) (l : EventLoop Task) (i : Input)
    → ReadvFits k
    → IsValid c.input_buffer
    → length (c.input_buffer.buffer) < 2 ^ 62
    → c.has_message ≡ true
    → k.input l.calls (readv c.channel.fd (read_lengths c.input_buffer)) ≡ i
    → Fits (received i) c.input_buffer
    → ReadsAs k app time c l i
unfolding handle_read after_read_fd handle_error read_fd
handle_read_lem k app time c l (refuses errno) fits v small told came room = rw (came, read_fd) refl
handle_read_lem k app time c l (delivers []) fits v small told came room =
    let (b, read, held, valid) =
      read_fd_refines k c.channel.fd l.calls c.input_buffer [] fits v small came room in
    (b, rw read refl, held, valid)
handle_read_lem k app time c l (delivers (x ∷ xs)) fits v small told came room =
    let (b, read, held, valid) =
      read_fd_refines k c.channel.fd l.calls c.input_buffer (x ∷ xs) fits v small came room in
    (b, rw read (rw (lt→ltb 0 (length (x ∷ xs)) (omega arith), told) refl), held, valid)

-- An EPOLLIN event on the channel, while the connection is there, is a read.
pub handle_event_lem :
    (k : Kernel) (app : App) (tid time : ℕ) (c : Connection) (l : EventLoop Task)
    → c.channel.revents ≡ epoll_in
    → c.channel.tied ≡ true
    → c.channel.has_read ≡ true
    → handle_event k app tid time true (c, l) ≡ handle_read k app time (c, l)
unfolding handle_event call_callback
handle_event_lem k app tid time c l came tied reads =
    handle_event_in (call_callback k app tid time) c.channel (c, l) came tied reads
