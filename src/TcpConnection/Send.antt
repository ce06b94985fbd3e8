-- ===== src/TcpConnection/Send.antt =====
-- src/TcpConnection.cc: `send`, `sendInLoop`, `shutdown` and `shutdownInLoop`.
use moduo.Prelude.{
  ℕ, ◌-◌, Bool, false, not, ◌&&◌, ◌||◌, List, ◌∷◌, Outcome, ok, ◌>>=◌, length, drop, ltb, leb, ◌==◌,
  if◌then◌else◌, add_size,
}
use moduo.Os.{Kernel, Reply, returns, fails, write, ewouldblock, epipe, econnreset}
use moduo.Buffer.{Buffer, readable_bytes}
use moduo.Buffer
use moduo.Socket
use moduo.Channel.{is_writing}
use moduo.Channel.Events
use moduo.EventLoop.{EventLoop, is_in_loop_thread, queue_in_loop}
use moduo.TcpConnection.{
  Connection, Session, Task, sends, shuts_down, write_completes, high_water, with_channel,
  is_connected, is_disconnected, disconnecting,
}

-- How the direct write of `sendInLoop` went.
pub record Attempt : Type 0 where
  pub nwrote : ℕ
  pub remaining : ℕ
  pub fault_error : Bool
  pub loop : EventLoop Task

abbrev pub is_fault : ℕ → Bool
is_fault errno = not (errno == ewouldblock) && (errno == epipe || errno == econnreset)

-- `remaining = len - nwrote` is exact, since the kernel takes at most `len` bytes.
unfoldable pub after_write : ℕ → Connection → List ℕ → EventLoop Task → Reply → Attempt
after_write tid c message l (returns n) =
    let remaining = length message - n in
    record {
      nwrote = n;
      remaining = remaining;
      fault_error = false;
      loop =
          if remaining == 0 && c.has_write_complete then queue_in_loop tid write_completes l else l;
    }
after_write tid c message l (fails errno) = record {
  nwrote = 0;
  remaining = length message;
  fault_error = is_fault errno;
  loop = l;
}

unfoldable pub attempt : Kernel → ℕ → List ℕ → Session → Attempt
attempt k tid message (c, l) =
    let call = write c.channel.fd message in
    if not (is_writing c.channel) && readable_bytes c.output_buffer == 0
    then after_write tid c message (record l { calls = call ∷ l.calls }) (k.reply l.calls call)
    else record { nwrote = 0; remaining = length message; fault_error = false; loop = l }

abbrev pub crosses_mark : Connection → ℕ → Bool
crosses_mark c remaining =
    leb c.high_water_mark (add_size (readable_bytes c.output_buffer) remaining)
    && ltb (readable_bytes c.output_buffer) c.high_water_mark
    && c.has_high_water_mark

unfoldable pub start_writing : Kernel → Connection → EventLoop Task → Outcome Session
start_writing k c l =
    let enabled = do r ← Events.enable_writing k c.channel l; ok (with_channel c r)
    in if not (is_writing c.channel) then enabled else ok (c, l)

-- The part of `sendInLoop` that keeps what the kernel did not take.
unfoldable pub keep_rest : Kernel → ℕ → List ℕ → Connection → Attempt → Outcome Session
keep_rest k tid message c a = do
  let oldlen = readable_bytes c.output_buffer
  let l =
      if crosses_mark c a.remaining
      then queue_in_loop tid (high_water (add_size oldlen a.remaining)) a.loop
      else a.loop
  b ← Buffer.append (drop a.nwrote message) c.output_buffer
  start_writing k (record c { output_buffer = b }) l

unfoldable pub send_in_loop : Kernel → ℕ → List ℕ → Session → Outcome Session
send_in_loop k tid message (c, l) =
    let a = attempt k tid message (c, l) in
    let rest = keep_rest k tid message c a in
    if is_disconnected c.state
    then ok (c, l)
    else if not a.fault_error && ltb 0 a.remaining
    then rest
    else ok (c, a.loop)

-- The bytes of the caller's string, and where they lie. Another thread hands over the address alone.
unfoldable pub send : Kernel → ℕ → ℕ → List ℕ → Session → Outcome Session
send k tid address bytes (c, l) =
    let now = send_in_loop k tid bytes (c, l) in
    if is_connected c.state
    then (if is_in_loop_thread tid l
        then now
        else ok (c, queue_in_loop tid (sends address (length bytes)) l))
    else ok (c, l)

unfoldable pub shutdown_in_loop : Session → Session
unfolding Socket.shutdown_write
shutdown_in_loop (c, l) =
    if not (is_writing c.channel)
    then (c, record l { calls = Socket.shutdown_write c.socket l.calls })
    else (c, l)

-- The state changes at once, in whatever thread.
unfoldable pub shutdown : ℕ → Session → Session
shutdown tid (c, l) =
    let c' = record c { state = disconnecting } in
    if is_connected c.state
    then (if is_in_loop_thread tid l
        then shutdown_in_loop (c', l)
        else (c', queue_in_loop tid shuts_down l))
    else (c, l)
