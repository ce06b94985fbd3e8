-- ===== src/TcpConnection/Handlers.antt =====
-- src/TcpConnection.cc: what the channel calls, and the two ends of a connection's life.
use moduo.Prelude.{ℕ, Bool, ◌∷◌, Outcome, ok, ◌>>=◌, ltb, ◌==◌, if◌then◌else◌}
use moduo.Os.{Kernel, Reply, returns, fails, get_so_error}
use moduo.Buffer.{readable_bytes}
use moduo.Buffer
use moduo.Channel.{
  Callback, close_callback, error_callback, read_callback, write_callback, is_writing,
}
use moduo.Channel
use moduo.Channel.Events
use moduo.EventLoop.{queue_in_loop}
use moduo.TcpConnection.{
  Session, Task, sends, shuts_down, write_completes, high_water, App, with_channel, call_if,
  is_connected, is_disconnecting, disconnected, connected,
}
use moduo.TcpConnection.Send.{send_in_loop, shutdown_in_loop}

unfoldable pub handle_error : Session → Session
handle_error (c, l) = (c, record l { calls = get_so_error c.channel.fd ∷ l.calls })

-- The part of `handleWrite` for an output buffer that has run empty.
unfoldable pub finish_writing : Kernel → ℕ → Session → Outcome Session
finish_writing k tid (c, l) = do
  (ch, l₁) ← Events.disable_writing k c.channel l
  let c' = record c { channel = ch }
  let l₂ = if c.has_write_complete then queue_in_loop tid write_completes l₁ else l₁
  ok (if is_disconnecting c.state then shutdown_in_loop (c', l₂) else (c', l₂))

unfoldable pub after_write_fd : Kernel → ℕ → Session → Reply → Outcome Session
after_write_fd k tid st (fails errno) = ok st
after_write_fd k tid (c, l) (returns n) =
    let b = Buffer.retrieve n c.output_buffer in
    let c' = record c { output_buffer = b } in
    if ltb 0 n
    then (if readable_bytes b == 0 then finish_writing k tid (c', l) else ok (c', l))
    else ok (c, l)

unfoldable pub handle_write : Kernel → ℕ → Session → Outcome Session
handle_write k tid (c, l) =
    let written = do
      (calls, reply) ← Buffer.write_fd k c.channel.fd l.calls c.output_buffer
      after_write_fd k tid (c, record l { calls = calls }) reply
    in if is_writing c.channel then written else ok (c, l)

module _ (k : Kernel) (app : App) where
  unfoldable pub handle_close : Session → Outcome Session
  handle_close (c, l) = do
    r ← Events.disable_all k c.channel l
    st₁ ←
        call_if c.has_connection app.on_connection
          (with_channel (record c { state = disconnected }) r)
    call_if c.has_close app.on_close st₁

  unfoldable pub after_read_fd : ℕ → Session → Reply → Outcome Session
  after_read_fd time (c, l) (fails errno) = ok (handle_error (c, l))
  after_read_fd time (c, l) (returns n) =
      let message = call_if c.has_message (app.on_message time) (c, l) in
      let closed = handle_close (c, l) in if ltb 0 n then message else closed

  unfoldable pub handle_read : ℕ → Session → Outcome Session
  handle_read time (c, l) = do
    (b, calls, reply) ← Buffer.read_fd k c.channel.fd l.calls c.input_buffer
    after_read_fd time (record c { input_buffer = b }, record l { calls = calls }) reply

  unfoldable pub connection_established : Session → Outcome Session
  connection_established (c, l) = do
    r ← Events.enable_reading k (Channel.tie c.channel) l
    call_if c.has_connection app.on_connection (with_channel (record c { state = connected }) r)

  unfoldable pub remove_from_poller : Session → Outcome Session
  remove_from_poller (c, l) = do r ← Events.remove k c.channel l; ok (with_channel c r)

  unfoldable pub announce_end : Session → Outcome Session
  announce_end (c, l) = do
    r ← Events.disable_all k c.channel l
    call_if c.has_connection app.on_connection (with_channel (record c { state = disconnected }) r)

  unfoldable pub connection_destroyed : Session → Outcome Session
  connection_destroyed (c, l) =
      (if is_connected c.state then announce_end (c, l) else ok (c, l)) >>= remove_from_poller

  -- What the constructor binds to the channel.
  unfoldable pub call_callback : ℕ → ℕ → Callback → Session → Outcome Session
  call_callback tid time read_callback st = handle_read time st
  call_callback tid time write_callback st = handle_write k tid st
  call_callback tid time close_callback st = handle_close st
  call_callback tid time error_callback st = ok (handle_error st)

  unfoldable pub handle_event : ℕ → ℕ → Bool → Session → Outcome Session
  handle_event tid time alive (c, l) =
      Channel.handle_event (call_callback tid time) alive c.channel (c, l)

  unfoldable pub run_task : ℕ → Task → Session → Outcome Session
  run_task tid (sends address len) st = do
    message ← app.memory address len
    send_in_loop k tid message st
  run_task tid shuts_down st = ok (shutdown_in_loop st)
  run_task tid write_completes st = app.on_write_complete st
  run_task tid (high_water n) st = app.on_high_water_mark n st
