-- ===== src/TcpConnection/Stream.antt =====
-- The bytes of a connection that is busy writing: what is sent and what the kernel takes.
use moduo.Prelude.{ℕ, ◌+◌, ◌^◌, ◌<◌, ◌≡◌, false, List, [], ◌++◌, ok, take, length}
use moduo.Os.{Kernel, returns}
use moduo.Buffer.Contents.{contents, readable, Fits}
use moduo.EventLoop.{EventLoop}
use moduo.TcpConnection.{Connection, Session, Task, is_disconnected}
use moduo.TcpConnection.Send.{send_in_loop}
use moduo.TcpConnection.Handlers.{handle_write}
use moduo.TcpConnection.Draining.{IsBusy, offered}

-- Calls of `sendInLoop` and of `handleWrite` on a connection that has bytes to write all along, with
-- the bytes sent and the bytes that the kernel took.
pub data Run (k : Kernel) (tid : ℕ) (st : Session) : List ℕ → List ℕ → Session → Type 0 where
  start : Run k tid st [] [] st
  sends :
      {sent taken : List ℕ} {c : Connection} {l : EventLoop Task} {st' : Session}
      → Run k tid st sent taken (c, l)
      → (message : List ℕ) → is_disconnected c.state ≡ false
      → 0 < length message
      → c.output_buffer.writer_index + length message < 2 ^ 63
      → Fits (length message) c.output_buffer
      → send_in_loop k tid message (c, l) ≡ ok st'
      → Run k tid st (sent ++ message) taken st'
  drains :
      {sent taken : List ℕ} {c : Connection} {l : EventLoop Task} {st' : Session}
      → Run k tid st sent taken (c, l)
      → (n : ℕ) → k.reply l.calls (offered (c, l)) ≡ returns n
      → 0 < n
      → n < readable c.output_buffer
      → handle_write k tid (c, l) ≡ ok st'
      → Run k tid st sent (taken ++ take n (contents c.output_buffer)) st'

-- The bytes are in order, and the connection is busy still.
pub record InOrder (k : Kernel) (before sent taken : List ℕ) (st : Session) : Type 0 where
  pub order : before ++ sent ≡ taken ++ contents (st.0.output_buffer)
  pub busy : IsBusy k st
