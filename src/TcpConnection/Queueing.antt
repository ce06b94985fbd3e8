-- ===== src/TcpConnection/Queueing.antt =====
-- `sendInLoop` on a connection that already writes: the message waits behind what is buffered.
use moduo.Prelude.{
  ℕ, ◌+◌, ◌^◌, ◌<◌, ◌≡◌, refl, false, List, ◌++◌, ok, length, lt→ltb, add_size, if◌then◌else◌,
}
use moduo.Os.{Kernel}
use moduo.Buffer.Bounds.{IsValid}
use moduo.Buffer.Contents.{contents, Fits}
use moduo.Buffer.Append.{append_refines}
use moduo.EventLoop.{EventLoop, queue_in_loop}
use moduo.Buffer.{Buffer, readable_bytes}
use moduo.TcpConnection.{Connection, Session, Task, is_disconnected, high_water}
use moduo.TcpConnection.Send.{send_in_loop, attempt, keep_rest, start_writing, crosses_mark}
use moduo.TcpConnection.Draining.{IsBusy, is_writing_of}

-- The loop once the crossing of the high-water mark by `n` bytes is noted.
abbrev pub marked_loop : ℕ → Session → ℕ → EventLoop Task
marked_loop tid (c, l) n =
    if crosses_mark c n
    then queue_in_loop tid (high_water (add_size (readable_bytes c.output_buffer) n)) l
    else l

-- On a connection that writes and is not disconnected, `sendInLoop` of a message that is not empty and
-- fits the output buffer without a compaction returns. It writes nothing; the message stands at the end
-- of the output buffer, which stays valid; nothing else of the connection changes; and the loop has got
-- the high-water-mark callback exactly if the mark is crossed and the callback is set.
pub send_in_loop_busy :
    (k : Kernel) (tid : ℕ) (message : List ℕ) (c : Connection) (l : EventLoop Task)
    → IsBusy k (c, l)
    → is_disconnected c.state ≡ false
    → 0 < length message
    → c.output_buffer.writer_index + length message < 2 ^ 63
    → Fits (length message) c.output_buffer
    → (b : Buffer) × (send_in_loop k tid message (c, l)
        ≡ ok (record c { output_buffer = b }, marked_loop tid (c, l) (length message)))
      × (contents b ≡ contents c.output_buffer ++ message)
      × IsValid b
unfolding send_in_loop attempt keep_rest start_writing
send_in_loop_busy k tid message c l busy open_state some_byte small fits =
    let (b, appended, held, _, valid) =
      append_refines message c.output_buffer busy.valid small fits in
    (
      b,
      rw (open_state, is_writing_of k (c, l) busy, lt→ltb 0 (length message) some_byte, appended)
          refl,
      held,
      valid,
    )
