-- ===== src/EchoServer/Replies.antt =====
-- What becomes of a message that the echo server gets.
use moduo.Prelude.{
  ℕ, ◌+◌, ◌^◌, ◌<◌, ◌≡◌, refl, ap, ◌∙◌, true, List, [], ◌∷◌, ◌++◌, Outcome, ok, length, drop, ltb,
  arith, if◌then◌else◌,
}
use moduo.Os.{Kernel, returns, delivers, write, readv, ReadvFits, WriteFits}
use moduo.Buffer.{read_lengths}
use moduo.Buffer.Bounds.{IsValid}
use moduo.Buffer.Contents.{contents, Fits}
use moduo.Channel.{is_writing}
use moduo.Poller.Interest.{EpollLaws, registered}
use moduo.EventLoop.{EventLoop}
use moduo.TcpConnection.{Connection, Session, Task, connected, disconnecting}
use moduo.TcpConnection.Send.{send_in_loop, send, shutdown, shutdown_in_loop}
use moduo.TcpConnection.Handlers.{handle_read}
use moduo.TcpConnection.Sending.{IsIdle}
use moduo.TcpConnection.Idle.{send_in_loop-IsSent}
use moduo.TcpConnection.Draining.{shutdowns}
use moduo.TcpConnection.Kept.{send_in_loop_keeps}
use moduo.TcpConnection.Reading.{after_readv, handle_read_lem}
use moduo.Buffer.Append.{retrieve_all_as_string_lem}
use moduo.TcpConnection.Established.{IsOpen}
use moduo.EchoServer.{on_message, echo}

-- A message is sent back, and the write end shut down if all of it went out.
pub record IsEchoed (bytes : List ℕ) (n : ℕ) (st st' : Session) : Type 0 where
  pub rest : contents (st'.0.output_buffer) ≡ drop n bytes
  pub consumed : contents (st'.0.input_buffer) ≡ []
  pub writes : is_writing (st'.0.channel) ≡ ltb n (length bytes)
  pub ending : st'.0.state ≡ disconnecting
  pub shut :
      shutdowns (st'.1.calls) ≡ shutdowns (st.1.calls) + (if ltb n (length bytes) then 0 else 1)

-- `send` on a connected connection, in the loop's thread.
pub send_now :
    (k : Kernel) (tid address : ℕ) (bytes : List ℕ) (c : Connection) (l : EventLoop Task)
    → c.state ≡ connected
    → l.thread_id ≡ tid
    → send k tid address bytes (c, l) ≡ send_in_loop k tid bytes (c, l)
unfolding send
send_now k tid address bytes c l open_now own = ground arith

-- `shutdown` on a connected connection, in the loop's thread.
shutdown_lem :
    (tid : ℕ) (c : Connection) (l : EventLoop Task)
    → c.state ≡ connected
    → l.thread_id ≡ tid
    → ((shutdown tid (c, l)).0 ≡ record c { state = disconnecting })
      × (shutdowns (shutdown tid (c, l)).1.calls
          ≡ shutdowns l.calls + (if is_writing c.channel then 0 else 1))
unfolding shutdown shutdown_in_loop
shutdown_lem tid c l open_now own = ground arith

module _ (k : Kernel) (tid address : ℕ) (bytes : List ℕ) (c : Connection) (l : EventLoop Task)
    (n : ℕ) (laws : EpollLaws k) (fits : WriteFits k) (idle : IsIdle k (c, l))
    (open_now : c.state ≡ connected) (own : l.thread_id ≡ tid) (v : IsValid c.input_buffer)
    (held : contents c.input_buffer ≡ bytes) (small : length bytes < 2 ^ 62)
    (taken : k.reply l.calls (write c.channel.fd bytes) ≡ returns n) where
  on_message_lem :
      (st' : Session) × (on_message k tid address (c, l) ≡ ok st') × IsEchoed bytes n (c, l) st'
  unfolding on_message
  on_message_lem =
      let (b, read, empty, _) = retrieve_all_as_string_lem c.input_buffer v in
      let c₁ = record c { input_buffer = b } in
      let idle₁ : IsIdle k (c₁, l) = record {
        open_state = idle.open_state;
        marked = idle.marked;
        reads = idle.reads;
        listed = idle.listed;
        valid = idle.valid;
        reset = idle.reset;
        drained = idle.drained;
      } in
      let (st, sent, v₁) = send_in_loop-IsSent k tid bytes (c₁, l) n laws fits idle₁ small taken in
      let ((counted, thread), input) = send_in_loop_keeps k tid bytes c₁ l st sent in
      let connected_now = v₁.same_state ∙ open_now in
      let (closing, shut) = shutdown_lem tid (st.0) (st.1) connected_now (thread ∙ own) in
      (
        shutdown tid st,
        rw (read, held, send_now k tid address bytes c₁ l open_now own, sent) refl,
        record {
          rest = ap (λ (d : Connection). contents d.output_buffer) closing ∙ v₁.rest;
          consumed =
              ap (λ (d : Connection). contents d.input_buffer) closing ∙ ap contents input ∙ empty;
          writes = ap (λ (d : Connection). is_writing d.channel) closing ∙ v₁.writes;
          ending = ap (λ (d : Connection). d.state) closing;
          shut = shut ∙ rw (counted, v₁.writes) refl;
        },
      )

-- The echo server on a connection that is open and idle with nothing unread, in its loop's thread: when a
-- message of fewer than 2 ^ 62 bytes comes that fits the valid input buffer of fewer, and the kernel takes `n` bytes of the reply, `handleRead`
-- returns; the bytes from the `n`-th on wait in the output buffer, in order, and exactly if there are
-- some the channel asks for EPOLLOUT; the input buffer is empty; the connection is disconnecting; and the
-- write end is shut down once if all went out, and otherwise not.
pub handle_read_echoes :
    (k : Kernel) (tid address time : ℕ) (on_close : Session → Outcome Session) (bytes : List ℕ)
    (c : Connection) (l : EventLoop Task) (n : ℕ)
    → EpollLaws k
    → ReadvFits k
    → WriteFits k
    → IsOpen k (c, l)
    → c.has_message ≡ true
    → l.thread_id ≡ tid
    → IsValid c.input_buffer
    → contents c.input_buffer ≡ []
    → length (c.input_buffer.buffer) < 2 ^ 62
    → 0 < length bytes
    → Fits (length bytes) c.input_buffer
    → length bytes < 2 ^ 62
    → k.input l.calls (readv c.channel.fd (read_lengths c.input_buffer)) ≡ delivers bytes
    → k.reply
        (readv c.channel.fd (read_lengths c.input_buffer) ∷ l.calls)
        (write c.channel.fd bytes)
      ≡ returns n
    → (st' : Session) × (handle_read k (echo k tid address on_close) time (c, l) ≡ ok st')
      × IsEchoed bytes n (c, l) st'
unfolding echo registered
handle_read_echoes k tid address time on_close [] c l n laws rfits wfits v told own valid empty room
      some_byte fits small came taken =
    absurd (omega arith)
handle_read_echoes k tid address time on_close (x ∷ xs) c l n laws rfits wfits v told own valid
      empty room some_byte fits small came taken =
    let (b, read, held, valid₁) =
      handle_read_lem k (echo k tid address on_close) time c l (delivers (x ∷ xs)) rfits valid room
        told came fits in
    let (c₁, l₁) = after_readv c l b in
    let idle : IsIdle k (c₁, l₁) = record {
      open_state = v.idle.open_state;
      marked = v.idle.marked;
      reads = v.idle.reads;
      listed = v.idle.listed;
      valid = v.idle.valid;
      reset = v.idle.reset;
      drained = v.idle.drained;
    } in
    let (st', replied, echoed) =
      on_message_lem k tid address (x ∷ xs) c₁ l₁ n laws wfits idle v.open_now own valid₁
        (held ∙ ap (λ ys. ys ++ x ∷ xs) empty) small taken in
    (
      st',
      read ∙ replied,
      record {
        rest = echoed.rest;
        consumed = echoed.consumed;
        writes = echoed.writes;
        ending = echoed.ending;
        shut = echoed.shut;
      },
    )
