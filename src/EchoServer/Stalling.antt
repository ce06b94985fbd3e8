-- ===== src/EchoServer/Stalling.antt =====
-- A reply of the echo server that does not go out at once.
use moduo.Prelude.{
  ℕ, ◌-◌, ◌+◌, ◌^◌, ◌<◌, ◌≡◌, sym, ap, subst, ◌∙◌, true, false, List, [], ◌∷◌, ◌++◌, Outcome, ok,
  length, drop, ltb, arith, length-drop, if◌then◌else◌,
}
use moduo.Os.{Kernel, Calls, returns, delivers, write, readv, ReadvFits, WriteFits}
use moduo.Buffer.{read_lengths}
use moduo.Buffer.Bounds.{IsValid}
use moduo.Buffer.Contents.{contents, Fits, length-contents}
use moduo.Buffer.Append.{retrieve_all_as_string_lem}
use moduo.Channel.{is_writing, is_reading}
use moduo.Poller.Interest.{EpollLaws, registered}
use moduo.EventLoop.{EventLoop}
use moduo.TcpConnection.{Connection, Session, Task, connected, disconnecting}
use moduo.TcpConnection.Send.{shutdown, shutdown_in_loop}
use moduo.TcpConnection.Handlers.{handle_read, handle_write}
use moduo.TcpConnection.Sending.{IsIdle}
use moduo.TcpConnection.Idle.{send_in_loop-IsBusy}
use moduo.TcpConnection.Draining.{
  IsBusy, shutdowns, is_writing_of, handle_write_drained, handle_writes, handle_writes_spin,
}
use moduo.TcpConnection.Kept.{send_in_loop_keeps}
use moduo.TcpConnection.Established.{IsOpen}
use moduo.TcpConnection.Reading.{after_readv, handle_read_lem}
use moduo.EchoServer.{on_message, echo}
use moduo.EchoServer.Replies.{IsEchoed, send_now, handle_read_echoes}

-- A partial reply comes with no shutdown.
not_shut :
    {before after n m : ℕ} → after ≡ before + (if ltb n m then 0 else 1) → n < m → after ≡ before
not_shut e part = ground arith

ok-injective : {a b : Session} → ok a ≡ ok b → a ≡ b
ok-injective e = cc e

-- `shutdown` on a connection that writes only takes note.
shutdown_noted :
    (tid : ℕ) (c : Connection) (l : EventLoop Task)
    → c.state ≡ connected
    → l.thread_id ≡ tid
    → is_writing c.channel ≡ true
    → shutdown tid (c, l) ≡ (record c { state = disconnecting }, l)
unfolding shutdown shutdown_in_loop
shutdown_noted tid c l open_now own writes = ground arith

module _ (k : Kernel) (tid address : ℕ) (bytes : List ℕ) (c : Connection) (l : EventLoop Task)
    (n : ℕ) (laws : EpollLaws k) (idle : IsIdle k (c, l)) (open_now : c.state ≡ connected)
    (own : l.thread_id ≡ tid) (v : IsValid c.input_buffer) (held : contents c.input_buffer ≡ bytes)
    (small : length bytes < 2 ^ 62) (taken : k.reply l.calls (write c.channel.fd bytes) ≡ returns n)
    (part : n < length bytes) where
  on_message-IsBusy : (st' : Session) × (on_message k tid address (c, l) ≡ ok st') × IsBusy k st'
  unfolding on_message
  on_message-IsBusy =
      let (b, read, _, _) = retrieve_all_as_string_lem c.input_buffer v in
      let c₁ = record c { input_buffer = b } in
      let idle₁ : IsIdle k (c₁, l) = record {
        open_state = idle.open_state;
        marked = idle.marked;
        reads = idle.reads;
        listed = idle.listed;
        valid = idle.valid;
        reset = idle.reset;
        drained = idle.drained;
      } in
      let ((c₂, l₂), sent, busy, state) =
        send_in_loop-IsBusy k tid bytes c₁ l n laws idle₁ taken part small in
      let ((_, thread), _) = send_in_loop_keeps k tid bytes c₁ l (c₂, l₂) sent in
      let noted =
        shutdown_noted tid c₂ l₂ (state ∙ open_now) (thread ∙ own)
          (is_writing_of k (c₂, l₂) busy) in
      (
        (record c₂ { state = disconnecting }, l₂),
        rw (read, held, send_now k tid address bytes c₁ l open_now own, sent) (ap ok noted),
        record {
          marked = busy.marked;
          writes = busy.writes;
          listed = busy.listed;
          valid = busy.valid;
        },
      )

-- The echo server on a connection that is open and idle with nothing unread, where a
-- message comes that fits the input buffer and the kernel takes only a part of the reply at once: when `handleWrite` then gets all the rest out, the write end has still not
-- been shut down, although the connection is disconnecting; the channel asks for EPOLLOUT, with nothing
-- left to write, and not for input; and however often `handleWrite` is then called, nothing changes but the
-- calls of `write`, and the write end is not shut down.
pub partial_reply_stalls :
    (k : Kernel) (tid address time : ℕ) (on_close : Session → Outcome Session) (bytes : List ℕ)
    (c : Connection) (l : EventLoop Task) (n : ℕ) (st' : Session)
    → EpollLaws k
    → ReadvFits k
    → WriteFits k
    → IsOpen k (c, l)
    → c.has_message ≡ true
    → l.thread_id ≡ tid
    → IsValid c.input_buffer
    → contents c.input_buffer ≡ []
    → length (c.input_buffer.buffer) < 2 ^ 62
    → n < length bytes
    → Fits (length bytes) c.input_buffer
    → length bytes < 2 ^ 62
    → k.input l.calls (readv c.channel.fd (read_lengths c.input_buffer)) ≡ delivers bytes
    → k.reply
        (readv c.channel.fd (read_lengths c.input_buffer) ∷ l.calls)
        (write c.channel.fd bytes)
      ≡ returns n
    → handle_read k (echo k tid address on_close) time (c, l) ≡ ok st'
    → k.reply (st'.1.calls) (write (st'.0.channel.fd) (drop n bytes)) ≡ returns (length bytes - n)
    → (st'' : Session) × (handle_write k tid st' ≡ ok st'')
      × (contents (st''.0.output_buffer) ≡ [])
      × (shutdowns (st''.1.calls) ≡ shutdowns l.calls)
      × (st''.0.state ≡ disconnecting)
      × (is_writing (st''.0.channel) ≡ true)
      × (is_reading (st''.0.channel) ≡ false)
      × ((rounds : ℕ)
          → (calls : Calls) × (handle_writes k tid rounds st''
              ≡ ok (st''.0, record (st''.1) { calls = calls }))
            × (shutdowns calls ≡ shutdowns l.calls))
unfolding echo registered
partial_reply_stalls k tid address time on_close [] c l n st' laws rfits wfits v told own valid
      empty room part fits small came taken read_ok rest_ok =
    absurd (omega arith)
partial_reply_stalls k tid address time on_close (x ∷ xs) c l n (c', l') laws rfits wfits v told own
      valid empty room part fits small came taken read_ok rest_ok =
    let (b, read, held, valid₁) =
      handle_read_lem k (echo k tid address on_close) time c l (delivers (x ∷ xs)) rfits valid room
        told came fits in
    let (c₁, l₁) = after_readv c l b in
    let idle : IsIdle k (c₁, l₁) = record {
      open_state = v.idle.open_state;
      marked = v.idle.marked;
      reads = v.idle.reads;
      listed = v.idle.listed;
      valid = v.idle.valid;
      reset = v.idle.reset;
      drained = v.idle.drained;
    } in
    let (st₁, replied, busy₁) =
      on_message-IsBusy k tid address (x ∷ xs) c₁ l₁ n laws idle v.open_now own valid₁
        (held ∙ ap (λ ys. ys ++ x ∷ xs) empty) small taken part in
    let (st₂, read₂, echoed₂) =
      handle_read_echoes k tid address time on_close (x ∷ xs) c l n laws rfits wfits v told own
        valid empty room (omega arith) fits small came taken in
    let busy = subst (IsBusy k) (ok-injective (sym (read ∙ replied) ∙ read_ok)) busy₁ in
    let echoed = subst (IsEchoed (x ∷ xs) n (c, l)) (ok-injective (sym read₂ ∙ read_ok)) echoed₂ in
    let left =
      sym (length-contents c'.output_buffer busy.valid)
      ∙ ap length echoed.rest
      ∙ length-drop {0} n (x ∷ xs) in
    let whole =
      ap (λ ys. k.reply l'.calls (write c'.channel.fd ys)) echoed.rest
      ∙ rest_ok
      ∙ ap returns (sym left) in
    let (st'', sent, none_left, writes, reads, state, kept, _, valid₂) =
      handle_write_drained k tid c' l' laws busy (omega (arith, left)) whole in
    let unshut = kept ∙ not_shut echoed.shut part in
    (
      st'',
      sent,
      none_left,
      unshut,
      state ∙ echoed.ending,
      writes,
      reads,
      λ rounds.
          let (calls, spun, same) =
            handle_writes_spin k tid rounds (st''.0) (st''.1) wfits writes valid₂ none_left in
          (calls, spun, same ∙ unshut),
    )
