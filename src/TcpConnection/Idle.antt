-- ===== src/TcpConnection/Idle.antt =====
-- `sendInLoop` on an idle connection: the kernel takes a part of the message, the buffer the rest.
use mathlib.Core.List.{append-nil}
use native.Mathlib.Decide.{dec_lt}
use moduo.Prelude.{
  ℕ, ◌-◌, ◌^◌, ◌<◌, ◌≡◌, refl, sym, lt→==, ge→ltb, lt→ltb, ==_iff, Bool-cases, ap, ◌∙◌, inl, inr,
  true, false, List, [], ◌∷◌, ◌++◌, ok, arith, length, drop, drop_all, ltb, ◌==◌, if◌then◌else◌,
}
use moduo.Os.{Kernel, WriteFits, returns, write}
use moduo.Buffer.Contents.{contents}
use moduo.Channel.{is_writing}
use moduo.Poller.Interest.{EpollLaws, registered}
use moduo.EventLoop.{EventLoop}
use moduo.EventLoop.Functors.{queue_in_loop_lem}
use moduo.TcpConnection.{Connection, Session, Task, write_completes}
use moduo.TcpConnection.Draining.{IsBusy}
use moduo.TcpConnection.Send.{Attempt, attempt, after_write, keep_rest, send_in_loop}
use moduo.TcpConnection.Sending.{IsIdle, written, keep_rest_lem, crossing}

-- What an idle connection is left with when the kernel takes `n` bytes of a message.
pub record IsSent (message : List ℕ) (n : ℕ) (st st' : Session) : Type 0 where
  pub rest : contents (st'.0.output_buffer) ≡ drop n message
  pub writes : is_writing (st'.0.channel) ≡ ltb n (length message)
  pub same_state : st'.0.state ≡ st.0.state
  pub queued :
      st'.1.pending_functors
      ≡ st.1.pending_functors
        ++ (if n == length message
            then (if st.0.has_write_complete then write_completes ∷ [] else [])
            else crossing st.0 (length message - n))

module _ (k : Kernel) (tid : ℕ) (message : List ℕ) (c : Connection) (l : EventLoop Task) (n : ℕ)
    (laws : EpollLaws k) (idle : IsIdle k (c, l))
    (taken : k.reply l.calls (write c.channel.fd message) ≡ returns n) where
  not_writing : is_writing c.channel ≡ false
  not_writing = rw (idle.reads) refl

  attempt_lem :
      attempt k tid message (c, l) ≡ after_write tid c message (written (c, l) message) (returns n)
  unfolding attempt
  attempt_lem = rw (idle.reads, idle.reset, idle.drained, taken, attempt)

  after : Attempt
  after = after_write tid c message (written (c, l) message) (returns n)

  send_in_loop_step :
      send_in_loop k tid message (c, l)
      ≡ (if ltb 0 (length message - n) then keep_rest k tid message c after else ok (c, after.loop))
  unfolding send_in_loop after after_write
  send_in_loop_step = rw (attempt_lem, idle.open_state) refl

  -- The whole message went out.
  pending_whole :
      n ≡ length message
      → after.loop.pending_functors
        ≡ l.pending_functors ++ (if c.has_write_complete then write_completes ∷ [] else [])
  unfolding after after_write
  pending_whole whole = elim (Bool-cases c.has_write_complete) [
    | inl set ↦
        rw (none_left, set)
          (ap (λ (m : EventLoop Task). m.pending_functors)
            (queue_in_loop_lem tid write_completes (written (c, l) message)))
    | inr unset ↦ rw (none_left, unset) (sym (append-nil l.pending_functors))
  ]
    where
      none_left : (length message - n == 0) ≡ true
      none_left = (==_iff (length message - n) 0).1 (omega arith)

  IsSent-whole :
      n ≡ length message
      → (st' : Session) × (send_in_loop k tid message (c, l) ≡ ok st') × IsSent message n (c, l) st'
  IsSent-whole whole = (
    (c, after.loop),
    send_in_loop_step ∙ rw (ge→ltb 0 (length message - n) (omega arith)),
    record {
      rest = rw (idle.reset, idle.drained) (sym (drop_all n message (omega arith)));
      writes = not_writing ∙ sym (ge→ltb n (length message) (omega arith));
      same_state = refl;
      queued = pending_whole whole ∙ rw ((==_iff n (length message)).1 whole);
    },
  )

  -- A part of it is kept.
  after_part : n < length message → after.loop ≡ written (c, l) message
  unfolding after after_write
  after_part part = ground arith

  IsSent-part :
      n < length message
      → length message < 2 ^ 62
      → (st' : Session) × (send_in_loop k tid message (c, l) ≡ ok st') × IsSent message n (c, l) st'
  unfolding after after_write registered
  IsSent-part part small =
      let (st', kept, rest, channel, state, queued, busy) =
        keep_rest_lem k tid message c after laws idle.marked idle.reads
          (ap (λ (m : EventLoop Task). registered k c.channel.fd m.calls) (after_part part)
            ∙ idle.listed)
          idle.valid idle.reset idle.drained small (omega arith) in
      (
        st',
        send_in_loop_step ∙ rw (lt→ltb 0 (length message - n) (omega arith)) kept,
        record {
          rest = rest;
          writes = rw channel (sym (lt→ltb n (length message) part));
          same_state = state;
          queued =
              queued
              ∙ ap (λ (m : EventLoop Task). m.pending_functors ++ crossing c (length message - n))
                  (after_part part)
              ∙ rw (lt→== n (length message) part);
        },
      )

  -- Where something is left, the connection waits for EPOLLOUT.
  pub send_in_loop-IsBusy :
      n < length message
      → length message < 2 ^ 62
      → (st' : Session) × (send_in_loop k tid message (c, l) ≡ ok st')
        × IsBusy k st'
        × (st'.0.state ≡ c.state)
  unfolding after after_write registered
  send_in_loop-IsBusy part small =
      let (st', kept, _, _, state, _, busy) =
        keep_rest_lem k tid message c after laws idle.marked idle.reads
          (ap (λ (m : EventLoop Task). registered k c.channel.fd m.calls) (after_part part)
            ∙ idle.listed)
          idle.valid idle.reset idle.drained small (omega arith) in
      (st', send_in_loop_step ∙ rw (lt→ltb 0 (length message - n) (omega arith)) kept, busy, state)

-- On an idle connection, where the kernel takes `n` bytes of a message of fewer than 2 ^ 62 and no more
-- than it was offered, `sendInLoop` returns; the output buffer holds the bytes from the `n`-th on; the
-- channel asks for EPOLLOUT exactly if some are left; the state stays; and behind the functors that were
-- queued stands the write-complete callback if all went out and it is set, and otherwise the
-- high-water-mark callback, with the number of bytes left, if it is set, the mark is not 0 and the rest is
-- not below the mark.
pub send_in_loop-IsSent :
    (k : Kernel) (tid : ℕ) (message : List ℕ) (st : Session) (n : ℕ)
    → EpollLaws k
    → WriteFits k
    → IsIdle k st
    → length message < 2 ^ 62
    → k.reply (st.1.calls) (write (st.0.channel.fd) message) ≡ returns n
    → (st' : Session) × (send_in_loop k tid message st ≡ ok st') × IsSent message n st st'
send_in_loop-IsSent k tid message (c, l) n laws fits idle small taken =
    let bound = fits l.calls c.channel.fd message n taken in
    elim (dec_lt n (length message)) [
      | yes part ↦ IsSent-part k tid message c l n laws idle taken part small
      | no h ↦ IsSent-whole k tid message c l n laws idle taken (omega arith)
    ]
