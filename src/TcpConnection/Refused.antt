-- ===== src/TcpConnection/Refused.antt =====
-- `sendInLoop` on an idle connection where `write` fails.
use moduo.Prelude.{
  arith, ℕ, ◌^◌, ◌<◌, ◌≡◌, refl, sym, ◌∙◌, Bool, ◌||◌, ◌==◌, Bool-cases, inl, inr, false, not, List,
  [], ◌++◌, ok, length, lt→ltb, if◌then◌else◌,
}
use mathlib.Core.List.{append-nil}
use moduo.Os.{epipe, econnreset, Kernel, fails, write}
use moduo.Buffer.Contents.{contents}
use moduo.Channel.{is_writing}
use moduo.Poller.Interest.{EpollLaws, registered}
use moduo.EventLoop.{EventLoop}
use moduo.TcpConnection.{Connection, Session, Task}
use moduo.TcpConnection.Send.{Attempt, send_in_loop, attempt, after_write, is_fault}
use moduo.TcpConnection.Sending.{IsIdle, written, crossing, keep_rest_lem}

-- How the direct write went.
abbrev refused_attempt : List ℕ → EventLoop Task → ℕ → Attempt
refused_attempt message l errno = record {
  nwrote = 0;
  remaining = length message;
  fault_error = is_fault errno;
  loop = l;
}

refusal :
    (k : Kernel) (tid : ℕ) (message : List ℕ) (c : Connection) (l : EventLoop Task) (errno : ℕ)
    → IsIdle k (c, l)
    → k.reply l.calls (write c.channel.fd message) ≡ fails errno
    → attempt k tid message (c, l) ≡ refused_attempt message (written (c, l) message) errno
unfolding attempt after_write
refusal k tid message c l errno idle refused =
    rw (idle.reads, idle.reset, idle.drained, refused, after_write) refl

-- EPIPE and ECONNRESET say that the peer is gone.
abbrev pub is_broken : ℕ → Bool
is_broken errno = errno == epipe || errno == econnreset

is_fault_lem : (errno : ℕ) → is_fault errno ≡ is_broken errno
is_fault_lem errno = ground arith

-- On an idle connection where `write` fails, `sendInLoop` of a message that is not empty and has fewer
-- than 2 ^ 62 bytes returns and the state stays. After EPIPE or
-- ECONNRESET nothing is buffered and nothing is asked for; after any other error the whole message is
-- buffered, the channel asks for EPOLLOUT, and the high-water-mark callback is queued if it is set, the
-- mark is not 0 and the message is not below the mark.
pub send_in_loop_refused :
    (k : Kernel) (tid : ℕ) (message : List ℕ) (c : Connection) (l : EventLoop Task) (errno : ℕ)
    → EpollLaws k
    → IsIdle k (c, l)
    → 0 < length message
    → length message < 2 ^ 62
    → k.reply l.calls (write c.channel.fd message) ≡ fails errno
    → (st' : Session) × (send_in_loop k tid message (c, l) ≡ ok st')
      × (contents (st'.0.output_buffer) ≡ (if is_broken errno then [] else message))
      × (is_writing (st'.0.channel) ≡ not (is_broken errno))
      × (st'.0.state ≡ c.state)
      × (st'.1.pending_functors
          ≡ l.pending_functors ++ (if is_broken errno then [] else crossing c (length message)))
unfolding send_in_loop registered
send_in_loop_refused k tid message c l errno laws idle some_byte small refused =
    elim (Bool-cases (is_broken errno)) [
      | inl fault ↦ (
        (c, written (c, l) message),
        rw
            (
              idle.open_state,
              refusal k tid message c l errno idle refused,
              is_fault_lem errno ∙ fault,
            )
            refl,
        rw (fault, idle.reset, idle.drained) refl,
        rw (fault, idle.reads) refl,
        refl,
        rw fault (sym (append-nil l.pending_functors)),
      )
      | inr kept ↦
          let a : Attempt = record {
            nwrote = 0;
            remaining = length message;
            fault_error = false;
            loop = written (c, l) message;
          } in
          let (st', returned, held, channel, state, queued, busy) =
            keep_rest_lem k tid message c a laws idle.marked idle.reads idle.listed idle.valid
              idle.reset idle.drained small small in
          (
            st',
            rw
                (
                  idle.open_state,
                  refusal k tid message c l errno idle refused,
                  is_fault_lem errno ∙ kept,
                  lt→ltb 0 (length message) some_byte,
                )
                returned,
            rw kept held,
            rw (kept, channel) refl,
            state,
            rw kept queued,
          )
    ]
