-- ===== src/TcpConnection/Kept.antt =====
-- What `sendInLoop` leaves alone.
use moduo.Prelude.{ℕ, ◌≡◌, refl, Bool-cases, inl, inr, List, ok, >>=-eq-ok, drop, arith}
use moduo.Os.{Kernel}
use moduo.Buffer.{Buffer, read_lengths}
use moduo.Buffer
use moduo.Channel.{Channel, is_writing}
use moduo.Channel.Events
use moduo.Poller
use moduo.EventLoop.{EventLoop, is_in_loop_thread, queue_in_loop}
use moduo.EventLoop
use moduo.TcpConnection.{Connection, Session, Task, write_completes}
use moduo.TcpConnection.Send.{
  Attempt, send_in_loop, attempt, after_write, keep_rest, start_writing, crosses_mark,
}
use moduo.TcpConnection.Sending.{written}
use moduo.TcpConnection.Queueing.{marked_loop}
use moduo.TcpConnection.Draining.{shutdowns}

-- Two loops of one thread, with as many shutdowns.
abbrev pub Alike : EventLoop Task → EventLoop Task → Type 0
Alike l l' = (shutdowns l'.calls ≡ shutdowns l.calls) × (l'.thread_id ≡ l.thread_id)

queue_in_loop-Alike : (tid : ℕ) (t : Task) (l : EventLoop Task) → Alike l (queue_in_loop tid t l)
unfolding queue_in_loop EventLoop.wakeup EventLoop.push_functor EventLoop.needs_wakeup
queue_in_loop-Alike tid t l = ground arith

enable_writing-Alike :
    (k : Kernel) (c : Channel) (l : EventLoop Task) (r : Channel × EventLoop Task)
    → Events.enable_writing k c l ≡ ok r
    → Alike l (r.1)
unfolding Events.enable_writing Events.update_events EventLoop.update_channel Poller.update_channel
    Poller.update_channel_at Poller.register Poller.update
enable_writing-Alike k c l r h = ground arith

start_writing_keeps :
    (k : Kernel) (c : Connection) (l : EventLoop Task) (st : Session)
    → start_writing k c l ≡ ok st
    → Alike l (st.1) × (st.0.input_buffer ≡ c.input_buffer)
unfolding start_writing
start_writing_keeps k c l st h = elim (Bool-cases (is_writing c.channel)) [
  | inl on ↦ ground arith
  | inr off ↦
      let (r, enabled, e) = >>=-eq-ok (Events.enable_writing k c.channel l) _ (rw off at h) in
      ground (arith, enable_writing-Alike k c.channel l r)
]

marked_loop-Alike :
    (tid : ℕ) (c : Connection) (l : EventLoop Task) (n : ℕ) → Alike l (marked_loop tid (c, l) n)
marked_loop-Alike tid c l n = elim (Bool-cases (crosses_mark c n)) [
  | inl crosses ↦ rw crosses (queue_in_loop-Alike tid _ l)
  | inr below ↦ rw below (refl, refl)
]

keep_rest_keeps :
    (k : Kernel) (tid : ℕ) (message : List ℕ) (c : Connection) (a : Attempt) (st : Session)
    → keep_rest k tid message c a ≡ ok st
    → Alike (a.loop) (st.1) × (st.0.input_buffer ≡ c.input_buffer)
unfolding keep_rest
keep_rest_keeps k tid message c a st h =
    let (b, _, e) = >>=-eq-ok (Buffer.append (drop a.nwrote message) c.output_buffer) _ h in
    let l = marked_loop tid (c, a.loop) a.remaining in
    let kept = start_writing_keeps k (record c { output_buffer = b }) l st e in
    ground (arith, kept, marked_loop-Alike tid c a.loop a.remaining)

attempt-Alike :
    (k : Kernel) (tid : ℕ) (message : List ℕ) (c : Connection) (l : EventLoop Task)
    → Alike l (attempt k tid message (c, l)).loop
unfolding attempt after_write
attempt-Alike k tid message c l =
    ground (arith, queue_in_loop-Alike tid write_completes (written (c, l) message))

-- `sendInLoop` shuts nothing down, and changes neither the thread nor the input.
pub send_in_loop_keeps :
    (k : Kernel) (tid : ℕ) (message : List ℕ) (c : Connection) (l : EventLoop Task) (st : Session)
    → send_in_loop k tid message (c, l) ≡ ok st
    → Alike l (st.1) × (st.0.input_buffer ≡ c.input_buffer)
unfolding send_in_loop
send_in_loop_keeps k tid message c l st h = ground (
  arith,
  keep_rest_keeps k tid message c (attempt k tid message (c, l)) st,
  attempt-Alike k tid message c l,
)
