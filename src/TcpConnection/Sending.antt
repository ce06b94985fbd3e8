-- ===== src/TcpConnection/Sending.antt =====
-- `sendInLoop` on an idle connection: what the kernel does not take is buffered, in order.
use mathlib.Core.List.{append-nil}
use moduo.Prelude.{
  ℕ, ◌^◌, ◌<◌, ◌≡◌, refl, sym, Bool-cases, add_size, ap, ◌∙◌, inl, inr, true, false, List, [], ◌∷◌,
  ◌++◌, ok, arith, length, drop, length-drop, if◌then◌else◌, not, ◌&&◌, ◌==◌, ltb,
}
use moduo.Os.{Kernel, write}
use moduo.Buffer.{Buffer, readable_bytes}
use moduo.Buffer
use moduo.Buffer.Bounds.{IsValid}
use moduo.Buffer.Contents.{contents, Fits}
use moduo.Buffer.Append.{append_refines}
use moduo.Channel.{Channel, added}
use moduo.Channel.Events
use moduo.Channel.Updates.{controlled, update_events_lem}
use moduo.Poller.Interest.{EpollLaws, registered}
use moduo.EventLoop.{EventLoop, queue_in_loop}
use moduo.EventLoop.Functors.{queue_in_loop_lem}
use moduo.TcpConnection.{Connection, Session, Task, high_water, is_disconnected}
use moduo.TcpConnection.Draining.{IsBusy}
use moduo.TcpConnection.Send.{Attempt, crosses_mark, start_writing, keep_rest}

-- A connection that waits for input alone, with nothing to write: its channel is in the kernel's list,
-- and the output buffer is as `retrieveAll` leaves it.
pub record IsIdle (k : Kernel) (st : Session) : Type 0 where
  pub open_state : is_disconnected (st.0.state) ≡ false
  pub marked : st.0.channel.index ≡ added
  pub reads : st.0.channel.events ≡ 3
  pub listed : registered k (st.0.channel.fd) (st.1.calls) ≡ true
  pub valid : IsValid (st.0.output_buffer)
  pub reset : st.0.output_buffer.reader_index ≡ 8
  pub drained : st.0.output_buffer.writer_index ≡ 8

start_writing_lem :
    (k : Kernel) (c : Connection) (l : EventLoop Task)
    → EpollLaws k
    → c.channel.index ≡ added
    → c.channel.events ≡ 3
    → registered k c.channel.fd l.calls ≡ true
    → start_writing k c l
      ≡ ok (record c { channel = record (c.channel) { events = 7 } }, controlled c.channel 7 l)
unfolding start_writing Events.enable_writing Events.update_events
start_writing_lem k c l laws marked reads listed =
    rw (reads, update_events_lem k c.channel l 7 laws marked listed)

-- The message fits an output buffer that was reset.
append_reset :
    (bytes : List ℕ) (b : Buffer)
    → IsValid b
    → b.reader_index ≡ 8
    → b.writer_index ≡ 8
    → length bytes < 2 ^ 62
    → (b' : Buffer) × (Buffer.append bytes b ≡ ok b') × (contents b' ≡ bytes) × IsValid b'
append_reset bytes b v r w small =
    let (b', appended, held, _, valid) =
      append_refines bytes b v (omega arith) (fits bytes b v r w) in
    (b', appended, held ∙ ap (λ l. l ++ bytes) (empty b r w), valid)
  where
    fits :
        (bytes : List ℕ) (b : Buffer)
        → IsValid b
        → b.reader_index ≡ 8
        → b.writer_index ≡ 8
        → Fits (length bytes) b
    fits bytes b v r w = grind arith

    empty : (b : Buffer) → b.reader_index ≡ 8 → b.writer_index ≡ 8 → contents b ≡ []
    empty b r w = rw (r, w)

-- The loop after the direct write.
abbrev pub written : Session → List ℕ → EventLoop Task
written (c, l) message = record l { calls = write c.channel.fd message ∷ l.calls }

pub registered-queue_in_loop :
    (k : Kernel) (fd tid : ℕ) (t : Task) (l : EventLoop Task)
    → registered k fd (queue_in_loop tid t l).calls ≡ registered k fd l.calls
unfolding registered
registered-queue_in_loop k fd tid t l = rw (queue_in_loop_lem tid t l) (ground arith)

-- The loop once the crossing of the mark is noted.
abbrev noted : ℕ → Connection → Attempt → EventLoop Task
noted tid c a =
    if crosses_mark c a.remaining
    then queue_in_loop tid (high_water (add_size (readable_bytes c.output_buffer) a.remaining))
        a.loop
    else a.loop

-- What is expected of the high-water-mark callback when an empty output buffer comes to hold `n` bytes: it
-- is asked for once, with that number, if it is set, the mark is not 0 and `n` is not below the mark.
abbrev pub crossing : Connection → ℕ → List Task
crossing c n =
    if c.has_high_water_mark && not (c.high_water_mark == 0) && not (ltb n c.high_water_mark)
    then high_water n ∷ []
    else []

-- The test of the source, on a buffer that is empty.
crosses_mark_lem :
    (c : Connection) (n : ℕ)
    → c.output_buffer.reader_index ≡ 8
    → c.output_buffer.writer_index ≡ 8
    → n < 2 ^ 62
    → (crosses_mark c n
        ≡ (c.has_high_water_mark && not (c.high_water_mark == 0) && not (ltb n c.high_water_mark)))
      × (add_size (readable_bytes c.output_buffer) n ≡ n)
crosses_mark_lem c n r w small = ground arith

noted_lem :
    (k : Kernel) (fd tid : ℕ) (c : Connection) (a : Attempt)
    → c.output_buffer.reader_index ≡ 8
    → c.output_buffer.writer_index ≡ 8
    → a.remaining < 2 ^ 62
    → (registered k fd (noted tid c a).calls ≡ registered k fd (a.loop.calls))
      × ((noted tid c a).pending_functors ≡ a.loop.pending_functors ++ crossing c a.remaining)
noted_lem k fd tid c a r w small =
    let (test, size) = crosses_mark_lem c a.remaining r w small in
    elim (Bool-cases (crosses_mark c a.remaining)) [
      | inl crosses ↦
          rw (crosses, sym test ∙ crosses, size)
            (
              registered-queue_in_loop k fd tid _ a.loop,
              ap (λ (l : EventLoop Task). l.pending_functors) (queue_in_loop_lem tid _ a.loop),
            )
      | inr below ↦ rw (below, sym test ∙ below) (refl, sym (append-nil _))
    ]

-- A channel that is modified stays in the list.
registered-controlled :
    (k : Kernel) (ch : Channel) (l : EventLoop Task)
    → registered k ch.fd l.calls ≡ true
    → registered k ch.fd (controlled ch 7 l).calls ≡ true
unfolding registered
registered-controlled k ch l listed = ground arith

pub keep_rest_lem :
    (k : Kernel) (tid : ℕ) (message : List ℕ) (c : Connection) (a : Attempt)
    → EpollLaws k
    → c.channel.index ≡ added
    → c.channel.events ≡ 3
    → registered k c.channel.fd (a.loop.calls) ≡ true
    → IsValid c.output_buffer
    → c.output_buffer.reader_index ≡ 8
    → c.output_buffer.writer_index ≡ 8
    → length message < 2 ^ 62
    → a.remaining < 2 ^ 62
    → (st' : Session) × (keep_rest k tid message c a ≡ ok st')
      × (contents (st'.0.output_buffer) ≡ drop a.nwrote message)
      × (st'.0.channel ≡ record (c.channel) { events = 7 })
      × (st'.0.state ≡ c.state)
      × (st'.1.pending_functors ≡ a.loop.pending_functors ++ crossing c a.remaining)
      × IsBusy k st'
unfolding keep_rest
keep_rest_lem k tid message c a laws marked reads listed v r w small left =
    let (b, appended, held, valid) =
      append_reset (drop a.nwrote message) c.output_buffer v r w
        (omega (arith, length-drop {0} a.nwrote message)) in
    let (kept, queued) = noted_lem k c.channel.fd tid c a r w left in
    let started =
      start_writing_lem k (record c { output_buffer = b }) (noted tid c a) laws marked reads
        (kept ∙ listed) in
    (
      (
        record c { output_buffer = b; channel = record (c.channel) { events = 7 } },
        controlled c.channel 7 (noted tid c a),
      ),
      rw (appended) started,
      held,
      refl,
      refl,
      queued,
      record {
        marked = marked;
        writes = inr refl;
        listed = registered-controlled k c.channel (noted tid c a) (kept ∙ listed);
        valid = valid;
      },
    )
