-- ===== src/TcpConnection/Draining.antt =====
-- `handleWrite`: the output buffer goes out in order; what happens when it runs empty.
use mathlib.Core.List.{append-nil}
use moduo.Prelude.{
  ℕ, zero, suc, Outcome, ◌>>=◌, ge→ltb, ◌-◌, ◌<◌, ◌≡◌, refl, sym, ap, ◌∙◌, ◌⊎◌, inl, inr,
  Bool-cases, true, false, [], ◌∷◌, ◌++◌, ok, arith, drop, drop_all, lt→ltb, gt→==, ==_iff,
  if◌then◌else◌,
}
use moduo.Os.{Kernel, Calls, Syscall, write, shutdown_wr, Reply, returns, fails, WriteFits}
use moduo.Buffer.{Buffer, write_fd, retrieve}
use moduo.Buffer.Bounds.{IsValid, read_at_ok, retrieve-IsValid}
use moduo.Buffer.Contents.{
  readable, contents, length-contents, contents-retrieve, readable_bytes-eq-readable,
  readable_bytes-retrieve,
}
use moduo.Channel.{added, is_writing, is_reading}
use moduo.Channel.Events
use moduo.Channel.Updates.{controlled, update_events_lem}
use moduo.Poller.Interest.{EpollLaws, registered}
use moduo.EventLoop.{EventLoop, queue_in_loop}
use moduo.EventLoop.Functors.{queue_in_loop_lem}
use moduo.TcpConnection.{Connection, Session, Task, write_completes, is_disconnecting}
use moduo.TcpConnection.Send.{shutdown_in_loop}
use moduo.TcpConnection.Handlers.{finish_writing, after_write_fd, handle_write}

-- How often the write end was shut down.
abbrev pub shutdowns : Calls → ℕ
shutdowns [] = 0
shutdowns (shutdown_wr fd ∷ calls) = suc (shutdowns calls)
shutdowns (_ ∷ calls) = shutdowns calls

-- A connection with bytes to write: its channel is in the kernel's list and asks for EPOLLOUT, with
-- or without input.
pub record IsBusy (k : Kernel) (st : Session) : Type 0 where
  pub marked : st.0.channel.index ≡ added
  pub writes : (st.0.channel.events ≡ 4) ⊎ (st.0.channel.events ≡ 7)
  pub listed : registered k (st.0.channel.fd) (st.1.calls) ≡ true
  pub valid : IsValid (st.0.output_buffer)

abbrev pub offered : Session → Syscall
offered (c, l) = write c.channel.fd (contents c.output_buffer)

write_fd_lem :
    (k : Kernel) (fd : ℕ) (calls : Calls) (b : Buffer)
    → IsValid b
    → write_fd k fd calls b
      ≡ ok (write fd (contents b) ∷ calls, k.reply calls (write fd (contents b)))
unfolding write_fd
write_fd_lem k fd calls b v =
    rw (
      readable_bytes-eq-readable b v,
      read_at_ok b.buffer b.reader_index (readable b) (omega arith),
    )

pub is_writing_of : (k : Kernel) (st : Session) → IsBusy k st → is_writing (st.0.channel) ≡ true
is_writing_of k (c, l) busy = elim busy.writes [ inl e ↦ rw e | inr e ↦ rw e ]

handle_write_step :
    (k : Kernel) (tid : ℕ) (c : Connection) (l : EventLoop Task) (n : ℕ)
    → IsBusy k (c, l)
    → k.reply l.calls (offered (c, l)) ≡ returns n
    → handle_write k tid (c, l)
      ≡ after_write_fd k tid (c, record l { calls = offered (c, l) ∷ l.calls }) (returns n)
unfolding handle_write
handle_write_step k tid c l n busy taken = rw (
  is_writing_of k (c, l) busy,
  write_fd_lem k c.channel.fd l.calls c.output_buffer busy.valid,
  taken,
)

-- Where the kernel takes a part of the output buffer, `handleWrite` returns with the rest of it, and
-- the state, the channel and the queue are as they were.
pub handle_write_part :
    (k : Kernel) (tid : ℕ) (c : Connection) (l : EventLoop Task) (n : ℕ)
    → IsBusy k (c, l)
    → k.reply l.calls (offered (c, l)) ≡ returns n
    → 0 < n
    → n < readable c.output_buffer
    → (b : Buffer) × (handle_write k tid (c, l)
        ≡ ok (record c { output_buffer = b }, record l { calls = offered (c, l) ∷ l.calls }))
      × (contents b ≡ drop n (contents c.output_buffer))
      × IsValid b
unfolding after_write_fd
handle_write_part k tid c l n busy taken some_bytes part = (
  retrieve n c.output_buffer,
  handle_write_step k tid c l n busy taken
      ∙ rw (
        lt→ltb 0 n some_bytes,
        readable_bytes-retrieve n c.output_buffer busy.valid,
        gt→== (readable c.output_buffer - n) 0 (omega arith),
      ),
  contents-retrieve n c.output_buffer busy.valid,
  retrieve-IsValid n c.output_buffer busy.valid,
)

-- What is left when the output buffer ran empty.
module _ (k : Kernel) (tid : ℕ) (c : Connection) (l : EventLoop Task) (b : Buffer)
    (laws : EpollLaws k) (busy : IsBusy k (c, l)) where
  finished : EventLoop Task
  finished =
      let l' = controlled c.channel 4 (record l { calls = offered (c, l) ∷ l.calls }) in
      if c.has_write_complete then queue_in_loop tid write_completes l' else l'

  write_only :
      Events.disable_writing k c.channel (record l { calls = offered (c, l) ∷ l.calls })
      ≡ ok (
        record (c.channel) { events = 4 },
        controlled c.channel 4 (record l { calls = offered (c, l) ∷ l.calls }),
      )
  unfolding Events.disable_writing registered
  write_only =
      ap (Events.update_events k c.channel (record l { calls = offered (c, l) ∷ l.calls }))
        (elim busy.writes [ inl e ↦ rw e | inr e ↦ rw e ])
      ∙ update_events_lem k c.channel (record l { calls = offered (c, l) ∷ l.calls }) 4 laws
          busy.marked busy.listed

  finish_writing_lem :
      finish_writing k tid
        (record c { output_buffer = b }, record l { calls = offered (c, l) ∷ l.calls })
      ≡ ok (record c { output_buffer = b; channel = record (c.channel) { events = 4 } }, finished)
  unfolding finish_writing finished shutdown_in_loop
  finish_writing_lem = elim (Bool-cases (is_disconnecting c.state)) [
    | inl going ↦ rw (write_only, going)
    | inr staying ↦ rw (write_only, staying)
  ]

  shutdowns-finished :
      (shutdowns finished.calls ≡ shutdowns l.calls)
      × (finished.pending_functors
          ≡ l.pending_functors ++ (if c.has_write_complete then write_completes ∷ [] else []))
  unfolding finished
  shutdowns-finished = elim (Bool-cases c.has_write_complete) [
    | inl set ↦
        rw
          (
            set,
            queue_in_loop_lem tid write_completes
                (controlled c.channel 4 (record l { calls = offered (c, l) ∷ l.calls })),
          )
          (ground arith, ground arith)
    | inr unset ↦ rw unset (refl, sym (append-nil l.pending_functors))
  ]

-- When the kernel takes all of the output buffer, `handleWrite` queues the write-complete callback if it
-- is set, but `disableWriting` leaves the channel asking for EPOLLOUT and for nothing else: it no longer
-- reads, and the write end is not shut down, also where the connection is disconnecting.
pub handle_write_drained :
    (k : Kernel) (tid : ℕ) (c : Connection) (l : EventLoop Task)
    → EpollLaws k
    → IsBusy k (c, l)
    → 0 < readable c.output_buffer
    → k.reply l.calls (offered (c, l)) ≡ returns (readable c.output_buffer)
    → (st' : Session) × (handle_write k tid (c, l) ≡ ok st')
      × (contents (st'.0.output_buffer) ≡ [])
      × (is_writing (st'.0.channel) ≡ true)
      × (is_reading (st'.0.channel) ≡ false)
      × (st'.0.state ≡ c.state)
      × (shutdowns (st'.1.calls) ≡ shutdowns l.calls)
      × (st'.1.pending_functors
          ≡ l.pending_functors ++ (if c.has_write_complete then write_completes ∷ [] else []))
      × IsValid (st'.0.output_buffer)
unfolding after_write_fd
handle_write_drained k tid c l laws busy some_bytes taken =
    let n = readable c.output_buffer in
    let b = retrieve n c.output_buffer in
    let (kept, queued) = shutdowns-finished k tid c l b laws busy in
    (
      (
        record c { output_buffer = b; channel = record (c.channel) { events = 4 } },
        finished k tid c l b laws busy,
      ),
      handle_write_step k tid c l n busy taken
          ∙ rw
              (
                lt→ltb 0 n some_bytes,
                readable_bytes-retrieve n c.output_buffer busy.valid,
                (==_iff (n - n) 0).1 (omega arith),
              )
              (finish_writing_lem k tid c l b laws busy),
      contents-retrieve n c.output_buffer busy.valid
          ∙ drop_all n (contents c.output_buffer)
              (omega (arith, length-contents c.output_buffer busy.valid)),
      refl,
      refl,
      refl,
      kept,
      queued,
      retrieve-IsValid n c.output_buffer busy.valid,
    )

nothing_taken :
    (k : Kernel) (tid : ℕ) (c : Connection) (l : EventLoop Task) (reply : Reply)
    → WriteFits k
    → k.reply l.calls (write c.channel.fd []) ≡ reply
    → after_write_fd k tid (c, record l { calls = write c.channel.fd [] ∷ l.calls }) reply
      ≡ ok (c, record l { calls = write c.channel.fd [] ∷ l.calls })
unfolding after_write_fd
nothing_taken k tid c l (returns n) wfits e =
    rw (ge→ltb 0 n (omega (arith, wfits l.calls c.channel.fd [] n e))) refl
nothing_taken k tid c l (fails errno) wfits e = refl

-- On a connection that asks for EPOLLOUT with an empty output buffer, `handleWrite` only offers the
-- kernel no bytes, of which it takes none.
handle_write_spins :
    (k : Kernel) (tid : ℕ) (c : Connection) (l : EventLoop Task)
    → WriteFits k
    → is_writing c.channel ≡ true
    → IsValid c.output_buffer
    → contents c.output_buffer ≡ []
    → handle_write k tid (c, l) ≡ ok (c, record l { calls = write c.channel.fd [] ∷ l.calls })
unfolding handle_write
handle_write_spins k tid c l wfits writes valid none_left =
    rw (writes, write_fd_lem k c.channel.fd l.calls c.output_buffer valid, none_left)
      (nothing_taken k tid c l (k.reply l.calls (write c.channel.fd [])) wfits refl)

-- Any number of calls of `handleWrite`.
unfoldable pub handle_writes : Kernel → ℕ → (rounds : ℕ) → Session → Outcome Session
handle_writes k tid zero st = ok st
handle_writes k tid (suc rounds) st = handle_write k tid st >>= handle_writes k tid rounds

-- However often it is called, that changes nothing in the connection.
pub handle_writes_spin :
    (k : Kernel) (tid rounds : ℕ) (c : Connection) (l : EventLoop Task)
    → WriteFits k
    → is_writing c.channel ≡ true
    → IsValid c.output_buffer
    → contents c.output_buffer ≡ []
    → (calls : Calls) × (handle_writes k tid rounds (c, l) ≡ ok (c, record l { calls = calls }))
      × (shutdowns calls ≡ shutdowns l.calls)
unfolding handle_writes
handle_writes_spin k tid zero c l wfits writes valid none_left = (l.calls, refl, refl)
handle_writes_spin k tid (suc rounds) c l wfits writes valid none_left =
    let (calls, rest, kept) =
      handle_writes_spin k tid rounds c (record l { calls = write c.channel.fd [] ∷ l.calls }) wfits
        writes valid none_left in
    (calls, rw (handle_write_spins k tid c l wfits writes valid none_left) rest, kept)
