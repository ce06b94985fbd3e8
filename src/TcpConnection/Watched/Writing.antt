-- ===== src/TcpConnection/Watched/Writing.antt =====
-- What `handleWrite` does to a connection's place in the interest list.
use moduo.Prelude.{
  ℕ, ◌≡◌, refl, ap, inl, inr, Bool, Bool-cases, true, false, ◌==◌, ◌∷◌, ok, ◌>>=◌, >>=-eq-ok,
  if◌then◌else◌, bit_and, ltb,
}
use moduo.Os.{Kernel, Calls, Reply, write, returns, fails}
use moduo.Poller.Interest.{EpollLaws, registered}
use moduo.Buffer
use moduo.Buffer.{readable_bytes}
use moduo.Channel.{is_writing}
use moduo.Channel.Events
use moduo.EventLoop.{EventLoop, queue_in_loop}
use moduo.TcpConnection.{
  Connection, Session, Task, write_completes, is_disconnected, is_disconnecting, with_channel,
}
use moduo.TcpConnection.Handlers.{finish_writing, after_write_fd, handle_write}
use moduo.TcpConnection.Send.{shutdown_in_loop}
use moduo.TcpConnection.Watched.{IsWatched, quiet-IsWatched, update_events-IsWatched}
use moduo.TcpConnection.Watched.Operations.{
  carried, queue_in_loop-Watched, shutdown_in_loop-Watched,
}

module _ (k : Kernel) (fd address tid : ℕ) where
  writing_in_use :
      (c : Connection) (l : EventLoop Task)
      → is_writing c.channel ≡ true
      → IsWatched k fd address (c, l)
      → (is_disconnected c.state ≡ false) × (bit_and c.channel.events 4 ≡ 4)
  writing_in_use c l on v = elim v.asks [
    | inl (over, nothing) ↦ absurd_of (rw nothing at on)
    | inr (up, inl e) ↦ absurd_of (rw e at on)
    | inr (up, inr (inl e)) ↦ (up, rw e refl)
    | inr (up, inr (inr e)) ↦ (up, rw e refl)
  ]
    where
      absurd_of : {A : Type 0} → false ≡ true → A
      absurd_of e = cc

  -- The loop of `handleWrite` once the callback for completed writes is queued.
  abbrev completing : Connection → EventLoop Task → EventLoop Task
  completing c l = if c.has_write_complete then queue_in_loop tid write_completes l else l

  completing-Watched :
      (c c' : Connection) (l : EventLoop Task)
      → IsWatched k fd address (c', l)
      → IsWatched k fd address (c', completing c l)
  completing-Watched c c' l v = elim (Bool-cases c.has_write_complete) [
    | inl is_set ↦ rw is_set (queue_in_loop-Watched k fd address tid write_completes c' l v)
    | inr unset ↦ rw unset v
  ]

  shut_if-Watched :
      (ends : Bool) (st : Session)
      → IsWatched k fd address st
      → IsWatched k fd address (if ends then shutdown_in_loop st else st)
  shut_if-Watched true st v = shutdown_in_loop-Watched k fd address tid st v
  shut_if-Watched false st v = v

  finish_writing-Watched :
      (c : Connection) (l : EventLoop Task) (st : Session)
      → EpollLaws k
      → is_writing c.channel ≡ true
      → finish_writing k tid (c, l) ≡ ok st
      → IsWatched k fd address (c, l)
      → IsWatched k fd address st
  unfolding finish_writing Events.disable_writing
  finish_writing-Watched c l st laws on done v =
      let (up, only_writes) = writing_in_use c l on v in
      let (r, disabled, rest) = >>=-eq-ok (Events.disable_writing k c.channel l) _ done in
      let events = bit_and (c.channel.events) 4 in
      let quieter =
        update_events-IsWatched k fd address c l events (with_channel c r) laws up
          (inr (inr only_writes)) (ap (λ m. m >>= (λ q. ok (with_channel c q))) disabled) v in
      let c' = record c { channel = r.0 } in
      carried k fd address tid rest (
        shut_if-Watched (is_disconnecting c.state) (c', completing c (r.1))
          (completing-Watched c c' (r.1) quieter))

  after_write_fd-Watched :
      (c : Connection) (l : EventLoop Task) (r : Reply) (st : Session)
      → EpollLaws k
      → is_writing c.channel ≡ true
      → after_write_fd k tid (c, l) r ≡ ok st
      → IsWatched k fd address (c, l)
      → IsWatched k fd address st
  unfolding after_write_fd
  after_write_fd-Watched c l (fails errno) st laws on done v = carried k fd address tid done v
  after_write_fd-Watched c l (returns n) st laws on done v =
      let b = Buffer.retrieve n c.output_buffer in
      let c' = record c { output_buffer = b } in
      let taken = quiet-IsWatched k fd address c c' l l refl refl refl refl refl v in
      elim (Bool-cases (ltb 0 n)) [
        | inr nothing ↦ carried k fd address tid (rw nothing at done) v
        | inl some_bytes ↦ elim (Bool-cases (readable_bytes b == 0)) [
          | inl empty ↦
              finish_writing-Watched c' l st laws on (rw (some_bytes, empty) at done) taken
          | inr more ↦ carried k fd address tid (rw (some_bytes, more) at done) taken
        ]
      ]

  wrote-Watched :
      (c : Connection) (l : EventLoop Task) (r : Calls × Reply)
      → Buffer.write_fd k c.channel.fd l.calls c.output_buffer ≡ ok r
      → IsWatched k fd address (c, l)
      → IsWatched k fd address (c, record l { calls = r.0 })
  unfolding Buffer.write_fd registered
  wrote-Watched c l r wrote v =
      let b = c.output_buffer in
      let (bytes, _, e) =
        >>=-eq-ok (Buffer.read_at b.buffer b.reader_index (readable_bytes b)) _ wrote in
      let same_calls : r.0 ≡ write c.channel.fd bytes ∷ l.calls = cc e in
      quiet-IsWatched k fd address c c l (record l { calls = r.0 }) refl refl refl refl
        (ap (registered k fd) same_calls) v

  pub handle_write-Watched :
      (st st' : Session)
      → EpollLaws k
      → handle_write k tid st ≡ ok st'
      → IsWatched k fd address st
      → IsWatched k fd address st'
  unfolding handle_write
  handle_write-Watched (c, l) st' laws done v = elim (Bool-cases (is_writing c.channel)) [
    | inr off ↦ carried k fd address tid (rw off at done) v
    | inl on ↦
        let (r, wrote, rest) =
          >>=-eq-ok (Buffer.write_fd k c.channel.fd l.calls c.output_buffer) _ (rw on at done) in
        after_write_fd-Watched c (record l { calls = r.0 }) (r.1) st' laws on rest
          (wrote-Watched c l r wrote v)
  ]
