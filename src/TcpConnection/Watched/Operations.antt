-- ===== src/TcpConnection/Watched/Operations.antt =====
-- What `send`, `sendInLoop`, `shutdown` and `shutdownInLoop` do to a connection's place in the interest
-- list.
use moduo.Prelude.{
  ℕ, ◌≡◌, refl, subst, ap, inl, inr, Bool-cases, false, not, ◌&&◌, List, ok, >>=-eq-ok, arith,
  bit_or, drop, ltb,
}
use moduo.Os.{Kernel}
use moduo.Poller.Interest.{EpollLaws, registered}
use moduo.Buffer
use moduo.Buffer.{readable_bytes}
use moduo.Channel.{is_writing}
use moduo.Channel.Events
use moduo.Socket
use moduo.EventLoop.{EventLoop, queue_in_loop, is_in_loop_thread}
use moduo.EventLoop.Functors.{queue_in_loop_lem}
use moduo.TcpConnection.{
  Connection, Session, Task, shuts_down, write_completes, is_disconnected, is_connected,
  disconnecting,
}
use moduo.TcpConnection.Send.{
  Attempt, crosses_mark, after_write, attempt, start_writing, keep_rest, send_in_loop, send,
  shutdown_in_loop, shutdown,
}
use moduo.TcpConnection.Sending.{written, registered-queue_in_loop}
use moduo.TcpConnection.Queueing.{marked_loop}
use moduo.TcpConnection.Watched.{InUse, IsWatched, quiet-IsWatched, update_events-IsWatched}

module _ (k : Kernel) (fd address tid : ℕ) where
  abbrev pub Watched : Session → Type 0
  Watched = IsWatched k fd address

  pub carried : {st st' : Session} → ok st ≡ ok st' → Watched st → Watched st'
  carried e v = subst Watched (cc e) v

  pub queue_in_loop-Watched :
      (t : Task) (c : Connection) (l : EventLoop Task)
      → Watched (c, l)
      → Watched (c, queue_in_loop tid t l)
  queue_in_loop-Watched t c l v =
      quiet-IsWatched k fd address c c l (queue_in_loop tid t l) refl refl refl
        (ap (λ (m : EventLoop Task). m.poller) (queue_in_loop_lem tid t l))
        (registered-queue_in_loop k fd tid t l) v

  attempt-Watched :
      (message : List ℕ) (c : Connection) (l : EventLoop Task)
      → Watched (c, l)
      → Watched (c, (attempt k tid message (c, l)).loop)
  unfolding attempt after_write registered
  attempt-Watched message c l v =
      let wrote =
        quiet-IsWatched k fd address c c l (written (c, l) message) refl refl refl refl refl v in
      ground (arith, queue_in_loop-Watched write_completes c (written (c, l) message) wrote)

  pub in_use :
      (c : Connection) (l : EventLoop Task)
      → is_disconnected c.state ≡ false
      → Watched (c, l)
      → InUse c.channel.events
  in_use c l up v = ground (arith, v.asks)

  asked : (events : ℕ) → InUse events → InUse (bit_or events 4)
  asked events (inl e) = inr (inl (rw e refl))
  asked events (inr (inl e)) = inr (inl (rw e refl))
  asked events (inr (inr e)) = inr (inr (rw e refl))

  start_writing-Watched :
      (c : Connection) (l : EventLoop Task) (st : Session)
      → EpollLaws k
      → is_disconnected c.state ≡ false
      → start_writing k c l ≡ ok st
      → Watched (c, l)
      → Watched st
  unfolding start_writing Events.enable_writing
  start_writing-Watched c l st laws up done v = elim (Bool-cases (is_writing c.channel)) [
    | inl on ↦ carried (rw on at done) v
    | inr off ↦
        update_events-IsWatched k fd address c l (bit_or (c.channel.events) 4) st laws up
          (asked c.channel.events (in_use c l up v)) (rw off at done) v
  ]

  marked_loop-Watched :
      (c : Connection) (l : EventLoop Task) (n : ℕ)
      → Watched (c, l)
      → Watched (c, marked_loop tid (c, l) n)
  marked_loop-Watched c l n v = elim (Bool-cases (crosses_mark c n)) [
    | inl crosses ↦ rw crosses (queue_in_loop-Watched _ c l v)
    | inr below ↦ rw below v
  ]

  keep_rest-Watched :
      (message : List ℕ) (c : Connection) (a : Attempt) (st : Session)
      → EpollLaws k
      → is_disconnected c.state ≡ false
      → keep_rest k tid message c a ≡ ok st
      → Watched (c, a.loop)
      → Watched st
  unfolding keep_rest
  keep_rest-Watched message c a st laws up done v =
      let (b, _, started) =
        >>=-eq-ok (Buffer.append (drop a.nwrote message) c.output_buffer) _ done in
      let l = marked_loop tid (c, a.loop) a.remaining in
      start_writing-Watched (record c { output_buffer = b }) l st laws up started
        (quiet-IsWatched k fd address c (record c { output_buffer = b }) l l refl refl refl refl
          refl (marked_loop-Watched c a.loop a.remaining v))

  pub send_in_loop-Watched :
      (message : List ℕ) (st st' : Session)
      → EpollLaws k
      → send_in_loop k tid message st ≡ ok st'
      → Watched st
      → Watched st'
  unfolding send_in_loop
  send_in_loop-Watched message (c, l) st' laws done v =
      let a = attempt k tid message (c, l) in
      let tried = attempt-Watched message c l v in
      elim (Bool-cases (is_disconnected c.state)) [
        | inl over ↦ carried (rw over at done) v
        | inr up ↦ elim (Bool-cases (not a.fault_error && ltb 0 a.remaining)) [
          | inl some_left ↦
              keep_rest-Watched message c a st' laws up (rw (up, some_left) at done) tried
          | inr done_all ↦ carried (rw (up, done_all) at done) tried
        ]
      ]

  pub send-Watched :
      (at_address : ℕ) (bytes : List ℕ) (st st' : Session)
      → EpollLaws k
      → send k tid at_address bytes st ≡ ok st'
      → Watched st
      → Watched st'
  unfolding send
  send-Watched at_address bytes (c, l) st' laws done v = elim (Bool-cases (is_connected c.state)) [
    | inr down ↦ carried (rw down at done) v
    | inl up ↦ elim (Bool-cases (is_in_loop_thread tid l)) [
      | inl here ↦ send_in_loop-Watched bytes (c, l) st' laws (rw (up, here) at done) v
      | inr away ↦ carried (rw (up, away) at done) (queue_in_loop-Watched _ c l v)
    ]
  ]

  pub shutdown_in_loop-Watched : (st : Session) → Watched st → Watched (shutdown_in_loop st)
  unfolding shutdown_in_loop Socket.shutdown_write registered
  shutdown_in_loop-Watched (c, l) v = elim (Bool-cases (is_writing c.channel)) [
    | inl on ↦ rw on v
    | inr off ↦ rw off (
        quiet-IsWatched k fd address c c l
          (record l { calls = Socket.shutdown_write c.socket l.calls }) refl refl refl refl refl v)
  ]

  pub shutdown-Watched : (st : Session) → Watched st → Watched (shutdown tid st)
  unfolding shutdown
  shutdown-Watched (c, l) v =
      let c' = record c { state = disconnecting } in
      elim (Bool-cases (is_connected c.state)) [
        | inr down ↦ rw down v
        | inl up ↦
            let going =
              quiet-IsWatched k fd address c c' l l refl refl (ground arith) refl refl v in
            elim (Bool-cases (is_in_loop_thread tid l)) [
              | inl here ↦ rw (up, here) (shutdown_in_loop-Watched (c', l) going)
              | inr away ↦ rw (up, away) (queue_in_loop-Watched shuts_down c' l going)
            ]
      ]
