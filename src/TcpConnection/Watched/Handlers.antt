-- ===== src/TcpConnection/Watched/Handlers.antt =====
-- What the events of a connection's channel and its end do to its place in the interest list.
use moduo.Prelude.{
  ℕ, ◌≡◌, refl, sym, subst, ap, ◌∙◌, inl, inr, Bool, Bool-cases, true, false, List, [], ◌∷◌,
  Outcome, ok, exits, >>=-eq-ok, arith, ltb,
}
use moduo.Os.{Kernel, Calls, Reply, returns, fails, readv}
use moduo.Poller.Interest.{EpollLaws, registered}
use moduo.Buffer.{Buffer, read_lengths}
use moduo.Buffer
use moduo.Channel.{Callback, close_callback, error_callback, read_callback, write_callback}
use moduo.Channel.Dispatch.{run_callbacks, handle_event-callbacks}
use moduo.EventLoop.{EventLoop}
use moduo.TcpConnection.{
  Connection, Session, Task, sends, shuts_down, write_completes, high_water, App, call_if,
}
use moduo.TcpConnection.Handlers.{
  handle_error, handle_close, after_read_fd, handle_read, call_callback, handle_event, run_task,
}
use moduo.TcpConnection.Watched.{IsWatched, quiet-IsWatched, disable_all-IsWatched}
use moduo.TcpConnection.Watched.Operations.{carried, send_in_loop-Watched, shutdown_in_loop-Watched}
use moduo.TcpConnection.Watched.Writing.{handle_write-Watched}

-- The callbacks of the user and of the server do to the channel no more than a connection does.
pub record KeepsWatch (k : Kernel) (fd address : ℕ) (app : App) : Type 0 where
  pub connection :
      (st st' : Session)
      → app.on_connection st ≡ ok st'
      → IsWatched k fd address st
      → IsWatched k fd address st'
  pub message :
      (time : ℕ) (st st' : Session)
      → app.on_message time st ≡ ok st'
      → IsWatched k fd address st
      → IsWatched k fd address st'
  pub write_complete :
      (st st' : Session)
      → app.on_write_complete st ≡ ok st'
      → IsWatched k fd address st
      → IsWatched k fd address st'
  pub high_water_mark :
      (n : ℕ) (st st' : Session)
      → app.on_high_water_mark n st ≡ ok st'
      → IsWatched k fd address st
      → IsWatched k fd address st'
  pub close :
      (st st' : Session)
      → app.on_close st ≡ ok st'
      → IsWatched k fd address st
      → IsWatched k fd address st'

module _ (k : Kernel) (fd address : ℕ) (app : App) (laws : EpollLaws k)
    (keeps : KeepsWatch k fd address app) where
  pub call_if-Watched :
      (f : Session → Outcome Session)
      → ((st st' : Session)
          → f st ≡ ok st'
          → IsWatched k fd address st
          → IsWatched k fd address st')
      → (is_set : Bool) (st st' : Session) → call_if is_set f st ≡ ok st'
      → IsWatched k fd address st
      → IsWatched k fd address st'
  call_if-Watched f law true st st' h v = law st st' h v
  call_if-Watched f law false st st' h v = absurd_of h
    where
      absurd_of : {A : Type 0} {st : Session} → exits ≡ ok st → A
      absurd_of e = cc

  handle_close-Watched :
      (st st' : Session)
      → handle_close k app st ≡ ok st'
      → IsWatched k fd address st
      → IsWatched k fd address st'
  unfolding handle_close
  handle_close-Watched (c, l) st' done v =
      let (l', disabled, w) = disable_all-IsWatched k fd address c l laws v in
      let (st₁, told, closed) =
        >>=-eq-ok (call_if c.has_connection app.on_connection _) _ (rw disabled at done) in
      call_if-Watched app.on_close keeps.close c.has_close st₁ st' closed
        (call_if-Watched app.on_connection keeps.connection c.has_connection _ st₁ told w)

  after_read_fd-Watched :
      (time : ℕ) (st st' : Session) (r : Reply)
      → after_read_fd k app time st r ≡ ok st'
      → IsWatched k fd address st
      → IsWatched k fd address st'
  unfolding after_read_fd handle_error registered
  after_read_fd-Watched time (c, l) st' (fails errno) done v =
      subst (IsWatched k fd address) (cc done)
        (quiet-IsWatched k fd address c c l (handle_error (c, l)).1 refl refl refl refl refl v)
  after_read_fd-Watched time (c, l) st' (returns n) done v = elim (Bool-cases (ltb 0 n)) [
    | inl some_bytes ↦
        call_if-Watched (app.on_message time) (keeps.message time) c.has_message (c, l) st'
          (rw some_bytes at done) v
    | inr nothing ↦ handle_close-Watched (c, l) st' (rw nothing at done) v
  ]

  calls-read_fd :
      (fd' : ℕ) (calls : Calls) (b : Buffer) (r : Buffer × Calls × Reply)
      → Buffer.read_fd k fd' calls b ≡ ok r
      → r.1 ≡ readv fd' (read_lengths b) ∷ calls
  unfolding Buffer.read_fd
  calls-read_fd fd' calls b r done = ground arith

  was_read-Watched :
      (c : Connection) (l : EventLoop Task) (r : Buffer × Calls × Reply)
      → Buffer.read_fd k c.channel.fd l.calls c.input_buffer ≡ ok r
      → IsWatched k fd address (c, l)
      → IsWatched k fd address (record c { input_buffer = r.0 }, record l { calls = r.1 })
  unfolding registered
  was_read-Watched c l r did_read v =
      quiet-IsWatched k fd address c (record c { input_buffer = r.0 }) l (record l { calls = r.1 })
        refl refl refl refl
        (ap (registered k fd) (calls-read_fd c.channel.fd l.calls c.input_buffer r did_read)) v

  handle_read-Watched :
      (time : ℕ) (st st' : Session)
      → handle_read k app time st ≡ ok st'
      → IsWatched k fd address st
      → IsWatched k fd address st'
  unfolding handle_read
  handle_read-Watched time (c, l) st' done v =
      let (r, did_read, rest) =
        >>=-eq-ok (Buffer.read_fd k c.channel.fd l.calls c.input_buffer) _ done in
      after_read_fd-Watched time _ st' (r.2) rest (was_read-Watched c l r did_read v)

  call_callback-Watched :
      (tid time : ℕ) (x : Callback) (st st' : Session)
      → call_callback k app tid time x st ≡ ok st'
      → IsWatched k fd address st
      → IsWatched k fd address st'
  unfolding call_callback handle_error registered
  call_callback-Watched tid time read_callback st st' h v = handle_read-Watched time st st' h v
  call_callback-Watched tid time write_callback st st' h v =
      handle_write-Watched k fd address tid st st' laws h v
  call_callback-Watched tid time close_callback st st' h v = handle_close-Watched st st' h v
  call_callback-Watched tid time error_callback (c, l) st' h v =
      carried k fd address tid h
        (quiet-IsWatched k fd address c c l (handle_error (c, l)).1 refl refl refl refl refl v)

  run_callbacks-Watched :
      (tid time : ℕ) (xs : List Callback) (st st' : Session)
      → run_callbacks (call_callback k app tid time) xs st ≡ ok st'
      → IsWatched k fd address st
      → IsWatched k fd address st'
  run_callbacks-Watched tid time [] st st' h v = carried k fd address tid h v
  run_callbacks-Watched tid time (x ∷ xs) st st' h v =
      let (st₁, ran, rest) = >>=-eq-ok (call_callback k app tid time x st) _ h in
      run_callbacks-Watched tid time xs st₁ st' rest (call_callback-Watched tid time x st st₁ ran v)

  pub handle_event-Watched :
      (tid time : ℕ) (alive : Bool) (st st' : Session)
      → handle_event k app tid time alive st ≡ ok st'
      → IsWatched k fd address st
      → IsWatched k fd address st'
  unfolding handle_event
  handle_event-Watched tid time alive (c, l) st' h v =
      run_callbacks-Watched tid time _ (c, l) st'
        (sym (handle_event-callbacks (call_callback k app tid time) alive c.channel (c, l)) ∙ h) v

  pub run_task-Watched :
      (tid : ℕ) (t : Task) (st st' : Session)
      → run_task k app tid t st ≡ ok st'
      → IsWatched k fd address st
      → IsWatched k fd address st'
  unfolding run_task
  run_task-Watched tid (sends at_address len) st st' h v =
      let (message, _, sent) = >>=-eq-ok (app.memory at_address len) _ h in
      send_in_loop-Watched k fd address tid message st st' laws sent v
  run_task-Watched tid shuts_down st st' h v =
      carried k fd address tid h (shutdown_in_loop-Watched k fd address tid st v)
  run_task-Watched tid write_completes st st' h v = keeps.write_complete st st' h v
  run_task-Watched tid (high_water n) st st' h v = keeps.high_water_mark n st st' h v
