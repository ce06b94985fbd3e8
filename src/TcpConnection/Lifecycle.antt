-- ===== src/TcpConnection/Lifecycle.antt =====
-- The states of a connection go one way: connecting, connected, disconnecting, disconnected.
use moduo.Prelude.{
  ℕ, ◌≤◌, ◌≡◌, Bool, true, false, List, [], ◌∷◌, Outcome, ok, >>=-eq-ok, sym, ◌∙◌, arith,
  if◌then◌else◌,
}
use native.Mathlib.Nat.{le_trans}
use moduo.Os.{Kernel, Reply, returns, fails}
use moduo.Channel.{Callback, close_callback, error_callback, read_callback, write_callback}
use moduo.Channel.Dispatch.{run_callbacks, handle_event-callbacks}
use moduo.Buffer
use moduo.Channel.Events
use moduo.TcpConnection.{
  State, disconnected, connecting, connected, disconnecting, Session, Task, sends, shuts_down,
  write_completes, high_water, App, call_if, is_connected,
}
use moduo.TcpConnection.Send.{
  send_in_loop, send, shutdown_in_loop, shutdown, keep_rest, start_writing,
}
use moduo.TcpConnection.Handlers.{
  handle_error, finish_writing, after_write_fd, handle_write, handle_close, after_read_fd,
  handle_read, announce_end, remove_from_poller, connection_destroyed, call_callback, handle_event,
  run_task,
}

abbrev pub rank : State → ℕ
rank connecting = 0
rank connected = 1
rank disconnecting = 2
rank disconnected = 3

-- A later session, by the state of its connection.
abbrev pub Later : Session → Session → Type 0
Later st st' = rank (st.0.state) ≤ rank (st'.0.state)

-- The callbacks of the user and of the server do not take a connection back.
pub record IsOrderly (app : App) : Type 0 where
  pub connection : (st st' : Session) → app.on_connection st ≡ ok st' → Later st st'
  pub message : (time : ℕ) (st st' : Session) → app.on_message time st ≡ ok st' → Later st st'
  pub write_complete : (st st' : Session) → app.on_write_complete st ≡ ok st' → Later st st'
  pub high_water_mark :
      (n : ℕ) (st st' : Session) → app.on_high_water_mark n st ≡ ok st' → Later st st'
  pub close : (st st' : Session) → app.on_close st ≡ ok st' → Later st st'

rank_le : (s : State) → rank s ≤ 3
rank_le s = ground arith

module _ (k : Kernel) (tid : ℕ) where
  pub send_in_loop-Later :
      (message : List ℕ) (st st' : Session) → send_in_loop k tid message st ≡ ok st' → Later st st'
  unfolding send_in_loop keep_rest start_writing
  send_in_loop-Later message (c, l) st' h = ground arith

  pub send-Later :
      (address : ℕ) (bytes : List ℕ) (st st' : Session)
      → send k tid address bytes st ≡ ok st'
      → Later st st'
  unfolding send
  send-Later address bytes (c, l) st' h = ground (arith, send_in_loop-Later bytes (c, l) st')

  shutdown_in_loop-Later : (st : Session) → Later st (shutdown_in_loop st)
  unfolding shutdown_in_loop
  shutdown_in_loop-Later (c, l) = ground arith

  pub shutdown-Later : (st : Session) → Later st (shutdown tid st)
  unfolding shutdown shutdown_in_loop
  shutdown-Later (c, l) = ground arith

  after_write_fd-Later :
      (st st' : Session) (r : Reply) → after_write_fd k tid st r ≡ ok st' → Later st st'
  unfolding after_write_fd finish_writing shutdown_in_loop
  after_write_fd-Later (c, l) st' (fails errno) h = ground arith
  after_write_fd-Later (c, l) st' (returns n) h = ground arith

  handle_write-Later : (st st' : Session) → handle_write k tid st ≡ ok st' → Later st st'
  unfolding handle_write
  handle_write-Later (c, l) st' h = grind (arith, after_write_fd-Later)

pub call_if-Later :
    (f : Session → Outcome Session)
    → ((st st' : Session) → f st ≡ ok st' → Later st st')
    → (is_set : Bool) (st st' : Session) → call_if is_set f st ≡ ok st'
    → Later st st'
call_if-Later f law true st st' h = law st st' h
call_if-Later f law false st st' h = cc

module _ (k : Kernel) (app : App) (orderly : IsOrderly app) where
  pub handle_close-Later : (st st' : Session) → handle_close k app st ≡ ok st' → Later st st'
  unfolding handle_close
  handle_close-Later (c, l) st' h =
      let (r, _, rest) = >>=-eq-ok (Events.disable_all k c.channel l) _ h in
      let (st₁, told, closed) = >>=-eq-ok (call_if c.has_connection app.on_connection _) _ rest in
      let first = call_if-Later app.on_connection orderly.connection c.has_connection _ st₁ told in
      let second = call_if-Later app.on_close orderly.close c.has_close st₁ st' closed in
      le_trans (rank_le (c.state)) (le_trans first second)

  after_read_fd-Later :
      (time : ℕ) (st st' : Session) (r : Reply)
      → after_read_fd k app time st r ≡ ok st'
      → Later st st'
  unfolding after_read_fd handle_error
  after_read_fd-Later time (c, l) st' (fails errno) h = ground arith
  after_read_fd-Later time (c, l) st' (returns n) h = ground (
    arith,
    call_if-Later (app.on_message time) (orderly.message time) c.has_message (c, l) st',
    handle_close-Later (c, l) st',
  )

  handle_read-Later :
      (time : ℕ) (st st' : Session) → handle_read k app time st ≡ ok st' → Later st st'
  unfolding handle_read
  handle_read-Later time (c, l) st' h =
      let (r, _, rest) = >>=-eq-ok (Buffer.read_fd k c.channel.fd l.calls c.input_buffer) _ h in
      after_read_fd-Later time _ st' r.2 rest

  announce_end-Later : (st st' : Session) → announce_end k app st ≡ ok st' → Later st st'
  unfolding announce_end
  announce_end-Later (c, l) st' h =
      let (r, _, rest) = >>=-eq-ok (Events.disable_all k c.channel l) _ h in
      le_trans (rank_le (c.state))
        (call_if-Later app.on_connection orderly.connection c.has_connection _ st' rest)

  remove_from_poller-Later :
      (st st' : Session) → remove_from_poller k app st ≡ ok st' → Later st st'
  unfolding remove_from_poller
  remove_from_poller-Later (c, l) st' h = ground arith

  announced-Later :
      (st st' : Session)
      → (if is_connected (st.0.state) then announce_end k app st else ok st) ≡ ok st'
      → Later st st'
  announced-Later st st' h = ground (arith, announce_end-Later st st')

  pub connection_destroyed-Later :
      (st st' : Session) → connection_destroyed k app st ≡ ok st' → Later st st'
  unfolding connection_destroyed
  connection_destroyed-Later (c, l) st' h =
      let (st₁, told, removed) =
        >>=-eq-ok (if is_connected c.state then announce_end k app (c, l) else ok (c, l)) _ h in
      le_trans (announced-Later (c, l) st₁ told) (remove_from_poller-Later st₁ st' removed)

  pub call_callback-Later :
      (tid time : ℕ) (x : Callback) (st st' : Session)
      → call_callback k app tid time x st ≡ ok st'
      → Later st st'
  unfolding call_callback handle_error
  call_callback-Later tid time read_callback st st' h = handle_read-Later time st st' h
  call_callback-Later tid time write_callback st st' h = handle_write-Later k tid st st' h
  call_callback-Later tid time close_callback st st' h = handle_close-Later st st' h
  call_callback-Later tid time error_callback (c, l) st' h = ground arith

  pub run_callbacks-Later :
      (tid time : ℕ) (xs : List Callback) (st st' : Session)
      → run_callbacks (call_callback k app tid time) xs st ≡ ok st'
      → Later st st'
  run_callbacks-Later tid time [] st st' h = ground arith
  run_callbacks-Later tid time (x ∷ xs) st st' h =
      let (st₁, ran, rest) = >>=-eq-ok (call_callback k app tid time x st) _ h in
      le_trans (call_callback-Later tid time x st st₁ ran)
        (run_callbacks-Later tid time xs st₁ st' rest)

  pub handle_event-Later :
      (tid time : ℕ) (alive : Bool) (st st' : Session)
      → handle_event k app tid time alive st ≡ ok st'
      → Later st st'
  unfolding handle_event
  handle_event-Later tid time alive (c, l) st' h =
      run_callbacks-Later tid time _ (c, l) st'
        (sym (handle_event-callbacks (call_callback k app tid time) alive c.channel (c, l)) ∙ h)

  pub run_task-Later :
      (tid : ℕ) (t : Task) (st st' : Session) → run_task k app tid t st ≡ ok st' → Later st st'
  unfolding run_task
  run_task-Later tid (sends address len) st st' h =
      let (message, _, sent) = >>=-eq-ok (app.memory address len) _ h in
      send_in_loop-Later k tid message st st' sent
  run_task-Later tid shuts_down st st' h = ground (arith, shutdown_in_loop-Later k tid st)
  run_task-Later tid write_completes st st' h = orderly.write_complete st st' h
  run_task-Later tid (high_water n) st st' h = orderly.high_water_mark n st st' h
