-- ===== src/TcpServer/Protocol.antt =====
-- src/TcpServer.cc with the loops that run what it asks for: the requests in flight between the base loop
-- and the loops of the threads, run in any order, and the connections that they establish, remove and
-- destroy.
pub mod Moves
pub mod Quiet
pub mod Conserved
pub mod Orders
pub mod Settling
pub mod After
pub mod Spent
use moduo.Prelude.{ℕ, suc, Bool, ◌≡◌, List, [], ◌∷◌, ◌++◌, ok}
use moduo.TcpServer.{
  Text, Handle, Task, listens, establishes, removes, destroys, Request, run_in_loop, queue_in_loop,
  TcpServer, set_thread_num, start, new_connection, remove_connection, remove_connection_in_loop,
  set_thread_init_callback, set_connection_callback, set_message_callback,
  set_write_complete_callback,
}

-- `server.requests` are those that no loop has run yet. `live` are the connections that
-- `connectionEstablished` has opened and that have not called their close callback; `finished` those that
-- `connectionDestroyed` has ended; `made` all that `newConnection` has made.
pub record World : Type 0 where
  pub server : TcpServer
  pub live : List Handle
  pub finished : List Handle
  pub made : List Handle

-- A server of which nothing has happened.
abbrev pub at_start : TcpServer → World
at_start s = record { server = s; live = []; finished = []; made = [] }

-- What a functor does when its loop runs it.
abbrev pub run_functor : Task → World → World
run_functor listens w = w
run_functor (establishes conn) w = record w { live = conn ∷ w.live }
run_functor (removes conn) w = record w { server = remove_connection_in_loop conn w.server }
run_functor (destroys conn) w = record w { finished = conn ∷ w.finished }

abbrev pub task : Request → Task
task (run_in_loop loop t) = t
task (queue_in_loop loop t) = t

-- A loop runs one of the requests, whichever. `runInLoop` in the loop's own thread runs its functor at once,
-- and a loop keeps the order of its queue: each order of the code is one of these, and there are others.
pub data Run : World → World → Type 0 where
  runs :
      (w : World) (later earlier : List Request) (r : Request)
      → w.server.requests ≡ later ++ r ∷ earlier
      → Run w (
          run_functor
            (task r)
            (record w { server = record (w.server) { requests = later ++ earlier } }))

-- A number of runs.
pub data Runs : World → ℕ → World → Type 0 where
  none_yet : {w : World} → Runs w 0 w
  one_more : {n : ℕ} {u v w : World} → Run w u → Runs u n v → Runs w (suc n) v

-- `handleClose` calls the close callback, which is `removeConnection`, once on an open connection.
module _ (print : ℕ → Text) (start_loop : ℕ → ℕ) where
  pub data Step : World → World → Type 0 where
    sets_threads : (w : World) (n : ℕ) → Step w (record w { server = set_thread_num n w.server })
    sets_callbacks :
        (w : World) (connection message write_complete thread_init : Bool)
        → Step w (record w {
          server = set_thread_init_callback thread_init (
              set_write_complete_callback write_complete
                (set_message_callback message (set_connection_callback connection w.server)));
        })
    starts : (w : World) → Step w (record w { server = start start_loop w.server })
    accepts :
        (w : World) (t : TcpServer) (sockfd : ℕ) (conn : Handle)
        → new_connection print sockfd w.server ≡ ok t
        → t.requests ≡ run_in_loop conn.loop (establishes conn) ∷ w.server.requests
        → Step w (record w { server = t; made = conn ∷ w.made })
    loop_runs : {w v : World} → Run w v → Step w v
    closes :
        (w : World) (some_live others : List Handle) (conn : Handle)
        → w.live ≡ some_live ++ conn ∷ others
        → Step w (record w { server = remove_connection conn w.server; live = some_live ++ others })

  pub data Reach (w : World) : World → Type 0 where
    here : Reach w w
    next : {u v : World} → Reach w u → Step u v → Reach w v
