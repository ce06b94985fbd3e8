-- ===== src/TcpServer/Protocol/After.antt =====
-- After the destructor of the server: the requests that are left, and the connections that are live. The
-- server and its acceptor are gone; what the loops hold of them are raw pointers.
use moduo.Prelude.{Bool, true, false, List, ◌∷◌, ◌++◌, Outcome, ok, undefined, ◌>>=◌}
use moduo.TcpServer.{Handle, Task, listens, establishes, removes, destroys, Request, erase, destroy}
use moduo.TcpServer.Protocol.{World, task}

-- The requests that no loop has run yet, and the live connections.
abbrev pub Left : Type 0
Left = List Request × List Handle

-- What a functor does then: those that call a method of the server or of its acceptor are undefined.
-- `connectionDestroyed` ends also a connection that is live.
abbrev pub run_after : Task → List Handle → Outcome (List Handle)
run_after listens live = undefined
run_after (establishes conn) live = ok (conn ∷ live)
run_after (removes conn) live = undefined
run_after (destroys conn) live = ok (erase conn.name live)

-- A connection that closes calls `removeConnection`, which reads `loop_` of the server.
pub data AfterStep : Left → Outcome Left → Type 0 where
  runs_left :
      (later earlier : List Request) (r : Request) (live : List Handle)
      → AfterStep
          (later ++ r ∷ earlier, live)
          (run_after (task r) live >>= (λ live'. ok (later ++ earlier, live')))
  closes_left :
      (requests : List Request) (some_live others : List Handle) (conn : Handle)
      → AfterStep (requests, some_live ++ conn ∷ others) undefined

pub data AfterReach (s : Left) : Outcome Left → Type 0 where
  unchanged : AfterReach s (ok s)
  then_step : {t : Left} {u : Outcome Left} → AfterReach s (ok t) → AfterStep t u → AfterReach s u

-- What the destructor leaves.
abbrev pub left_by : World → Left
left_by w = ((destroy w.server).requests, w.live)

abbrev pub is_listening : Task → Bool
is_listening listens = true
is_listening _ = false
