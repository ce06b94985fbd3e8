-- ===== src/Examples/Protocols.antt =====
-- Requests in flight between the loops of a server.
use moduo.Prelude.{ℕ, ◌+◌, ◌≤◌, ◌≡◌, refl, Outcome, ok, [], ◌∷◌, arith, codes}
use moduo.EventLoopThreadPool.{get_next_loop}
use moduo.EventLoopThreadPool
use moduo.TcpServer.{
  destroy_all, Text, removes, destroys, run_in_loop, queue_in_loop, erase, connection_name,
  new_connection, remove_connection, remove_connection_in_loop, destroy,
}
use moduo.TcpServer.Accounts.{listed}
use moduo.TcpServer.Protocol.{
  World, at_start, Runs, none_yet, one_more, runs, Reach, here, next, accepts, loop_runs, closes,
}
use moduo.TcpServer.Protocol.Moves.{opening, removing, destroying}
use moduo.TcpServer.Protocol.Orders.{nothing_lost_in_any_order}
use moduo.TcpServer.Protocol.After.{Left, AfterReach, unchanged, then_step, runs_left, left_by}
use moduo.TcpServer.Protocol.Spent.{empty_server_leaves_nothing}
use moduo.TcpServer.Protocol.Settling.{settles}
use moduo.Examples.Addresses.{net, net-NetLaws}
use moduo.Examples.Servers.{
  print, print-PrintLaws, fresh_server, fresh_server_lem, conn, one_connection,
}

-- The connection is made; live; closed, with its removal in flight; and removed, with its destruction in
-- flight.
abbrev accepted : World
accepted = record { server = one_connection; live = []; finished = []; made = conn ∷ [] }

abbrev opened : World
opened = record accepted { server = record one_connection { requests = [] }; live = conn ∷ [] }

abbrev closed : World
closed = record accepted {
  server = record one_connection { requests = run_in_loop 7 (removes conn) ∷ [] };
}

abbrev removed : World
removed = record accepted {
  server = record one_connection {
    connections = [];
    requests = queue_in_loop 7 (destroys conn) ∷ [];
  };
}

removed_from_closed : Runs closed 1 removed
unfolding remove_connection_in_loop erase
removed_from_closed = one_more (runs closed [] [] (run_in_loop 7 (removes conn)) refl) none_yet

closed_reached : Reach print (λ i. i) (at_start fresh_server) closed
unfolding new_connection connection_name get_next_loop EventLoopThreadPool.new erase
    remove_connection
closed_reached =
    next
      (next (next here (accepts (at_start fresh_server) one_connection 9 conn refl refl))
        (loop_runs (runs accepted [] [] _ refl)))
      (closes opened [] [] conn refl)

nothing_lost_in_any_order_example :
    (listed conn.name (conn ∷ []) ≤ 1)
    × (listed conn.name (conn ∷ []) ≡ opening conn.name closed + 0 + removing conn.name closed)
    × (listed conn.name (conn ∷ []) + destroying conn.name closed + 0
        ≡ listed conn.name (conn ∷ []))
    × (destroying conn.name (record closed { server = destroy closed.server }) + 0
        ≡ listed conn.name (conn ∷ []))
nothing_lost_in_any_order_example =
    nothing_lost_in_any_order print (λ i. i) net 0 7 8 (codes "1.0.0.127") (101 ∷ []) fresh_server
      closed print-PrintLaws net-NetLaws (omega arith) fresh_server_lem closed_reached conn.name

settles_example :
    (m : ℕ) × (u : World) × Runs removed m u
    × (1 + m ≡ 2)
    × (u.server.requests ≡ [])
    × ((key : Text)
        → (listed key u.server.connections ≡ listed key u.live)
          × (listed key u.live + listed key u.finished ≡ listed key (conn ∷ [])))
settles_example =
    settles print (λ i. i) net 0 7 8 (codes "1.0.0.127") (101 ∷ []) fresh_server closed removed 1
      print-PrintLaws net-NetLaws (omega arith) fresh_server_lem closed_reached removed_from_closed

removed_reached : Reach print (λ i. i) (at_start fresh_server) removed
unfolding remove_connection_in_loop erase
removed_reached =
    next closed_reached (loop_runs (runs closed [] [] (run_in_loop 7 (removes conn)) refl))

-- The last request is run after the destructor.
removed_after : AfterReach (left_by removed) (ok ([], []))
unfolding destroy destroy_all erase
removed_after = then_step unchanged (runs_left [] [] (queue_in_loop 7 (destroys conn)) [])

empty_server_leaves_nothing_example :
    (t : Left) × (◌≡◌ {A = Outcome Left} (ok ([], [])) (ok t)) × (t.1 ≡ [])
empty_server_leaves_nothing_example =
    empty_server_leaves_nothing print (λ i. i) net 0 7 8 (codes "1.0.0.127") (101 ∷ []) fresh_server
      removed (ok ([], [])) print-PrintLaws net-NetLaws (omega arith) fresh_server_lem
      removed_reached refl refl removed_after
