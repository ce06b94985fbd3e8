-- ===== src/Examples/Maps.antt =====
-- A connection in the map of the server.
use moduo.Prelude.{◌≡◌, refl, [], ◌∷◌, ok, some, none, false}
use moduo.TcpServer.{
  Text, Handle, same, find, establishes, run_in_loop, identify, make_connection,
  remove_connection_in_loop, TcpServer, new_connection, connection_name, erase,
}
use moduo.EventLoopThreadPool
use moduo.EventLoopThreadPool.{get_next_loop}
use moduo.TcpServer.Adding.{with_connection}
use moduo.TcpServer.Named.{kept_under_its_name}
use moduo.InetAddress.{InetAddress}
use moduo.Examples.Loops.{loop}
use moduo.Examples.Servers.{print, fresh_server}

abbrev first : TcpServer
first = with_connection print 9 7 fresh_server.pool fresh_server

first_lem : new_connection print 9 fresh_server ≡ ok first
unfolding new_connection EventLoopThreadPool.new get_next_loop connection_name erase
first_lem = refl

-- The peer 1 at the port 5; getsockname fails.
abbrev peer : InetAddress
peer = record { sin_family = 2; sin_port = 5; sin_addr = 1 }

kept_under_its_name_example :
    let (c, _) =
      make_connection fresh_server (identify print none peer fresh_server) 40 9 (loop []) in
    let key = c.identity.name in
    (h : Handle) × (find key first.connections ≡ some h)
    × (h.name ≡ key)
    × (h.socket ≡ c.socket)
    × (first.requests ≡ run_in_loop h.loop (establishes h) ∷ fresh_server.requests)
    × ((other : Text)
        → same other key ≡ false
        → find other first.connections ≡ find other fresh_server.connections)
    × (find key (remove_connection_in_loop h first).connections ≡ none)
    × ((other : Text)
        → same other key ≡ false
        → find other (remove_connection_in_loop h first).connections
          ≡ find other fresh_server.connections)
kept_under_its_name_example =
    kept_under_its_name print none peer 40 9 fresh_server first (loop []) first_lem
