-- ===== src/TcpServer/Named.antt =====
-- `newConnection` as a whole: the connection that it makes, and what the server keeps of it.
use moduo.Prelude.{ℕ, ◌≡◌, refl, ap, ◌∙◌, false, Option, none, some, [], ◌∷◌, ok, arith}
use moduo.InetAddress.{InetAddress}
use moduo.EventLoop.{EventLoop}
use moduo.TcpConnection.{Task}
use moduo.TcpConnection
use moduo.TcpServer.{
  Text, same, Handle, establishes, run_in_loop, ConnectionMap, find, erase, TcpServer,
  connection_name, new_connection, identify, make_connection, remove_connection_in_loop,
}
use moduo.TcpServer.Adding.{new_connection_adds, with_connection, find-with_connection, find-erase}

find-erase_self : (name : Text) (m : ConnectionMap) → find name (erase name m) ≡ none
unfolding find erase
find-erase_self name [] = refl
find-erase_self name (conn ∷ m) = ground (arith, find-erase_self name m)

-- Where `newConnection` returns: the map has the connection that it makes under the connection's own name,
-- with its descriptor, and has every other name as before; the loop in the entry is asked to establish
-- it; and `removeConnectionInLoop` of the entry takes that name out of the map and no other.
pub kept_under_its_name :
    (print : ℕ → Text) (local : Option InetAddress) (peer : InetAddress) (address sockfd : ℕ)
    (s t : TcpServer) (l : EventLoop Task)
    → new_connection print sockfd s ≡ ok t
    → let (c, _) = make_connection s (identify print local peer s) address sockfd l in
      let key = c.identity.name in
      (h : Handle) × (find key t.connections ≡ some h)
      × (h.name ≡ key)
      × (h.socket ≡ c.socket)
      × (t.requests ≡ run_in_loop h.loop (establishes h) ∷ s.requests)
      × ((other : Text)
          → same other key ≡ false
          → find other t.connections ≡ find other s.connections)
      × (find key (remove_connection_in_loop h t).connections ≡ none)
      × ((other : Text)
          → same other key ≡ false
          → find other (remove_connection_in_loop h t).connections ≡ find other s.connections)
unfolding make_connection identify TcpConnection.new TcpConnection.set_connection_callback
    TcpConnection.set_message_callback TcpConnection.set_write_complete_callback
    TcpConnection.set_close_callback remove_connection_in_loop
kept_under_its_name print local peer address sockfd s t l made =
    let (io_loop, p, _, same_server) = new_connection_adds print sockfd s t made in
    let key = connection_name print s s.next_conn_id in
    let added = with_connection print sockfd io_loop p s in
    let (found, others) = find-with_connection print sockfd io_loop p s in
    let h : Handle = record { name = key; loop = io_loop; socket = sockfd } in
    let there = λ (other : Text) (apart : same other key ≡ false).
      ap (λ (u : TcpServer). find other u.connections) same_server ∙ others other apart in
    (
      h,
      ap (λ (u : TcpServer). find key u.connections) same_server ∙ found,
      refl,
      refl,
      ap (λ (u : TcpServer). u.requests) same_server,
      there,
      find-erase_self key t.connections,
      λ other apart. find-erase other key t.connections apart ∙ there other apart,
    )
