-- ===== src/TcpServer/Steps.antt =====
-- What can happen to a server, and that each connection it established is destroyed once.
use moduo.Prelude.{
  PrintLaws, ℕ, ◌+◌, ◌^◌, ◌≤◌, ◌<◌, ◌≡◌, ◌≢◌, refl, sym, subst, inl, Bool, false, some, ◌∷◌, ◌∙◌,
  ok, >>=-eq-ok, arith, length, length-append, lt→ltb,
}
use moduo.InetAddress.{Net, InetAddress, to_ip_port}
use moduo.InetAddress
use moduo.InetAddress.Printing.{NetLaws, to_ip_port_lem}
use moduo.EventLoopThreadPool
use moduo.EventLoopThreadPool.{start_loops, EventLoopThreadPool, get_next_loop}
use moduo.TcpServer.{
  Text, same, Handle, establishes, run_in_loop, find, TcpServer, constructed, new,
  set_thread_init_callback, set_connection_callback, set_message_callback,
  set_write_complete_callback, set_thread_num, start, connection_name, new_connection,
  remove_connection, remove_connection_in_loop, destroy,
}
use moduo.TcpServer.Accounts.{established, destroyed, same_eq}
use moduo.TcpServer.Adding.{
  new_connection_adds, with_connection, InRange, get_next_loop-InRange, find-with_connection,
}
use moduo.TcpServer.Balance.{
  IsBalanced, constructed-IsBalanced, callbacks-IsBalanced, set_thread_num-IsBalanced,
  remove_connection-IsBalanced, start-IsBalanced, remove_connection_in_loop-IsBalanced,
  with_connection-IsBalanced, destroy_all_counts,
}

-- A removal is of a connection that the map holds: the close callback of a connection is called once.
module _ (print : ℕ → Text) (start_loop : ℕ → ℕ) where
  pub data Step : TcpServer → TcpServer → Type 0 where
    sets_threads : (s : TcpServer) (n : ℕ) → Step s (set_thread_num n s)
    sets_thread_init : (s : TcpServer) (b : Bool) → Step s (set_thread_init_callback b s)
    sets_connection : (s : TcpServer) (b : Bool) → Step s (set_connection_callback b s)
    sets_message : (s : TcpServer) (b : Bool) → Step s (set_message_callback b s)
    sets_write_complete : (s : TcpServer) (b : Bool) → Step s (set_write_complete_callback b s)
    starts : (s : TcpServer) → Step s (start start_loop s)
    accepts : (s t : TcpServer) (sockfd : ℕ) → new_connection print sockfd s ≡ ok t → Step s t
    closes : (s : TcpServer) (conn : Handle) → Step s (remove_connection conn s)
    removes_listed :
        (s : TcpServer) (conn : Handle)
        → find conn.name s.connections ≡ some conn
        → Step s (remove_connection_in_loop conn s)

  pub data Reach (s : TcpServer) : TcpServer → Type 0 where
    here : Reach s s
    next : {t u : TcpServer} → Reach s t → Step t u → Reach s u

Step-IsBalanced :
    {print : ℕ → Text} {start_loop : ℕ → ℕ} {s t : TcpServer}
    → PrintLaws print
    → Step print start_loop s t
    → IsBalanced print s
    → IsBalanced print t
unfolding set_thread_init_callback set_connection_callback set_message_callback
    set_write_complete_callback
Step-IsBalanced {print} laws (sets_threads s n) v = set_thread_num-IsBalanced print n s v
Step-IsBalanced {print} laws (sets_thread_init s b) v = callbacks-IsBalanced print _ _ _ _ s v
Step-IsBalanced {print} laws (sets_connection s b) v = callbacks-IsBalanced print _ _ _ _ s v
Step-IsBalanced {print} laws (sets_message s b) v = callbacks-IsBalanced print _ _ _ _ s v
Step-IsBalanced {print} laws (sets_write_complete s b) v = callbacks-IsBalanced print _ _ _ _ s v
Step-IsBalanced {print} {start_loop} laws (starts s) v = start-IsBalanced print start_loop s v
Step-IsBalanced {print} laws (accepts s t sockfd e) v =
    let (io_loop, p, small, same_server) = new_connection_adds print sockfd s t e in
    subst (IsBalanced print) (sym same_server)
      (with_connection-IsBalanced print sockfd io_loop p s laws small v)
Step-IsBalanced {print} laws (closes s conn) v = remove_connection-IsBalanced print conn s v
Step-IsBalanced {print} laws (removes_listed s conn e) v =
    remove_connection_in_loop-IsBalanced print conn s e v

Reach-IsBalanced :
    {print : ℕ → Text} {start_loop : ℕ → ℕ} {s t : TcpServer}
    → PrintLaws print
    → Reach print start_loop s t
    → IsBalanced print s
    → IsBalanced print t
Reach-IsBalanced laws here v = v
Reach-IsBalanced laws (next r st) v = Step-IsBalanced laws st (Reach-IsBalanced laws r v)

-- A server that is made has its address printed.
pub new_lem :
    (net : Net) (memory loop : ℕ) (address : InetAddress) (name : Text) (s : TcpServer)
    → new net memory (some loop) address name ≡ ok s
    → (ip_port : Text) × (to_ip_port net address ≡ ok ip_port)
      × (s ≡ constructed memory loop ip_port name)
unfolding new
new_lem net memory loop address name s made =
    let (ip_port, printed, e) = >>=-eq-ok (to_ip_port net address) _ made in
    (ip_port, printed, cc e)

pub new-IsBalanced :
    (print : ℕ → Text) (net : Net) (memory loop port : ℕ) (ip name : Text) (s : TcpServer)
    → NetLaws net
    → port < 2 ^ 16
    → new net memory (some loop) (InetAddress.new net port ip) name ≡ ok s
    → IsBalanced print s
new-IsBalanced print net memory loop port ip name s laws small made =
    let (_, _, printed, short) = to_ip_port_lem net port ip laws small in
    let (ip_port, printed', e) =
      new_lem net memory loop (InetAddress.new net port ip) name s made in
    subst (IsBalanced print) (sym e) (
      constructed-IsBalanced print memory loop ip_port name
        (subst (λ text. length text ≤ 21) (ok-injective (sym printed ∙ printed')) short))
  where
    ok-injective : {xs ys : Text} → ok xs ≡ ok ys → xs ≡ ys
    ok-injective e = cc e

-- Where `%d` prints different numbers differently and in at most 10 characters, whatever a server that is
-- made at an address with a 16-bit port does and is told until it is destroyed, if each removal is of a
-- connection that it still has: `connectionDestroyed` is asked for as often for a name as
-- `connectionEstablished`, which is at most once, counting what the destructor asks for.
pub destroyed_as_established :
    (print : ℕ → Text) (start_loop : ℕ → ℕ) (net : Net) (memory loop port : ℕ) (ip name : Text)
    (s t : TcpServer)
    → PrintLaws print
    → NetLaws net
    → port < 2 ^ 16
    → new net memory (some loop) (InetAddress.new net port ip) name ≡ ok s
    → Reach print start_loop s t
    → (key : Text)
    → (destroyed key (destroy t) ≡ established key (destroy t)) × (established key (destroy t) ≤ 1)
unfolding destroy
destroyed_as_established print start_loop net memory loop port ip name s t laws net_laws small made
      r key =
    let v =
      Reach-IsBalanced laws r
        (new-IsBalanced print net memory loop port ip name s net_laws small made) in
    let counts = destroy_all_counts key t.connections t.requests in
    (ground (arith, counts, v.balance key), ground (arith, counts, v.once key))

not_same : (xs ys : Text) → xs ≢ ys → same xs ys ≡ false
not_same xs ys differs = ground (arith, same_eq xs ys)

start-InRange :
    (start_loop : ℕ → ℕ) (s : TcpServer) → InRange s.pool → InRange (start start_loop s).pool
unfolding start EventLoopThreadPool.start
start-InRange start_loop s v =
    let more = length-append s.pool.loops (start_loops start_loop 0 s.pool.num_threads) in
    ground (arith, more)

Step-InRange :
    {print : ℕ → Text} {start_loop : ℕ → ℕ} {s t : TcpServer}
    → Step print start_loop s t
    → InRange s.pool
    → InRange t.pool
unfolding set_thread_num EventLoopThreadPool.set_thread_num remove_connection
    remove_connection_in_loop new_connection set_thread_init_callback set_connection_callback
    set_message_callback set_write_complete_callback
Step-InRange (sets_threads s n) v = v
Step-InRange (sets_thread_init s b) v = v
Step-InRange (sets_connection s b) v = v
Step-InRange (sets_message s b) v = v
Step-InRange (sets_write_complete s b) v = v
Step-InRange {start_loop} (starts s) v = start-InRange start_loop s v
Step-InRange (accepts s t sockfd e) v = ground (arith, get_next_loop-InRange s.pool v)
Step-InRange (closes s conn) v = v
Step-InRange (removes_listed s conn e) v = v

Reach-InRange :
    {print : ℕ → Text} {start_loop : ℕ → ℕ} {s t : TcpServer}
    → Reach print start_loop s t
    → InRange s.pool
    → InRange t.pool
Reach-InRange here v = v
Reach-InRange (next r st) v = Step-InRange st (Reach-InRange r v)

new-InRange :
    (net : Net) (memory loop : ℕ) (address : InetAddress) (name : Text) (s : TcpServer)
    → new net memory (some loop) address name ≡ ok s
    → InRange s.pool
unfolding EventLoopThreadPool.new
new-InRange net memory loop address name s made =
    let (_, _, e) = new_lem net memory loop address name s made in
    subst (λ (u : TcpServer). InRange u.pool) (sym e) (inl refl)

-- A server that came from a new one by any operations takes a connection, if its number is not the last
-- int: `newConnection` returns, the map has the connection under its name, with the descriptor given and
-- the loop that is asked to establish it, and every other name is found as before.
pub new_connection_total :
    (print : ℕ → Text) (start_loop : ℕ → ℕ) (net : Net) (memory loop : ℕ) (address : InetAddress)
    (name : Text) (s t : TcpServer) (sockfd : ℕ)
    → new net memory (some loop) address name ≡ ok s
    → Reach print start_loop s t
    → t.next_conn_id + 1 < 2 ^ 31
    → (io_loop : ℕ) × (u : TcpServer) × (new_connection print sockfd t ≡ ok u)
      × (let key = connection_name print t t.next_conn_id in
          let conn : Handle = record { name = key; loop = io_loop; socket = sockfd } in
          (find key u.connections ≡ some conn)
          × (u.requests ≡ run_in_loop io_loop (establishes conn) ∷ t.requests)
          × ((other : Text) → other ≢ key → find other u.connections ≡ find other t.connections))
unfolding new_connection
new_connection_total print start_loop net memory loop address name s t sockfd made r small =
    let (io_loop, p, e, _) =
      get_next_loop-InRange t.pool
        (Reach-InRange r (new-InRange net memory loop address name s made)) in
    let (found, others) = find-with_connection print sockfd io_loop p t in
    (
      io_loop,
      with_connection print sockfd io_loop p t,
      rw e (rw (lt→ltb (t.next_conn_id + 1) (2 ^ 31) small) refl),
      (found, refl, λ other differs. others other (not_same other _ differs)),
    )
