-- ===== src/TcpServer/Balance.antt =====
-- The accounts of the connections balance: what each operation does to them.
use moduo.Prelude.{
  PrintLaws, ℕ, ◌+◌, ◌^◌, ◌≤◌, ◌<◌, ◌≡◌, refl, Bool, Bool-cases, inl, inr, false, some, List, [],
  ◌∷◌, arith, length, ◌==◌,
}
use moduo.EventLoopThreadPool.{EventLoopThreadPool}
use moduo.TcpServer.{
  Text, same, Handle, Request, destroys, run_in_loop, ConnectionMap, find, TcpServer, constructed,
  set_thread_num, start, connection_name, remove_connection, remove_connection_in_loop, destroy_all,
}
use moduo.TcpServer.Accounts.{
  count, is_establishment, is_destruction, established, destroyed, listed, listed-erase,
  listed-find, same_eq,
}
use moduo.TcpServer.Names.{connection_name_injective}
use moduo.TcpServer.Adding.{with_connection}

-- Every connection established is in the map or destroyed, no name is established twice, and no name of
-- a number to come is established.
pub record IsBalanced (print : ℕ → Text) (s : TcpServer) : Type 0 where
  pub balance : (name : Text) → destroyed name s + listed name s.connections ≡ established name s
  pub once : (name : Text) → established name s ≤ 1
  pub fresh :
      (i : ℕ) → s.next_conn_id ≤ i → i < 2 ^ 31 → established (connection_name print s i) s ≡ 0
  pub in_range : s.next_conn_id < 2 ^ 31
  pub short : length s.ip_port ≤ 21

pub constructed-IsBalanced :
    (print : ℕ → Text) (memory loop : ℕ) (ip_port name : Text)
    → length ip_port ≤ 21
    → IsBalanced print (constructed memory loop ip_port name)
constructed-IsBalanced print memory loop ip_port name short = record {
  balance = λ name. refl;
  once = λ name. omega arith;
  fresh = λ i le lt. refl;
  in_range = omega arith;
  short = short;
}

pub set_thread_num-IsBalanced :
    (print : ℕ → Text) (n : ℕ) (s : TcpServer)
    → IsBalanced print s
    → IsBalanced print (set_thread_num n s)
unfolding set_thread_num connection_name
set_thread_num-IsBalanced print n s v = record {
  balance = v.balance;
  once = v.once;
  fresh = v.fresh;
  in_range = v.in_range;
  short = v.short;
}

pub remove_connection-IsBalanced :
    (print : ℕ → Text) (conn : Handle) (s : TcpServer)
    → IsBalanced print s
    → IsBalanced print (remove_connection conn s)
unfolding remove_connection connection_name
remove_connection-IsBalanced print conn s v = record {
  balance = v.balance;
  once = v.once;
  fresh = v.fresh;
  in_range = v.in_range;
  short = v.short;
}

-- Which callbacks are set does not matter.
pub callbacks-IsBalanced :
    (print : ℕ → Text) (connection message write_complete thread_init : Bool) (s : TcpServer)
    → IsBalanced print s
    → IsBalanced print (record s {
      has_connection = connection;
      has_message = message;
      has_write_complete = write_complete;
      has_thread_init = thread_init;
    })
unfolding connection_name
callbacks-IsBalanced print connection message write_complete thread_init s v = record {
  balance = v.balance;
  once = v.once;
  fresh = v.fresh;
  in_range = v.in_range;
  short = v.short;
}

-- The pool and `started` do not matter.
pub quiet-IsBalanced :
    (print : ℕ → Text) (p : EventLoopThreadPool) (n : ℕ) (s : TcpServer)
    → IsBalanced print s
    → IsBalanced print (record s { pool = p; started = n })
unfolding connection_name
quiet-IsBalanced print p n s v = record {
  balance = v.balance;
  once = v.once;
  fresh = v.fresh;
  in_range = v.in_range;
  short = v.short;
}

pub start-IsBalanced :
    (print : ℕ → Text) (start_loop : ℕ → ℕ) (s : TcpServer)
    → IsBalanced print s
    → IsBalanced print (start start_loop s)
unfolding start
start-IsBalanced print start_loop s v = elim (Bool-cases (s.started == 0)) [
  | inl first ↦ rw first (quiet-IsBalanced print _ _ s v)
  | inr again ↦ rw again (quiet-IsBalanced print s.pool _ s v)
]

pub remove_connection_in_loop-IsBalanced :
    (print : ℕ → Text) (conn : Handle) (s : TcpServer)
    → find conn.name s.connections ≡ some conn
    → IsBalanced print s
    → IsBalanced print (remove_connection_in_loop conn s)
unfolding remove_connection_in_loop connection_name
remove_connection_in_loop-IsBalanced print conn s e v = record {
  balance = λ name. ground (
    arith,
    v.balance name,
    v.once name,
    listed-erase name conn.name s.connections,
    listed-find conn.name s.connections conn e,
    same_eq name conn.name,
  );
  once = v.once;
  fresh = v.fresh;
  in_range = v.in_range;
  short = v.short;
}

pub later_name :
    (print : ℕ → Text) (s : TcpServer) (i : ℕ)
    → PrintLaws print
    → length s.ip_port ≤ 21
    → s.next_conn_id + 1 ≤ i
    → i < 2 ^ 31
    → same (connection_name print s i) (connection_name print s s.next_conn_id) ≡ false
later_name print s i laws short le lt = ground (
  arith,
  same_eq (connection_name print s i) (connection_name print s s.next_conn_id),
  connection_name_injective print s i s.next_conn_id laws short,
)

pub with_connection-IsBalanced :
    (print : ℕ → Text) (sockfd io_loop : ℕ) (p : EventLoopThreadPool) (s : TcpServer)
    → PrintLaws print
    → s.next_conn_id + 1 < 2 ^ 31
    → IsBalanced print s
    → IsBalanced print (with_connection print sockfd io_loop p s)
unfolding connection_name
with_connection-IsBalanced print sockfd io_loop p s laws small v =
    let key = connection_name print s s.next_conn_id in
    let none_yet = v.fresh s.next_conn_id (omega arith) (omega arith) in
    record {
      balance = λ name.
          ground (
            arith,
            v.balance name,
            listed-erase name key s.connections,
            none_yet,
            same_eq name key,
          );
      once = λ name. ground (arith, v.once name, none_yet, same_eq name key);
      fresh = λ i le lt. rw (later_name print s i laws v.short le lt) (v.fresh i (omega arith) lt);
      in_range = small;
      short = v.short;
    }

pub destroy_all_counts :
    (name : Text) (m : ConnectionMap) (rs : List Request)
    → (count (is_destruction name) (destroy_all m rs)
        ≡ listed name m + count (is_destruction name) rs)
      × (count (is_establishment name) (destroy_all m rs) ≡ count (is_establishment name) rs)
unfolding destroy_all
destroy_all_counts name [] rs = (omega arith, refl)
destroy_all_counts name (conn ∷ m) rs =
    let counts = destroy_all_counts name m (run_in_loop conn.loop (destroys conn) ∷ rs) in
    (ground (arith, counts), counts.1)
