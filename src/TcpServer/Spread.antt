-- ===== src/TcpServer/Spread.antt =====
-- How the connections that a server accepts are numbered and spread over the loops.
use Prim.Native.Nat.add
use native.Mathlib.Nat.{mod-add-mod, mod-lt, mod-eq_of_lt}
use moduo.Prelude.{
  ℕ, suc, ◌+◌, ◌%◌, ◌^◌, ◌<◌, ◌≡◌, refl, sym, ap, ap₂, ◌∙◌, some, List, [], ◌∷◌, ◌++◌, Outcome, ok,
  ◌>>=◌, arith, length, take, lt→ltb, get_elem?,
}
use moduo.EventLoopThreadPool
use moduo.EventLoopThreadPool.{EventLoopThreadPool, start_loops, get_next_loop}
use moduo.EventLoopThreadPool.RoundRobin.{
  length-start_loops, get_elem?-start_loops, get_next_loop_lem,
}
use moduo.TcpServer.{
  Text, Handle, Request, establishes, run_in_loop, TcpServer, constructed, set_thread_num, start,
  connection_name, new_connection,
}
use moduo.TcpServer.Adding.{with_connection}

-- Calls of `newConnection`, for one descriptor after the other.
unfoldable pub accept_all : (print : ℕ → Text) → List ℕ → TcpServer → Outcome TcpServer
accept_all print [] s = ok s
accept_all print (sockfd ∷ rest) s =
    new_connection print sockfd s >>= (λ t. accept_all print rest t)

module _ (print : ℕ → Text) (start_loop : ℕ → ℕ) (m : ℕ) (ip_port name : Text) where
  -- The connection that is the `i`-th, counted from 0, on `m + 1` loops.
  abbrev pub handle_at : ℕ → ℕ → Handle
  handle_at i sockfd = record {
    name = name ++ take 63 (45 ∷ ip_port ++ 35 ∷ print (i + 1));
    loop = start_loop (i % suc m);
    socket = sockfd;
  }

  -- The requests to establish them, from the `i`-th on, the latest first, before `requests`.
  abbrev pub with_establishments : ℕ → List ℕ → List Request → List Request
  with_establishments i [] requests = requests
  with_establishments i (sockfd ∷ rest) requests =
      let conn = handle_at i sockfd in
      with_establishments (i + 1) rest (run_in_loop conn.loop (establishes conn) ∷ requests)

  -- A server with `i` connections made.
  pub record IsAt (i : ℕ) (s : TcpServer) : Type 0 where
    pub loops : s.pool.loops ≡ start_loops start_loop 0 (suc m)
    pub turn : s.pool.next ≡ i % suc m
    pub counted : s.next_conn_id ≡ i + 1
    pub same_name : s.name ≡ name
    pub same_ip_port : s.ip_port ≡ ip_port

  size : (i : ℕ) (s : TcpServer) → IsAt i s → length s.pool.loops ≡ suc m
  size i s v = ap length v.loops ∙ length-start_loops start_loop 0 (suc m)

  in_range : (i : ℕ) (s : TcpServer) → IsAt i s → s.pool.next < length s.pool.loops
  in_range i s v = rw (size i s v, v.turn) (mod-lt i (omega arith))

  next_loop :
      (i : ℕ) (s : TcpServer)
      → IsAt i s
      → get_next_loop s.pool
        ≡ ok (
          start_loop (i % suc m),
          record (s.pool) { next = (s.pool.next + 1) % length s.pool.loops },
        )
  next_loop i s v = get_next_loop_lem s.pool (start_loop (i % suc m)) (in_range i s v) (
      ap₂ get_elem? v.loops v.turn
      ∙ get_elem?-start_loops start_loop 0 (suc m) (i % suc m) (mod-lt i (omega arith))
      ∙ ap (λ j. some (start_loop j)) (add.zero (i % suc m)))

  next_turn :
      (i : ℕ) (s : TcpServer) → IsAt i s → (s.pool.next + 1) % length s.pool.loops ≡ (i + 1) % suc m
  next_turn i s v = rw (size i s v, v.turn) (mod-add-mod i (suc m) 1)

  -- The server once one more connection is made.
  stepped : (sockfd i : ℕ) → TcpServer → TcpServer
  stepped sockfd i s =
      with_connection print sockfd (start_loop (i % suc m))
        (record (s.pool) { next = (s.pool.next + 1) % length s.pool.loops }) s

  new_connection_lem :
      (sockfd i : ℕ) (s : TcpServer)
      → IsAt i s
      → i + 2 < 2 ^ 31
      → new_connection print sockfd s ≡ ok (stepped sockfd i s)
  unfolding new_connection stepped
  new_connection_lem sockfd i s v small =
      rw (next_loop i s v)
        (rw (lt→ltb (s.next_conn_id + 1) (2 ^ 31) (omega (arith, v.counted))) refl)

  stepped-IsAt : (sockfd i : ℕ) (s : TcpServer) → IsAt i s → IsAt (i + 1) (stepped sockfd i s)
  unfolding stepped
  stepped-IsAt sockfd i s v = record {
    loops = v.loops;
    turn = next_turn i s v;
    counted = ap (λ j. j + 1) v.counted;
    same_name = v.same_name;
    same_ip_port = v.same_ip_port;
  }

  requests-stepped :
      (sockfd i : ℕ) (s : TcpServer)
      → IsAt i s
      → (stepped sockfd i s).requests
        ≡ run_in_loop (start_loop (i % suc m)) (establishes (handle_at i sockfd)) ∷ s.requests
  unfolding stepped connection_name
  requests-stepped sockfd i s v = rw (v.same_name, v.same_ip_port, v.counted) refl

  pub accept_all_from :
      (sockfds : List ℕ) (i : ℕ) (s : TcpServer)
      → IsAt i s
      → i + length sockfds + 1 < 2 ^ 31
      → (t : TcpServer) × (accept_all print sockfds s ≡ ok t)
        × (t.requests ≡ with_establishments i sockfds s.requests)
  unfolding accept_all
  accept_all_from [] i s v small = (s, refl, refl)
  accept_all_from (sockfd ∷ rest) i s v small =
      let (t, accepted, asked) =
        accept_all_from rest (i + 1) (stepped sockfd i s) (stepped-IsAt sockfd i s v)
          (omega arith) in
      (
        t,
        rw (new_connection_lem sockfd i s v (omega arith)) accepted,
        asked ∙ ap (with_establishments (i + 1) rest) (requests-stepped sockfd i s v),
      )

-- A server whose memory held 0 for `started_`, with `m + 1` threads and started, takes any number of
-- connections below the last int: each call of `newConnection` returns; the `i`-th connection, counted
-- from 0, is named after the number `i + 1`; and the loop of the thread `i % (m + 1)` is asked to
-- establish it, the requests in the order of the calls.
pub accept_all_lem :
    (print : ℕ → Text) (start_loop : ℕ → ℕ) (loop m : ℕ) (ip_port name : Text) (sockfds : List ℕ)
    → length sockfds + 1 < 2 ^ 31
    → let s = start start_loop (set_thread_num (suc m) (constructed 0 loop ip_port name)) in
      (t : TcpServer) × (accept_all print sockfds s ≡ ok t)
      × (t.requests ≡ with_establishments print start_loop m ip_port name 0 sockfds s.requests)
unfolding start set_thread_num EventLoopThreadPool.new EventLoopThreadPool.set_thread_num
    EventLoopThreadPool.start
accept_all_lem print start_loop loop m ip_port name sockfds small =
    accept_all_from print start_loop m ip_port name sockfds 0
      (start start_loop (set_thread_num (suc m) (constructed 0 loop ip_port name)))
      (record {
        loops = refl;
        turn = sym (mod-eq_of_lt (omega arith));
        counted = refl;
        same_name = refl;
        same_ip_port = refl;
      })
      (omega arith)
