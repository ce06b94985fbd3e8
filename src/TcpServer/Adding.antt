-- ===== src/TcpServer/Adding.antt =====
-- `newConnection`: the connection that it adds, and the others.
use moduo.Prelude.{
  ℕ, ◌⊎◌, ◌+◌, ◌^◌, ◌<◌, ◌≡◌, refl, Bool-cases, inl, inr, false, some, List, [], ◌∷◌, ok, arith,
  length, >>=-eq-ok,
}
use moduo.EventLoopThreadPool.{EventLoopThreadPool, get_next_loop, is_empty, wrap}
use moduo.EventLoopThreadPool.RoundRobin.{get_elem?-some}
use moduo.TcpServer.{
  Text, same, Handle, establishes, run_in_loop, ConnectionMap, find, erase, TcpServer,
  connection_name, new_connection,
}
use moduo.TcpServer.Accounts.{same_refl, same_eq}

-- The server once a connection of the loop `io_loop` is added.
abbrev pub with_connection : (ℕ → Text) → ℕ → ℕ → EventLoopThreadPool → TcpServer → TcpServer
with_connection print sockfd io_loop p s =
    let conn : Handle = record {
      name = connection_name print s s.next_conn_id;
      loop = io_loop;
      socket = sockfd;
    } in
    record s {
      pool = p;
      next_conn_id = s.next_conn_id + 1;
      connections = conn ∷ erase conn.name s.connections;
      requests = run_in_loop io_loop (establishes conn) ∷ s.requests;
    }

pub new_connection_adds :
    (print : ℕ → Text) (sockfd : ℕ) (s t : TcpServer)
    → new_connection print sockfd s ≡ ok t
    → (io_loop : ℕ) × (p : EventLoopThreadPool) × (s.next_conn_id + 1 < 2 ^ 31)
      × (t ≡ with_connection print sockfd io_loop p s)
unfolding new_connection
new_connection_adds print sockfd s t e =
    let (r, _, e') = >>=-eq-ok (get_next_loop s.pool) _ e in (r.0, r.1, ground arith, ground arith)

-- The index of the next loop is in range, or at the start.
abbrev pub InRange : EventLoopThreadPool → Type 0
InRange p = (p.next ≡ 0) ⊎ (p.next < length p.loops)

length_positive : (xs : List ℕ) → is_empty xs ≡ false → 0 < length xs
length_positive [] e = cc
length_positive (x ∷ xs) e = omega arith

pub get_next_loop-InRange :
    (p : EventLoopThreadPool)
    → InRange p
    → (io_loop : ℕ) × (p' : EventLoopThreadPool) × (get_next_loop p ≡ ok (io_loop, p')) × InRange p'
unfolding get_next_loop
get_next_loop-InRange p v = elim (Bool-cases (is_empty p.loops)) [
  | inl e ↦ (p.base_loop, p, rw e refl, v)
  | inr e ↦
      let (io_loop, found) =
        get_elem?-some p.loops p.next (ground (arith, length_positive p.loops e)) in
      (
        io_loop,
        record p { next = wrap (length p.loops) (p.next + 1) },
        rw e (rw found refl),
        ground arith,
      )
]

pub find-erase :
    (name key : Text) (m : ConnectionMap)
    → same name key ≡ false
    → find name (erase key m) ≡ find name m
unfolding find erase
find-erase name key [] h = refl
find-erase name key (conn ∷ m) h = ground (
  arith,
  find-erase name key m h,
  same_eq name conn.name,
  same_eq key conn.name,
  same_refl conn.name,
)

pub find-with_connection :
    (print : ℕ → Text) (sockfd io_loop : ℕ) (p : EventLoopThreadPool) (s : TcpServer)
    → let key = connection_name print s s.next_conn_id in
      let t = with_connection print sockfd io_loop p s in
      (find key t.connections ≡ some (record { name = key; loop = io_loop; socket = sockfd }))
      × ((other : Text)
          → same other key ≡ false
          → find other t.connections ≡ find other s.connections)
unfolding find
find-with_connection print sockfd io_loop p s =
    let key = connection_name print s s.next_conn_id in
    (rw (same_refl key) refl, λ other h. rw h (find-erase other key s.connections h))
