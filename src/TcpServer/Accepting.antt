-- ===== src/TcpServer/Accepting.antt =====
-- The acceptor's events and the connections that the server makes of them.
use moduo.Prelude.{
  ℕ, zero, suc, ◌+◌, ◌^◌, ◌≤◌, ◌<◌, ◌≡◌, refl, ap, ◌∙◌, true, List, [], ◌∷◌, Outcome, ok, exits,
  undefined, ◌>>=◌, arith, length,
}
use moduo.Os.{Kernel, Calls, Reply, accept, returns, fails}
use moduo.Socket
use moduo.EventLoop.{EventLoop}
use moduo.InetAddress.{InetAddress}
use moduo.Acceptor.{Acceptor}
use moduo.Acceptor
use moduo.TcpServer.{Text, TcpServer, Task, constructed, set_thread_num, start, new_connection}
use moduo.TcpServer.Spread.{accept_all, with_establishments, accept_all_lem}

-- `newConnection`, as the acceptor calls it. The peer's address goes into the connection alone, which is
-- `make_connection`.
unfoldable pub on_new_connection :
    (print : ℕ → Text)
    → ℕ
    → (peer : InetAddress) → TcpServer × EventLoop Task
    → Outcome (TcpServer × EventLoop Task)
on_new_connection print sockfd peer (s, l) = do t ← new_connection print sockfd s; ok (t, l)

-- A number of events of the acceptor's channel.
unfoldable pub accept_rounds :
    Kernel
    → (print : ℕ → Text) → (unset : InetAddress) → Acceptor
    → ℕ
    → TcpServer × EventLoop Task
    → Outcome (TcpServer × EventLoop Task)
accept_rounds k print unset a zero st = ok st
accept_rounds k print unset a (suc n) st =
    Acceptor.handle_read k unset (on_new_connection print) a st >>= accept_rounds k print unset a n

-- The calls of `accept`, and the descriptors that they give.
abbrev pub accepting : ℕ → ℕ → Calls → Calls
accepting fd zero calls = calls
accepting fd (suc n) calls = accepting fd n (accept fd ∷ calls)

abbrev pub given : Reply → List ℕ → List ℕ
given (returns sockfd) sockfds = sockfd ∷ sockfds
given (fails errno) sockfds = sockfds

abbrev pub accepted : Kernel → ℕ → ℕ → Calls → List ℕ
accepted k fd zero calls = []
accepted k fd (suc n) calls =
    given (k.reply calls (accept fd)) (accepted k fd n (accept fd ∷ calls))

pub length-accepted : (k : Kernel) (fd n : ℕ) (calls : Calls) → length (accepted k fd n calls) ≤ n
length-accepted k fd zero calls = omega arith
length-accepted k fd (suc n) calls = ground (arith, length-accepted k fd n (accept fd ∷ calls))

-- The loop after one more call of `accept`.
abbrev once : Acceptor → EventLoop Task → EventLoop Task
once a l = record l { calls = accept a.accept_socket ∷ l.calls }

one_fails :
    (k : Kernel) (print : ℕ → Text) (unset : InetAddress) (a : Acceptor) (s : TcpServer)
    (l : EventLoop Task) (errno : ℕ)
    → k.reply l.calls (accept a.accept_socket) ≡ fails errno
    → Acceptor.handle_read k unset (on_new_connection print) a (s, l) ≡ ok (s, once a l)
unfolding Acceptor.handle_read Socket.accept
one_fails k print unset a s l errno e = rw e refl

one_comes :
    (k : Kernel) (print : ℕ → Text) (unset : InetAddress) (a : Acceptor) (s : TcpServer)
    (l : EventLoop Task) (sockfd : ℕ)
    → a.has_new_connection ≡ true
    → k.reply l.calls (accept a.accept_socket) ≡ returns sockfd
    → Acceptor.handle_read k unset (on_new_connection print) a (s, l)
      ≡ (new_connection print sockfd s >>= (λ t. ok (t, once a l)))
unfolding Acceptor.handle_read Socket.accept on_new_connection
one_comes k print unset a s l sockfd set e = rw (e, set) refl

-- What follows a connection, whether it is made or not.
after_one :
    (m : Outcome TcpServer) (l : EventLoop Task)
    (rest finish : TcpServer × EventLoop Task → Outcome (TcpServer × EventLoop Task))
    (others : TcpServer → Outcome TcpServer)
    → ((t : TcpServer) → rest (t, l) ≡ (others t >>= (λ u. finish (u, l))))
    → (m >>= (λ t. ok (t, l)) >>= rest) ≡ (m >>= others >>= (λ u. finish (u, l)))
after_one (ok t) l rest finish others h = h t
after_one exits l rest finish others h = refl
after_one undefined l rest finish others h = refl

-- The end of the rounds.
abbrev pub finishing :
    Acceptor → ℕ → EventLoop Task → TcpServer → Outcome (TcpServer × EventLoop Task)
finishing a n l t = ok (t, record l { calls = accepting a.accept_socket n l.calls })

pub accept_rounds_all :
    (k : Kernel) (print : ℕ → Text) (unset : InetAddress) (a : Acceptor) (n : ℕ) (s : TcpServer)
    (l : EventLoop Task)
    → a.has_new_connection ≡ true
    → accept_rounds k print unset a n (s, l)
      ≡ (accept_all print (accepted k a.accept_socket n l.calls) s >>= finishing a n l)
unfolding accept_rounds accept_all
accept_rounds_all k print unset a zero s l set = refl
accept_rounds_all k print unset a (suc n) s l set =
    by_reply (λ t. accept_rounds_all k print unset a n t (once a l) set)
      (k.reply l.calls (accept a.accept_socket)) refl
  where
    by_reply :
        ((t : TcpServer)
          → accept_rounds k print unset a n (t, once a l) ≡ (
              accept_all print (accepted k a.accept_socket n (once a l).calls) t
              >>= finishing a n (once a l)))
        → (r : Reply) → k.reply l.calls (accept a.accept_socket) ≡ r
        → accept_rounds k print unset a (suc n) (s, l) ≡ (
            accept_all print (given r (accepted k a.accept_socket n (once a l).calls)) s
            >>= finishing a n (once a l))
    by_reply rest (fails errno) e = rw (one_fails k print unset a s l errno e) (rest s)
    by_reply rest (returns sockfd) e = rw (one_comes k print unset a s l sockfd set e) (
        after_one (new_connection print sockfd s) (once a l) (accept_rounds k print unset a n)
          (λ (u, m). finishing a n m u) _ rest)

-- A server whose memory held 0 for `started_`, with `m + 1` threads and started, on an acceptor that hands
-- connections to it: any number of events of the acceptor's channel, below the last int, is handled,
-- whatever `accept` answers. Of the loop nothing changes but that `accept` was called once for each event, so
-- that no descriptor is closed; and the requests are those to establish the descriptors that `accept` gave,
-- in order, numbered from 1 and on the loops of the threads in turn.
pub accept_rounds_lem :
    (k : Kernel) (print : ℕ → Text) (start_loop : ℕ → ℕ) (loop m : ℕ) (ip_port name : Text)
    (unset : InetAddress) (a : Acceptor) (n : ℕ) (l : EventLoop Task)
    → a.has_new_connection ≡ true
    → n + 1 < 2 ^ 31
    → let s = start start_loop (set_thread_num (suc m) (constructed 0 loop ip_port name)) in
      (t : TcpServer) × (accept_rounds k print unset a n (s, l)
        ≡ ok (t, record l { calls = accepting a.accept_socket n l.calls }))
      × (t.requests
          ≡ with_establishments print start_loop m ip_port name 0
              (accepted k a.accept_socket n l.calls)
              s.requests)
accept_rounds_lem k print start_loop loop m ip_port name unset a n l set small =
    let s = start start_loop (set_thread_num (suc m) (constructed 0 loop ip_port name)) in
    let sockfds = accepted k a.accept_socket n l.calls in
    let (t, made, asked) =
      accept_all_lem print start_loop loop m ip_port name sockfds
        (omega (arith, small, length-accepted k a.accept_socket n l.calls)) in
    (t, accept_rounds_all k print unset a n s l set ∙ ap (λ x. x >>= finishing a n l) made, asked)
