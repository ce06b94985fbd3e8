-- ===== src/Examples/Mains.antt =====
-- `main` on a kernel that grants every call.
use moduo.Prelude.{ℕ, ◌+◌, ◌≡◌, refl, true, [], ◌∷◌, ok, arith, codes}
use moduo.Os.{
  Kernel, Calls, Syscall, epoll_ctl, socket_stream, accept, Reply, returns, fails, delivers,
}
use moduo.TcpServer.{TcpServer}
use moduo.TcpServer.Accepting.{accept_rounds, accept_rounds_lem}
use moduo.TcpServer.{constructed, set_thread_num, start}
use moduo.Acceptor.{Acceptor}
use moduo.Channel
use moduo.Examples.Loops.{loop}
use moduo.TcpServer.Spread.{with_establishments}
use moduo.EchoServer.Main.{Places}
use moduo.Examples.Kernels.{peer}
use moduo.Examples.Servers.{print}

-- Above every descriptor that epoll was asked about.
abbrev above : Calls → ℕ
above [] = 3
above (epoll_ctl op fd events a ∷ calls) = fd + 1 + above calls
above (_ ∷ calls) = above calls

abbrev grant : Calls → Syscall → Reply
grant calls socket_stream = returns (above calls)
grant calls (accept fd) = returns 9
grant calls _ = returns 0

abbrev generous : Kernel
generous = record { reply = grant; input = λ calls call. delivers []; peer = λ calls call. peer }

abbrev places : Places
places = record { loop = 7; wakeup_channel = 30; accept_channel = 50; memory = 0 }

-- A kernel that gives the descriptors from 9 on, and fails once in between.
abbrev answers : Calls → Syscall → Reply
answers (accept f ∷ []) (accept fd) = fails 11
answers (_ ∷ calls) (accept fd) = returns 10
answers [] (accept fd) = returns 9
answers calls _ = returns 0

abbrev flaky : Kernel
flaky = record { reply = answers; input = λ calls call. delivers []; peer = λ calls call. peer }

abbrev acceptor : Acceptor
acceptor = record {
  accept_socket = 6;
  accept_channel = Channel.new 50 6;
  has_new_connection = true;
  listenning = true;
}

accept_rounds_lem_example :
    let s = start (λ i. i + 20) (set_thread_num 2 (constructed 0 7 (codes "1:8") (codes "e"))) in
    (t : TcpServer) × (accept_rounds flaky print peer acceptor 3 (s, loop [])
      ≡ ok (t, record (loop []) { calls = accept 6 ∷ accept 6 ∷ accept 6 ∷ [] }))
    × (t.requests
        ≡ with_establishments print
            (λ i. i + 20)
            1
            (codes "1:8")
            (codes "e")
            0
            (9 ∷ 10 ∷ [])
            s.requests)
accept_rounds_lem_example =
    accept_rounds_lem flaky print (λ i. i + 20) 7 1 (codes "1:8") (codes "e") peer acceptor 3
      (loop []) refl (omega arith)
