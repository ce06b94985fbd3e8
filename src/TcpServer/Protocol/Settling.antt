-- ===== src/TcpServer/Protocol/Settling.antt =====
-- The requests come to an end: what is asked for while they run, and what is left.
use moduo.Prelude.{
  some, PrintLaws, ℕ, Bool, zero, suc, ◌+◌, ◌<◌, ◌^◌, ◌≡◌, refl, sym, ap, ◌∙◌, List, [], ◌∷◌, ◌++◌,
  ok, arith,
}
use moduo.InetAddress.{Net}
use moduo.InetAddress
use moduo.InetAddress.Printing.{NetLaws}
use moduo.TcpServer.{
  Text, Task, listens, establishes, removes, destroys, Request, TcpServer, new,
  remove_connection_in_loop,
}
use moduo.TcpServer.Accounts.{count, listed}
use moduo.TcpServer.Protocol.{
  World, at_start, run_functor, task, Run, runs, Runs, none_yet, one_more, Reach, next, loop_runs,
}
use moduo.TcpServer.Protocol.Moves.{opens, removes_it, destroys_it, IsOrderly}
use moduo.TcpServer.Protocol.Conserved.{Reach-IsOrderly}
use moduo.TcpServer.Protocol.Orders.{at_start-IsOrderly}

-- What is to be run: a removal asks for a destruction.
abbrev pub runs_of : Task → ℕ
runs_of (removes conn) = 2
runs_of _ = 1

abbrev pub to_run : List Request → ℕ
to_run [] = 0
to_run (r ∷ rs) = runs_of (task r) + to_run rs

to_run-middle :
    (later earlier : List Request) (r : Request)
    → to_run (later ++ r ∷ earlier) ≡ runs_of (task r) + to_run (later ++ earlier)
to_run-middle [] earlier r = refl
to_run-middle (q ∷ later) earlier r = omega (arith, to_run-middle later earlier r)

run_functor-to_run :
    (t : Task) (w : World)
    → (to_run (run_functor t w).server.requests + 1 ≡ runs_of t + to_run w.server.requests)
      × ((run_functor t w).made ≡ w.made)
unfolding remove_connection_in_loop
run_functor-to_run listens w = (omega arith, refl)
run_functor-to_run (establishes conn) w = (omega arith, refl)
run_functor-to_run (removes conn) w = (omega arith, refl)
run_functor-to_run (destroys conn) w = (omega arith, refl)

Run-to_run :
    {w v : World}
    → Run w v
    → (to_run w.server.requests ≡ to_run v.server.requests + 1) × (v.made ≡ w.made)
Run-to_run (runs w later earlier r e) =
    let (counted, made) =
      run_functor-to_run (task r)
        (record w { server = record (w.server) { requests = later ++ earlier } }) in
    (ap to_run e ∙ to_run-middle later earlier r ∙ sym counted, made)

Runs-to_run :
    {n : ℕ} {w v : World}
    → Runs w n v
    → (to_run w.server.requests ≡ to_run v.server.requests + n) × (v.made ≡ w.made)
Runs-to_run none_yet = (omega arith, refl)
Runs-to_run (one_more r rest) =
    let (once, made) = Run-to_run r in
    let (more, made') = Runs-to_run rest in (omega (arith, once, more), made' ∙ made)

Runs-Reach :
    {print : ℕ → Text} {start_loop : ℕ → ℕ} {n : ℕ} {u w v : World}
    → Reach print start_loop u w
    → Runs w n v
    → Reach print start_loop u v
Runs-Reach r none_yet = r
Runs-Reach r (one_more one rest) = Runs-Reach (next r (loop_runs one)) rest

-- There is something to run unless nothing is asked for.
nothing_to_run : (r : Request) (rs : List Request) → 0 < to_run (r ∷ rs)
nothing_to_run r rs = by_task (task r)
  where
    by_task : (t : Task) → 0 < runs_of t + to_run rs
    by_task listens = omega arith
    by_task (establishes conn) = omega arith
    by_task (removes conn) = omega arith
    by_task (destroys conn) = omega arith

nothing_left : (rs : List Request) → to_run rs ≡ 0 → rs ≡ []
nothing_left [] e = refl
nothing_left (r ∷ rs) e = ground (arith, nothing_to_run r rs)

something_left :
    (rs : List Request) (n : ℕ)
    → to_run rs ≡ suc n
    → (r : Request) × (rest : List Request) × (rs ≡ r ∷ rest)
something_left [] n e = ground arith
something_left (r ∷ rs) n e = (r, rs, refl)

-- Where nothing is in flight, the map has what is live, and all else that was made is finished.
settled :
    (print : ℕ → Text) (w : World) (key : Text)
    → w.server.requests ≡ []
    → IsOrderly print w
    → (listed key w.server.connections ≡ listed key w.live)
      × (listed key w.live + listed key w.finished ≡ listed key w.made)
settled print w key empty o =
    let none_of : (p : Request → Bool) → count p w.server.requests ≡ 0 = λ p. ap (count p) empty in
    (
      omega (
        arith,
        o.mapped key,
        none_of (λ r. opens key (task r)),
        none_of (λ r. removes_it key (task r)),
      ),
      omega (
        arith,
        o.conserved key,
        none_of (λ r. opens key (task r)),
        none_of (λ r. removes_it key (task r)),
        none_of (λ r. destroys_it key (task r)),
      ),
    )

-- The latest first, until nothing is left.
settle :
    (n : ℕ) (w : World)
    → to_run w.server.requests ≡ n
    → (v : World) × Runs w n v × (v.server.requests ≡ [])
settle zero w e = (w, none_yet, nothing_left w.server.requests e)
settle (suc n) w e =
    let (r, rest, same_requests) = something_left w.server.requests n e in
    let first = runs w [] rest r same_requests in
    let (asked, _) = Run-to_run first in
    let u = run_functor (task r) (record w { server = record (w.server) { requests = rest } }) in
    let (v, more, empty) = settle n u (omega (arith, asked, e)) in (v, one_more first more, empty)

-- Of a server that is made at an address with a 16-bit port, where `%d` prints different numbers
-- differently and in at most 10 characters: from any point of its life, and whichever of the requests the
-- loops have run since, the rest runs to an end, after as many runs in all as there are requests, those
-- that remove a connection counted twice. Then no request is left, the server's map has, of each name, the
-- connections that are live, and every other connection that was made is destroyed.
pub settles :
    (print : ℕ → Text) (start_loop : ℕ → ℕ) (net : Net) (memory loop port : ℕ) (ip name : Text)
    (s : TcpServer) (w v : World) (n : ℕ)
    → PrintLaws print
    → NetLaws net
    → port < 2 ^ 16
    → new net memory (some loop) (InetAddress.new net port ip) name ≡ ok s
    → Reach print start_loop (at_start s) w
    → Runs w n v
    → (m : ℕ) × (u : World) × Runs v m u
      × (n + m ≡ to_run w.server.requests)
      × (u.server.requests ≡ [])
      × ((key : Text)
          → (listed key u.server.connections ≡ listed key u.live)
            × (listed key u.live + listed key u.finished ≡ listed key w.made))
settles print start_loop net memory loop port ip name s w v n laws net_laws small made r ran =
    let m = to_run v.server.requests in
    let (u, rest, empty) = settle m v refl in
    let (counted, made_v) = Runs-to_run ran in
    let (_, made_u) = Runs-to_run rest in
    let o =
      Reach-IsOrderly laws (Runs-Reach (Runs-Reach r ran) rest)
        (at_start-IsOrderly print net memory loop port ip name s net_laws small made) in
    let same_made : (key : Text)
        → (listed key u.server.connections ≡ listed key u.live)
          × (listed key u.live + listed key u.finished ≡ listed key w.made) =
      λ key.
        let (mapped, whole) = settled print u key empty o in
        (mapped, whole ∙ ap (listed key) (made_u ∙ made_v)) in
    (m, u, rest, omega (arith, counted), empty, λ key. same_made key)
