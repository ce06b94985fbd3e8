-- ===== src/TcpServer/Protocol/Conserved.antt =====
-- No connection is lost and none is in two places: what each step does to the account.
use moduo.Prelude.{
  PrintLaws, ℕ, ◌+◌, ◌≡◌, refl, sym, subst, ap, Bool, if◌then◌else◌, ◌∙◌, List, ◌∷◌, ◌++◌, ok,
  arith,
}
use moduo.TcpServer.{
  Text, Handle, Task, listens, establishes, removes, destroys, Request, run_in_loop, TcpServer,
  new_connection, connection_name, remove_connection_in_loop,
}
use moduo.TcpServer.Accounts.{count, listed-erase, same_eq}
use moduo.TcpServer.Balance.{later_name}
use moduo.TcpServer.Adding.{new_connection_adds}
use moduo.TcpServer.Protocol.{
  World, run_functor, task, Step, loop_runs, sets_callbacks, sets_threads, starts, accepts, runs,
  closes, Reach, here, next,
}
use moduo.TcpServer.Protocol.Moves.{opens, removes_it, destroys_it, count-middle, IsOrderly}
use moduo.TcpServer.Protocol.Quiet.{
  sets_threads-IsOrderly, starts-IsOrderly, closes-IsOrderly, callbacks-IsOrderly,
}

-- What is in flight of a name before a request is taken.
taken :
    (p : Request → Bool) (later earlier all : List Request) (r : Request)
    → all ≡ later ++ r ∷ earlier
    → count p all ≡ count p (later ++ earlier) + (if p r then 1 else 0)
taken p later earlier all r e = ap (count p) e ∙ count-middle p later earlier r

runs-IsOrderly :
    (print : ℕ → Text) (w : World) (later earlier : List Request) (r : Request)
    → w.server.requests ≡ later ++ r ∷ earlier
    → IsOrderly print w
    → IsOrderly print (
        run_functor
          (task r)
          (record w { server = record (w.server) { requests = later ++ earlier } }))
unfolding remove_connection_in_loop connection_name
runs-IsOrderly print w later earlier r e v = by_task (task r) refl
  where
    picked :
        (p : Request → Bool)
        → count p w.server.requests ≡ count p (later ++ earlier) + (if p r then 1 else 0)
    picked p = taken p later earlier w.server.requests r e

    by_task :
        (t : Task)
        → task r ≡ t
        → IsOrderly print (
            run_functor t (record w { server = record (w.server) { requests = later ++ earlier } }))
    by_task listens kind = record {
      mapped = λ name. ground (
        arith,
        v.mapped name,
        picked (λ q. opens name (task q)),
        picked (λ q. removes_it name (task q)),
        kind,
      );
      conserved = λ name. ground (
        arith,
        v.conserved name,
        picked (λ q. opens name (task q)),
        picked (λ q. removes_it name (task q)),
        picked (λ q. destroys_it name (task q)),
        kind,
      );
      once = v.once;
      fresh = v.fresh;
      in_range = v.in_range;
      short = v.short;
    }
    by_task (establishes conn) kind = record {
      mapped = λ name. ground (
        arith,
        v.mapped name,
        picked (λ q. opens name (task q)),
        picked (λ q. removes_it name (task q)),
        kind,
      );
      conserved = λ name. ground (
        arith,
        v.conserved name,
        picked (λ q. opens name (task q)),
        picked (λ q. removes_it name (task q)),
        picked (λ q. destroys_it name (task q)),
        kind,
      );
      once = v.once;
      fresh = v.fresh;
      in_range = v.in_range;
      short = v.short;
    }
    by_task (removes conn) kind = record {
      mapped = λ name. ground (
        arith,
        v.mapped name,
        v.conserved name,
        v.once name,
        picked (λ q. opens name (task q)),
        picked (λ q. removes_it name (task q)),
        kind,
        listed-erase name conn.name w.server.connections,
        same_eq name conn.name,
      );
      conserved = λ name. ground (
        arith,
        v.conserved name,
        picked (λ q. opens name (task q)),
        picked (λ q. removes_it name (task q)),
        picked (λ q. destroys_it name (task q)),
        kind,
      );
      once = v.once;
      fresh = v.fresh;
      in_range = v.in_range;
      short = v.short;
    }
    by_task (destroys conn) kind = record {
      mapped = λ name. ground (
        arith,
        v.mapped name,
        picked (λ q. opens name (task q)),
        picked (λ q. removes_it name (task q)),
        kind,
      );
      conserved = λ name. ground (
        arith,
        v.conserved name,
        picked (λ q. opens name (task q)),
        picked (λ q. removes_it name (task q)),
        picked (λ q. destroys_it name (task q)),
        kind,
      );
      once = v.once;
      fresh = v.fresh;
      in_range = v.in_range;
      short = v.short;
    }

accepts-IsOrderly :
    (print : ℕ → Text) (w : World) (t : TcpServer) (sockfd : ℕ) (conn : Handle)
    → PrintLaws print
    → new_connection print sockfd w.server ≡ ok t
    → t.requests ≡ run_in_loop conn.loop (establishes conn) ∷ w.server.requests
    → IsOrderly print w
    → IsOrderly print (record w { server = t; made = conn ∷ w.made })
unfolding connection_name
accepts-IsOrderly print w t sockfd conn laws e asked v =
    let (io_loop, p, small, same_server) = new_connection_adds print sockfd w.server t e in
    let key = connection_name print w.server w.server.next_conn_id in
    let made : Handle = record { name = key; loop = io_loop; socket = sockfd } in
    let same_conn : made ≡ conn = cc (same_server, asked) in
    let none_yet = v.fresh w.server.next_conn_id (omega arith) (omega arith) in
    subst (λ (c : Handle). IsOrderly print (record w { server = t; made = c ∷ w.made })) same_conn
      (subst (λ (u : TcpServer). IsOrderly print (record w { server = u; made = made ∷ w.made }))
        (sym same_server)
        (record {
          mapped = λ name. ground (
            arith,
            v.mapped name,
            v.conserved name,
            listed-erase name key w.server.connections,
            none_yet,
            same_eq name key,
          );
          conserved = λ name. ground (arith, v.conserved name);
          once = λ name. ground (arith, v.once name, none_yet, same_eq name key);
          fresh = λ i le lt.
              rw (later_name print w.server i laws v.short le lt) (v.fresh i (omega arith) lt);
          in_range = small;
          short = v.short;
        }))

Step-IsOrderly :
    {print : ℕ → Text} {start_loop : ℕ → ℕ} {w v : World}
    → PrintLaws print
    → Step print start_loop w v
    → IsOrderly print w
    → IsOrderly print v
Step-IsOrderly {print} laws (sets_threads w n) o = sets_threads-IsOrderly print w n o
Step-IsOrderly {print} laws (sets_callbacks w b c d f) o = callbacks-IsOrderly print w b c d f o
Step-IsOrderly {print} {start_loop} laws (starts w) o = starts-IsOrderly print start_loop w o
Step-IsOrderly {print} laws (accepts w t sockfd conn e asked) o =
    accepts-IsOrderly print w t sockfd conn laws e asked o
Step-IsOrderly {print} laws (loop_runs (runs w later earlier r e)) o =
    runs-IsOrderly print w later earlier r e o
Step-IsOrderly {print} laws (closes w some_live others conn e) o =
    closes-IsOrderly print w some_live others conn e o

pub Reach-IsOrderly :
    {print : ℕ → Text} {start_loop : ℕ → ℕ} {w v : World}
    → PrintLaws print
    → Reach print start_loop w v
    → IsOrderly print w
    → IsOrderly print v
Reach-IsOrderly laws here o = o
Reach-IsOrderly laws (next r st) o = Step-IsOrderly laws st (Reach-IsOrderly laws r o)
