-- ===== src/TcpServer/Protocol/Quiet.antt =====
-- What the steps that run no request and make no connection do to the account.
use moduo.Prelude.{ℕ, ◌≡◌, Bool, Bool-cases, inl, inr, List, ◌∷◌, ◌++◌, arith, ◌==◌}
use moduo.TcpServer.{
  Text, same, Handle, set_thread_init_callback, set_connection_callback, set_message_callback,
  set_write_complete_callback, set_thread_num, start, connection_name, remove_connection,
}
use moduo.EventLoopThreadPool.{EventLoopThreadPool}
use moduo.TcpServer.Protocol.{World}
use moduo.TcpServer.Protocol.Moves.{count-middle, IsOrderly}

pub sets_threads-IsOrderly :
    (print : ℕ → Text) (w : World) (n : ℕ)
    → IsOrderly print w
    → IsOrderly print (record w { server = set_thread_num n w.server })
unfolding set_thread_num connection_name
sets_threads-IsOrderly print w n v = record {
  mapped = v.mapped;
  conserved = v.conserved;
  once = v.once;
  fresh = v.fresh;
  in_range = v.in_range;
  short = v.short;
}

-- The pool and `started` do not matter.
quiet-IsOrderly :
    (print : ℕ → Text) (w : World) (p : EventLoopThreadPool) (n : ℕ)
    → IsOrderly print w
    → IsOrderly print (record w { server = record (w.server) { pool = p; started = n } })
unfolding connection_name
quiet-IsOrderly print w p n v = record {
  mapped = v.mapped;
  conserved = v.conserved;
  once = v.once;
  fresh = v.fresh;
  in_range = v.in_range;
  short = v.short;
}

pub starts-IsOrderly :
    (print : ℕ → Text) (start_loop : ℕ → ℕ) (w : World)
    → IsOrderly print w
    → IsOrderly print (record w { server = start start_loop w.server })
unfolding start
starts-IsOrderly print start_loop w v = elim (Bool-cases (w.server.started == 0)) [
  | inl first ↦ rw first (quiet-IsOrderly print w _ _ v)
  | inr again ↦ rw again (quiet-IsOrderly print w w.server.pool _ v)
]

pub closes-IsOrderly :
    (print : ℕ → Text) (w : World) (some_live others : List Handle) (conn : Handle)
    → w.live ≡ some_live ++ conn ∷ others
    → IsOrderly print w
    → IsOrderly print
        (record w { server = remove_connection conn w.server; live = some_live ++ others })
unfolding remove_connection connection_name
closes-IsOrderly print w some_live others conn e v =
    let here_once : (name : Text) → _ =
      λ name. count-middle (λ (c : Handle). same name c.name) some_live others conn in
    record {
      mapped = λ name. ground (arith, v.mapped name, here_once name);
      conserved = λ name. ground (arith, v.conserved name, here_once name);
      once = v.once;
      fresh = v.fresh;
      in_range = v.in_range;
      short = v.short;
    }

pub callbacks-IsOrderly :
    (print : ℕ → Text) (w : World) (connection message write_complete thread_init : Bool)
    → IsOrderly print w
    → IsOrderly print (record w {
      server = set_thread_init_callback thread_init (
          set_write_complete_callback write_complete
            (set_message_callback message (set_connection_callback connection w.server)));
    })
unfolding set_thread_init_callback set_connection_callback set_message_callback
    set_write_complete_callback connection_name
callbacks-IsOrderly print w connection message write_complete thread_init v = record {
  mapped = v.mapped;
  conserved = v.conserved;
  once = v.once;
  fresh = v.fresh;
  in_range = v.in_range;
  short = v.short;
}
