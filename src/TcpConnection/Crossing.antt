-- ===== src/TcpConnection/Crossing.antt =====
-- `send` from a thread that is not the loop's: what reaches the loop, and when the bytes are read.
use moduo.Prelude.{
  ℕ, ◌≡◌, refl, ap, ◌∙◌, true, false, List, [], ◌∷◌, Outcome, ok, >>=-ok, ◌>>=◌, length,
}
use moduo.Os.{Kernel, write}
use moduo.EventLoop.{
  EventLoop, one, needs_wakeup, is_in_loop_thread, queue_in_loop, run_functors, do_pending_functors,
}
use moduo.EventLoop.Functors.{queue_in_loop_lem}
use moduo.TcpConnection.{Connection, Session, Task, sends, App, is_connected}
use moduo.TcpConnection.Send.{send, send_in_loop}
use moduo.TcpConnection.Handlers.{run_task}

-- The loop once the other thread has queued and woken it, and has swapped its queue out.
abbrev pub swapped : EventLoop Task → EventLoop Task
swapped l = record l {
  calling_pending_functors = true;
  pending_functors = [];
  calls = write l.wakeup_fd one ∷ l.calls;
}

-- The end of `doPendingFunctors`.
abbrev pub called : Session → Outcome Session
called (c, l) = ok (c, record l { calling_pending_functors = false })

queued :
    (tid address len : ℕ) (l : EventLoop Task)
    → is_in_loop_thread tid l ≡ false
    → l.pending_functors ≡ []
    → queue_in_loop tid (sends address len) l ≡ record l {
      pending_functors = sends address len ∷ [];
      calls = write l.wakeup_fd one ∷ l.calls;
    }
unfolding needs_wakeup
queued tid address len l elsewhere idle =
    queue_in_loop_lem tid (sends address len) l ∙ rw (elsewhere, idle) refl

-- Of a connected connection whose loop has nothing queued, `send` from another thread returns and sends
-- nothing: when the loop runs its queue, it sends in its own thread what then lies at the address of the
-- caller's bytes, and where that memory is gone the behaviour is undefined.
pub send_reads_later :
    (k : Kernel) (app : App) (tid address : ℕ) (bytes : List ℕ) (c : Connection)
    (l : EventLoop Task)
    → is_connected c.state ≡ true
    → is_in_loop_thread tid l ≡ false
    → l.pending_functors ≡ []
    → (st : Session) × (send k tid address bytes (c, l) ≡ ok st)
      × (st.0 ≡ c)
      × (do_pending_functors (run_task k app l.thread_id) st ≡ (
          app.memory address (length bytes)
          >>= (λ message. send_in_loop k l.thread_id message (c, swapped l))
          >>= called))
unfolding send do_pending_functors run_functors run_task
send_reads_later k app tid address bytes c l up elsewhere idle = (
  (c, queue_in_loop tid (sends address (length bytes)) l),
  rw (up, elsewhere) refl,
  refl,
  rw (queued tid address (length bytes) l elsewhere idle) (ap (λ m. m >>= called) (>>=-ok _)),
)
