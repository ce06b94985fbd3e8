-- ===== src/TcpServer/Protocol/Spent.antt =====
-- The destructor of a server that has no connection.
use moduo.Prelude.{
  some, PrintLaws, ℕ, ◌<◌, ◌^◌, ◌≡◌, ◌≢◌, refl, sym, subst, ap, ◌∙◌, Bool, true, false, List, [],
  ◌∷◌, ◌++◌, Outcome, ok, arith,
}
use moduo.InetAddress.{Net}
use moduo.InetAddress
use moduo.InetAddress.Printing.{NetLaws}
use moduo.TcpServer.{
  Text, Handle, Task, listens, establishes, removes, destroys, Request, TcpServer, erase, new,
  destroy, destroy_all,
}
use moduo.TcpServer.Accounts.{count, listed, same_refl}
use moduo.TcpServer.Protocol.{World, at_start, task, Reach}
use moduo.TcpServer.Protocol.Moves.{opens, removes_it, held, count-middle}
use moduo.TcpServer.Protocol.Conserved.{Reach-IsOrderly}
use moduo.TcpServer.Protocol.Orders.{at_start-IsOrderly}
use moduo.TcpServer.Protocol.After.{
  Left, run_after, AfterStep, runs_left, closes_left, AfterReach, unchanged, then_step, left_by,
  is_listening,
}

-- Every request is a call of `connectionDestroyed`, and no connection is live.
abbrev other : Task → Bool
other (destroys conn) = false
other _ = true

abbrev IsSpent : Left → Type 0
IsSpent (requests, live) = (count (λ r. other (task r)) requests ≡ 0) × (live ≡ [])

run_after_spent : (t : Task) → other t ≡ false → run_after t [] ≡ ok []
unfolding erase
run_after_spent listens e = cc
run_after_spent (establishes conn) e = cc
run_after_spent (removes conn) e = cc
run_after_spent (destroys conn) e = refl

not_nil : {A : Type 0} (xs ys : List A) (x : A) → xs ++ x ∷ ys ≢ []
not_nil [] ys x e = cc
not_nil (y ∷ xs) ys x e = cc

AfterStep-IsSpent :
    {s : Left} {u : Outcome Left} → AfterStep s u → IsSpent s → (t : Left) × (u ≡ ok t) × IsSpent t
AfterStep-IsSpent (runs_left later earlier r live) (calls, empty) =
    let counted = count-middle (λ q. other (task q)) later earlier r in
    let last : other (task r) ≡ false = ground (arith, calls, counted) in
    (
      (later ++ earlier, []),
      rw (empty, run_after_spent (task r) last) refl,
      (ground (arith, calls, counted), refl),
    )
AfterStep-IsSpent (closes_left requests some_live others conn) (calls, empty) =
    absurd (not_nil some_live others conn empty)

carried-IsSpent : {s t : Left} → ok s ≡ ok t → IsSpent t → IsSpent s
carried-IsSpent {s} {t} e v = let same : t ≡ s = cc e in subst IsSpent same v

AfterReach-IsSpent :
    {s : Left} {u : Outcome Left} → AfterReach s u → IsSpent s → (t : Left) × (u ≡ ok t) × IsSpent t
AfterReach-IsSpent {s} unchanged v = (s, refl, v)
AfterReach-IsSpent (then_step r st) v =
    let (t, e, w) = AfterReach-IsSpent r v in AfterStep-IsSpent st (carried-IsSpent e w)

-- The first request, of a list with no other.
first_destruction :
    (r : Request)
    → ((name : Text) → opens name (task r) ≡ false)
    → ((name : Text) → removes_it name (task r) ≡ false)
    → is_listening (task r) ≡ false
    → other (task r) ≡ false
first_destruction r up off listening = by_task (task r) refl
  where
    by_task : (t : Task) → task r ≡ t → other (task r) ≡ false
    by_task listens e = ground (arith, listening, e)
    by_task (establishes conn) e = ground (arith, up conn.name, same_refl conn.name, e)
    by_task (removes conn) e = ground (arith, off conn.name, same_refl conn.name, e)
    by_task (destroys conn) e = ap other e

count_none :
    (p : Request → Bool) (r : Request) (rs : List Request)
    → count p (r ∷ rs) ≡ 0
    → (p r ≡ false) × (count p rs ≡ 0)
count_none p r rs h = ground arith

only_destructions :
    (rs : List Request)
    → ((name : Text) → count (λ r. opens name (task r)) rs ≡ 0)
    → ((name : Text) → count (λ r. removes_it name (task r)) rs ≡ 0)
    → count (λ r. is_listening (task r)) rs ≡ 0
    → count (λ r. other (task r)) rs ≡ 0
only_destructions [] up off listening = refl
only_destructions (r ∷ rs) up off listening =
    let up' : (name : Text)
        → (opens name (task r) ≡ false) × (count (λ q. opens name (task q)) rs ≡ 0) =
      λ name. count_none (λ q. opens name (task q)) r rs (up name) in
    let off' : (name : Text)
        → (removes_it name (task r) ≡ false) × (count (λ q. removes_it name (task q)) rs ≡ 0) =
      λ name. count_none (λ q. removes_it name (task q)) r rs (off name) in
    let (quiet, rest) = count_none (λ q. is_listening (task q)) r rs listening in
    let first = first_destruction r (λ name. (up' name).0) (λ name. (off' name).0) quiet in
    rw first (only_destructions rs (λ name. (up' name).1) (λ name. (off' name).1) rest)

none_live : (live : List Handle) → ((name : Text) → listed name live ≡ 0) → live ≡ []
none_live [] none = refl
none_live (c ∷ live) none = absurd (ground (arith, none c.name, same_refl c.name))

-- Of a server that is made at an address with a 16-bit port, where `%d` prints different numbers
-- differently and in at most 10 characters: if the destructor runs when the map of connections is empty and
-- no `listen` is in flight, then whatever the loops run afterwards and whichever connection closes, nothing
-- calls a method of the server that is gone, and no connection is live.
pub empty_server_leaves_nothing :
    (print : ℕ → Text) (start_loop : ℕ → ℕ) (net : Net) (memory loop port : ℕ) (ip name : Text)
    (s : TcpServer) (w : World) (u : Outcome Left)
    → PrintLaws print
    → NetLaws net
    → port < 2 ^ 16
    → new net memory (some loop) (InetAddress.new net port ip) name ≡ ok s
    → Reach print start_loop (at_start s) w
    → w.server.connections ≡ []
    → count (λ r. is_listening (task r)) w.server.requests ≡ 0
    → AfterReach (left_by w) u
    → (t : Left) × (u ≡ ok t) × (t.1 ≡ [])
unfolding destroy destroy_all
empty_server_leaves_nothing print start_loop net memory loop port ip name s w u laws net_laws small
      made r empty listening after =
    let o =
      Reach-IsOrderly laws r
        (at_start-IsOrderly print net memory loop port ip name s net_laws small made) in
    let nobody : (key : Text) → held key w ≡ 0 =
      λ key. sym (o.mapped key) ∙ ap (listed key) empty in
    let calls : count (λ q. other (task q)) w.server.requests ≡ 0 =
      only_destructions w.server.requests (λ key. omega (arith, nobody key))
        (λ key. omega (arith, nobody key)) listening in
    let spent : IsSpent (left_by w) =
      (rw empty calls, none_live w.live (λ key. omega (arith, nobody key))) in
    let (t, e, v) = AfterReach-IsSpent after spent in (t, e, v.1)
