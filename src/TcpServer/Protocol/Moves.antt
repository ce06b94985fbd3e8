-- ===== src/TcpServer/Protocol/Moves.antt =====
-- Where a connection stands, by its name, and how each step moves it.
use moduo.Prelude.{
  ℕ, ◌+◌, ◌^◌, ◌≤◌, ◌<◌, ◌≡◌, Bool, false, List, [], ◌∷◌, ◌++◌, arith, length, if◌then◌else◌,
}
use moduo.TcpServer.{Text, same, Task, establishes, removes, destroys, connection_name}
use moduo.TcpServer.Accounts.{count, listed}
use moduo.TcpServer.Protocol.{World, task}

-- What a request asks for a connection of a name.
abbrev pub opens : Text → Task → Bool
opens name (establishes conn) = same name conn.name
opens name _ = false

abbrev pub removes_it : Text → Task → Bool
removes_it name (removes conn) = same name conn.name
removes_it name _ = false

abbrev pub destroys_it : Text → Task → Bool
destroys_it name (destroys conn) = same name conn.name
destroys_it name _ = false

-- The connections of a name to be established, whose removal is in flight, and to be destroyed.
abbrev pub opening : Text → World → ℕ
opening name w = count (λ r. opens name (task r)) w.server.requests

abbrev pub removing : Text → World → ℕ
removing name w = count (λ r. removes_it name (task r)) w.server.requests

abbrev pub destroying : Text → World → ℕ
destroying name w = count (λ r. destroys_it name (task r)) w.server.requests

-- Those that the server's map should have.
abbrev pub held : Text → World → ℕ
held name w = opening name w + listed name w.live + removing name w

-- Those that are on their way out, or gone.
abbrev pub ended : Text → World → ℕ
ended name w = destroying name w + listed name w.finished

pub count-middle {ℓ} :
    {A : Type ℓ} (p : A → Bool) (xs ys : List A) (x : A)
    → count p (xs ++ x ∷ ys) ≡ count p (xs ++ ys) + (if p x then 1 else 0)
count-middle p [] ys x = ground arith
count-middle p (z ∷ xs) ys x = ground (arith, count-middle p xs ys x)

pub record IsOrderly (print : ℕ → Text) (w : World) : Type 0 where
  pub mapped : (name : Text) → listed name w.server.connections ≡ held name w
  pub conserved : (name : Text) → held name w + ended name w ≡ listed name w.made
  pub once : (name : Text) → listed name w.made ≤ 1
  pub fresh :
      (i : ℕ)
      → w.server.next_conn_id ≤ i
      → i < 2 ^ 31
      → listed (connection_name print w.server i) w.made ≡ 0
  pub in_range : w.server.next_conn_id < 2 ^ 31
  pub short : length w.server.ip_port ≤ 21
