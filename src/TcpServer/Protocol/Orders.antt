-- ===== src/TcpServer/Protocol/Orders.antt =====
-- Whatever the order in which the loops run the requests.
use moduo.Prelude.{
  some, PrintLaws, ℕ, ◌+◌, ◌≤◌, ◌<◌, ◌^◌, ◌≡◌, refl, sym, ap, ◌∙◌, List, [], ◌∷◌, ok, arith,
}
use moduo.InetAddress.{Net}
use moduo.InetAddress
use moduo.InetAddress.Printing.{NetLaws}
use moduo.TcpServer.{
  Text, destroys, Request, run_in_loop, TcpServer, ConnectionMap, new, destroy, destroy_all,
}
use moduo.TcpServer.Accounts.{count, listed}
use moduo.TcpServer.Steps.{new_lem}
use moduo.TcpServer.Steps.{new-IsBalanced}
use moduo.TcpServer.Protocol.{World, at_start, task, Reach}
use moduo.TcpServer.Protocol.Moves.{
  destroys_it, opening, removing, destroying, held, ended, IsOrderly,
}
use moduo.TcpServer.Protocol.Conserved.{Reach-IsOrderly}

pub at_start-IsOrderly :
    (print : ℕ → Text) (net : Net) (memory loop port : ℕ) (ip name : Text) (s : TcpServer)
    → NetLaws net
    → port < 2 ^ 16
    → new net memory (some loop) (InetAddress.new net port ip) name ≡ ok s
    → IsOrderly print (at_start s)
at_start-IsOrderly print net memory loop port ip name s laws small made =
    let b = new-IsBalanced print net memory loop port ip name s laws small made in
    let (ip_port, _, e) = new_lem net memory loop (InetAddress.new net port ip) name s made in
    record {
      mapped = λ key.
          ap (λ (u : TcpServer). listed key u.connections) e
          ∙ sym (ap (λ (u : TcpServer). held key (at_start u)) e);
      conserved = λ key. ap (λ (u : TcpServer). held key (at_start u) + ended key (at_start u)) e;
      once = λ key. omega arith;
      fresh = λ i le lt. refl;
      in_range = b.in_range;
      short = b.short;
    }

destroy_all-destroying :
    (name : Text) (m : ConnectionMap) (rs : List Request)
    → count (λ r. destroys_it name (task r)) (destroy_all m rs)
      ≡ listed name m + count (λ r. destroys_it name (task r)) rs
unfolding destroy_all
destroy_all-destroying name [] rs = omega arith
destroy_all-destroying name (conn ∷ m) rs =
    ground (arith, destroy_all-destroying name m (run_in_loop conn.loop (destroys conn) ∷ rs))

-- Of a server that is made at an address with a 16-bit port, where `%d` prints different numbers
-- differently and in at most 10 characters, at any point of its life, in whatever order the loops run what
-- it asks for: of each name at most one connection was made; the map has those that are to be established,
-- are live or are to be removed, and no others; those of the map, those to be destroyed and those that are
-- destroyed are all that were made; and where the server is destroyed there, those it then asks to destroy
-- and those that are destroyed are.
pub nothing_lost_in_any_order :
    (print : ℕ → Text) (start_loop : ℕ → ℕ) (net : Net) (memory loop port : ℕ) (ip name : Text)
    (s : TcpServer) (w : World)
    → PrintLaws print
    → NetLaws net
    → port < 2 ^ 16
    → new net memory (some loop) (InetAddress.new net port ip) name ≡ ok s
    → Reach print start_loop (at_start s) w
    → (key : Text)
    → (listed key w.made ≤ 1)
      × (listed key w.server.connections ≡ opening key w + listed key w.live + removing key w)
      × (listed key w.server.connections + destroying key w + listed key w.finished
          ≡ listed key w.made)
      × (destroying key (record w { server = destroy w.server }) + listed key w.finished
          ≡ listed key w.made)
unfolding destroy
nothing_lost_in_any_order print start_loop net memory loop port ip name s w laws net_laws small made
      r key =
    let o =
      Reach-IsOrderly laws r
        (at_start-IsOrderly print net memory loop port ip name s net_laws small made) in
    let asked = destroy_all-destroying key w.server.connections w.server.requests in
    (
      o.once key,
      o.mapped key,
      omega (arith, o.mapped key, o.conserved key),
      omega (arith, o.mapped key, o.conserved key, asked),
    )
