-- ===== src/TcpServer/Names.antt =====
-- The names that `newConnection` gives.
use moduo.Prelude.{
  PrintLaws, ℕ, ◌^◌, ◌≤◌, ◌<◌, ◌≡◌, sym, ◌∙◌, ◌∷◌, ◌++◌, arith, length, length-append, take,
  take_all,
}
use mathlib.Core.List.{append_cancel_left, tail-eq_of_cons-eq}
use moduo.TcpServer.{Text, TcpServer, connection_name}

abbrev suffix : (print : ℕ → Text) → TcpServer → ℕ → Text
suffix print s i = 45 ∷ s.ip_port ++ 35 ∷ print i

-- Nothing of the suffix is cut off.
take-suffix :
    (print : ℕ → Text) (s : TcpServer) (i : ℕ)
    → PrintLaws print
    → length s.ip_port ≤ 21
    → i < 2 ^ 31
    → take 63 (suffix print s i) ≡ suffix print s i
take-suffix print s i laws short h =
    take_all 63 (suffix print s i)
      (omega (arith, length-append s.ip_port (35 ∷ print i), laws.short i h))

-- Connections of different numbers have different names, where the server's address is printed in at
-- most 21 characters.
pub connection_name_injective :
    (print : ℕ → Text) (s : TcpServer) (i j : ℕ)
    → PrintLaws print
    → length s.ip_port ≤ 21
    → i < 2 ^ 31
    → j < 2 ^ 31
    → connection_name print s i ≡ connection_name print s j
    → i ≡ j
unfolding connection_name
connection_name_injective print s i j laws short hi hj e =
    let whole =
      sym (take-suffix print s i laws short hi)
      ∙ append_cancel_left s.name _ _ e
      ∙ take-suffix print s j laws short hj in
    let printed =
      tail-eq_of_cons-eq (append_cancel_left s.ip_port _ _ (tail-eq_of_cons-eq whole)) in
    laws.injective i j hi hj printed
