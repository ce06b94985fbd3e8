-- ===== src/TcpServer/Accounts.antt =====
-- The connections of a server over its life: which are established and which destroyed.
use moduo.Prelude.{
  ℕ, ◌+◌, ◌<◌, ◌≡◌, refl, Bool, true, false, some, List, [], ◌∷◌, arith, if◌then◌else◌,
}
use moduo.TcpServer.{
  Text, same, Handle, establishes, destroys, Request, run_in_loop, queue_in_loop, ConnectionMap,
  find, erase, TcpServer,
}

pub same_refl : (xs : Text) → same xs xs ≡ true
same_refl [] = refl
same_refl (x ∷ xs) = ground (arith, same_refl xs)

pub same_eq : (xs ys : Text) → same xs ys ≡ true → xs ≡ ys
same_eq [] [] h = refl
same_eq [] (y ∷ ys) h = cc
same_eq (x ∷ xs) [] h = cc
same_eq (x ∷ xs) (y ∷ ys) h = ground (arith, same_eq xs ys)

abbrev pub count {ℓ} : {A : Type ℓ} → (A → Bool) → List A → ℕ
count p [] = 0
count p (x ∷ xs) = let n = count p xs in if p x then n + 1 else n

-- The requests to establish, and to destroy, a connection of a name.
abbrev pub is_establishment : Text → Request → Bool
is_establishment name (run_in_loop l (establishes conn)) = same name conn.name
is_establishment name _ = false

abbrev pub is_destruction : Text → Request → Bool
is_destruction name (run_in_loop l (destroys conn)) = same name conn.name
is_destruction name (queue_in_loop l (destroys conn)) = same name conn.name
is_destruction name _ = false

abbrev pub established : Text → TcpServer → ℕ
established name s = count (is_establishment name) s.requests

abbrev pub destroyed : Text → TcpServer → ℕ
destroyed name s = count (is_destruction name) s.requests

abbrev pub listed : Text → ConnectionMap → ℕ
listed name m = count (λ conn. same name conn.name) m

pub listed-erase :
    (name key : Text) (m : ConnectionMap)
    → listed name (erase key m) ≡ (if same name key then 0 else listed name m)
unfolding erase
listed-erase name key [] = ground arith
listed-erase name key (h ∷ rest) = ground (
  arith,
  listed-erase name key rest,
  same_eq name key,
  same_eq key h.name,
  same_refl name,
  same_refl key,
)

pub listed-find :
    (name : Text) (m : ConnectionMap) (h : Handle)
    → find name m ≡ some h
    → (0 < listed name m) × (h.name ≡ name)
unfolding find
listed-find name [] h e = cc
listed-find name (x ∷ rest) h e = ground (arith, listed-find name rest h, same_eq name x.name)
