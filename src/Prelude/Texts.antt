-- ===== src/Prelude/Texts.antt =====
-- Texts as lists of characters, and the buffers of bytes that they are printed into.
use Prim.Native.Nat.{ℕ, suc, ◌+◌, ◌^◌, ◌≤◌, ◌<◌}
use Prim.Native.Char.{code}
use Prim.Native.String.{String}
use mathlib.Core.Path.{◌≡◌, refl, sym, ap}
use mathlib.Core.Logic.{◌≢◌}
use mathlib.Core.Bool.{false}
use mathlib.Core.List.{List, [], ◌∷◌, ◌++◌, append_assoc, append-nil}
use native.Mathlib.Omega.{arith}
use moduo.Prelude.Tests.{◌==◌, if◌then◌else◌}
use moduo.Prelude.Lists.{length, take, drop, take-append_add}

abbrev pub Text : Type 0
Text = List ℕ

-- The characters of a literal.
abbrev pub codes : String → Text
codes String.[] = []
codes (String.◌∷◌ c s) = code c ∷ codes s

-- The text that a buffer holds: its characters before the first NUL.
unfoldable pub c_string : List ℕ → Text
c_string [] = []
c_string (c ∷ cs) = let rest = c_string cs in if c == 0 then [] else c ∷ rest

-- A text and its NUL, written at an index.
unfoldable pub store : ℕ → Text → List ℕ → List ℕ
store i text buf = take i buf ++ (text ++ 0 ∷ drop (suc (i + length text)) buf)

-- No character is NUL.
abbrev pub IsText : Text → Type 0
IsText [] = Unit {0}
IsText (c ∷ cs) = (c ≢ 0) × IsText cs

pub IsText-append : (xs ys : Text) → IsText xs → IsText ys → IsText (xs ++ ys)
IsText-append [] ys v w = w
IsText-append (x ∷ xs) ys v w = (v.0, IsText-append xs ys (v.1) w)

ne→== : (a b : ℕ) → a ≢ b → (a == b) ≡ false
ne→== a b h = ground (arith, h)

pub c_string-append :
    (text : Text) (rest : List ℕ) → IsText text → c_string (text ++ 0 ∷ rest) ≡ text
unfolding c_string
c_string-append [] rest v = refl
c_string-append (c ∷ cs) rest v = rw (ne→== c 0 (v.0)) (ap (◌∷◌ c) (c_string-append cs rest (v.1)))

-- A text written where the first ends.
pub c_string-store :
    (first second : Text) (rest : List ℕ)
    → IsText first
    → IsText second
    → c_string (store (length first) second (first ++ 0 ∷ rest)) ≡ first ++ second
unfolding store
c_string-store first second rest v w =
    rw (take-append_add (length first) 0 first (0 ∷ rest) (omega arith)) (
      rw (append-nil first) (
        rw
          (sym (
            append_assoc first second
              (0 ∷ drop (suc (length first + length second)) (first ++ 0 ∷ rest))))
          (c_string-append (first ++ second)
            (drop (suc (length first + length second)) (first ++ 0 ∷ rest))
            (IsText-append first second v w))))

pub store_first :
    (text : Text) (buf : List ℕ) → store 0 text buf ≡ text ++ 0 ∷ drop (suc (length text)) buf
unfolding store
store_first text buf = ap (λ n. text ++ 0 ∷ drop (suc n) buf) (add_left_zero (length text))
  where
    add_left_zero : (n : ℕ) → 0 + n ≡ n
    add_left_zero n = omega arith

-- `%d` prints an int in at most 10 characters where it is not negative, and different ints differently.
pub record PrintLaws (print : ℕ → Text) : Type 0 where
  pub short : (i : ℕ) → i < 2 ^ 31 → length (print i) ≤ 10
  pub injective : (i j : ℕ) → i < 2 ^ 31 → j < 2 ^ 31 → print i ≡ print j → i ≡ j
