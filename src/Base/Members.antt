-- ===== src/Base/Members.antt =====
-- Lists of numbers as sets: membership as a Boolean, and no number twice.
use Prim.Native.Nat.{ℕ}
use mathlib.Core.Path.{◌≡◌, refl}
use mathlib.Core.Bool.{Bool, true, false, ◌||◌}
use mathlib.Core.Logic.{◌⊎◌}
use mathlib.Core.List.{List, [], ◌∷◌, ◌++◌}
use native.Mathlib.Omega.{arith}
use rust_usb.Base.Tests.{◌==◌}

-- `xs.contains(&i)`
abbrev pub contains : ℕ → List ℕ → Bool
contains i [] = false
contains i (x ∷ xs) = x == i || contains i xs

pub contains-head : (i : ℕ) (xs : List ℕ) → contains i (i ∷ xs) ≡ true
contains-head i xs = ground arith

pub contains-tail : (i x : ℕ) (xs : List ℕ) → contains i xs ≡ true → contains i (x ∷ xs) ≡ true
contains-tail i x xs h = ground arith

pub contains-cases :
    (i x : ℕ) (xs : List ℕ) → contains i (x ∷ xs) ≡ true → (x ≡ i) ⊎ (contains i xs ≡ true)
contains-cases i x xs h = ground arith

-- No number is listed twice.
abbrev pub IsDistinct : List ℕ → Type 0
IsDistinct [] = Unit {0}
IsDistinct (x ∷ xs) = (contains x xs ≡ false) × IsDistinct xs

pub contains-append :
    (j i : ℕ) (xs : List ℕ) → contains j (xs ++ (i ∷ [])) ≡ (contains j xs || i == j)
contains-append j i [] = ground arith
contains-append j i (x ∷ xs) = ground (arith, contains-append j i xs)

pub push-IsDistinct :
    (i : ℕ) (xs : List ℕ) → contains i xs ≡ false → IsDistinct xs → IsDistinct (xs ++ (i ∷ []))
push-IsDistinct i [] h d = (refl, tt)
push-IsDistinct i (x ∷ xs) h (hx, d) = ground (arith, contains-append x i xs, push-IsDistinct i xs)
