-- ===== src/Base/Bags.antt =====
-- Lists as bags, over a type with a decision of equality: how often a member is there.
use mathlib.Core.Logic.{ite, if_pos, if_neg, ◌≢◌}
use Prim.Native.Nat.{ℕ, ◌+◌, ◌-◌}
use mathlib.Core.Path.{◌≡◌, sym, ◌∙◌}
use mathlib.Core.List.{List, [], ◌∷◌}
use native.Mathlib.Omega.{arith}

module _ {A : Type 0} (discrete : Discrete A) where
  -- 1 for the thing itself, 0 for any other.
  unfoldable pub one_if : A → A → ℕ
  one_if a b = ite (discrete a b) 1 0

  abbrev pub count : List A → A → ℕ
  count [] o = 0
  count (x ∷ w) o = count w o + one_if x o

  unfoldable pub remove : A → List A → List A
  remove a [] = []
  remove a (x ∷ w) = let rest = remove a w in ite (discrete a x) w (x ∷ rest)

  pub one_if-unlike : (a b : A) → a ≢ b → one_if a b ≡ 0
  unfolding one_if
  one_if-unlike a b h = if_neg (discrete a b) h 1 0

  pub count-remove : (a : A) (w : List A) (o : A) → count (remove a w) o ≡ count w o - one_if a o
  unfolding remove
  count-remove a [] o = ground arith
  count-remove a (x ∷ w) o = elim (discrete a x) [
    | yes p ↦ rw (if_pos (discrete a x) p w (x ∷ remove a w), p) (omega arith)
    | no h ↦
        rw (if_neg (discrete a x) h w (x ∷ remove a w), count-remove a w o)
          (elim (discrete a o) [
            | yes q ↦ rw (one_if-unlike x o (λ z. h (q ∙ sym z))) (omega arith)
            | no q ↦ rw (one_if-unlike a o q) (omega arith)
          ])
  ]
