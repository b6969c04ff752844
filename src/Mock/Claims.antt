-- ===== src/Mock/Claims.antt =====
-- Claiming and releasing interfaces on a mock device.
use rust_usb.Base.{
  contains, IsDistinct, contains-append, push-IsDistinct, ℕ, ◌≡◌, refl, List, [], ◌∷◌, Option, none,
  some, ◌==◌, if◌then◌else◌, Bool, true, false, ◌||◌, ◌&&◌, not, arith, Option-cases, inl, inr,
}
use rust_usb.Error.{ok, err, other}
use rust_usb.Mock.{MockDevice, remove_first, claim_interface, release_interface}

-- Whether `remove_first` found anything.
abbrev found : Option (List ℕ) → Bool
found none = false
found (some _) = true

found-remove_first : (i : ℕ) (xs : List ℕ) → found (remove_first i xs) ≡ contains i xs
found-remove_first i [] = refl
found-remove_first i (x ∷ xs) = ground (arith, found-remove_first i xs)

contains-remove_first :
    (i j : ℕ) (xs ys : List ℕ)
    → IsDistinct xs
    → remove_first i xs ≡ some ys
    → contains j ys ≡ (contains j xs && not (i == j))
contains-remove_first i j [] ys d e = cc
contains-remove_first i j (x ∷ xs) ys (hx, d) e = elim (Option-cases (remove_first i xs)) [
  | inl nothing ↦ ground arith
  | inr (zs, left) ↦ ground (arith, contains-remove_first i j xs zs d left)
]

remove_first-IsDistinct :
    (i : ℕ) (xs ys : List ℕ) → IsDistinct xs → remove_first i xs ≡ some ys → IsDistinct ys
remove_first-IsDistinct i [] ys d e = cc
remove_first-IsDistinct i (x ∷ xs) ys (hx, d) e = elim (Option-cases (remove_first i xs)) [
  | inl nothing ↦ ground arith
  | inr (zs, left) ↦
      ground (arith, contains-remove_first i x xs zs d left, remove_first-IsDistinct i xs zs d left)
]

-- On a device whose list of claimed interfaces has no duplicates, `claim_interface` always succeeds,
-- adds the interface to those that are claimed, takes none away, and leaves no duplicates.
pub claim_interface_lem :
    (i j : ℕ) (d : MockDevice)
    → IsDistinct d.claimed_interfaces
    → let (r, d') = claim_interface i d in
      (r ≡ ok tt)
      × IsDistinct d'.claimed_interfaces
      × (contains j d'.claimed_interfaces ≡ (contains j d.claimed_interfaces || i == j))
unfolding claim_interface
claim_interface_lem i j d h =
    ground (arith, contains-append j i d.claimed_interfaces, push-IsDistinct i d.claimed_interfaces)

-- On a device whose list of claimed interfaces has no duplicates, `release_interface` succeeds exactly
-- for a claimed interface, which is then claimed no more, while every other stays as it was; releasing
-- an interface that is not claimed is an error that changes nothing.
pub release_interface_lem :
    (i j : ℕ) (d : MockDevice)
    → IsDistinct d.claimed_interfaces
    → let (r, d') = release_interface i d in
      (r ≡ (
        if contains i d.claimed_interfaces then ok tt else err (other "Interface not claimed" [])))
      × IsDistinct d'.claimed_interfaces
      × (contains j d'.claimed_interfaces ≡ (contains j d.claimed_interfaces && not (i == j)))
unfolding release_interface
release_interface_lem i j d h = elim (Option-cases (remove_first i d.claimed_interfaces)) [
  | inl nothing ↦ ground (arith, found-remove_first i d.claimed_interfaces)
  | inr (ys, left) ↦ ground (
    arith,
    found-remove_first i d.claimed_interfaces,
    contains-remove_first i j d.claimed_interfaces ys h left,
    remove_first-IsDistinct i d.claimed_interfaces ys h left,
  )
]
