-- ===== src/Windows/Entries.antt =====
-- The entries of the list of claimed interfaces: their numbers and their handles.
use rust_usb.Base.{
  ℕ, ◌≡◌, refl, ap, List, [], ◌∷◌, ◌++◌, none, some, arith, ◌==◌, not, true, false, ◌&&◌, contains,
  IsDistinct, nat_eq,
}
use rust_usb.Windows.{WinUsbDevice}
use rust_usb.Windows.Device.{find_handle, remove_handle, handles}

abbrev pub numbers : List (ℕ × ℕ) → List ℕ
numbers [] = []
numbers ((n, _) ∷ rest) = n ∷ numbers rest

-- All handles of a device.
abbrev pub held : WinUsbDevice → List ℕ
held d = d.usb_handle ∷ handles d.assoc_handles

pub handles-append :
    (i h : ℕ) (xs : List (ℕ × ℕ)) → handles (xs ++ ((i, h) ∷ [])) ≡ handles xs ++ (h ∷ [])
handles-append i h [] = refl
handles-append i h (x ∷ xs) = ap (λ l. x.1 ∷ l) (handles-append i h xs)

pub numbers-append :
    (i h : ℕ) (xs : List (ℕ × ℕ)) → numbers (xs ++ ((i, h) ∷ [])) ≡ numbers xs ++ (i ∷ [])
numbers-append i h [] = refl
numbers-append i h (x ∷ xs) = ap (λ l. x.0 ∷ l) (numbers-append i h xs)

pub contains_number :
    (i : ℕ) (xs : List (ℕ × ℕ)) → find_handle i xs ≡ none → contains i (numbers xs) ≡ false
contains_number i [] e = refl
contains_number i ((n, h) ∷ xs) e = ground (arith, contains_number i xs)

pub find_handle-none :
    (i : ℕ) (xs : List (ℕ × ℕ)) → contains i (numbers xs) ≡ false → find_handle i xs ≡ none
find_handle-none i [] e = refl
find_handle-none i ((n, h) ∷ xs) e = ground (arith, find_handle-none i xs)

pub find_handle-contains :
    (i h : ℕ) (xs : List (ℕ × ℕ)) → find_handle i xs ≡ some h → contains h (handles xs) ≡ true
find_handle-contains i h [] e = cc
find_handle-contains i h ((n, g) ∷ xs) e = ground (arith, find_handle-contains i h xs)

pub find_handle-append :
    (i h : ℕ) (xs : List (ℕ × ℕ))
    → find_handle i xs ≡ none
    → find_handle i (xs ++ ((i, h) ∷ [])) ≡ some h
find_handle-append i h [] e = ground arith
find_handle-append i h ((n, g) ∷ xs) e = ground (arith, find_handle-append i h xs)

-- Removing the entry of an interface removes its handle and its number, and no other.
pub handles-remove_handle :
    (i h j : ℕ) (xs : List (ℕ × ℕ))
    → IsDistinct (handles xs)
    → find_handle i xs ≡ some h
    → contains j (handles (remove_handle i xs)) ≡ (contains j (handles xs) && not (h == j))
handles-remove_handle i h j [] d e = cc
handles-remove_handle i h j ((n, g) ∷ xs) (dg, d) e =
    ground (arith, handles-remove_handle i h j xs d, find_handle-contains i h xs)

pub remove_handle-IsDistinct :
    (i h : ℕ) (xs : List (ℕ × ℕ))
    → IsDistinct (handles xs)
    → find_handle i xs ≡ some h
    → IsDistinct (handles (remove_handle i xs))
remove_handle-IsDistinct i h [] d e = cc
remove_handle-IsDistinct i h ((n, g) ∷ xs) (dg, d) e =
    ground (arith, handles-remove_handle i h g xs d, remove_handle-IsDistinct i h xs d)

pub numbers-remove_handle :
    (i j : ℕ) (xs : List (ℕ × ℕ))
    → IsDistinct (numbers xs)
    → contains j (numbers (remove_handle i xs)) ≡ (contains j (numbers xs) && not (i == j))
numbers-remove_handle i j [] d = refl
numbers-remove_handle i j ((n, g) ∷ xs) (dn, d) = ground (arith, numbers-remove_handle i j xs d)

pub remove_handle-numbers :
    (i : ℕ) (xs : List (ℕ × ℕ))
    → IsDistinct (numbers xs)
    → IsDistinct (numbers (remove_handle i xs))
remove_handle-numbers i [] d = tt
remove_handle-numbers i ((n, g) ∷ xs) (dn, d) =
    ground (arith, numbers-remove_handle i n xs d, remove_handle-numbers i xs d)
