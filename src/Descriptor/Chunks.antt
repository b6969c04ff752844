-- ===== src/Descriptor/Chunks.antt =====
-- How a descriptor blob falls into length-prefixed records: the abstract side of the two loops of
-- usb-lib/src/core/descriptor.rs that walk a configuration and a BOS descriptor.
use rust_usb.Base.{
  ℕ, zero, suc, ◌≤◌, ◌<◌, ◌≡◌, refl, sym, List, [], ◌∷◌, ◌++◌, arith, length, get_or, take, drop,
  ◌⊎◌, inl, inr, ltb, Bool-cases, ◌||◌, length-take, length-drop, take-append-drop,
}

-- Nothing complete is left: too few bytes, or a length byte that is too small or points past the end.
abbrev pub Stops : ℕ → List ℕ → Type 0
Stops m area = (length area < m) ⊎ (get_or area 0 0 < m) ⊎ (length area < get_or area 0 0)

-- `area` is the records `cs`, each at least `m` bytes long with its length in front, and a rest
-- that holds no complete record.
pub data Chunked (m : ℕ) : List ℕ → List (List ℕ) → Type 0 where
  stop : {area : List ℕ} → Stops m area → Chunked m area []
  more :
      {area : List ℕ} {cs : List (List ℕ)} (chunk rest : List ℕ)
      → area ≡ chunk ++ rest
      → m ≤ length chunk
      → get_or chunk 0 0 ≡ length chunk
      → Chunked m rest cs
      → Chunked m area (chunk ∷ cs)

get_or-take : (n : ℕ) (xs : List ℕ) → 0 < n → get_or (take n xs) 0 0 ≡ get_or xs 0 0
get_or-take zero xs h = absurd (omega arith)
get_or-take (suc n) [] h = refl
get_or-take (suc n) (x ∷ xs) h = refl

Chunked-below :
    (k m : ℕ) (area : List ℕ) → 0 < m → length area ≤ k → (cs : List (List ℕ)) × Chunked m area cs
Chunked-below zero m area h le = ([], Chunked.stop (inl (omega arith)))
Chunked-below (suc k) m area h le =
    let l = get_or area 0 0 in
    elim (Bool-cases (ltb (length area) m || (ltb l m || ltb (length area) l))) [
      | inl e ↦ ([], Chunked.stop (ground arith))
      | inr e ↦
          let size : length (take l area) ≡ l = ground (arith, length-take l area) in
          let (cs, rest) = Chunked-below k m (drop l area) h (ground (arith, length-drop l area)) in
          (
            take l area ∷ cs,
            Chunked.more (take l area) (drop l area) (sym (take-append-drop l area)) (ground arith)
                (ground (arith, get_or-take l area)) rest,
          )
    ]

-- Every blob falls into records in this way.
pub chunked : (m : ℕ) (area : List ℕ) → 0 < m → (cs : List (List ℕ)) × Chunked m area cs
chunked m area h = Chunked-below (length area) m area h (omega arith)
