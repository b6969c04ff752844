-- ===== src/Text.antt =====
-- `String::from_utf16_lossy` of Rust's standard library, which every string descriptor goes through.
-- A text is the list of its code points, and a UTF-16 text that of its 16-bit units.
mod Tests
pub mod Numbers
pub mod Search
use rust_usb.Base.{
  ℕ, zero, suc, ◌+◌, ◌-◌, ◌*◌, ◌/◌, ◌%◌, ◌≤◌, ◌<◌, ◌≡◌, ◌⊎◌, inl, inr, refl, List, [], ◌∷◌, ◌++◌,
  All, arith, ltb, leb, ◌&&◌, ◌||◌, if◌then◌else◌, ap, Bool-cases, Bool, true, false,
}

abbrev pub Text : Type 0
Text = List ℕ

abbrev pub replacement : ℕ
replacement = 0xFFFD

abbrev is_high : ℕ → Bool
is_high u = leb 0xD800 u && ltb u 0xDC00

abbrev is_low : ℕ → Bool
is_low u = leb 0xDC00 u && ltb u 0xE000

-- A surrogate that is not the first half of a pair decodes to the replacement character, and what
-- follows it is decoded afresh.
unfoldable pub from_utf16_lossy : List ℕ → Text
from_utf16_lossy [] = []
from_utf16_lossy (u ∷ []) = (if is_high u || is_low u then replacement else u) ∷ []
from_utf16_lossy (u ∷ v ∷ units) =
    let next = from_utf16_lossy (v ∷ units) in
    let pair = from_utf16_lossy units in
    if is_high u
    then (if is_low v
        then (0x10000 + (u - 0xD800) * 0x400 + (v - 0xDC00)) ∷ pair
        else replacement ∷ next)
    else (if is_low u then replacement ∷ next else u ∷ next)

-- The UTF-16 form of one code point and of a text, as the Unicode standard defines it.
abbrev pub encode_char : ℕ → List ℕ → List ℕ
encode_char c rest =
    if ltb c 0x10000
    then c ∷ rest
    else (0xD800 + (c - 0x10000) / 0x400) ∷ (0xDC00 + (c - 0x10000) % 0x400) ∷ rest

abbrev pub encode_utf16 : Text → List ℕ
encode_utf16 [] = []
encode_utf16 (c ∷ cs) = encode_char c (encode_utf16 cs)

-- A code point that is no surrogate: a `char` of Rust.
abbrev pub IsScalar : ℕ → Type 0
IsScalar c = (c < 0xD800) ⊎ ((0xE000 ≤ c) × (c < 0x110000))

plain_unit :
    (u : ℕ) (units : List ℕ)
    → (u < 0xD800) ⊎ (0xE000 ≤ u)
    → from_utf16_lossy (u ∷ units) ≡ u ∷ from_utf16_lossy units
unfolding from_utf16_lossy
plain_unit u [] h = ground arith
plain_unit u (v ∷ units) h = ground arith

surrogate_pair :
    (c : ℕ) (units : List ℕ)
    → 0x10000 ≤ c
    → c < 0x110000
    → from_utf16_lossy ((0xD800 + (c - 0x10000) / 0x400) ∷ (0xDC00 + (c - 0x10000) % 0x400) ∷ units)
      ≡ c ∷ from_utf16_lossy units
unfolding from_utf16_lossy
surrogate_pair c units lo hi = ground arith

from_utf16_lossy-encode_char :
    (c : ℕ) (units : List ℕ)
    → IsScalar c
    → from_utf16_lossy (encode_char c units) ≡ c ∷ from_utf16_lossy units
from_utf16_lossy-encode_char c units h = elim (Bool-cases (ltb c 0x10000)) [
  | inl small ↦ rw small (plain_unit c units (ground arith))
  | inr large ↦ rw large (surrogate_pair c units (ground arith) (ground arith))
]

-- Every text of Rust characters comes back from its UTF-16 form unchanged.
pub from_utf16_lossy-encode_utf16 :
    (t : Text) → All IsScalar t → from_utf16_lossy (encode_utf16 t) ≡ t
from_utf16_lossy-encode_utf16 [] h = unfold from_utf16_lossy in refl
from_utf16_lossy-encode_utf16 (c ∷ t) (hc, h) =
    rw (from_utf16_lossy-encode_char c (encode_utf16 t) hc, from_utf16_lossy-encode_utf16 t h) refl

-- What `from_utf16_lossy` returns is always a text of Rust characters.
pub from_utf16_lossy-IsScalar :
    (units : List ℕ) → All (λ u. u < 0x10000) units → All IsScalar (from_utf16_lossy units)
unfolding from_utf16_lossy
from_utf16_lossy-IsScalar [] h = tt
from_utf16_lossy-IsScalar (u ∷ []) h = ground arith
from_utf16_lossy-IsScalar (u ∷ v ∷ units) (hu, (hv, h)) =
    ground (arith, from_utf16_lossy-IsScalar (v ∷ units) (hv, h), from_utf16_lossy-IsScalar units h)
