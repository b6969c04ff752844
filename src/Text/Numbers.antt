-- ===== src/Text/Numbers.antt =====
-- `from_str_radix` and `parse` of Rust's unsigned integers, and the number formats `{}` and `{:04x}`.
use rust_usb.Base.{
  ℕ, ◌+◌, ◌-◌, ◌*◌, ◌/◌, ◌%◌, ◌<◌, ◌≡◌, refl, [], ◌∷◌, Option, none, some, ◌==◌, leb, ltb, ◌&&◌,
  ◌||◌, if◌then◌else◌, All, arith, ◌∙◌, ap, le→leb, ◌≤◌, ◌⊎◌, inl, inr,
}
use rust_usb.Text.{Text}

-- `char::to_digit(radix)`, for a radix up to 36.
unfoldable pub to_digit : ℕ → ℕ → Option ℕ
to_digit radix c =
    let value =
      if leb 48 c && leb c 57
      then c - 48
      else (if leb 65 c && leb c 90
          then c - 55
          else (if leb 97 c && leb c 122 then c - 87 else 36)) in
    if ltb value radix then some value else none

-- The digits, from the left, up to the type's largest value.
unfoldable pub add_digits : ℕ → ℕ → ℕ → Text → Option ℕ
unfolding to_digit
add_digits radix largest acc [] = some acc
add_digits radix largest acc (c ∷ cs) = elim (to_digit radix c) [
  | none ↦ none
  | some d ↦
      let rest = add_digits radix largest (acc * radix + d) cs in
      if leb (acc * radix + d) largest then rest else none
]

-- `from_str_radix` of an unsigned type, where only the value of a success matters. A leading `+` is
-- allowed, but no sign alone.
unfoldable pub from_str_radix : ℕ → ℕ → Text → Option ℕ
unfolding add_digits
from_str_radix radix largest [] = none
from_str_radix radix largest (c ∷ []) =
    if c == 43 || c == 45 then none else add_digits radix largest 0 (c ∷ [])
from_str_radix radix largest (c ∷ d ∷ cs) =
    if c == 43 then add_digits radix largest 0 (d ∷ cs) else add_digits radix largest 0 (c ∷ d ∷ cs)

unfoldable pub parse_u8 : Text → Option ℕ
unfolding from_str_radix
parse_u8 t = from_str_radix 10 255 t

-- `{}` of a u8
unfoldable pub display_u8 : ℕ → Text
display_u8 n =
    if ltb n 10
    then (n + 48) ∷ []
    else (if ltb n 100
        then (n / 10 + 48) ∷ (n % 10 + 48) ∷ []
        else (n / 100 + 48) ∷ (n / 10 % 10 + 48) ∷ (n % 10 + 48) ∷ [])

unfoldable pub hex_char : ℕ → ℕ
hex_char d = if ltb d 10 then d + 48 else d + 87

-- The same with capital letters.
unfoldable pub hex_capital : ℕ → ℕ
hex_capital d = if ltb d 10 then d + 48 else d + 55

-- The four hexadecimal digits of a u16.
abbrev pub four_digits : (ℕ → ℕ) → ℕ → Text
four_digits digit n =
    digit (n / 4096) ∷ digit (n / 256 % 16) ∷ digit (n / 16 % 16) ∷ digit (n % 16) ∷ []

-- `{:04x}` and `{:04X}` of a u16
unfoldable pub display_hex : ℕ → Text
display_hex n = four_digits hex_char n

unfoldable pub display_capital_hex : ℕ → Text
display_capital_hex n = four_digits hex_capital n

to_digit-decimal : (d : ℕ) → d < 10 → to_digit 10 (d + 48) ≡ some d
unfolding to_digit
to_digit-decimal d h = ground arith

-- Characters that stand for the sixteen digits.
IsHex : (ℕ → ℕ) → Type 0
IsHex digit = (d : ℕ) → d < 16 → (to_digit 16 (digit d) ≡ some d) × (47 < digit d)

hex_char-IsHex : IsHex hex_char
unfolding to_digit hex_char IsHex
hex_char-IsHex d h = (ground arith, ground arith)

hex_capital-IsHex : IsHex hex_capital
unfolding to_digit hex_capital IsHex
hex_capital-IsHex d h = (ground arith, ground arith)

add_digits-step :
    (radix largest acc c d : ℕ) (cs : Text)
    → to_digit radix c ≡ some d
    → acc * radix + d ≤ largest
    → add_digits radix largest acc (c ∷ cs) ≡ add_digits radix largest (acc * radix + d) cs
unfolding add_digits
add_digits-step radix largest acc c d cs e h =
    rw (add_digits, e, le→leb (acc * radix + d) largest h) refl

from_str_radix-unsigned :
    (radix largest c : ℕ) (cs : Text)
    → 47 < c
    → from_str_radix radix largest (c ∷ cs) ≡ add_digits radix largest 0 (c ∷ cs)
unfolding from_str_radix
from_str_radix-unsigned radix largest c [] h = ground arith
from_str_radix-unsigned radix largest c (d ∷ cs) h = ground arith

decimal_step :
    (acc d : ℕ) (cs : Text)
    → d < 10
    → acc * 10 + d ≤ 255
    → add_digits 10 255 acc ((d + 48) ∷ cs) ≡ add_digits 10 255 (acc * 10 + d) cs
decimal_step acc d cs h small =
    add_digits-step 10 255 acc (d + 48) d cs (to_digit-decimal d h) small

hex_step :
    (digit : ℕ → ℕ) (acc d : ℕ) (cs : Text)
    → IsHex digit
    → d < 16
    → acc * 16 + d ≤ 65535
    → add_digits 16 65535 acc (digit d ∷ cs) ≡ add_digits 16 65535 (acc * 16 + d) cs
unfolding IsHex
hex_step digit acc d cs hex h small = add_digits-step 16 65535 acc (digit d) d cs (hex d h).0 small

digits_done : (radix largest acc n : ℕ) → acc ≡ n → add_digits radix largest acc [] ≡ some n
unfolding add_digits
digits_done radix largest acc n e = ap some e

-- A number has one, two or three digits.
display_u8-cases :
    (n : ℕ)
    → ((n < 10) × (display_u8 n ≡ (n + 48) ∷ []))
      ⊎ ((n < 100) × (display_u8 n ≡ (n / 10 + 48) ∷ (n % 10 + 48) ∷ []))
      ⊎ (display_u8 n ≡ (n / 100 + 48) ∷ (n / 10 % 10 + 48) ∷ (n % 10 + 48) ∷ [])
unfolding display_u8
display_u8-cases n = ground arith

-- A number that is shown and parsed again is the same number.
pub parse_u8-display_u8 : (n : ℕ) → n < 256 → parse_u8 (display_u8 n) ≡ some n
unfolding parse_u8
parse_u8-display_u8 n h = elim (display_u8-cases n) [
  | inl (small, e) ↦ rw e (
      from_str_radix-unsigned 10 255 (n + 48) [] (omega arith)
      ∙ decimal_step 0 n [] small (omega arith)
      ∙ digits_done 10 255 (0 * 10 + n) n (omega arith))
  | inr (inl (small, e)) ↦ rw e (
      from_str_radix-unsigned 10 255 (n / 10 + 48) ((n % 10 + 48) ∷ []) (omega arith)
      ∙ decimal_step 0 (n / 10) ((n % 10 + 48) ∷ []) (omega arith) (omega arith)
      ∙ decimal_step (0 * 10 + n / 10) (n % 10) [] (omega arith) (omega arith)
      ∙ digits_done 10 255 ((0 * 10 + n / 10) * 10 + n % 10) n (omega arith))
  | inr (inr e) ↦ rw e (
      from_str_radix-unsigned 10 255 (n / 100 + 48) ((n / 10 % 10 + 48) ∷ (n % 10 + 48) ∷ [])
        (omega arith)
      ∙ decimal_step 0 (n / 100) ((n / 10 % 10 + 48) ∷ (n % 10 + 48) ∷ []) (omega arith)
          (omega arith)
      ∙ decimal_step (0 * 10 + n / 100) (n / 10 % 10) ((n % 10 + 48) ∷ []) (omega arith)
          (omega arith)
      ∙ decimal_step ((0 * 10 + n / 100) * 10 + n / 10 % 10) (n % 10) [] (omega arith) (omega arith)
      ∙ digits_done 10 255 (((0 * 10 + n / 100) * 10 + n / 10 % 10) * 10 + n % 10) n (omega arith))
]

from_str_radix-four_digits :
    (digit : ℕ → ℕ) (n : ℕ)
    → IsHex digit
    → n < 65536
    → from_str_radix 16 65535 (four_digits digit n) ≡ some n
from_str_radix-four_digits digit n hex h =
    let a = n / 4096 in
    let b = n / 256 % 16 in
    let c = n / 16 % 16 in
    let d = n % 16 in
    let ab = (0 * 16 + a) * 16 + b in
    from_str_radix-unsigned 16 65535 (digit a) (digit b ∷ digit c ∷ digit d ∷ [])
      (unfold IsHex in (hex a (omega arith)).1)
    ∙ hex_step digit 0 a (digit b ∷ digit c ∷ digit d ∷ []) hex (omega arith) (omega arith)
    ∙ hex_step digit (0 * 16 + a) b (digit c ∷ digit d ∷ []) hex (omega arith) (omega arith)
    ∙ hex_step digit ab c (digit d ∷ []) hex (omega arith) (omega arith)
    ∙ hex_step digit (ab * 16 + c) d [] hex (omega arith) (omega arith)
    ∙ digits_done 16 65535 ((ab * 16 + c) * 16 + d) n (omega arith)

pub from_str_radix-display_hex :
    (n : ℕ) → n < 65536 → from_str_radix 16 65535 (display_hex n) ≡ some n
unfolding display_hex
from_str_radix-display_hex n h = from_str_radix-four_digits hex_char n hex_char-IsHex h

pub from_str_radix-display_capital_hex :
    (n : ℕ) → n < 65536 → from_str_radix 16 65535 (display_capital_hex n) ≡ some n
unfolding display_capital_hex
from_str_radix-display_capital_hex n h =
    from_str_radix-four_digits hex_capital n hex_capital-IsHex h

-- What holds of all digits holds of all characters of a number.
pub display_u8-All :
    (P : ℕ → Type 0) → ((d : ℕ) → d < 10 → P (d + 48)) → (n : ℕ) → n < 256 → All P (display_u8 n)
display_u8-All P h n small = elim (display_u8-cases n) [
  | inl (s, e) ↦ rw e (h n s, tt)
  | inr (inl (s, e)) ↦ rw e (h _ (omega arith), (h _ (omega arith), tt))
  | inr (inr e) ↦ rw e (h _ (omega arith), (h _ (omega arith), (h _ (omega arith), tt)))
]

four_digits-All :
    (P : ℕ → Type 0) (digit : ℕ → ℕ)
    → ((d : ℕ) → d < 16 → P (digit d))
    → (n : ℕ) → n < 65536
    → All P (four_digits digit n)
four_digits-All P digit h n small =
    (h _ (omega arith), (h _ (omega arith), (h _ (omega arith), (h _ (omega arith), tt))))

pub display_hex-All :
    (P : ℕ → Type 0)
    → ((d : ℕ) → d < 16 → P (hex_char d))
    → (n : ℕ) → n < 65536
    → All P (display_hex n)
unfolding display_hex
display_hex-All P h n small = four_digits-All P hex_char h n small

pub display_capital_hex-All :
    (P : ℕ → Type 0)
    → ((d : ℕ) → d < 16 → P (hex_capital d))
    → (n : ℕ) → n < 65536
    → All P (display_capital_hex n)
unfolding display_capital_hex
display_capital_hex-All P h n small = four_digits-All P hex_capital h n small
