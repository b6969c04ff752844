-- ===== src/Base/Bits.antt =====
-- Masks on one byte as arithmetic, by tables of 256 entries that are checked by evaluation; and
-- `high << 8 | low` as a sum, by the recursion on binary digits.
use Prim.Native.Nat.{ℕ, zero, suc, ◌+◌, ◌*◌, ◌/◌, ◌%◌, ◌≤◌, ◌<◌, max, bit_and, bit_or}
use Prim.Native.Nat.{digits, bit_or-bitwise}
use mathlib.Core.Path.{◌≡◌, refl}
use mathlib.Core.Bool.{Bool, true, false}
use mathlib.Core.Logic.{ite}
use native.Mathlib.Decide.{ℕ_discrete}
use native.Mathlib.Omega.{arith}

-- Whether two functions give the same value at every number below a bound.
same_below : (ℕ → ℕ) → (ℕ → ℕ) → ℕ → Bool
unfolding ℕ_discrete
same_below f g zero = true
same_below f g (suc n) = ite (ℕ_discrete (f n) (g n)) (same_below f g n) false

same_below→eq : (f g : ℕ → ℕ) (n : ℕ) → same_below f g n ≡ true → (i : ℕ) → i < n → f i ≡ g i
unfolding same_below
same_below→eq f g zero e i h = absurd (omega arith)
same_below→eq f g (suc n) e i h = ground (arith, same_below→eq f g n (ground arith) i)

-- Bit 7, the direction bit of an endpoint address and of a request type.
pub bit_and-128 : (b : ℕ) → b < 256 → bit_and b 0x80 ≡ b / 128 * 128
unfolding same_below
bit_and-128 = same_below→eq _ _ 256 refl

-- Bits 0 to 3, the endpoint number.
pub bit_and-15 : (b : ℕ) → b < 256 → bit_and b 0x0f ≡ b % 16
unfolding same_below
bit_and-15 = same_below→eq _ _ 256 refl

-- Bits 0 and 1, the transfer type.
pub bit_and-3 : (b : ℕ) → b < 256 → bit_and b 0x03 ≡ b % 4
unfolding same_below
bit_and-3 = same_below→eq _ _ 256 refl

-- Bits 0 to 4, the recipient of a request.
pub bit_and-31 : (b : ℕ) → b < 256 → bit_and b 0x1f ≡ b % 32
unfolding same_below
bit_and-31 = same_below→eq _ _ 256 refl

-- Setting bit 7 of a value that does not have it.
pub bit_or-128 : (b : ℕ) → b < 128 → bit_or 0x80 b ≡ b + 128
unfolding same_below
bit_or-128 = same_below→eq _ _ 128 refl

abbrev or_digits : ℕ → ℕ → ℕ → ℕ
or_digits n a b = digits (λ b. b) max n a b

or_digits_fuel : (n m a b : ℕ) → a ≤ n → a ≤ m → or_digits n a b ≡ or_digits m a b
or_digits_fuel zero zero a b p q = refl
or_digits_fuel zero (suc m) zero b p q = refl
or_digits_fuel zero (suc m) (suc a) b p q = absurd (omega arith)
or_digits_fuel (suc n) zero zero b p q = refl
or_digits_fuel (suc n) zero (suc a) b p q = absurd (omega arith)
or_digits_fuel (suc n) (suc m) zero b p q = refl
or_digits_fuel (suc n) (suc m) (suc a) b p q =
    omega (arith, or_digits_fuel n m (suc a / 2) (b / 2) (omega arith) (omega arith))

zero-bit_or : (b : ℕ) → bit_or 0 b ≡ b
zero-bit_or b = bit_or-bitwise 0 b

-- The lowest digit of `a | b`.
bit_or_step : (a b : ℕ) → bit_or a b ≡ bit_or (a / 2) (b / 2) * 2 + max (a % 2) (b % 2)
bit_or_step zero b = omega (arith, zero-bit_or b, zero-bit_or (b / 2))
bit_or_step (suc a) b = omega (
  arith,
  bit_or-bitwise (suc a) b,
  bit_or-bitwise (suc a / 2) (b / 2),
  or_digits_fuel a (suc a / 2) (suc a / 2) (b / 2) (omega arith) (omega arith),
)

bit_or-even : (a b : ℕ) → bit_or (2 * a) b ≡ 2 * bit_or a (b / 2) + b % 2
bit_or-even a b =
    let half : 2 * a / 2 ≡ a = omega arith in rw (bit_or_step (2 * a) b, half) (omega arith)

-- `2 ^ k * a`, a digit at a time.
double : ℕ → ℕ → ℕ
double zero a = a
double (suc k) a = 2 * double k a

bit_or-zero_fuel : (n a : ℕ) → a ≤ n → bit_or a 0 ≡ a
bit_or-zero_fuel n zero h = refl
bit_or-zero_fuel zero (suc a) h = absurd (omega arith)
bit_or-zero_fuel (suc n) (suc a) h =
    omega (arith, bit_or_step (suc a) 0, bit_or-zero_fuel n (suc a / 2) (omega arith))

bit_or-double : (k a b : ℕ) → b < double k 1 → bit_or (double k a) b ≡ double k a + b
unfolding double
bit_or-double zero a b h =
    let none_set : b ≡ 0 = omega arith in
    rw none_set (omega (arith, bit_or-zero_fuel a a (omega arith)))
bit_or-double (suc k) a b h =
    omega (arith, bit_or-even (double k a) b, bit_or-double k a (b / 2) (omega arith))

-- A byte below another, as `(high << 8) | low`.
pub bit_or-byte : (a b : ℕ) → b < 256 → bit_or (a * 256) b ≡ a * 256 + b
unfolding double
bit_or-byte a b h =
    let shifted : double 8 a ≡ a * 256 = omega arith in
    rw shifted at (bit_or-double 8 a b (omega arith))
