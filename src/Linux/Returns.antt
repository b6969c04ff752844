-- ===== src/Linux/Returns.antt =====
-- Lemmas that an operation returns a value or an error, and neither panics nor runs out of fuel.
use rust_usb.Base.{
  ℕ, zero, suc, ◌≤◌, ◌<◌, ◌≡◌, refl, List, [], ◌∷◌, arith, length, get_or, replicate, All, le→leb,
  if◌then◌else◌, inl, inr, Bool, true, false, nat_eq,
}
use rust_usb.Error.{UsbError, Result, ok, err, panic, no_fuel, Returns, ◌>>=◌}
use rust_usb.Backend.{and_then}
use rust_usb.Bytes.{IsByte, index, index-lt, slice}
use rust_usb.Descriptor.Device.{device_from_bytes_total}
use rust_usb.Descriptor.Device
use rust_usb.Descriptor.Config
use rust_usb.Descriptor.Config.Total.{config_from_bytes_total}

abbrev pub AnyError : UsbError → Type 0
AnyError e = Unit {0}

pub bind-Returns :
    {A B : Type 0} (r : Result A) (f : A → Result B)
    → Returns AnyError r
    → ((a : A) → Returns AnyError (f a))
    → Returns AnyError (r >>= f)
bind-Returns (ok a) f h g = g a
bind-Returns (err e) f h g = tt
bind-Returns panic f h g = absurd h
bind-Returns no_fuel f h g = absurd h

pub if-Returns :
    {A : Type 0} (b : Bool) (x y : Result A)
    → Returns AnyError x
    → (b ≡ false → Returns AnyError y)
    → Returns AnyError (if b then x else y)
if-Returns true x y hx hy = hx
if-Returns false x y hx hy = hy refl

pub index-Returns : (buf : List ℕ) (i : ℕ) → i < length buf → Returns AnyError (index buf i)
index-Returns buf i h = rw (index-lt buf i h) tt

pub device-Returns : (buf : List ℕ) → Returns AnyError (Device.from_bytes buf)
device-Returns buf = elim (device_from_bytes_total buf) [
  | inl (d, e, _, _) ↦ rw e tt
  | inr (e, _) ↦ rw e tt
]

pub config-Returns : (buf : List ℕ) → Returns AnyError (Config.from_bytes buf)
config-Returns buf = elim (config_from_bytes_total buf) [
  | inl (_, _, cs, _, e) ↦ rw e tt
  | inr (_, e) ↦ rw e tt
]

pub and_then-Returns :
    {S A B : Type 0} (x : Result A × S) (f : A → S → Result B × S)
    → Returns AnyError x.0
    → ((a : A) (s : S) → Returns AnyError (f a s).0)
    → Returns AnyError (and_then x f).0
and_then-Returns (ok a, s) f h g = g a s
and_then-Returns (err e, s) f h g = tt
and_then-Returns (panic, s) f h g = absurd h
and_then-Returns (no_fuel, s) f h g = absurd h

pub byte_at : (buf : List ℕ) (i : ℕ) → All IsByte buf → get_or buf i 0 < 256
byte_at [] i h = omega arith
byte_at (x ∷ xs) zero h = h.0
byte_at (x ∷ xs) (suc i) h = byte_at xs i h.1

pub zeros-IsByte : (n : ℕ) → All IsByte (replicate n 0)
zeros-IsByte zero = tt
zeros-IsByte (suc n) = (omega arith, zeros-IsByte n)

pub slice-Returns :
    (buf : List ℕ) (i j : ℕ) → i ≤ j → j ≤ length buf → Returns AnyError (slice buf i j)
unfolding slice
slice-Returns buf i j h g = rw (le→leb _ _ h, le→leb _ _ g) tt
