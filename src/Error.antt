-- ===== src/Error.antt =====
-- usb-lib/src/error.rs: the error type of every operation. What a Rust function with the return
-- type `Result` does is a `Result` here, which has two more cases: the function panics, or a loop
-- of the model runs out of fuel.
use rust_usb.Base.{ℕ, String, List, [], ◌∷◌, ◌==◌, if◌then◌else◌, ◌||◌}

-- `std::io::Error`, by its `kind()`: the code only tells `PermissionDenied` from the other kinds.
pub data IoError : Type 0 where
  permission : IoError
  other_kind : ℕ → IoError

-- A formatted message is kept as its format string and the numbers put into it.
pub data UsbError : Type 0 where
  io : IoError → UsbError
  invalid_descriptor : UsbError
  device_not_found : UsbError
  permission_denied : UsbError
  timeout : UsbError
  stall : UsbError
  invalid_handle : UsbError
  unsupported : UsbError
  other : String → List ℕ → UsbError

pub data Result {ℓ} (A : Type ℓ) : Type ℓ where
  ok : A → Result A
  err : UsbError → Result A
  panic : Result A
  no_fuel : Result A

infixl 5 ◌>>=◌ ◌>>◌
abbrev pub ◌>>=◌ {ℓ κ} : {A : Type ℓ} {B : Type κ} → Result A → (A → Result B) → Result B
ok a >>= f = f a
err e >>= f = err e
panic >>= f = panic
no_fuel >>= f = no_fuel

abbrev pub ◌>>◌ {ℓ κ} : {A : Type ℓ} {B : Type κ} → Result A → Result B → Result B
m >> k = m >>= λ _. k

-- The outcomes that a caller can see: a value, or an error that satisfies `E`.
abbrev pub Returns {ℓ} : {A : Type ℓ} → (UsbError → Type 0) → Result A → Type 0
Returns E (ok a) = Unit {0}
Returns E (err e) = E e
Returns E panic = ⊥
Returns E no_fuel = ⊥

-- `impl From<windows::core::Error> for UsbError`, from the HRESULT as a u32.
unfoldable pub from_win32 : ℕ → UsbError
from_win32 code =
    if code == 0x8007_0005
    then permission_denied
    else (if code == 0x8007_0006
        then invalid_handle
        else (if code == 0x8007_0002 || (code == 0x8007_01B1 || code == 0x8007_048F)
            then device_not_found
            else (if code == 0x8007_0079
                then timeout
                else (if code == 0x8007_0016 then stall else other "{}" (code ∷ [])))))
