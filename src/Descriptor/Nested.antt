-- ===== src/Descriptor/Nested.antt =====
-- The four parsers of nested descriptors together (usb-lib/src/core/descriptor.rs, `from_bytes_at`).
use rust_usb.Base.{ℕ, ◌≤◌, ◌<◌, ◌≡◌, ◌≢◌, ◌⊎◌, List, length, get_or}
use rust_usb.Error.{Result, ok, err, invalid_descriptor}
use rust_usb.Descriptor.Companion
use rust_usb.Descriptor.Endpoint
use rust_usb.Descriptor.Hid
use rust_usb.Descriptor.Interface

-- A parser that accepts exactly the buffers of at least `n` bytes with `tag` in the second byte, and
-- answers `invalid_descriptor` on any other.
abbrev pub Accepts : {A : Type 0} → (List ℕ → Result A) → ℕ → ℕ → List ℕ → Type 0
Accepts {A} parse n tag buf =
    ((d : A) × (parse buf ≡ ok d) × (n ≤ length buf) × (get_or buf 1 0 ≡ tag))
    ⊎ ((parse buf ≡ err invalid_descriptor) × ((length buf < n) ⊎ (get_or buf 1 0 ≢ tag)))

-- On any buffer the parsers of interface, endpoint, HID and companion descriptors return without a
-- panic: each accepts exactly the buffers of at least 9, 7, 9 and 6 bytes whose second byte is its
-- tag, 0x04, 0x05, 0x21 and 0x30, and answers `invalid_descriptor` on any other.
pub nested_parsers_accept :
    (buf : List ℕ)
    → Accepts Interface.from_bytes_at 9 0x04 buf
      × Accepts Endpoint.from_bytes_at 7 0x05 buf
      × Accepts Hid.from_bytes_at 9 0x21 buf
      × Accepts Companion.from_bytes_at 6 0x30 buf
nested_parsers_accept buf = (
  Interface.from_bytes_at_total buf,
  Endpoint.from_bytes_at_total buf,
  Hid.from_bytes_at_total buf,
  Companion.from_bytes_at_total buf,
)
