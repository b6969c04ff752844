-- ===== src/Descriptor/Companion.antt =====
-- usb-lib/src/core/descriptor.rs, lines 198 to 225: the SuperSpeed endpoint companion.
use rust_usb.Base.{
  ℕ, ◌/◌, ◌%◌, ◌≤◌, ◌<◌, ◌≡◌, ◌≢◌, List, [], ◌∷◌, ◌++◌, arith, length, get_or, ltb, ◌==◌,
  if◌then◌else◌, ◌⊎◌, All, drop, tail,
}
use rust_usb.Error.{Result, ok, err, invalid_descriptor, ◌>>=◌}
use rust_usb.Bytes.{IsByte, index, index-lt, u16_from_le_bytes}

pub record SuperSpeedEndpointCompanion : Type 0 where
  pub max_burst : ℕ
  pub attributes : ℕ
  pub bytes_per_interval : ℕ

-- The struct literal, whose fields read the buffer in this order.
read_fields : List ℕ → Result SuperSpeedEndpointCompanion
read_fields buf = do
  b2 ← index buf 2
  b3 ← index buf 3
  b4 ← index buf 4
  b5 ← index buf 5
  ok (record { max_burst = b2; attributes = b3; bytes_per_interval = u16_from_le_bytes b4 b5 })

unfoldable pub from_bytes_at : List ℕ → Result SuperSpeedEndpointCompanion
unfolding read_fields
from_bytes_at buf =
    let body = read_fields buf in
    if ltb (length buf) 6
    then err invalid_descriptor
    else (index buf 1 >>= λ tag. if tag == 0x30 then body else err invalid_descriptor)

-- The 6 bytes that the specification lays out for the descriptor.
abbrev pub encode : SuperSpeedEndpointCompanion → List ℕ
encode d =
    6
    ∷ 0x30
    ∷ d.max_burst
    ∷ d.attributes
    ∷ (d.bytes_per_interval % 256)
    ∷ (d.bytes_per_interval / 256)
    ∷ []

-- The bytes of any descriptor, with anything behind them, parse to that descriptor.
pub from_bytes_at-encode :
    (d : SuperSpeedEndpointCompanion) (rest : List ℕ) → from_bytes_at (encode d ++ rest) ≡ ok d
unfolding from_bytes_at index
from_bytes_at-encode d rest = ground arith

-- The parser never panics. It accepts exactly the buffers of at least 6 bytes whose second byte
-- is the tag, 0x30, and answers `invalid_descriptor` on all others.
pub from_bytes_at_total :
    (buf : List ℕ)
    → ((d : SuperSpeedEndpointCompanion) × (from_bytes_at buf ≡ ok d)
        × (6 ≤ length buf)
        × (get_or buf 1 0 ≡ 0x30))
      ⊎ ((from_bytes_at buf ≡ err invalid_descriptor)
          × ((length buf < 6) ⊎ (get_or buf 1 0 ≢ 0x30)))
unfolding from_bytes_at
from_bytes_at_total buf =
    ground (arith, index-lt buf 1, index-lt buf 2, index-lt buf 3, index-lt buf 4, index-lt buf 5)

-- A buffer of bytes that parses is a length byte, which the parser does not read, then the fields
-- of the result as the specification lays them out, then the rest of the buffer.
pub encode-from_bytes_at :
    (buf : List ℕ) (d : SuperSpeedEndpointCompanion)
    → All IsByte buf
    → from_bytes_at buf ≡ ok d
    → buf ≡ get_or buf 0 0 ∷ (tail (encode d) ++ drop 6 buf)
unfolding from_bytes_at index
encode-from_bytes_at (b0 ∷ b1 ∷ b2 ∷ b3 ∷ b4 ∷ b5 ∷ rest) d h e = ground arith
encode-from_bytes_at _ d h e = ground arith
