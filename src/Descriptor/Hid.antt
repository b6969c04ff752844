-- ===== src/Descriptor/Hid.antt =====
-- usb-lib/src/core/descriptor.rs, lines 264 to 295: the HID class descriptor.
use rust_usb.Base.{
  ℕ, ◌/◌, ◌%◌, ◌≤◌, ◌<◌, ◌≡◌, ◌≢◌, List, [], ◌∷◌, ◌++◌, arith, length, get_or, ltb, ◌==◌,
  if◌then◌else◌, ◌⊎◌, All, drop, tail,
}
use rust_usb.Error.{Result, ok, err, invalid_descriptor, ◌>>=◌}
use rust_usb.Bytes.{IsByte, index, index-lt, u16_from_le_bytes}

pub record HidDescriptor : Type 0 where
  pub bcd_hid : ℕ
  pub country_code : ℕ
  pub num_descriptors : ℕ
  pub descriptor_type : ℕ
  pub descriptor_length : ℕ

-- The struct literal, whose fields read the buffer in this order.
read_fields : List ℕ → Result HidDescriptor
read_fields buf = do
  b2 ← index buf 2
  b3 ← index buf 3
  b4 ← index buf 4
  b5 ← index buf 5
  b6 ← index buf 6
  b7 ← index buf 7
  b8 ← index buf 8
  ok (record {
    bcd_hid = u16_from_le_bytes b2 b3;
    country_code = b4;
    num_descriptors = b5;
    descriptor_type = b6;
    descriptor_length = u16_from_le_bytes b7 b8;
  })

unfoldable pub from_bytes_at : List ℕ → Result HidDescriptor
unfolding read_fields
from_bytes_at buf =
    let body = read_fields buf in
    if ltb (length buf) 9
    then err invalid_descriptor
    else (index buf 1 >>= λ tag. if tag == 0x21 then body else err invalid_descriptor)

-- The 9 bytes that the specification lays out for the descriptor.
abbrev pub encode : HidDescriptor → List ℕ
encode d =
    9
    ∷ 0x21
    ∷ (d.bcd_hid % 256)
    ∷ (d.bcd_hid / 256)
    ∷ d.country_code
    ∷ d.num_descriptors
    ∷ d.descriptor_type
    ∷ (d.descriptor_length % 256)
    ∷ (d.descriptor_length / 256)
    ∷ []

-- The bytes of any descriptor, with anything behind them, parse to that descriptor.
pub from_bytes_at-encode :
    (d : HidDescriptor) (rest : List ℕ) → from_bytes_at (encode d ++ rest) ≡ ok d
unfolding from_bytes_at index
from_bytes_at-encode d rest = ground arith

-- The parser never panics. It accepts exactly the buffers of at least 9 bytes whose second byte
-- is the tag, 0x21, and answers `invalid_descriptor` on all others.
pub from_bytes_at_total :
    (buf : List ℕ)
    → ((d : HidDescriptor) × (from_bytes_at buf ≡ ok d)
        × (9 ≤ length buf)
        × (get_or buf 1 0 ≡ 0x21))
      ⊎ ((from_bytes_at buf ≡ err invalid_descriptor)
          × ((length buf < 9) ⊎ (get_or buf 1 0 ≢ 0x21)))
unfolding from_bytes_at
from_bytes_at_total buf = ground (
  arith,
  index-lt buf 1,
  index-lt buf 2,
  index-lt buf 3,
  index-lt buf 4,
  index-lt buf 5,
  index-lt buf 6,
  index-lt buf 7,
  index-lt buf 8,
)

-- A buffer of bytes that parses is a length byte, which the parser does not read, then the fields
-- of the result as the specification lays them out, then the rest of the buffer.
pub encode-from_bytes_at :
    (buf : List ℕ) (d : HidDescriptor)
    → All IsByte buf
    → from_bytes_at buf ≡ ok d
    → buf ≡ get_or buf 0 0 ∷ (tail (encode d) ++ drop 9 buf)
unfolding from_bytes_at index
encode-from_bytes_at (b0 ∷ b1 ∷ b2 ∷ b3 ∷ b4 ∷ b5 ∷ b6 ∷ b7 ∷ b8 ∷ rest) d h e = ground arith
encode-from_bytes_at _ d h e = ground arith
