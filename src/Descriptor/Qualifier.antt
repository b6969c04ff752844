-- ===== src/Descriptor/Qualifier.antt =====
-- usb-lib/src/core/descriptor.rs, lines 227 to 262: the device qualifier descriptor.
use rust_usb.Base.{
  ℕ, ◌/◌, ◌%◌, ◌≤◌, ◌<◌, ◌≡◌, ◌≢◌, List, [], ◌∷◌, ◌++◌, arith, length, get_or, ltb, ◌==◌,
  if◌then◌else◌, ◌⊎◌,
}
use rust_usb.Error.{Result, ok, err, invalid_descriptor, ◌>>=◌}
use rust_usb.Bytes.{index, index-lt, u16_from_le_bytes}

pub record DeviceQualifierDescriptor : Type 0 where
  pub bcd_usb : ℕ
  pub device_class : ℕ
  pub device_sub_class : ℕ
  pub device_protocol : ℕ
  pub max_packet_size0 : ℕ
  pub num_configurations : ℕ

-- The struct literal, whose fields read the buffer in this order.
read_fields : List ℕ → Result DeviceQualifierDescriptor
read_fields buf = do
  b2 ← index buf 2
  b3 ← index buf 3
  b4 ← index buf 4
  b5 ← index buf 5
  b6 ← index buf 6
  b7 ← index buf 7
  b8 ← index buf 8
  ok (record {
    bcd_usb = u16_from_le_bytes b2 b3;
    device_class = b4;
    device_sub_class = b5;
    device_protocol = b6;
    max_packet_size0 = b7;
    num_configurations = b8;
  })

unfoldable pub from_bytes : List ℕ → Result DeviceQualifierDescriptor
unfolding read_fields
from_bytes buf =
    let body = read_fields buf in
    if ltb (length buf) 10
    then err invalid_descriptor
    else (index buf 1 >>= λ tag. if tag == 0x06 then body else err invalid_descriptor)

-- The 10 bytes that the specification lays out for the descriptor. The last one is reserved.
abbrev pub encode : DeviceQualifierDescriptor → List ℕ
encode d =
    10
    ∷ 0x06
    ∷ (d.bcd_usb % 256)
    ∷ (d.bcd_usb / 256)
    ∷ d.device_class
    ∷ d.device_sub_class
    ∷ d.device_protocol
    ∷ d.max_packet_size0
    ∷ d.num_configurations
    ∷ 0
    ∷ []

-- The bytes of any descriptor, with anything behind them, parse to that descriptor.
pub qualifier_from_bytes-encode :
    (d : DeviceQualifierDescriptor) (rest : List ℕ) → from_bytes (encode d ++ rest) ≡ ok d
unfolding from_bytes index
qualifier_from_bytes-encode d rest = ground arith

-- The parser never panics. It accepts exactly the buffers of at least 10 bytes whose second byte
-- is the tag, 0x06, and answers `invalid_descriptor` on all others.
pub qualifier_from_bytes_total :
    (buf : List ℕ)
    → ((d : DeviceQualifierDescriptor) × (from_bytes buf ≡ ok d)
        × (10 ≤ length buf)
        × (get_or buf 1 0 ≡ 0x06))
      ⊎ ((from_bytes buf ≡ err invalid_descriptor) × ((length buf < 10) ⊎ (get_or buf 1 0 ≢ 0x06)))
unfolding from_bytes
qualifier_from_bytes_total buf = ground (
  arith,
  index-lt buf 1,
  index-lt buf 2,
  index-lt buf 3,
  index-lt buf 4,
  index-lt buf 5,
  index-lt buf 6,
  index-lt buf 7,
  index-lt buf 8,
)
