-- ===== src/Descriptor/Device.antt =====
-- usb-lib/src/core/descriptor.rs, lines 1 to 44: the device descriptor.
use rust_usb.Base.{
  ℕ, ◌/◌, ◌%◌, ◌≤◌, ◌<◌, ◌≡◌, ◌≢◌, List, [], ◌∷◌, ◌++◌, arith, length, get_or, ltb, ◌==◌,
  if◌then◌else◌, ◌⊎◌, All, drop, tail,
}
use rust_usb.Error.{Result, ok, err, invalid_descriptor, ◌>>=◌}
use rust_usb.Bytes.{IsByte, index, index-lt, u16_from_le_bytes}

pub record DeviceDescriptor : Type 0 where
  pub bcd_usb : ℕ
  pub device_class : ℕ
  pub device_sub_class : ℕ
  pub device_protocol : ℕ
  pub max_packet_size0 : ℕ
  pub vendor_id : ℕ
  pub product_id : ℕ
  pub bcd_device : ℕ
  pub manufacturer_index : ℕ
  pub product_index : ℕ
  pub serial_number_index : ℕ
  pub num_configurations : ℕ

-- The struct literal, whose fields read the buffer in this order.
read_fields : List ℕ → Result DeviceDescriptor
read_fields buf = do
  b2 ← index buf 2
  b3 ← index buf 3
  b4 ← index buf 4
  b5 ← index buf 5
  b6 ← index buf 6
  b7 ← index buf 7
  b8 ← index buf 8
  b9 ← index buf 9
  b10 ← index buf 10
  b11 ← index buf 11
  b12 ← index buf 12
  b13 ← index buf 13
  b14 ← index buf 14
  b15 ← index buf 15
  b16 ← index buf 16
  b17 ← index buf 17
  ok (record {
    bcd_usb = u16_from_le_bytes b2 b3;
    device_class = b4;
    device_sub_class = b5;
    device_protocol = b6;
    max_packet_size0 = b7;
    vendor_id = u16_from_le_bytes b8 b9;
    product_id = u16_from_le_bytes b10 b11;
    bcd_device = u16_from_le_bytes b12 b13;
    manufacturer_index = b14;
    product_index = b15;
    serial_number_index = b16;
    num_configurations = b17;
  })

unfoldable pub from_bytes : List ℕ → Result DeviceDescriptor
unfolding read_fields
from_bytes buf =
    let body = read_fields buf in
    if ltb (length buf) 18
    then err invalid_descriptor
    else (index buf 1 >>= λ tag. if tag == 0x01 then body else err invalid_descriptor)

-- The 18 bytes that the specification lays out for the descriptor.
abbrev pub encode : DeviceDescriptor → List ℕ
encode d =
    18
    ∷ 0x01
    ∷ (d.bcd_usb % 256)
    ∷ (d.bcd_usb / 256)
    ∷ d.device_class
    ∷ d.device_sub_class
    ∷ d.device_protocol
    ∷ d.max_packet_size0
    ∷ (d.vendor_id % 256)
    ∷ (d.vendor_id / 256)
    ∷ (d.product_id % 256)
    ∷ (d.product_id / 256)
    ∷ (d.bcd_device % 256)
    ∷ (d.bcd_device / 256)
    ∷ d.manufacturer_index
    ∷ d.product_index
    ∷ d.serial_number_index
    ∷ d.num_configurations
    ∷ []

-- The bytes of any descriptor, with anything behind them, parse to that descriptor.
pub device_from_bytes-encode :
    (d : DeviceDescriptor) (rest : List ℕ) → from_bytes (encode d ++ rest) ≡ ok d
unfolding from_bytes index
device_from_bytes-encode d rest = ground arith

-- The parser never panics. It accepts exactly the buffers of at least 18 bytes whose second byte
-- is the tag, 0x01, and answers `invalid_descriptor` on all others.
pub device_from_bytes_total :
    (buf : List ℕ)
    → ((d : DeviceDescriptor) × (from_bytes buf ≡ ok d)
        × (18 ≤ length buf)
        × (get_or buf 1 0 ≡ 0x01))
      ⊎ ((from_bytes buf ≡ err invalid_descriptor) × ((length buf < 18) ⊎ (get_or buf 1 0 ≢ 0x01)))
unfolding from_bytes
device_from_bytes_total buf = ground (
  arith,
  index-lt buf 1,
  index-lt buf 2,
  index-lt buf 3,
  index-lt buf 4,
  index-lt buf 5,
  index-lt buf 6,
  index-lt buf 7,
  index-lt buf 8,
  index-lt buf 9,
  index-lt buf 10,
  index-lt buf 11,
  index-lt buf 12,
  index-lt buf 13,
  index-lt buf 14,
  index-lt buf 15,
  index-lt buf 16,
  index-lt buf 17,
)

-- A buffer of bytes that parses is a length byte, which the parser does not read, then the fields
-- of the result as the specification lays them out, then the rest of the buffer.
pub encode-device_from_bytes :
    (buf : List ℕ) (d : DeviceDescriptor)
    → All IsByte buf
    → from_bytes buf ≡ ok d
    → buf ≡ get_or buf 0 0 ∷ (tail (encode d) ++ drop 18 buf)
unfolding from_bytes index
encode-device_from_bytes
      (b0 ∷ b1 ∷ b2 ∷ b3 ∷ b4 ∷ b5 ∷ b6 ∷ b7 ∷ b8 ∷ b9 ∷ b10 ∷ b11 ∷ b12 ∷ b13 ∷ b14 ∷ b15 ∷ b16
        ∷ b17 ∷ rest)
      d h e =
    ground arith
encode-device_from_bytes _ d h e = ground arith
