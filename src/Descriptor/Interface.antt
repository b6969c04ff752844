-- ===== src/Descriptor/Interface.antt =====
-- usb-lib/src/core/descriptor.rs, lines 138 to 170: the interface descriptor.
use rust_usb.Base.{
  ℕ, ◌≤◌, ◌<◌, ◌≡◌, ◌≢◌, List, [], ◌∷◌, ◌++◌, arith, length, get_or, ltb, ◌==◌, if◌then◌else◌, ◌⊎◌,
  All, drop, tail, Option, none,
}
use rust_usb.Error.{Result, ok, err, invalid_descriptor, ◌>>=◌}
use rust_usb.Bytes.{IsByte, index, index-lt}
use rust_usb.Descriptor.Endpoint.{EndpointDescriptor}
use rust_usb.Descriptor.Hid.{HidDescriptor}

pub record InterfaceDescriptor : Type 0 where
  pub interface_number : ℕ
  pub alternate_setting : ℕ
  pub num_endpoints : ℕ
  pub interface_class : ℕ
  pub interface_sub_class : ℕ
  pub interface_protocol : ℕ
  pub interface_index : ℕ
  pub endpoints : List EndpointDescriptor
  pub hid_descriptor : Option HidDescriptor

-- The struct literal, whose fields read the buffer in this order.
read_fields : List ℕ → Result InterfaceDescriptor
read_fields buf = do
  b2 ← index buf 2
  b3 ← index buf 3
  b4 ← index buf 4
  b5 ← index buf 5
  b6 ← index buf 6
  b7 ← index buf 7
  b8 ← index buf 8
  ok (record {
    interface_number = b2;
    alternate_setting = b3;
    num_endpoints = b4;
    interface_class = b5;
    interface_sub_class = b6;
    interface_protocol = b7;
    interface_index = b8;
    endpoints = [];
    hid_descriptor = none;
  })

unfoldable pub from_bytes_at : List ℕ → Result InterfaceDescriptor
unfolding read_fields
from_bytes_at buf =
    let body = read_fields buf in
    if ltb (length buf) 9
    then err invalid_descriptor
    else (index buf 1 >>= λ tag. if tag == 0x04 then body else err invalid_descriptor)

-- The 9 bytes that the specification lays out for the descriptor.
abbrev pub encode : InterfaceDescriptor → List ℕ
encode d =
    9 ∷ 0x04 ∷ d.interface_number ∷ d.alternate_setting ∷ d.num_endpoints ∷ d.interface_class
    ∷ d.interface_sub_class ∷ d.interface_protocol ∷ d.interface_index ∷ []

-- The bytes of any descriptor that has nothing attached to it, with anything behind them, parse to that descriptor.
pub from_bytes_at-encode :
    (d : InterfaceDescriptor) (rest : List ℕ)
    → d.endpoints ≡ []
    → d.hid_descriptor ≡ none
    → from_bytes_at (encode d ++ rest) ≡ ok d
unfolding from_bytes_at index
from_bytes_at-encode d rest e0 e1 = ground arith

-- The parser never panics. It accepts exactly the buffers of at least 9 bytes whose second byte
-- is the tag, 0x04, and answers `invalid_descriptor` on all others.
pub from_bytes_at_total :
    (buf : List ℕ)
    → ((d : InterfaceDescriptor) × (from_bytes_at buf ≡ ok d)
        × (9 ≤ length buf)
        × (get_or buf 1 0 ≡ 0x04))
      ⊎ ((from_bytes_at buf ≡ err invalid_descriptor)
          × ((length buf < 9) ⊎ (get_or buf 1 0 ≢ 0x04)))
unfolding from_bytes_at
from_bytes_at_total buf = ground (
  arith,
  index-lt buf 1,
  index-lt buf 2,
  index-lt buf 3,
  index-lt buf 4,
  index-lt buf 5,
  index-lt buf 6,
  index-lt buf 7,
  index-lt buf 8,
)

-- A buffer of bytes that parses is a length byte, which the parser does not read, then the fields
-- of the result as the specification lays them out, then the rest of the buffer.
pub encode-from_bytes_at :
    (buf : List ℕ) (d : InterfaceDescriptor)
    → All IsByte buf
    → from_bytes_at buf ≡ ok d
    → buf ≡ get_or buf 0 0 ∷ (tail (encode d) ++ drop 9 buf)
unfolding from_bytes_at index
encode-from_bytes_at (b0 ∷ b1 ∷ b2 ∷ b3 ∷ b4 ∷ b5 ∷ b6 ∷ b7 ∷ b8 ∷ rest) d h e = ground arith
encode-from_bytes_at _ d h e = ground arith
