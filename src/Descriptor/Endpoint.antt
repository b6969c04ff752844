-- ===== src/Descriptor/Endpoint.antt =====
-- usb-lib/src/core/descriptor.rs, lines 172 to 196: the endpoint descriptor.
use rust_usb.Base.{
  ℕ, ◌/◌, ◌%◌, ◌≤◌, ◌<◌, ◌≡◌, ◌≢◌, List, [], ◌∷◌, ◌++◌, arith, length, get_or, ltb, ◌==◌,
  if◌then◌else◌, ◌⊎◌, All, drop, tail, Option, none,
}
use rust_usb.Error.{Result, ok, err, invalid_descriptor, ◌>>=◌}
use rust_usb.Bytes.{IsByte, index, index-lt, u16_from_le_bytes}
use rust_usb.Descriptor.Companion.{SuperSpeedEndpointCompanion}

pub record EndpointDescriptor : Type 0 where
  pub endpoint_address : ℕ
  pub attributes : ℕ
  pub max_packet_size : ℕ
  pub interval : ℕ
  pub ss_companion : Option SuperSpeedEndpointCompanion

-- The struct literal, whose fields read the buffer in this order.
read_fields : List ℕ → Result EndpointDescriptor
read_fields buf = do
  b2 ← index buf 2
  b3 ← index buf 3
  b4 ← index buf 4
  b5 ← index buf 5
  b6 ← index buf 6
  ok (record {
    endpoint_address = b2;
    attributes = b3;
    max_packet_size = u16_from_le_bytes b4 b5;
    interval = b6;
    ss_companion = none;
  })

unfoldable pub from_bytes_at : List ℕ → Result EndpointDescriptor
unfolding read_fields
from_bytes_at buf =
    let body = read_fields buf in
    if ltb (length buf) 7
    then err invalid_descriptor
    else (index buf 1 >>= λ tag. if tag == 0x05 then body else err invalid_descriptor)

-- The 7 bytes that the specification lays out for the descriptor.
abbrev pub encode : EndpointDescriptor → List ℕ
encode d =
    7
    ∷ 0x05
    ∷ d.endpoint_address
    ∷ d.attributes
    ∷ (d.max_packet_size % 256)
    ∷ (d.max_packet_size / 256)
    ∷ d.interval
    ∷ []

-- The bytes of any descriptor that has nothing attached to it, with anything behind them, parse to that descriptor.
pub from_bytes_at-encode :
    (d : EndpointDescriptor) (rest : List ℕ)
    → d.ss_companion ≡ none
    → from_bytes_at (encode d ++ rest) ≡ ok d
unfolding from_bytes_at index
from_bytes_at-encode d rest e0 = ground arith

-- The parser never panics. It accepts exactly the buffers of at least 7 bytes whose second byte
-- is the tag, 0x05, and answers `invalid_descriptor` on all others.
pub from_bytes_at_total :
    (buf : List ℕ)
    → ((d : EndpointDescriptor) × (from_bytes_at buf ≡ ok d)
        × (7 ≤ length buf)
        × (get_or buf 1 0 ≡ 0x05))
      ⊎ ((from_bytes_at buf ≡ err invalid_descriptor)
          × ((length buf < 7) ⊎ (get_or buf 1 0 ≢ 0x05)))
unfolding from_bytes_at
from_bytes_at_total buf = ground (
  arith,
  index-lt buf 1,
  index-lt buf 2,
  index-lt buf 3,
  index-lt buf 4,
  index-lt buf 5,
  index-lt buf 6,
)

-- A buffer of bytes that parses is a length byte, which the parser does not read, then the fields
-- of the result as the specification lays them out, then the rest of the buffer.
pub encode-from_bytes_at :
    (buf : List ℕ) (d : EndpointDescriptor)
    → All IsByte buf
    → from_bytes_at buf ≡ ok d
    → buf ≡ get_or buf 0 0 ∷ (tail (encode d) ++ drop 7 buf)
unfolding from_bytes_at index
encode-from_bytes_at (b0 ∷ b1 ∷ b2 ∷ b3 ∷ b4 ∷ b5 ∷ b6 ∷ rest) d h e = ground arith
encode-from_bytes_at _ d h e = ground arith
