-- ===== src/Descriptor/Bos.antt =====
-- usb-lib/src/core/descriptor.rs, lines 297 to 436: the BOS descriptor and its capabilities.
pub mod Refine
pub mod Total
pub mod RoundTrip
use rust_usb.Base.{
  ℕ, zero, suc, ◌+◌, ◌-◌, ◌≡◌, List, [], ◌∷◌, ◌++◌, length, min, ltb, leb, ◌==◌, ◌||◌, ◌&&◌,
  if◌then◌else◌, drop, take, not,
}
use rust_usb.Error.{Result, ok, err, panic, no_fuel, invalid_descriptor, ◌>>=◌}
use rust_usb.Bytes.{index, slice, u16_from_le_bytes, u32_from_le_bytes}

pub data BosCapabilityType : Type 0 where
  wireless_usb : BosCapabilityType
  usb20_extension : BosCapabilityType
  super_speed_usb : BosCapabilityType
  container_id : BosCapabilityType
  platform : BosCapabilityType
  super_speed_plus : BosCapabilityType
  unknown : ℕ → BosCapabilityType

-- `impl From<u8> for BosCapabilityType`
unfoldable pub capability_type : ℕ → BosCapabilityType
capability_type v =
    if v == 0x01
    then wireless_usb
    else (if v == 0x02
        then usb20_extension
        else (if v == 0x03
            then super_speed_usb
            else (if v == 0x04
                then container_id
                else (if v == 0x05
                    then platform
                    else (if v == 0x0A then super_speed_plus else unknown v)))))

pub record Usb20ExtensionCapability : Type 0 where
  pub attributes : ℕ

pub record SuperSpeedCapability : Type 0 where
  pub attributes : ℕ
  pub speed_supported : ℕ
  pub functionality_support : ℕ
  pub u1_dev_exit_lat : ℕ
  pub u2_dev_exit_lat : ℕ

pub record ContainerIdCapability : Type 0 where
  pub container_id : List ℕ

pub data BosCapability : Type 0 where
  usb20_extension : Usb20ExtensionCapability → BosCapability
  super_speed_usb : SuperSpeedCapability → BosCapability
  container_id : ContainerIdCapability → BosCapability
  unknown : ℕ → List ℕ → BosCapability

pub record BosDescriptor : Type 0 where
  pub total_length : ℕ
  pub num_device_caps : ℕ
  pub capabilities : List BosCapability

read_extension : List ℕ → Result BosCapability
read_extension cap_data = do
  b3 ← index cap_data 3
  b4 ← index cap_data 4
  b5 ← index cap_data 5
  b6 ← index cap_data 6
  ok (BosCapability.usb20_extension (record { attributes = u32_from_le_bytes b3 b4 b5 b6 }))

read_super_speed : List ℕ → Result BosCapability
read_super_speed cap_data = do
  b3 ← index cap_data 3
  b4 ← index cap_data 4
  b5 ← index cap_data 5
  b6 ← index cap_data 6
  b7 ← index cap_data 7
  b8 ← index cap_data 8
  b9 ← index cap_data 9
  ok (
      BosCapability.super_speed_usb (record {
        attributes = b3;
        speed_supported = u16_from_le_bytes b4 b5;
        functionality_support = b6;
        u1_dev_exit_lat = b7;
        u2_dev_exit_lat = u16_from_le_bytes b8 b9;
      }))

read_container : List ℕ → Result BosCapability
read_container cap_data = do
  id ← slice cap_data 4 20
  ok (BosCapability.container_id (record { container_id = id }))

read_unknown : ℕ → List ℕ → Result BosCapability
read_unknown b_cap_type cap_data = do
  rest ← slice cap_data 3 (length cap_data)
  ok (BosCapability.unknown b_cap_type rest)

-- The `match` with its guards: a known type that is too short falls to the last arm.
pub capability : ℕ → ℕ → List ℕ → Result BosCapability
unfolding capability_type read_extension read_super_speed read_container read_unknown
capability b_cap_type b_length cap_data = elim (capability_type b_cap_type) [
  | usb20_extension ↦
      if leb 7 b_length then read_extension cap_data else read_unknown b_cap_type cap_data
  | super_speed_usb ↦
      if leb 10 b_length then read_super_speed cap_data else read_unknown b_cap_type cap_data
  | container_id ↦
      if leb 20 b_length then read_container cap_data else read_unknown b_cap_type cap_data
  | _ ↦ read_unknown b_cap_type cap_data
]

-- One record: what it adds to the list of capabilities.
pub add_record : List ℕ → ℕ → ℕ → ℕ → ℕ → List BosCapability → Result (List BosCapability)
add_record buf pos b_length b_desc_type b_cap_type capabilities =
    let known = (do
      cap_data ← slice buf pos (pos + b_length)
      cap ← capability b_cap_type b_length cap_data
      ok (capabilities ++ (cap ∷ []))) in
    if not (b_desc_type == 0x10) then ok capabilities else known

-- `while pos + 3 <= end { .. }`, one unit of fuel a round.
pub walk : ℕ → List ℕ → ℕ → ℕ → List BosCapability → Result (List BosCapability)
walk zero buf end pos capabilities = no_fuel
walk (suc fuel) buf end pos capabilities =
    let round = (do
      b_length ← index buf pos
      b_desc_type ← index buf (pos + 1)
      b_cap_type ← index buf (pos + 2)
      let next =
          add_record buf pos b_length b_desc_type b_cap_type capabilities
          >>= walk fuel buf end (pos + b_length)
      if ltb b_length 3 || ltb end (pos + b_length) then ok capabilities else next) in
    if leb (pos + 3) end then round else ok capabilities

read_bos : List ℕ → Result BosDescriptor
unfolding capability add_record walk
read_bos buf = do
  b2 ← index buf 2
  b3 ← index buf 3
  num_caps ← index buf 4
  let total_length = u16_from_le_bytes b2 b3
  capabilities ← walk (suc (length buf)) buf (min total_length (length buf)) 5 []
  ok (record {
    total_length = total_length;
    num_device_caps = num_caps;
    capabilities = capabilities;
  })

unfoldable pub from_bytes : List ℕ → Result BosDescriptor
unfolding read_bos
from_bytes buf =
    let body = read_bos buf in
    if ltb (length buf) 5
    then err invalid_descriptor
    else (index buf 1 >>= λ tag. if tag == 0x0F then body else err invalid_descriptor)
