-- ===== src/Descriptor/Config.antt =====
-- usb-lib/src/core/descriptor.rs, lines 46 to 136: the configuration descriptor, and the loop that
-- walks the descriptors nested in it.
pub mod Refine
pub mod Encode
pub mod Total
pub mod RoundTrip
use rust_usb.Base.{
  ℕ, zero, suc, ◌+◌, ◌≡◌, List, [], ◌∷◌, ◌++◌, length, min, ltb, leb, ◌==◌, ◌||◌, if◌then◌else◌,
  Option, some, modify_last,
}
use rust_usb.Error.{Result, ok, err, panic, no_fuel, invalid_descriptor, ◌>>=◌}
use rust_usb.Bytes.{index, slice, u16_from_le_bytes}
use rust_usb.Descriptor.Companion.{SuperSpeedEndpointCompanion}
use rust_usb.Descriptor.Companion
use rust_usb.Descriptor.Endpoint.{EndpointDescriptor}
use rust_usb.Descriptor.Endpoint
use rust_usb.Descriptor.Hid.{HidDescriptor}
use rust_usb.Descriptor.Hid
use rust_usb.Descriptor.Interface.{InterfaceDescriptor}
use rust_usb.Descriptor.Interface

pub record ConfigDescriptor : Type 0 where
  pub total_length : ℕ
  pub num_interfaces : ℕ
  pub configuration_value : ℕ
  pub configuration_index : ℕ
  pub attributes : ℕ
  pub max_power : ℕ
  pub interfaces : List InterfaceDescriptor

abbrev pub push_endpoint : EndpointDescriptor → InterfaceDescriptor → InterfaceDescriptor
push_endpoint ep iface = record iface { endpoints = iface.endpoints ++ (ep ∷ []) }

abbrev pub set_hid : HidDescriptor → InterfaceDescriptor → InterfaceDescriptor
set_hid hid iface = record iface { hid_descriptor = some hid }

abbrev set_companion_of : SuperSpeedEndpointCompanion → EndpointDescriptor → EndpointDescriptor
set_companion_of ssc ep = record ep { ss_companion = some ssc }

abbrev pub set_companion : SuperSpeedEndpointCompanion → InterfaceDescriptor → InterfaceDescriptor
set_companion ssc iface = record iface {
  endpoints = modify_last (set_companion_of ssc) iface.endpoints;
}

-- `if let Ok(ssc) = .. { .. }`: an error of the parser is dropped, a panic is not.
abbrev if_ok :
    Result SuperSpeedEndpointCompanion
    → List InterfaceDescriptor
    → Result (List InterfaceDescriptor)
if_ok (ok ssc) ifaces = ok (modify_last (set_companion ssc) ifaces)
if_ok (err _) ifaces = ok ifaces
if_ok panic ifaces = panic
if_ok no_fuel ifaces = no_fuel

-- The body of the loop, for the descriptor of `b_length` bytes at `pos`.
pub attach : List ℕ → ℕ → ℕ → ℕ → List InterfaceDescriptor → Result (List InterfaceDescriptor)
attach buf pos b_length b_type ifaces =
    if b_type == 0x04
    then (if leb 9 b_length
        then (do
          chunk ← slice buf pos (pos + b_length)
          iface ← Interface.from_bytes_at chunk
          ok (ifaces ++ (iface ∷ [])))
        else ok ifaces)
    else (if b_type == 0x05
        then (if leb 7 b_length
            then (do
              chunk ← slice buf pos (pos + b_length)
              ep ← Endpoint.from_bytes_at chunk
              ok (modify_last (push_endpoint ep) ifaces))
            else ok ifaces)
        else (if b_type == 0x21
            then (if leb 9 b_length
                then (do
                  chunk ← slice buf pos (pos + b_length)
                  hid ← Hid.from_bytes_at chunk
                  ok (modify_last (set_hid hid) ifaces))
                else ok ifaces)
            else (if b_type == 0x30
                then (if leb 6 b_length
                    then (do
                      chunk ← slice buf pos (pos + b_length)
                      if_ok (Companion.from_bytes_at chunk) ifaces)
                    else ok ifaces)
                else ok ifaces)))

-- `while pos + 2 <= end { .. }`, one unit of fuel a round.
pub walk : ℕ → List ℕ → ℕ → ℕ → List InterfaceDescriptor → Result (List InterfaceDescriptor)
walk zero buf end pos ifaces = no_fuel
walk (suc fuel) buf end pos ifaces =
    let round = (do
      b_length ← index buf pos
      b_type ← index buf (pos + 1)
      let next = attach buf pos b_length b_type ifaces >>= walk fuel buf end (pos + b_length)
      if ltb b_length 2 || ltb end (pos + b_length) then ok ifaces else next) in
    if leb (pos + 2) end then round else ok ifaces

-- The header, read in the source's order, and the loop. Each round moves `pos` on by 2 at least, so
-- the length of the buffer is fuel enough.
read_config : List ℕ → Result ConfigDescriptor
unfolding attach walk
read_config buf = do
  b2 ← index buf 2
  b3 ← index buf 3
  let total_length = u16_from_le_bytes b2 b3
  num_interfaces ← index buf 4
  configuration_value ← index buf 5
  configuration_index ← index buf 6
  attributes ← index buf 7
  max_power ← index buf 8
  interfaces ← walk (suc (length buf)) buf (min total_length (length buf)) 9 []
  ok (record {
    total_length = total_length;
    num_interfaces = num_interfaces;
    configuration_value = configuration_value;
    configuration_index = configuration_index;
    attributes = attributes;
    max_power = max_power;
    interfaces = interfaces;
  })

unfoldable pub from_bytes : List ℕ → Result ConfigDescriptor
unfolding read_config
from_bytes buf =
    let body = read_config buf in
    if ltb (length buf) 9
    then err invalid_descriptor
    else (index buf 1 >>= λ tag. if tag == 0x02 then body else err invalid_descriptor)
