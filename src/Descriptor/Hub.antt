-- ===== src/Descriptor/Hub.antt =====
-- usb-lib/src/core/descriptor.rs, lines 438 to 486: the hub descriptor.
use rust_usb.Base.{ℕ, ◌+◌, ◌/◌, ◌%◌, ◌≡◌, List, [], ◌∷◌, arith, length, ltb, ◌==◌, if◌then◌else◌}
use rust_usb.Error.{Result, ok, err, invalid_descriptor, ◌>>=◌}
use rust_usb.Bytes.{index, u16_from_le_bytes}

pub record HubDescriptor : Type 0 where
  pub num_ports : ℕ
  pub hub_characteristics : ℕ
  pub power_on_to_power_good : ℕ
  pub hub_controller_current : ℕ
  pub device_removable : ℕ

-- The part of the parser behind its two checks.
read_fields : List ℕ → Result HubDescriptor
read_fields buf = do
  num_ports ← index buf 2
  b3 ← index buf 3
  b4 ← index buf 4
  power_on_to_power_good ← index buf 5
  hub_controller_current ← index buf 6
  removable_lo ← index buf 7
  removable_hi ← (if ltb 8 (length buf) then index buf 8 else ok 0)
  ok (record {
    num_ports = num_ports;
    hub_characteristics = u16_from_le_bytes b3 b4;
    power_on_to_power_good = power_on_to_power_good;
    hub_controller_current = hub_controller_current;
    device_removable = u16_from_le_bytes removable_lo removable_hi;
  })

unfoldable pub from_bytes : List ℕ → Result HubDescriptor
unfolding read_fields
from_bytes buf =
    let body = read_fields buf in
    if ltb (length buf) 9
    then err invalid_descriptor
    else (index buf 1 >>= λ tag. if tag == 0x29 then body else err invalid_descriptor)

-- The hub descriptor of a hub of at most 7 ports, as table 11-13 of the USB 2.0 specification lays
-- it out: one byte `removable`, then one byte of PortPwrCtrlMask, which is all ones.
abbrev pub encode_small : HubDescriptor → ℕ → List ℕ
encode_small d removable =
    9
    ∷ 0x29
    ∷ d.num_ports
    ∷ (d.hub_characteristics % 256)
    ∷ (d.hub_characteristics / 256)
    ∷ d.power_on_to_power_good
    ∷ d.hub_controller_current
    ∷ removable
    ∷ 0xff
    ∷ []

-- On the descriptor of a hub of at most 7 ports the high byte of the reported bitmask is the
-- PortPwrCtrlMask: every hub looks as if the ports 8 to 15 held devices that cannot be removed.
pub small_hub_removable :
    (d : HubDescriptor) (removable : ℕ)
    → from_bytes (encode_small d removable)
      ≡ ok (record d { device_removable = removable + 0xff00 })
unfolding from_bytes index
small_hub_removable d removable = ground arith
