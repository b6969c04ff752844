-- ===== src/Mock.antt =====
-- usb-lib/src/backend/mock.rs: the backend and the devices for tests without hardware. The mutexes
-- are not modelled: no code panics while it holds one, so none is ever poisoned.
pub mod Claims
pub mod Devices
pub mod Tests
use rust_usb.Base.{
  pair_eq, list_eq, ℕ, ◌≡◌, List, [], ◌∷◌, ◌++◌, Option, none, some, map, get_elem?, length, lookup,
  insert, values, contains, ◌==◌, if◌then◌else◌, Bool, true, false, ◌||◌,
}
use rust_usb.Error.{UsbError, Result, ok, err, device_not_found, invalid_descriptor, other, ◌>>=◌}
use rust_usb.Text.{Text}
use rust_usb.Transfer.{ControlSetup}
use rust_usb.Descriptor.Device.{DeviceDescriptor}
use rust_usb.Descriptor.Config.{ConfigDescriptor}
use rust_usb.Backend.{DeviceInfo, Op, ReadOp, UsbBackend, UsbDevice, Required, with_defaults}

abbrev pub Strings : Type 0
Strings = List ((ℕ × ℕ) × Text)

pub record MockDeviceInfo : Type 0 where
  pub info : DeviceInfo
  pub descriptor : DeviceDescriptor
  pub configs : List ConfigDescriptor
  pub strings : Strings

pub record MockBackend : Type 0 where
  pub devices : List (Text × MockDeviceInfo)

pub record MockDevice : Type 0 where
  pub descriptor : DeviceDescriptor
  pub configs : List ConfigDescriptor
  pub strings : Strings
  pub claimed_interfaces : List ℕ

unfoldable pub new : MockBackend
new = record { devices = [] }

unfoldable pub add_device :
    DeviceInfo → DeviceDescriptor → List ConfigDescriptor → Strings → MockBackend → MockBackend
add_device info descriptor configs strings backend =
    let entry : MockDeviceInfo = record {
      info = info;
      descriptor = descriptor;
      configs = configs;
      strings = strings;
    } in
    record { devices = insert info.path entry backend.devices }

-- `HashMap` iterates in an arbitrary order, which `order` stands for.
unfoldable pub enumerate :
    (List MockDeviceInfo → List MockDeviceInfo) → Op MockBackend (List DeviceInfo)
enumerate order backend = (ok (map (λ d. d.info) (order (values backend.devices))), backend)

-- `option.ok_or(e)`
abbrev pub ok_or : {A : Type 0} → Option A → UsbError → Result A
ok_or none e = err e
ok_or (some a) e = ok a

-- The device that an entry of the backend opens as: no interface is claimed.
abbrev pub fresh_device : MockDeviceInfo → MockDevice
fresh_device d = record {
  descriptor = d.descriptor;
  configs = d.configs;
  strings = d.strings;
  claimed_interfaces = [];
}

unfoldable pub open_device : Text → Op MockBackend MockDevice
open_device path backend =
    (ok_or (lookup path backend.devices) device_not_found >>= λ d. ok (fresh_device d), backend)

abbrev pub mock_backend :
    (List MockDeviceInfo → List MockDeviceInfo) → UsbBackend MockBackend MockDevice
mock_backend order = record { enumerate = enumerate order; open_device = open_device }

unfoldable pub read_device_descriptor : Op MockDevice DeviceDescriptor
read_device_descriptor d = (ok d.descriptor, d)

unfoldable pub read_config_descriptor : ℕ → Op MockDevice ConfigDescriptor
read_config_descriptor index d = (ok_or (get_elem? d.configs index) invalid_descriptor, d)

unfoldable pub read_string_descriptor : ℕ → ℕ → Op MockDevice Text
read_string_descriptor index lang d = (ok_or (lookup (index, lang) d.strings) invalid_descriptor, d)

unfoldable pub claim_interface : ℕ → Op MockDevice (Unit {0})
claim_interface interface d = (
  ok tt,
  (if contains interface d.claimed_interfaces
      then d
      else record d { claimed_interfaces = d.claimed_interfaces ++ (interface ∷ []) }),
)

-- `iter().position(..)` and `remove(pos)`: the list without the first occurrence, if there is one.
abbrev pub remove_first : ℕ → List ℕ → Option (List ℕ)
remove_first i [] = none
remove_first i (x ∷ xs) =
    let rest = remove_first i xs in
    if x == i then some xs else elim rest [ none ↦ none | some ys ↦ some (x ∷ ys) ]

unfoldable pub release_interface : ℕ → Op MockDevice (Unit {0})
release_interface interface d = elim (remove_first interface d.claimed_interfaces) [
  | none ↦ (err (other "Interface not claimed" []), d)
  | some claimed ↦ (ok tt, record d { claimed_interfaces = claimed })
]

unfoldable pub control_transfer :
    ControlSetup → Option (List ℕ) → ℕ → MockDevice → Result ℕ × Option (List ℕ) × MockDevice
control_transfer setup buf timeout d = (ok 0, buf, d)

unfoldable pub bulk_read : ℕ → List ℕ → ℕ → ReadOp MockDevice
bulk_read endpoint buf timeout d = (ok 0, buf, d)

unfoldable pub bulk_write : ℕ → List ℕ → ℕ → Op MockDevice ℕ
bulk_write endpoint buf timeout d = (ok (length buf), d)

-- `impl UsbDevice for MockDevice`: the methods above, and the trait's defaults for the rest.
abbrev pub mock_device : UsbDevice MockDevice
mock_device =
    record (with_defaults (record {
      read_device_descriptor = read_device_descriptor;
      read_config_descriptor = read_config_descriptor;
      read_string_descriptor = read_string_descriptor;
      claim_interface = claim_interface;
      release_interface = release_interface;
      control_transfer = control_transfer;
    })) { bulk_read = bulk_read; bulk_write = bulk_write }
