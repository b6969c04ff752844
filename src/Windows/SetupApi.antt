-- ===== src/Windows/SetupApi.antt =====
-- usb-lib/src/backend/windows.rs: what SetupAPI says of a device, and the names that the device itself
-- gives. SetupAPI is a parameter, and so is `to_uppercase` of Rust's strings, with its Unicode tables.
use rust_usb.Base.{ℕ, ◌+◌, List, [], ◌∷◌, Option, none, some, ◌==◌, if◌then◌else◌, replicate}
use rust_usb.Error.{Result, ok, err, panic, no_fuel}
use rust_usb.Bytes.{le_units}
use rust_usb.Text.{Text, from_utf16_lossy}
use rust_usb.Text.Numbers.{parse_u8}
use rust_usb.Text.Search.{find, get, split, split_two}
use rust_usb.Descriptor.Device.{DeviceDescriptor}
use rust_usb.Backend.{and_then, Op}
use rust_usb.Windows.{Win, done, failed, WinUsb, WinUsbDevice, Attached}
use rust_usb.Windows.Device.{drop}
use rust_usb.Windows.Open.{open_device}
use rust_usb.Windows.Transfers.{read_device_descriptor, read_string_descriptor}
use rust_usb.Windows.HardwareId.{parse_vid_pid}

-- The sets of devices, their interfaces and what identifies a device in a set are numbers. Queries read
-- the world; making a set and destroying it change it.
pub record SetupApi (W : Type 0) : Type 0 where
  -- `SetupDiGetClassDevsW` for the present devices with the interface class of WinUSB
  pub get_class_devs : W → Win ℕ × W
  pub destroy_device_info_list : ℕ → W → W
  -- `SetupDiEnumDeviceInterfaces`: the interface at an index of a set
  pub enum_device_interfaces : ℕ → ℕ → W → Win ℕ
  -- `SetupDiGetDeviceInterfaceDetailW` without a buffer: the size needed, and the device
  pub detail_size : ℕ → ℕ → W → ℕ × ℕ
  -- The same call with a buffer: what it leaves in the buffer, and the device
  pub interface_detail : ℕ → ℕ → List ℕ → ℕ → W → Win (Unit {0}) × List ℕ × ℕ
  -- `SetupDiGetDeviceRegistryPropertyW`: what it leaves in the buffer
  pub registry_property : ℕ → ℕ → ℕ → List ℕ → W → Win (Unit {0}) × List ℕ

-- `SPDRP_HARDWAREID` and `SPDRP_LOCATION_INFORMATION`
abbrev pub hardwareid : ℕ
hardwareid = 1

abbrev pub location_information : ℕ
location_information = 13

-- `trim_start_matches(char)`
unfoldable pub trim_start_matches : ℕ → Text → Text
trim_start_matches d [] = []
trim_start_matches d (c ∷ cs) =
    let rest = trim_start_matches d cs in if c == d then rest else c ∷ cs

-- `.unwrap_or(default)`
abbrev pub unwrap_or : {A : Type 0} → A → Option A → A
unwrap_or default none = default
unwrap_or default (some a) = a

unfoldable pub parse_digits : Option Text → Option ℕ
unfolding trim_start_matches parse_u8
parse_digits none = none
parse_digits (some s) = parse_u8 (trim_start_matches 48 s)

-- The four digits behind a mark of so many bytes, or 0.
unfoldable pub number_behind : Text → ℕ → Text → ℕ
unfolding find get parse_digits
number_behind mark size loc = elim (find mark loc) [
  | none ↦ 0
  | some p ↦ unwrap_or 0 (parse_digits (get (p + size) (p + size + 4) loc))
]

-- `"PORT_#"` and `"HUB_#"`
abbrev pub port_mark : Text
port_mark = 80 ∷ 79 ∷ 82 ∷ 84 ∷ 95 ∷ 35 ∷ []

abbrev pub hub_mark : Text
hub_mark = 72 ∷ 85 ∷ 66 ∷ 95 ∷ 35 ∷ []

module _ {W : Type 0} (setup : SetupApi W) (to_uppercase : Text → Text) where
  unfoldable pub ids_of : List ℕ → Option (ℕ × ℕ)
  unfolding parse_vid_pid from_utf16_lossy
  ids_of units = parse_vid_pid (to_uppercase (from_utf16_lossy units))

  -- The loop over the strings of a REG_MULTI_SZ, which are the pieces between its zeros. The first piece
  -- is tried in any case; an empty one behind it, and the end, stop the loop.
  unfoldable pub first_ids : List (List ℕ) → ℕ × ℕ
  unfolding ids_of
  first_ids [] = (0, 0)
  first_ids (piece ∷ []) = unwrap_or (0, 0) (ids_of piece)
  first_ids (piece ∷ [] ∷ more) = unwrap_or (0, 0) (ids_of piece)
  first_ids (piece ∷ (u ∷ units) ∷ more) =
      let later = first_ids ((u ∷ units) ∷ more) in unwrap_or later (ids_of piece)

  unfoldable pub read_vid_pid : ℕ → ℕ → W → ℕ × ℕ
  unfolding first_ids split
  read_vid_pid dev_info device w =
      let (r, buf) = setup.registry_property dev_info device hardwareid (replicate 512 0) w in
      elim r [ failed _ ↦ (0, 0) | done _ ↦ first_ids (split 0 (le_units buf)) ]

  unfoldable pub hub_and_port : Text → ℕ × ℕ
  unfolding number_behind
  hub_and_port loc = (number_behind hub_mark 5 loc, number_behind port_mark 6 loc)

  unfoldable pub read_location_info : ℕ → ℕ → W → Option (ℕ × ℕ)
  unfolding hub_and_port split_two from_utf16_lossy
  read_location_info dev_info device w =
      let (r, buf) =
        setup.registry_property dev_info device location_information (replicate 512 0) w in
      elim r [
        | failed _ ↦ none
        | done _ ↦
            some (hub_and_port (to_uppercase (from_utf16_lossy (split_two 0 (le_units buf)).0)))
      ]

-- The manufacturer, the product and the serial number.
abbrev pub Names : Type 0
Names = Option Text × Option Text × Option Text

abbrev pub unnamed : Names
unnamed = (none, none, none)

-- `.ok()`: a panic goes on.
abbrev pub to_option : {A : Type 0} → Result A → Result (Option A)
to_option (ok a) = ok (some a)
to_option (err e) = ok none
to_option panic = panic
to_option no_fuel = no_fuel

module _ {W : Type 0} (api : WinUsb W) where
  -- English (US), and no name under index 0.
  unfoldable pub optional_string : ℕ → Op (Attached W) (Option Text)
  unfolding read_string_descriptor
  optional_string i s =
      let (r, s') = read_string_descriptor api i 0x0409 s in
      if i == 0 then (ok none, s) else (to_option r, s')

  unfoldable pub indexed_names : DeviceDescriptor → Op (Attached W) Names
  unfolding optional_string
  indexed_names dd s = and_then (optional_string dd.manufacturer_index s) λ manufacturer s1.
      and_then (optional_string dd.product_index s1) λ product s2.
        and_then (optional_string dd.serial_number_index s2)
          λ serial_number s3. (ok (manufacturer, product, serial_number), s3)

  unfoldable pub or_unnamed : Result DeviceDescriptor × Attached W → Result Names × Attached W
  unfolding indexed_names
  or_unnamed (ok dd, s) = indexed_names dd s
  or_unnamed (err e, s) = (ok unnamed, s)
  or_unnamed (panic, s) = (panic, s)
  or_unnamed (no_fuel, s) = (no_fuel, s)

  -- The device is dropped at the end of `read_string_descriptors`, on every way out.
  unfoldable pub names_and_drop : Attached W → Result Names × W
  unfolding or_unnamed read_device_descriptor drop
  names_and_drop s =
      let (names, s') = or_unnamed (read_device_descriptor api s) in (names, drop api s')

  -- A device that cannot be opened has no names.
  unfoldable pub opened_names : Result WinUsbDevice × W → Result Names × W
  unfolding names_and_drop
  opened_names (ok d, w) = names_and_drop (record { device = d; world = w })
  opened_names (err e, w) = (ok unnamed, w)
  opened_names (panic, w) = (panic, w)
  opened_names (no_fuel, w) = (no_fuel, w)

  unfoldable pub read_string_descriptors : Text → Op W Names
  unfolding opened_names open_device
  read_string_descriptors path w = opened_names (open_device api path w)
