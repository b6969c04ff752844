-- ===== src/Linux/Enumerate.antt =====
-- usb-lib/src/backend/linux.rs: enumeration through udev, a parameter: what its calls return is an
-- argument. A sysfs attribute is valid UTF-8, or known by its lossy conversion.
use rust_usb.Base.{
  ℕ, ◌<◌, ◌≡◌, refl, ap, ◌∙◌, List, [], ◌∷◌, ◌++◌, Option, none, some, arith, false,
}
use rust_usb.Error.{Result, ok, ◌>>=◌}
use rust_usb.Text.{Text}
use rust_usb.Text.Numbers.{
  from_str_radix, parse_u8, display_u8, display_hex, hex_char, parse_u8-display_u8,
  from_str_radix-display_hex, display_u8-All, display_hex-All,
}
use rust_usb.Text.Search.{trim, trim-Solid, is_whitespace, Solid, Blank}
use rust_usb.Backend.{DeviceInfo}

pub data OsText : Type 0 where
  utf8 not_utf8 : Text → OsText

abbrev pub to_str : OsText → Option Text
to_str (utf8 t) = some t
to_str (not_utf8 t) = none

abbrev pub to_string_lossy : OsText → Text
to_string_lossy (utf8 t) = t
to_string_lossy (not_utf8 t) = t

-- The node and the attributes that the code reads.
pub record UdevDevice : Type 0 where
  pub devnode : Option OsText
  pub id_vendor : Option OsText
  pub id_product : Option OsText
  pub busnum : Option OsText
  pub devnum : Option OsText
  pub manufacturer : Option OsText
  pub product : Option OsText
  pub serial : Option OsText

abbrev unwrap_or_zero : Option ℕ → ℕ
unwrap_or_zero none = 0
unwrap_or_zero (some n) = n

-- `dev.attribute_value(attr).and_then(|v| v.to_str())`, parsed.
abbrev pub number_of : (Text → Option ℕ) → Option OsText → ℕ
number_of parse none = 0
number_of parse (some (not_utf8 t)) = 0
number_of parse (some (utf8 t)) = unwrap_or_zero (parse (trim t))

unfoldable pub parse_hex_attr : Option OsText → ℕ
unfolding from_str_radix trim
parse_hex_attr attribute = number_of (from_str_radix 16 65535) attribute

-- The same of `busnum` and `devnum`, where the number is a decimal u8.
unfoldable pub parse_u8_attr : Option OsText → ℕ
unfolding parse_u8 trim
parse_u8_attr attribute = number_of parse_u8 attribute

abbrev pub lossy : Option OsText → Option Text
lossy none = none
lossy (some t) = some (to_string_lossy t)

unfoldable pub device_info : Text → UdevDevice → DeviceInfo
unfolding parse_hex_attr parse_u8_attr
device_info path device = record {
  vendor_id = parse_hex_attr device.id_vendor;
  product_id = parse_hex_attr device.id_product;
  bus_number = parse_u8_attr device.busnum;
  device_address = parse_u8_attr device.devnum;
  path = path;
  manufacturer = lossy device.manufacturer;
  product = lossy device.product;
  serial_number = lossy device.serial;
}

abbrev push_if : Option OsText → UdevDevice → List DeviceInfo → List DeviceInfo
unfolding device_info
push_if none device infos = infos
push_if (some node) device infos = device_info (to_string_lossy node) device ∷ infos

-- The `for` over the devices, where one without a node is passed over.
unfoldable pub collect_infos : List UdevDevice → List DeviceInfo
unfolding push_if
collect_infos [] = []
collect_infos (device ∷ devices) = push_if device.devnode device (collect_infos devices)

-- `scanned` is what the calls up to `scan_devices` return.
unfoldable pub enumerate_udev_devices : Result (List UdevDevice) → Result (List DeviceInfo)
unfolding collect_infos
enumerate_udev_devices scanned = scanned >>= λ devices. ok (collect_infos devices)

-- A number as an attribute, with white space behind it where udev has not cut that off.
abbrev pub line : Text → Text → Option OsText
line t blank = some (utf8 (t ++ blank))

abbrev as_text : Option Text → Option OsText
as_text none = none
as_text (some t) = some (utf8 t)

-- What sysfs and udev show of a device, in the kernel's formats.
unfoldable pub shown : DeviceInfo → Text → UdevDevice
unfolding display_u8 display_hex
shown info blank = record {
  devnode = some (utf8 info.path);
  id_vendor = line (display_hex info.vendor_id) blank;
  id_product = line (display_hex info.product_id) blank;
  busnum = line (display_u8 info.bus_number) blank;
  devnum = line (display_u8 info.device_address) blank;
  manufacturer = as_text info.manufacturer;
  product = as_text info.product;
  serial = as_text info.serial_number;
}

-- The numbers of an info fit their types.
abbrev pub Fits : DeviceInfo → Type 0
Fits info =
    (info.vendor_id < 65536)
    × (info.product_id < 65536)
    × (info.bus_number < 256)
    × (info.device_address < 256)

-- A list of devices that shows these infos, in their order, with devices without a node in between.
pub data Shows : List UdevDevice → List DeviceInfo → Type 0 where
  nothing_more : Shows [] []
  shows :
      (info : DeviceInfo) (blank : Text) (devices : List UdevDevice) (infos : List DeviceInfo)
      → Fits info
      → Blank blank
      → Shows devices infos
      → Shows (shown info blank ∷ devices) (info ∷ infos)
  no_node :
      (device : UdevDevice) (devices : List UdevDevice) (infos : List DeviceInfo)
      → device.devnode ≡ none
      → Shows devices infos
      → Shows (device ∷ devices) infos

hex-Solid : (n : ℕ) → n < 65536 → Solid (display_hex n)
unfolding is_whitespace hex_char
hex-Solid n small = display_hex-All (λ c. is_whitespace c ≡ false) (λ d h. ground arith) n small

decimal-Solid : (n : ℕ) → n < 256 → Solid (display_u8 n)
unfolding is_whitespace
decimal-Solid n small = display_u8-All (λ c. is_whitespace c ≡ false) (λ d h. ground arith) n small

parse_hex_attr-line :
    (n : ℕ) (blank : Text)
    → n < 65536
    → Blank blank
    → parse_hex_attr (line (display_hex n) blank) ≡ n
unfolding parse_hex_attr
parse_hex_attr-line n blank small b =
    rw (trim-Solid (display_hex n) blank (hex-Solid n small) b, from_str_radix-display_hex n small)
      refl

parse_u8_attr-line :
    (n : ℕ) (blank : Text) → n < 256 → Blank blank → parse_u8_attr (line (display_u8 n) blank) ≡ n
unfolding parse_u8_attr
parse_u8_attr-line n blank small b =
    rw (trim-Solid (display_u8 n) blank (decimal-Solid n small) b, parse_u8-display_u8 n small) refl

lossy-as_text : (t : Option Text) → lossy (as_text t) ≡ t
lossy-as_text none = refl
lossy-as_text (some t) = refl

device_info-shown :
    (info : DeviceInfo) (blank : Text)
    → Fits info
    → Blank blank
    → device_info info.path (shown info blank) ≡ info
unfolding device_info shown
device_info-shown info blank (v, p, b, a) w =
    rw
      (
        parse_hex_attr-line info.vendor_id blank v w,
        parse_hex_attr-line info.product_id blank p w,
        parse_u8_attr-line info.bus_number blank b w,
        parse_u8_attr-line info.device_address blank a w,
        lossy-as_text info.manufacturer,
        lossy-as_text info.product,
        lossy-as_text info.serial_number,
      )
      refl

collect_infos-shown :
    (info : DeviceInfo) (blank : Text) (devices : List UdevDevice)
    → Fits info
    → Blank blank
    → collect_infos (shown info blank ∷ devices) ≡ info ∷ collect_infos devices
unfolding collect_infos shown
collect_infos-shown info blank devices fits b =
    ap (λ i. i ∷ collect_infos devices) (device_info-shown info blank fits b)

collect_infos-Shows :
    (devices : List UdevDevice) (infos : List DeviceInfo)
    → Shows devices infos
    → collect_infos devices ≡ infos
unfolding collect_infos
collect_infos-Shows _ _ nothing_more = refl
collect_infos-Shows _ _ (shows info blank devices infos fits b s) =
    collect_infos-shown info blank devices fits b
    ∙ ap (λ l. info ∷ l) (collect_infos-Shows devices infos s)
collect_infos-Shows _ _ (no_node device devices infos e s) =
    rw e (collect_infos-Shows devices infos s)

-- Where udev scans devices whose numbers are in the kernel's formats (four hexadecimal digits, or
-- decimal), with or without white space behind them, and devices without a node in between: enumeration gives just the infos that they show, in
-- their order.
pub enumerate_udev_devices-Shows :
    (devices : List UdevDevice) (infos : List DeviceInfo)
    → Shows devices infos
    → enumerate_udev_devices (ok devices) ≡ ok infos
unfolding enumerate_udev_devices
enumerate_udev_devices-Shows devices infos s = ap ok (collect_infos-Shows devices infos s)
