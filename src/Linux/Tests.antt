-- ===== src/Linux/Tests.antt =====
-- A kernel that serves one device, and the theorems on it.
use rust_usb.Base.{
  ℕ, ◌≤◌, ◌<◌, ◌≡◌, refl, List, [], ◌∷◌, ◌++◌, none, some, arith, length, take, drop, min, ◌==◌,
  ◌*◌, ◌-◌, if◌then◌else◌, All, Bool, true, false, inl, inr,
}
use rust_usb.Error.{permission, other_kind, Result, ok, err, Returns, other}
use rust_usb.Text.{Text}
use rust_usb.Descriptor.Device.{DeviceDescriptor}
use rust_usb.Descriptor.Device
use rust_usb.Descriptor.Endpoint.{EndpointDescriptor}
use rust_usb.Descriptor.Interface.{InterfaceDescriptor}
use rust_usb.Descriptor.Config.{ConfigDescriptor}
use rust_usb.Descriptor.Config.Encode
use rust_usb.Linux.{
  Kernel, Attached, ℤ, pos, Request, control, Opened, file, failed, submitted, UsbdevfsIsoUrb,
  ioctl_set_interface,
}
use rust_usb.Linux.Device.{read_string_descriptor, get_pipe_info, set_alternate_setting, cache_from}
use rust_usb.Linux.Isoch.{packet_count, iso_urb}
use rust_usb.Linux.Backend.{linux_device}
use rust_usb.Linux.Strings
use rust_usb.Linux.Strings.{read_string_descriptor-Serves}
use rust_usb.Linux.Cache.{
  ServesConfig, info_of, get_pipe_info_lem, set_alternate_setting_ignores_alt, CacheOf,
}
use rust_usb.Backend.{DeviceInfo}
use rust_usb.Text.Search.{is_whitespace}
use rust_usb.Linux.Enumerate.{
  UdevDevice, enumerate_udev_devices, shown, nothing_more, shows, no_node,
  enumerate_udev_devices-Shows,
}
use rust_usb.Linux.Packets.{iso_urb_lem, total}
use rust_usb.Linux.Returns.{AnyError}
use rust_usb.Linux.Guards.{reads_never_panic, transfers_check_direction}

abbrev descriptor : DeviceDescriptor
descriptor = record {
  bcd_usb = 0x0200;
  device_class = 0;
  device_sub_class = 0;
  device_protocol = 0;
  max_packet_size0 = 64;
  vendor_id = 0x1234;
  product_id = 0x5678;
  bcd_device = 0x0100;
  manufacturer_index = 1;
  product_index = 2;
  serial_number_index = 3;
  num_configurations = 1;
}

abbrev bulk_in : ℕ → EndpointDescriptor
bulk_in size = record {
  endpoint_address = 0x81;
  attributes = 2;
  max_packet_size = size;
  interval = 0;
  ss_companion = none;
}

-- One interface with two alternate settings, which give its endpoint different packet sizes.
abbrev configuration : ConfigDescriptor
configuration = record {
  total_length = 41;
  num_interfaces = 1;
  configuration_value = 1;
  configuration_index = 0;
  attributes = 0x80;
  max_power = 50;
  interfaces = setting 0 64 ∷ setting 1 512 ∷ [];
}
  where
    setting : ℕ → ℕ → InterfaceDescriptor
    setting alt size = record {
      interface_number = 0;
      alternate_setting = alt;
      num_endpoints = 1;
      interface_class = 0xFF;
      interface_sub_class = 0;
      interface_protocol = 0;
      interface_index = 0;
      endpoints = bulk_in size ∷ [];
      hid_descriptor = none;
    }

abbrev text : Text
text = 85 ∷ 0x1F600 ∷ []

abbrev serve : List ℕ → List ℕ → Unit {0} → ℤ × List ℕ × Unit {0}
serve bytes buf w =
    (pos (min (length buf) (length bytes)), take (length buf) bytes ++ drop (length bytes) buf, w)

abbrev answer : Request → List ℕ → Unit {0} → ℤ × List ℕ × Unit {0}
answer (control t) buf w =
    if t.value == 0x0100
    then serve (Device.encode descriptor) buf w
    else (if t.value == 0x0200
        then serve (Encode.encode configuration) buf w
        else serve (Strings.encode text) buf w)
answer _ buf w = (pos 0, buf, w)

-- A node that opens only for reading, as the file 3.
abbrev open_readonly : Bool → Text → Unit {0} → Opened × Unit {0}
open_readonly true path w = (failed permission, w)
open_readonly false path w = (file 3, w)

abbrev serving : Kernel (Unit {0})
serving = record {
  open_file = open_readonly;
  ioctl = λ fd request buf w. answer request buf w;
  submit_urb = λ fd urb buf w. (pos 0, w);
  reap_urb = λ fd urb buf w. (pos 0, submitted, urb, buf, w);
  errno = λ w. 32;
}

abbrev Here : Unit {0} → Type 0
Here w = Unit {0}

abbrev cold : Attached (Unit {0})
cold = record { device = record { fd = 3; endpoint_cache = [] }; world = tt }

read_string_descriptor-Serves_example :
    let (r, s) = read_string_descriptor serving 2 0x0409 cold in
    (r ≡ ok text) × Unit {0} × (s.device ≡ cold.device)
read_string_descriptor-Serves_example =
    read_string_descriptor-Serves serving Here text 2 0x0409 cold (λ buf w p h. (refl, refl, tt)) tt
      (inl (omega arith), (inr (omega arith, omega arith), tt)) (omega arith) (omega arith)

serves_configuration : ServesConfig serving Here 3 configuration
serves_configuration = record {
  serves = λ buf w p h. (refl, refl, tt);
  exact = refl;
  fits = omega arith;
}

get_pipe_info_lem_example :
    let (r, s) = get_pipe_info serving 0x81 cold in
    (r ≡ ok (info_of (bulk_in 512)))
    × Unit {0}
    × (s.device.fd ≡ 3)
    × CacheOf serving configuration s.device.endpoint_cache
get_pipe_info_lem_example =
    get_pipe_info_lem serving Here configuration 0x81 cold serves_configuration tt (inl refl)

-- A kernel that opens no node, and reports full transfers of whatever is in the buffer.
abbrev closed : Kernel (Unit {0})
closed = record serving {
  open_file = λ write path w. (failed (if write then other_kind 2 else permission), w);
  ioctl = λ fd request buf w. (pos (length buf), buf, w);
}

reads_never_panic_example :
    let dev = linux_device closed in
    Returns AnyError (dev.read_device_descriptor cold).0
    × Returns AnyError (dev.read_config_descriptor 0 cold).0
    × Returns AnyError (dev.read_string_descriptor 0 9 cold).0
    × Returns AnyError (dev.get_alternate_setting 0 cold).0
    × Returns AnyError (dev.get_pipe_info 0 cold).0
reads_never_panic_example =
    reads_never_panic closed cold 0 9 (λ fd request buf w. (refl, λ bytes. bytes))

transfers_check_direction_example :
    let dev = linux_device serving in
    let no_in : Result ℕ × List ℕ × Attached (Unit {0}) =
      (err (other "bulk_read requires an IN endpoint, got {:#04x}" (1 ∷ [])), 7 ∷ [], cold) in
    let no_out : Result ℕ × Attached (Unit {0}) =
      (err (other "bulk_write requires an OUT endpoint, got {:#04x}" (129 ∷ [])), cold) in
    (dev.bulk_read 1 (7 ∷ []) 5 cold ≡ no_in)
    × (dev.interrupt_read 1 (7 ∷ []) 5 cold ≡ no_in)
    × (dev.async_bulk_read 1 (7 ∷ []) 5 cold ≡ no_in)
    × (dev.async_interrupt_read 1 (7 ∷ []) 5 cold ≡ no_in)
    × (dev.isoch_read 1 (7 ∷ []) cold
        ≡ (err (other "isoch_read requires an IN endpoint, got {:#04x}" (1 ∷ [])), 7 ∷ [], cold))
    × (dev.bulk_write 129 (7 ∷ []) 5 cold ≡ no_out)
    × (dev.interrupt_write 129 (7 ∷ []) 5 cold ≡ no_out)
    × (dev.async_bulk_write 129 (7 ∷ []) 5 cold ≡ no_out)
    × (dev.async_interrupt_write 129 (7 ∷ []) 5 cold ≡ no_out)
    × (dev.isoch_write 129 (7 ∷ []) cold
        ≡ (err (other "isoch_write requires an OUT endpoint, got {:#04x}" (129 ∷ [])), cold))
transfers_check_direction_example =
    transfers_check_direction serving 1 5 (7 ∷ []) cold (omega arith)

iso_urb_lem_example :
    let urb = iso_urb 0x81 2500 (packet_count 2500 1024) in
    (urb.number_of_packets ≡ length urb.iso_frame_desc)
    × (total urb.iso_frame_desc ≡ 2500)
    × All (λ f. f.length ≤ 1024) urb.iso_frame_desc
    × (2500 ≤ urb.number_of_packets * 1024)
    × ((urb.number_of_packets - 1) * 1024 < 2500)
iso_urb_lem_example = iso_urb_lem 0x81 2500 1024 (omega arith) (omega arith) (omega arith)

abbrev reaped_urb : UsbdevfsIsoUrb
reaped_urb = record {
  urb_type = 0;
  endpoint = 0x81;
  status = pos 0;
  buffer_length = 8;
  actual_length = pos 6;
  number_of_packets = 1;
  iso_frame_desc = record { length = 8; actual_length = 6; status = 0 } ∷ [];
}

abbrev listed : DeviceInfo
listed = record {
  vendor_id = 0x1d6b;
  product_id = 2;
  bus_number = 1;
  device_address = 127;
  path = 47 ∷ [];
  manufacturer = none;
  product = some (72 ∷ []);
  serial_number = none;
}

abbrev nodeless : UdevDevice
nodeless = record {
  devnode = none;
  id_vendor = none;
  id_product = none;
  busnum = none;
  devnum = none;
  manufacturer = none;
  product = none;
  serial = none;
}

enumerate_udev_devices-Shows_example :
    enumerate_udev_devices (ok (nodeless ∷ shown listed (10 ∷ []) ∷ [])) ≡ ok (listed ∷ [])
unfolding is_whitespace
enumerate_udev_devices-Shows_example =
    enumerate_udev_devices-Shows (nodeless ∷ shown listed (10 ∷ []) ∷ []) (listed ∷ []) (
      no_node nodeless (shown listed (10 ∷ []) ∷ []) (listed ∷ []) refl (
        shows listed (10 ∷ []) [] [] (omega arith, omega arith, omega arith, omega arith) (refl, tt)
          nothing_more))

set_alternate_setting_ignores_alt_example :
    let (r, s) = set_alternate_setting serving 0 0 cold in
    (r ≡ ok tt)
    × (s.device.endpoint_cache ≡ cache_from configuration.interfaces [])
    × ((get_pipe_info serving 0x81 s).0 ≡ ok (info_of (bulk_in 512)))
unfolding ioctl_set_interface
set_alternate_setting_ignores_alt_example =
    set_alternate_setting_ignores_alt serving Here configuration 0 0 0x81 cold serves_configuration
      (0, refl, tt)
