-- ===== src/MacOs/Device.antt =====
-- usb-lib/src/backend/macos.rs: `MacOsDevice::open`, its `Drop`, and the requests to the device's control
-- endpoint. Logging is not modelled.
use rust_usb.Base.{
  ℕ, ◌*◌, ◌%◌, ◌^◌, List, [], ◌∷◌, Option, none, some, ◌==◌, ◌||◌, not, if◌then◌else◌, ltb, Bool,
  true, false, length, replicate, bit_and, bit_or, contains,
}
use rust_usb.Error.{
  UsbError, Result, ok, err, invalid_descriptor, invalid_handle, device_not_found,
  permission_denied, io, other_kind, other, ◌>>=◌, ◌>>◌,
}
use rust_usb.Bytes.{index, slice, u16_from_le_bytes, le_units}
use rust_usb.Text.{Text, from_utf16_lossy}
use rust_usb.Transfer.{ControlSetup}
use rust_usb.Descriptor.Device.{DeviceDescriptor}
use rust_usb.Descriptor.Device
use rust_usb.Descriptor.Interface.{InterfaceDescriptor}
use rust_usb.Descriptor.Config.{ConfigDescriptor}
use rust_usb.Descriptor.Config
use rust_usb.Backend.{and_then, Op, ReadOp, timeout_millis}
use rust_usb.MacOs.Iokit.{
  Iokit, MacOsDevice, Attached, iokit_kr_to_usb_error, k_ioreturn_exclusive_access,
}

-- `interfaces.iter().any(|iface| iface.interface_number == interface)`
abbrev pub has_interface : ℕ → List InterfaceDescriptor → Bool
has_interface interface [] = false
has_interface interface (iface ∷ rest) =
    iface.interface_number == interface || has_interface interface rest

-- The set without an interface.
abbrev pub without : ℕ → List ℕ → List ℕ
without interface [] = []
without interface (i ∷ rest) =
    if i == interface then without interface rest else i ∷ without interface rest

abbrev pub open_error : ℕ → UsbError
open_error kr = if kr == k_ioreturn_exclusive_access then permission_denied else io (other_kind kr)

abbrev pub new_device : Text → ℕ → MacOsDevice
new_device path device_intf = record {
  path = path;
  device_intf = device_intf;
  claimed_interfaces = [];
  pipe_cache = [];
  poisoned = false;
}

module _ {W : Type 0} (iokit : Iokit W) where
  unfoldable pub create_device_interface : ℕ → W → Result ℕ × W
  create_device_interface service w =
      let (kr, plugin, w1) = iokit.create_device_plugin service w in
      let (query_kr, device_intf, w2) = iokit.query_device plugin w1 in
      let w3 = iokit.release_plugin plugin w2 in
      if not (kr == 0) || plugin == 0
      then (err (other "IOCreatePlugInInterfaceForService failed: {:#x}" (kr ∷ [])), w1)
      else (if not (query_kr == 0) || device_intf == 0
          then (
            err (other "QueryInterface for IOUSBDeviceInterface failed: {:#x}" (query_kr ∷ [])),
            w3,
          )
          else (ok device_intf, w3))

  -- `USBDeviceOpen`, behind the creation of the device interface.
  abbrev pub open_intf : Text → ℕ → W → Result MacOsDevice × W
  open_intf path device_intf w =
      let (kr, w') = iokit.usb_device_open device_intf w in
      (if kr == 0 then ok (new_device path device_intf) else err (open_error kr), w')

  -- `MacOsDevice::open`, from the service that the search found.
  unfoldable pub open_service : Text → Option ℕ → W → Result MacOsDevice × W
  unfolding create_device_interface
  open_service path none w = (err device_not_found, w)
  open_service path (some service) w =
      let (created, w1) = create_device_interface service w in
      and_then (created, iokit.release_object service w1) (open_intf path)

  -- `Drop for MacOsDevice`
  unfoldable pub drop : Attached W → W
  drop s =
      let closed = iokit.usb_device_close s.device.device_intf s.world in
      if s.device.device_intf == 0
      then s.world
      else iokit.release_device s.device.device_intf closed

  unfoldable pub raw_control : ℕ → ℕ → ℕ → ℕ → List ℕ → ℕ → ReadOp (Attached W)
  unfolding iokit_kr_to_usb_error
  raw_control request_type request value index buf timeout_ms s =
      let (kr, done, buf', w) =
        iokit.device_request_to s.device.device_intf
          (record {
            request_type = request_type;
            request = request;
            value = value;
            index = index;
            length = length buf % 2 ^ 16;
            no_data_timeout = timeout_ms;
            completion_timeout = timeout_ms;
          })
          buf s.world in
      if s.device.device_intf == 0 then (err invalid_handle, buf, s) else (
        if kr == 0 then ok done else err (iokit_kr_to_usb_error kr),
        buf',
        record s { world = w },
      )

  unfoldable pub get_interface_alt_setting : ℕ → ℕ → Op (Attached W) ℕ
  unfolding raw_control
  get_interface_alt_setting interface timeout_ms s =
      let (r, buf, s') = raw_control 0x81 0x0A 0 interface (replicate 1 0) timeout_ms s in
      (r >>= λ n. if ltb n 1 then err invalid_descriptor else index buf 0, s')

  unfoldable pub set_interface_alt_setting : ℕ → ℕ → ℕ → Op (Attached W) (Unit {0})
  unfolding raw_control
  set_interface_alt_setting interface alt_setting timeout_ms s =
      let (r, _, s') = raw_control 0x01 0x0B alt_setting interface [] timeout_ms s in
      (r >> ok tt, s')

  unfoldable pub read_device_descriptor : Op (Attached W) DeviceDescriptor
  unfolding raw_control
  read_device_descriptor s =
      let (r, buf, s') = raw_control 0x80 0x06 0x0100 0x0000 (replicate 18 0) 5000 s in
      (r >>= λ n. if ltb n 18 then err invalid_descriptor else Device.from_bytes buf, s')

  -- Pass 1: the 9 bytes of the header, for `wTotalLength`.
  unfoldable pub read_total_length : ℕ → Op (Attached W) ℕ
  unfolding raw_control
  read_total_length req_value s =
      let (r, hdr, s') = raw_control 0x80 0x06 req_value 0 (replicate 9 0) 5000 s in
      (
        r >>= λ n. if ltb n 9 then err invalid_descriptor else (do
          lo ← index hdr 2
          hi ← index hdr 3
          let total_len = u16_from_le_bytes lo hi
          if ltb total_len 9 then err invalid_descriptor else ok total_len),
        s',
      )

  -- Pass 2: the full descriptor.
  unfoldable pub read_full : ℕ → ℕ → Op (Attached W) ConfigDescriptor
  unfolding raw_control
  read_full req_value total_len s =
      let (r, full, s') = raw_control 0x80 0x06 req_value 0 (replicate total_len 0) 5000 s in
      (r >> Config.from_bytes full, s')

  unfoldable pub read_config_descriptor : ℕ → Op (Attached W) ConfigDescriptor
  unfolding read_total_length read_full
  read_config_descriptor i s =
      let req_value = bit_or (0x02 * 256) i in
      and_then (read_total_length req_value s) (read_full req_value)

  unfoldable pub read_string_descriptor : ℕ → ℕ → Op (Attached W) Text
  unfolding raw_control
  read_string_descriptor i lang s =
      let (r, buf, s') =
        raw_control 0x80 0x06 (bit_or (0x03 * 256) i) lang (replicate 255 0) 5000 s in
      (
        r >>= λ n.
            if ltb n 2
            then err invalid_descriptor
            else (index buf 0 >>= λ str_len.
                if ltb str_len 2 || ltb n str_len
                then err invalid_descriptor
                else (slice buf 2 str_len >>= λ content. ok (from_utf16_lossy (le_units content)))),
        s',
      )

  unfoldable pub interface_exists : ℕ → Op (Attached W) Bool
  unfolding read_config_descriptor
  interface_exists interface s =
      let (r, s') = read_config_descriptor 0 s in
      (r >>= λ cfg. ok (has_interface interface cfg.interfaces), s')

  -- `self.claimed_interfaces.insert(interface)`
  abbrev pub insert_claim : ℕ → Attached W → Attached W
  insert_claim interface s = record s {
    device = record s.device { claimed_interfaces = interface ∷ s.device.claimed_interfaces };
  }

  -- The interface exists, or not: the query of its alternate setting, and the claim.
  unfoldable pub claim_existing : ℕ → Bool → Op (Attached W) (Unit {0})
  unfolding get_interface_alt_setting
  claim_existing interface false s =
      (err (other "interface {} not found in configuration" (interface ∷ [])), s)
  claim_existing interface true s =
      and_then (get_interface_alt_setting interface 1000 s)
        λ alt s'. (ok tt, insert_claim interface s')

  unfoldable pub claim_interface : ℕ → Op (Attached W) (Unit {0})
  unfolding interface_exists claim_existing
  claim_interface interface s =
      let fresh = and_then (interface_exists interface s) (claim_existing interface) in
      if contains interface s.device.claimed_interfaces then (ok tt, s) else fresh

  abbrev pub remove_claim : ℕ → Attached W → Attached W
  remove_claim interface s = record s {
    device = record s.device { claimed_interfaces = without interface s.device.claimed_interfaces };
  }

  unfoldable pub release_interface : ℕ → Op (Attached W) (Unit {0})
  unfolding set_interface_alt_setting
  release_interface interface s =
      let reset =
        and_then (set_interface_alt_setting interface 0 1000 s)
          λ _ s'. (ok tt, remove_claim interface s') in
      if contains interface s.device.claimed_interfaces then reset else (ok tt, s)

  -- The buffer of the transfer is the caller's, if there is one.
  unfoldable pub control_transfer :
      ControlSetup → Option (List ℕ) → ℕ → Attached W → Result ℕ × Option (List ℕ) × Attached W
  unfolding raw_control
  control_transfer setup (some buf) timeout s =
      let (r, buf', s') =
        raw_control setup.request_type setup.request setup.value setup.index buf
          (timeout_millis timeout) s in
      (r, some buf', s')
  control_transfer setup none timeout s =
      let (r, _, s') =
        raw_control setup.request_type setup.request setup.value setup.index
          (replicate setup.length 0) (timeout_millis timeout) s in
      if bit_and setup.request_type 0x80 == 0
      then (r, none, s')
      else (err (other "IN transfer requires a data buffer" []), none, s)

  unfoldable pub get_alternate_setting : ℕ → Op (Attached W) ℕ
  unfolding get_interface_alt_setting
  get_alternate_setting interface s = get_interface_alt_setting interface 5000 s
