-- ===== src/Windows/Enumerate.antt =====
-- usb-lib/src/backend/windows.rs: enumeration, and the backend. The loop over the interfaces is on fuel.
mod Tests
use rust_usb.Base.{
  ℕ, zero, suc, ◌+◌, ◌%◌, ◌^◌, List, [], ◌∷◌, ◌++◌, Option, none, some, ◌==◌, if◌then◌else◌, leb,
  replicate, drop,
}
use rust_usb.Error.{Result, ok, err, panic, no_fuel, from_win32}
use rust_usb.Bytes.{le_units}
use rust_usb.Text.{Text, from_utf16_lossy}
use rust_usb.Text.Search.{split_two}
use rust_usb.Backend.{and_then, Op, DeviceInfo, UsbBackend}
use rust_usb.Windows.{done, failed, WinUsb, WinUsbDevice}
use rust_usb.Windows.Open.{open_device}
use rust_usb.Windows.SetupApi.{
  SetupApi, unwrap_or, read_vid_pid, read_location_info, read_string_descriptors,
}

-- A zeroed buffer with `cbSize`, 8 on 64 bits, stored in front. The store leaves a buffer of less than
-- four bytes, which is undefined behaviour and stands as a panic here.
unfoldable pub detail_buffer : ℕ → Result (List ℕ)
detail_buffer size = if leb 4 size then ok (8 ∷ 0 ∷ 0 ∷ 0 ∷ drop 4 (replicate size 0)) else panic

-- The path in the detail of an interface: behind the four bytes of `cbSize`, up to a zero.
unfoldable pub detail_path : ℕ → List ℕ → Text
unfolding from_utf16_lossy split_two
detail_path buf_len buf =
    if leb buf_len 5 then [] else from_utf16_lossy (split_two 0 (le_units (drop 4 buf))).0

-- `devices.push(info)`
abbrev pub pushed : List DeviceInfo → Option DeviceInfo → List DeviceInfo
pushed devices none = devices
pushed devices (some info) = devices ++ (info ∷ [])

module _ {W : Type 0} (api : WinUsb W) (setup : SetupApi W) (to_uppercase : Text → Text) where
  -- The information on the device with this path.
  unfoldable pub device_info : ℕ → ℕ → Text → Op W (Option DeviceInfo)
  unfolding read_vid_pid read_location_info read_string_descriptors
  device_info dev_info device path w =
      let ids = read_vid_pid setup to_uppercase dev_info device w in
      let place = unwrap_or (0, 0) (read_location_info setup to_uppercase dev_info device w) in
      and_then (read_string_descriptors api path w) λ names w'. (
        ok (
            some (record {
              vendor_id = ids.0;
              product_id = ids.1;
              bus_number = place.0;
              device_address = place.1;
              path = path;
              manufacturer = names.0;
              product = names.1;
              serial_number = names.2;
            })),
        w',
      )

  unfoldable pub unless_empty : ℕ → ℕ → Text → Op W (Option DeviceInfo)
  unfolding device_info
  unless_empty dev_info device [] w = (ok none, w)
  unless_empty dev_info device (c ∷ cs) w = device_info dev_info device (c ∷ cs) w

  -- Pass 2: the detail of the interface.
  unfoldable pub detailed : ℕ → ℕ → ℕ → ℕ → List ℕ → Op W (Option DeviceInfo)
  unfolding unless_empty detail_path
  detailed dev_info iface size device buf w =
      let (r, buf', device') = setup.interface_detail dev_info iface buf device w in
      elim r [
        | failed _ ↦ (ok none, w)
        | done _ ↦ unless_empty dev_info device' (detail_path size buf') w
      ]

  -- The body of the loop: `none` is `continue`.
  unfoldable pub visit : ℕ → ℕ → Op W (Option DeviceInfo)
  unfolding detailed detail_buffer
  visit dev_info iface w =
      let (size, device) = setup.detail_size dev_info iface w in
      if size == 0
      then (ok none, w)
      else and_then (detail_buffer size, w) (detailed dev_info iface size device)

  -- The loop, with the u32 index that it has come to and the devices that it has found.
  unfoldable pub enumerate_from : ℕ → ℕ → ℕ → List DeviceInfo → Op W (List DeviceInfo)
  unfolding visit
  enumerate_from zero dev_info i devices w = (no_fuel, w)
  enumerate_from (suc fuel) dev_info i devices w =
      elim (setup.enum_device_interfaces dev_info i w) [
        | failed _ ↦ (ok devices, w)
        | done iface ↦
            and_then (visit dev_info iface w)
              λ found w'. enumerate_from fuel dev_info ((i + 1) % 2 ^ 32) (pushed devices found) w'
      ]

  -- The guard destroys the set on every way out.
  unfoldable pub enumerate_winusb_devices : ℕ → Op W (List DeviceInfo)
  unfolding enumerate_from
  enumerate_winusb_devices fuel w =
      let (r, w') = setup.get_class_devs w in
      elim r [
        | failed code ↦ (err (from_win32 code), w')
        | done dev_info ↦
            let (devices, w'') = enumerate_from fuel dev_info 0 [] w' in
            (devices, setup.destroy_device_info_list dev_info w'')
      ]

  -- `impl UsbBackend for WindowsBackend`
  abbrev pub windows_backend : ℕ → UsbBackend W WinUsbDevice
  unfolding enumerate_winusb_devices open_device
  windows_backend fuel = record {
    enumerate = enumerate_winusb_devices fuel;
    open_device = open_device api;
  }
