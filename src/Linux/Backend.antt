-- ===== src/Linux/Backend.antt =====
-- usb-lib/src/backend/linux.rs: opening a device node, and the operations put together as a device.
use rust_usb.Base.{ℕ, [], true, false}
use rust_usb.Error.{
  UsbError, Result, ok, err, panic, no_fuel, io, IoError, permission, other_kind, permission_denied,
  unsupported,
}
use rust_usb.Text.{Text}
use rust_usb.Backend.{Op, UsbDevice, with_defaults}
use rust_usb.Linux.{Kernel, Attached, LinuxDevice, Opened, file, failed}
use rust_usb.Linux.Device
use rust_usb.Linux.Isoch

-- `e.kind() == ErrorKind::PermissionDenied`
abbrev pub open_error : IoError → UsbError
open_error permission = permission_denied
open_error (other_kind n) = io (other_kind n)

module _ {W : Type 0} (k : Kernel W) where
  -- The file of the node, for reading and writing, or else only for reading.
  unfoldable pub open_node : Text → W → Opened × W
  open_node path w =
      let (both, w') = k.open_file true path w in
      let fallback = k.open_file false path w' in
      elim both [ file fd ↦ (file fd, w') | failed _ ↦ fallback ]

  abbrev pub fresh : ℕ → LinuxDevice
  fresh fd = record { fd = fd; endpoint_cache = [] }

  -- The cache's refresh, an error of which is dropped.
  abbrev pub warmed : Result (Unit {0}) × Attached W → Result LinuxDevice × W
  warmed (ok _, s) = (ok s.device, s.world)
  warmed (err _, s) = (ok s.device, s.world)
  warmed (panic, s) = (panic, s.world)
  warmed (no_fuel, s) = (no_fuel, s.world)

  -- `LinuxDevice::open`, from the outcome of `open_node`.
  abbrev pub attach : Opened → Op W LinuxDevice
  attach (failed e) w = (err (open_error e), w)
  attach (file fd) w =
      warmed (Device.refresh_endpoint_cache k (record { device = fresh fd; world = w }))

  unfoldable pub open_device : Text → Op W LinuxDevice
  open_device path w = let (opened, w') = open_node path w in attach opened w'

  -- `impl UsbDevice for LinuxDevice`: the interrupt and the async transfers are the bulk ones,
  -- `abort_pipe` is `reset_pipe`, there are no pipe policies, and the trait's defaults stand for the
  -- BOS and the hub descriptor.
  abbrev pub linux_device : UsbDevice (Attached W)
  linux_device =
      record (with_defaults (record {
        read_device_descriptor = Device.read_device_descriptor k;
        read_config_descriptor = Device.read_config_descriptor_impl k;
        read_string_descriptor = Device.read_string_descriptor k;
        claim_interface = Device.claim_interface k;
        release_interface = Device.release_interface k;
        control_transfer = Device.control_transfer k;
      })) {
        bulk_read = Device.bulk_read k;
        bulk_write = Device.bulk_write k;
        interrupt_read = Device.bulk_read k;
        interrupt_write = Device.bulk_write k;
        reset_pipe = Device.reset_pipe k;
        abort_pipe = Device.reset_pipe k;
        reset_device = Device.reset_device k;
        get_alternate_setting = Device.get_alternate_setting k;
        set_alternate_setting = Device.set_alternate_setting k;
        get_pipe_info = Device.get_pipe_info k;
        get_pipe_policy = λ _ _ s. (err unsupported, s);
        set_pipe_policy = λ _ _ s. (err unsupported, s);
        async_bulk_read = Device.bulk_read k;
        async_bulk_write = Device.bulk_write k;
        async_interrupt_read = Device.bulk_read k;
        async_interrupt_write = Device.bulk_write k;
        isoch_read = Isoch.isoch_read k;
        isoch_write = Isoch.isoch_write k;
      }
