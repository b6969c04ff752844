-- ===== src/MacOs/Backend.antt =====
-- usb-lib/src/backend/macos.rs: the operations put together as a device.
use rust_usb.Error.{err, unsupported}
use rust_usb.Backend.{UsbDevice, with_defaults}
use rust_usb.MacOs.Iokit.{Iokit, Attached}
use rust_usb.MacOs.Device
use rust_usb.MacOs.Pipes

module _ {W : Type 0} (iokit : Iokit W) where
  -- `impl UsbDevice for MacOsDevice`: the interrupt transfers are the bulk ones, the timeouts of all four are
  -- not used, there are no pipe policies, and the trait's defaults stand for the rest.
  abbrev pub mac_os_device : UsbDevice (Attached W)
  mac_os_device =
      record (with_defaults (record {
        read_device_descriptor = Device.read_device_descriptor iokit;
        read_config_descriptor = Device.read_config_descriptor iokit;
        read_string_descriptor = Device.read_string_descriptor iokit;
        claim_interface = Device.claim_interface iokit;
        release_interface = Device.release_interface iokit;
        control_transfer = Device.control_transfer iokit;
      })) {
        bulk_read = λ endpoint buf _. Pipes.bulk_read iokit endpoint buf;
        bulk_write = λ endpoint buf _. Pipes.bulk_write iokit endpoint buf;
        interrupt_read = λ endpoint buf _. Pipes.bulk_read iokit endpoint buf;
        interrupt_write = λ endpoint buf _. Pipes.bulk_write iokit endpoint buf;
        get_alternate_setting = Device.get_alternate_setting iokit;
        set_alternate_setting = Pipes.set_alternate_setting iokit;
        get_pipe_info = Pipes.get_pipe_info iokit;
        get_pipe_policy = λ _ _ s. (err unsupported, s);
        set_pipe_policy = λ _ _ s. (err unsupported, s);
      }
