-- ===== src/Hotplug.antt =====
-- usb-lib/src/hotplug.rs: notifications of devices that come and go. Worker is the thread of the Linux
-- backend, Callback the notification callback of the Windows backend.
pub mod Worker
pub mod Delivery
pub mod Stopping
pub mod Callback
pub mod Registration
pub mod RunLoop
pub mod Contexts
pub mod Ending
pub mod Paths
mod Tests
use rust_usb.Text.{Text}

pub data HotplugEvent : Type 0 where
  device_arrived device_left : Text → HotplugEvent
