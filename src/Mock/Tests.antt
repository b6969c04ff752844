-- ===== src/Mock/Tests.antt =====
-- The mock backend with one device, and the theorems on it.
use rust_usb.Base.{List, [], ◌∷◌, none}
use rust_usb.Descriptor.Device.{DeviceDescriptor}
use rust_usb.Backend.{DeviceInfo}
use rust_usb.Mock.{MockDevice, MockDeviceInfo}

abbrev pub descriptor : DeviceDescriptor
descriptor = record {
  bcd_usb = 0x0200;
  device_class = 0;
  device_sub_class = 0;
  device_protocol = 0;
  max_packet_size0 = 64;
  vendor_id = 0x1234;
  product_id = 0x5678;
  bcd_device = 0x0100;
  manufacturer_index = 1;
  product_index = 2;
  serial_number_index = 3;
  num_configurations = 1;
}

abbrev info : DeviceInfo
info = record {
  vendor_id = 0x1234;
  product_id = 0x5678;
  bus_number = 1;
  device_address = 2;
  path = 47 ∷ 109 ∷ [];
  manufacturer = none;
  product = none;
  serial_number = none;
}

-- A device with the interfaces 0 and 2 claimed.
abbrev claimed : MockDevice
claimed = record {
  descriptor = descriptor;
  configs = [];
  strings = [];
  claimed_interfaces = 0 ∷ 2 ∷ [];
}

abbrev in_order : List MockDeviceInfo → List MockDeviceInfo
in_order l = l
