-- ===== src/Descriptor/Tests.antt =====
-- Runs of the parsers on concrete buffers, and the theorems at concrete inputs.
use rust_usb.Base.{ℕ, ◌≤◌, ◌<◌, ◌≡◌, ◌≢◌, ◌⊎◌, refl, List, [], ◌∷◌, ◌++◌, arith, get_or, none, some}
use rust_usb.Error.{ok, err, invalid_descriptor}
use rust_usb.Bytes.{index, slice}
use rust_usb.Descriptor.Chunks.{Chunked}
use rust_usb.Descriptor.Device.{DeviceDescriptor, encode-device_from_bytes}
use rust_usb.Descriptor.Device
use rust_usb.Descriptor.Qualifier.{DeviceQualifierDescriptor}
use rust_usb.Descriptor.Endpoint.{EndpointDescriptor}
use rust_usb.Descriptor.Interface.{InterfaceDescriptor}
use rust_usb.Descriptor.Config.{ConfigDescriptor}
use rust_usb.Descriptor.Config
use rust_usb.Descriptor.Config.Refine.{assemble}
use rust_usb.Descriptor.Config.Total
use rust_usb.Descriptor.Config.Total.{config_from_bytes_total}
use rust_usb.Descriptor.Config.Encode
use rust_usb.Descriptor.Config.RoundTrip.{config_from_bytes-encode}
use rust_usb.Descriptor.Hub.{HubDescriptor, encode_small, small_hub_removable}
use rust_usb.Descriptor.Hub
use rust_usb.Descriptor.Bos
use rust_usb.Descriptor.Bos.{BosCapability, BosDescriptor, unknown}
use rust_usb.Descriptor.Bos.Refine.{decode_all}
use rust_usb.Descriptor.Bos.Total as BosTotal
use rust_usb.Descriptor.Bos.Total.{bos_from_bytes_total}
use rust_usb.Descriptor.Bos.RoundTrip
use rust_usb.Descriptor.Bos.RoundTrip.{bos_from_bytes-encode}

-- tests/descriptor_parsing.rs: the buffer of `test_parse_valid_device_descriptor`.
abbrev device_bytes : List ℕ
device_bytes =
    18 ∷ 0x01 ∷ 0x00 ∷ 0x02 ∷ 0xFF ∷ 0x00 ∷ 0x00 ∷ 64 ∷ 0x34 ∷ 0x12 ∷ 0x78 ∷ 0x56 ∷ 0x00 ∷ 0x01 ∷ 1
    ∷ 2 ∷ 3 ∷ 1 ∷ []

abbrev device : DeviceDescriptor
device = record {
  bcd_usb = 0x0200;
  device_class = 0xFF;
  device_sub_class = 0;
  device_protocol = 0;
  max_packet_size0 = 64;
  vendor_id = 0x1234;
  product_id = 0x5678;
  bcd_device = 0x0100;
  manufacturer_index = 1;
  product_index = 2;
  serial_number_index = 3;
  num_configurations = 1;
}

device_parses : Device.from_bytes device_bytes ≡ ok device
unfolding Device.from_bytes index
device_parses = refl

abbrev qualifier : DeviceQualifierDescriptor
qualifier = record {
  bcd_usb = 0x0200;
  device_class = 9;
  device_sub_class = 0;
  device_protocol = 1;
  max_packet_size0 = 64;
  num_configurations = 1;
}

-- `test_parse_config_with_interface_and_endpoint`, and a HID descriptor and a companion besides.
abbrev bulk_in : EndpointDescriptor
bulk_in = record {
  endpoint_address = 0x81;
  attributes = 2;
  max_packet_size = 1024;
  interval = 0;
  ss_companion = some (record { max_burst = 3; attributes = 0; bytes_per_interval = 0 });
}

abbrev bulk_out : EndpointDescriptor
bulk_out = record {
  endpoint_address = 0x01;
  attributes = 2;
  max_packet_size = 64;
  interval = 0;
  ss_companion = none;
}

abbrev vendor_interface : InterfaceDescriptor
vendor_interface = record {
  interface_number = 0;
  alternate_setting = 0;
  num_endpoints = 2;
  interface_class = 0xFF;
  interface_sub_class = 0;
  interface_protocol = 0;
  interface_index = 0;
  endpoints = bulk_in ∷ bulk_out ∷ [];
  hid_descriptor = some (record {
    bcd_hid = 0x0111;
    country_code = 0;
    num_descriptors = 1;
    descriptor_type = 0x22;
    descriptor_length = 63;
  });
}

abbrev config : ConfigDescriptor
config = record {
  total_length = 47;
  num_interfaces = 1;
  configuration_value = 1;
  configuration_index = 0;
  attributes = 0x80;
  max_power = 50;
  interfaces = vendor_interface ∷ [];
}

config_from_bytes-encode_example :
    Config.from_bytes (Encode.encode config ++ (1 ∷ 2 ∷ [])) ≡ ok config
config_from_bytes-encode_example = config_from_bytes-encode config (1 ∷ 2 ∷ []) refl

-- `test_parse_config_descriptor_too_short`: 8 bytes.
abbrev short_config : List ℕ
short_config = 9 ∷ 0x02 ∷ 0x09 ∷ 0x00 ∷ 1 ∷ 1 ∷ 0 ∷ 0x80 ∷ []

config_too_short : Config.from_bytes short_config ≡ err invalid_descriptor
unfolding Config.from_bytes
config_too_short = refl

-- The last record claims more bytes than are left, and is dropped.
config_cut_short :
    Config.from_bytes (9 ∷ 2 ∷ 16 ∷ 0 ∷ 1 ∷ 1 ∷ 0 ∷ 0x80 ∷ 50 ∷ 9 ∷ 4 ∷ 0 ∷ 0 ∷ 0 ∷ 3 ∷ 1 ∷ [])
    ≡ ok (record {
      total_length = 16;
      num_interfaces = 1;
      configuration_value = 1;
      configuration_index = 0;
      attributes = 0x80;
      max_power = 50;
      interfaces = [];
    })
unfolding Config.from_bytes index slice
config_cut_short = refl

config_from_bytes_total_example :
    ((9 ≤ 8)
      × (get_or short_config 1 0 ≡ 0x02)
      × (cs : List (List ℕ)) × Chunked 2 (Total.nested_area short_config) cs
      × (Config.from_bytes short_config ≡ ok (Total.with_interfaces short_config (assemble [] cs))))
    ⊎ (((8 < 9) ⊎ (get_or short_config 1 0 ≢ 0x02))
        × (Config.from_bytes short_config ≡ err invalid_descriptor))
config_from_bytes_total_example = config_from_bytes_total short_config

abbrev hub : HubDescriptor
hub = record {
  num_ports = 4;
  hub_characteristics = 0x00E9;
  power_on_to_power_good = 50;
  hub_controller_current = 100;
  device_removable = 0;
}

small_hub_removable_example :
    Hub.from_bytes (encode_small hub 2) ≡ ok (record hub { device_removable = 0xff02 })
small_hub_removable_example = small_hub_removable hub 2

abbrev bos : BosDescriptor
bos = record {
  total_length = 26;
  num_device_caps = 3;
  capabilities =
      BosCapability.usb20_extension (record { attributes = 6 })
      ∷ BosCapability.super_speed_usb (record {
        attributes = 0;
        speed_supported = 0x0E;
        functionality_support = 1;
        u1_dev_exit_lat = 10;
        u2_dev_exit_lat = 0x07FF;
      })
      ∷ BosCapability.unknown 5 (1 ∷ [])
      ∷ [];
}

bos_from_bytes-encode_example : Bos.from_bytes (RoundTrip.encode bos ++ []) ≡ ok bos
bos_from_bytes-encode_example = bos_from_bytes-encode bos [] (omega arith) refl

bos_from_bytes_total_example :
    ((5 ≤ 18)
      × (get_or device_bytes 1 0 ≡ 0x0F)
      × (cs : List (List ℕ)) × Chunked 3 (BosTotal.nested_area device_bytes) cs
      × (Bos.from_bytes device_bytes
          ≡ ok (BosTotal.with_capabilities device_bytes (decode_all [] cs))))
    ⊎ (((18 < 5) ⊎ (get_or device_bytes 1 0 ≢ 0x0F))
        × (Bos.from_bytes device_bytes ≡ err invalid_descriptor))
bos_from_bytes_total_example = bos_from_bytes_total device_bytes

-- A container id and a record that is no device capability, which is skipped.
bos_parses :
    Bos.from_bytes (5 ∷ 0x0F ∷ 13 ∷ 0 ∷ 1 ∷ 4 ∷ 0x11 ∷ 2 ∷ 9 ∷ 4 ∷ 0x10 ∷ 2 ∷ 8 ∷ [])
    ≡ ok (record {
      total_length = 13;
      num_device_caps = 1;
      capabilities = BosCapability.unknown 2 (8 ∷ []) ∷ [];
    })
unfolding Bos.from_bytes index slice
bos_parses = refl
