-- ===== src/Transfer.antt =====
-- usb-lib/src/core/transfer.rs: the SETUP packet of a control transfer and the builders of the
-- standard requests. A u8 argument is a number below 256, a u16 one a number below 65536.
mod Tests
use rust_usb.Base.{
  ℕ, ◌+◌, ◌*◌, ◌/◌, ◌%◌, ◌^◌, ◌≤◌, ◌<◌, ◌≡◌, arith, bit_and, bit_or, bit_and-31, bit_and-128,
  bit_or-128, bit_or-byte,
}

pub record ControlSetup : Type 0 where
  pub request_type : ℕ
  pub request : ℕ
  pub value : ℕ
  pub index : ℕ
  pub length : ℕ

unfoldable pub get_descriptor : ℕ → ℕ → ℕ → ℕ → ControlSetup
get_descriptor desc_type desc_index lang_id length = record {
  request_type = 0x80;
  request = 0x06;
  value = bit_or (desc_type * 256 % 2 ^ 16) desc_index;
  index = lang_id;
  length = length;
}

unfoldable pub set_configuration : ℕ → ControlSetup
set_configuration config_value = record {
  request_type = 0x00;
  request = 0x09;
  value = config_value;
  index = 0;
  length = 0;
}

unfoldable pub set_interface : ℕ → ℕ → ControlSetup
set_interface interface alt_setting = record {
  request_type = 0x01;
  request = 0x0B;
  value = alt_setting;
  index = interface;
  length = 0;
}

unfoldable pub get_status : ℕ → ℕ → ControlSetup
get_status recipient index = record {
  request_type = bit_or 0x80 (bit_and recipient 0x1F);
  request = 0x00;
  value = 0;
  index = index;
  length = 2;
}

unfoldable pub clear_feature : ℕ → ℕ → ℕ → ControlSetup
clear_feature recipient feature index = record {
  request_type = bit_and recipient 0x1F;
  request = 0x01;
  value = feature;
  index = index;
  length = 0;
}

unfoldable pub set_feature : ℕ → ℕ → ℕ → ControlSetup
set_feature recipient feature index = record {
  request_type = bit_and recipient 0x1F;
  request = 0x03;
  value = feature;
  index = index;
  length = 0;
}
