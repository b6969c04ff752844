-- ===== src/Endpoint.antt =====
-- usb-lib/src/core/endpoint.rs: what an endpoint descriptor says of its pipe.
use rust_usb.Base.{ℕ, bit_and, ◌==◌, not, if◌then◌else◌}

pub data Direction : Type 0 where
  input output : Direction

pub data TransferType : Type 0 where
  control isochronous bulk interrupt : TransferType

pub record EndpointInfo : Type 0 where
  pub pipe_id : ℕ
  pub number : ℕ
  pub direction : Direction
  pub transfer_type : TransferType
  pub max_packet_size : ℕ
  pub interval : ℕ

-- `EndpointInfo::new`
unfoldable pub new : ℕ → ℕ → ℕ → ℕ → EndpointInfo
new address attributes max_packet_size interval =
    let direction = if not (bit_and address 0x80 == 0) then input else output in
    let kind = bit_and attributes 0x03 in
    let transfer_type =
      if kind == 0x00
      then control
      else (if kind == 0x01 then isochronous else (if kind == 0x02 then bulk else interrupt)) in
    record {
      pipe_id = address;
      number = bit_and address 0x0F;
      direction = direction;
      transfer_type = transfer_type;
      max_packet_size = max_packet_size;
      interval = interval;
    }
