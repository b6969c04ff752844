-- ===== src/Linux/Isoch.antt =====
-- usb-lib/src/backend/linux.rs: the isochronous transfers, each by one URB of at most 256 packets.
use rust_usb.Base.{
  ℕ, zero, suc, ◌+◌, ◌-◌, ◌/◌, ◌%◌, ◌^◌, List, [], ◌∷◌, ◌==◌, not, if◌then◌else◌, ltb, length, take,
  bit_and, max,
}
use rust_usb.Error.{Result, ok, err, panic, no_fuel, other, ◌>>=◌, ◌>>◌}
use rust_usb.Endpoint.{EndpointInfo}
use rust_usb.Backend.{Op, ReadOp}
use rust_usb.Linux.{
  Kernel, Attached, done, errno, ℤ, pos, negsuc, UsbdevfsIsoUrb, UsbdevfsIsoPacketDesc, Reaped,
  another, map_errno, map_errno_code, ioctl_submit_urb, ioctl_reap_urb,
}
use rust_usb.Linux.Device.{get_pipe_info}

abbrev pub max_iso_packets : ℕ
max_iso_packets = 256

-- `i32::MAX`
abbrev pub i32_max : ℕ
i32_max = 0x7fff_ffff

-- `.ok().map(..).filter(|s| *s > 0).unwrap_or(1024)`
abbrev pub packet_hint : Result EndpointInfo → Result ℕ
packet_hint (ok i) = ok (if i.max_packet_size == 0 then 1024 else i.max_packet_size)
packet_hint (err _) = ok 1024
packet_hint panic = panic
packet_hint no_fuel = no_fuel

unfoldable pub packet_count : ℕ → ℕ → ℕ
packet_count len hint = max ((len + hint - 1) / hint) 1

-- The packets `i` to `num_packets - 1` of the loop, of which `left` are to be described.
unfoldable pub frames : ℕ → ℕ → ℕ → ℕ → List UsbdevfsIsoPacketDesc
frames base rem i zero = []
frames base rem i (suc left) =
    record {
      length = (base + (if ltb i rem then 1 else 0)) % 2 ^ 32;
      actual_length = 0;
      status = 0;
    }
    ∷ frames base rem (suc i) left

-- The URB that is submitted. The entries of `iso_frame_desc` behind `num_packets`, which the kernel
-- is not told of, are left out.
unfoldable pub iso_urb : ℕ → ℕ → ℕ → UsbdevfsIsoUrb
iso_urb endpoint len num_packets = record {
  urb_type = 0;
  endpoint = endpoint;
  status = pos 0;
  buffer_length = len;
  actual_length = pos 0;
  number_of_packets = num_packets;
  iso_frame_desc = frames (len / num_packets) (len % num_packets) 0 num_packets;
}

-- `i32::abs`, which overflows at `i32::MIN`.
abbrev pub abs : ℤ → Result ℕ
abs (pos n) = ok n
abs (negsuc n) = if n == 0x7fff_ffff then panic else ok (suc n)

-- `status as i32`, of a u32
abbrev pub as_i32 : ℕ → ℤ
as_i32 n = if ltb n 0x8000_0000 then pos n else negsuc (0xffff_ffff - n)

-- The loop over the packets: the first one with a status ends the transfer.
unfoldable pub frame_error : List UsbdevfsIsoPacketDesc → Result (Unit {0})
frame_error [] = ok tt
frame_error (frame ∷ rest) =
    let later = frame_error rest in
    if not (frame.status == 0)
    then (abs (as_i32 frame.status) >>= λ code. err (map_errno_code code))
    else later

-- `header.status != 0`
abbrev pub status_error : ℤ → Result (Unit {0})
status_error (pos zero) = ok tt
status_error status = abs status >>= λ code. err (map_errno_code code)

-- `actual_length.max(0) as usize`
abbrev pub at_least_zero : ℤ → ℕ
at_least_zero (pos n) = n
at_least_zero (negsuc _) = 0

-- The outcome of a reaped URB of `num_packets` packets.
unfoldable pub urb_result : ℕ → Reaped → UsbdevfsIsoUrb → Result ℕ
urb_result num_packets another urb = err (other "reaped unexpected URB pointer" [])
urb_result num_packets _ urb =
    status_error urb.status
    >> frame_error (take num_packets urb.iso_frame_desc)
    >> ok (at_least_zero urb.actual_length)

module _ {W : Type 0} (k : Kernel W) where
  -- Submitting and reaping the URB.
  unfoldable pub run_urb : UsbdevfsIsoUrb → List ℕ → ReadOp (Attached W)
  unfolding ioctl_submit_urb ioctl_reap_urb
  run_urb urb buf s =
      let (submitted, w) = ioctl_submit_urb k s.device.fd urb buf s.world in
      let (n, reaped, urb', buf', w') = ioctl_reap_urb k s.device.fd urb buf w in
      elim submitted [
        | errno e ↦ (err (map_errno_code e), buf, record s { world = w })
        | done _ ↦ (
          map_errno n >> urb_result urb.number_of_packets reaped urb',
          buf',
          record s { world = w' },
        )
      ]

  unfoldable pub isoch_transfer : ℕ → List ℕ → ReadOp (Attached W)
  isoch_transfer endpoint buf s =
      let len = length buf in
      let (info, s') = get_pipe_info k endpoint s in
      if len == 0
      then (ok 0, buf, s)
      else (if ltb i32_max len
          then (err (other "isochronous transfer buffer too large" []), buf, s)
          else (elim (packet_hint info) [
            | ok hint ↦
                let num_packets = packet_count len hint in
                if ltb max_iso_packets num_packets
                then (
                  err (
                      other "isochronous transfer requires {} packets; max supported is {}"
                        (num_packets ∷ max_iso_packets ∷ [])),
                  buf,
                  s',
                )
                else run_urb (iso_urb endpoint len num_packets) buf s'
            | err e ↦ (err e, buf, s')
            | panic ↦ (panic, buf, s')
            | no_fuel ↦ (no_fuel, buf, s')
          ]))

  unfoldable pub isoch_read : ℕ → List ℕ → ReadOp (Attached W)
  isoch_read endpoint buf s =
      if bit_and endpoint 0x80 == 0
      then (err (other "isoch_read requires an IN endpoint, got {:#04x}" (endpoint ∷ [])), buf, s)
      else isoch_transfer endpoint buf s

  unfoldable pub isoch_write : ℕ → List ℕ → Op (Attached W) ℕ
  isoch_write endpoint buf s =
      if not (bit_and endpoint 0x80 == 0)
      then (err (other "isoch_write requires an OUT endpoint, got {:#04x}" (endpoint ∷ [])), s)
      else (let (r, _, s') = isoch_transfer endpoint buf s in (r, s'))
