-- ===== src/Linux/Device.antt =====
-- usb-lib/src/backend/linux.rs, `impl LinuxDevice` and `impl UsbDevice for LinuxDevice`, but for the
-- isochronous transfers. Logging is not modelled.
use rust_usb.Base.{
  ℕ, ◌*◌, ◌%◌, ◌^◌, List, [], ◌∷◌, Option, none, some, ◌==◌, ◌||◌, not, if◌then◌else◌, ltb, ◌≡◌,
  refl, length, replicate, bit_and, bit_or, lookup, insert, nat_eq,
}
use rust_usb.Error.{
  Result, ok, err, panic, no_fuel, invalid_descriptor, device_not_found, other, ◌>>=◌, ◌>>◌,
}
use rust_usb.Bytes.{index, slice, u16_from_le_bytes, le_units}
use rust_usb.Text.{Text, from_utf16_lossy}
use rust_usb.Transfer.{ControlSetup}
use rust_usb.Endpoint.{EndpointInfo}
use rust_usb.Endpoint
use rust_usb.Descriptor.Device.{DeviceDescriptor}
use rust_usb.Descriptor.Device
use rust_usb.Descriptor.Endpoint.{EndpointDescriptor}
use rust_usb.Descriptor.Interface.{InterfaceDescriptor}
use rust_usb.Descriptor.Config.{ConfigDescriptor}
use rust_usb.Descriptor.Config
use rust_usb.Backend.{and_then, Op, ReadOp, timeout_millis, u32_max}
use rust_usb.Linux.{
  Kernel, Attached, Nix, done, errno, map_errno, discard, ioctl_usbdevfs_control,
  ioctl_usbdevfs_bulk, ioctl_set_interface, ioctl_claim_interface, ioctl_release_interface,
  ioctl_reset_endpoint, ioctl_clear_halt, ioctl_reset_device,
}

abbrev pub insert_endpoints :
    List EndpointDescriptor → List (ℕ × EndpointInfo) → List (ℕ × EndpointInfo)
insert_endpoints [] m = m
insert_endpoints (ep ∷ eps) m = insert_endpoints eps (
    insert ep.endpoint_address
      (Endpoint.new ep.endpoint_address ep.attributes ep.max_packet_size ep.interval) m)

-- The two nested loops of `refresh_endpoint_cache`.
abbrev pub cache_from : List InterfaceDescriptor → List (ℕ × EndpointInfo) → List (ℕ × EndpointInfo)
cache_from [] m = m
cache_from (iface ∷ ifaces) m = cache_from ifaces (insert_endpoints iface.endpoints m)

-- `if let Err(e) = .. { log }`
abbrev pub best_effort : {S : Type 0} → Result (Unit {0}) × S → Result (Unit {0}) × S
best_effort (ok _, s) = (ok tt, s)
best_effort (err _, s) = (ok tt, s)
best_effort (panic, s) = (panic, s)
best_effort (no_fuel, s) = (no_fuel, s)

pub best_effort_ok :
    {S : Type 0} (x : Result (Unit {0}) × S) → x.0 ≡ ok tt → best_effort x ≡ (ok tt, x.1)
best_effort_ok (ok b, s) e = refl
best_effort_ok (err b, s) e = cc
best_effort_ok (panic, s) e = cc
best_effort_ok (no_fuel, s) e = cc

abbrev pub found_or_not : ℕ → Option EndpointInfo → Result EndpointInfo
found_or_not endpoint none = err (other "endpoint {:#04x} not found" (endpoint ∷ []))
found_or_not endpoint (some info) = ok info

module _ {W : Type 0} (k : Kernel W) where
  unfoldable pub raw_control : ℕ → ℕ → ℕ → ℕ → List ℕ → ℕ → ReadOp (Attached W)
  unfolding ioctl_usbdevfs_control
  raw_control request_type request value index buf timeout_ms s =
      let (n, buf', w) =
        ioctl_usbdevfs_control k s.device.fd
          (record {
            request_type = request_type;
            request = request;
            value = value;
            index = index;
            length = length buf % 2 ^ 16;
            timeout = timeout_ms;
          })
          buf s.world in
      (map_errno n, buf', record s { world = w })

  unfoldable pub raw_bulk : ℕ → List ℕ → ℕ → ReadOp (Attached W)
  unfolding ioctl_usbdevfs_bulk
  raw_bulk endpoint buf timeout_ms s =
      if ltb u32_max (length buf)
      then (err (other "bulk transfer buffer too large" []), buf, s)
      else (let (n, buf', w) =
            ioctl_usbdevfs_bulk k s.device.fd
              (record { ep = endpoint; len = length buf % 2 ^ 32; timeout = timeout_ms }) buf
              s.world in
          (map_errno n, buf', record s { world = w }))

  -- The first pass: the 9 bytes of the header, for `wTotalLength`.
  unfoldable pub read_total_length : ℕ → Op (Attached W) ℕ
  read_total_length req_value s =
      let (r, hdr, s') = raw_control 0x80 0x06 req_value 0x0000 (replicate 9 0) 5000 s in
      (
        do
          n ← r
          lo ← index hdr 2
          hi ← index hdr 3
          let total_len = u16_from_le_bytes lo hi
          if ltb n 9 || ltb total_len 9 then err invalid_descriptor else ok total_len,
        s',
      )

  -- The second pass: the whole descriptor.
  unfoldable pub read_whole : ℕ → ℕ → Op (Attached W) ConfigDescriptor
  read_whole req_value total_len s =
      let (r, full, s') = raw_control 0x80 0x06 req_value 0x0000 (replicate total_len 0) 5000 s in
      (r >> Config.from_bytes full, s')

  unfoldable pub read_config_descriptor_impl : ℕ → Op (Attached W) ConfigDescriptor
  read_config_descriptor_impl index s =
      let req_value = bit_or (0x02 * 256) index in
      and_then (read_total_length req_value s) (read_whole req_value)

  unfoldable pub refresh_endpoint_cache : Op (Attached W) (Unit {0})
  refresh_endpoint_cache s = and_then (read_config_descriptor_impl 0 s) λ cfg s'. (
    ok tt,
    record s' { device = record s'.device { endpoint_cache = cache_from cfg.interfaces [] } },
  )

  unfoldable pub read_device_descriptor : Op (Attached W) DeviceDescriptor
  read_device_descriptor s =
      let (r, buf, s') = raw_control 0x80 0x06 0x0100 0x0000 (replicate 18 0) 5000 s in
      (r >>= λ n. if ltb n 18 then err invalid_descriptor else Device.from_bytes buf, s')

  unfoldable pub read_string_descriptor : ℕ → ℕ → Op (Attached W) Text
  read_string_descriptor index_ lang s =
      let req_value = bit_or (0x03 * 256) index_ in
      let (r, buf, s') = raw_control 0x80 0x06 req_value lang (replicate 255 0) 5000 s in
      (
        r >>= λ n.
            if ltb n 2
            then err invalid_descriptor
            else (index buf 0 >>= λ str_len.
                if ltb str_len 2 || ltb n str_len
                then err invalid_descriptor
                else (slice buf 2 str_len >>= λ content. ok (from_utf16_lossy (le_units content)))),
        s',
      )

  abbrev claim_error : Nix → Result (Unit {0})
  claim_error (done n) = ok tt
  claim_error (errno e) =
      if e == 16
      then err (other "interface already claimed" [])
      else (if e == 19 then err device_not_found else err (other "{}" (e ∷ [])))

  unfoldable pub claim_interface : ℕ → Op (Attached W) (Unit {0})
  unfolding ioctl_claim_interface
  claim_interface interface s =
      let (n, w) = ioctl_claim_interface k s.device.fd interface s.world in
      (claim_error n, record s { world = w })

  abbrev release_error : Nix → Result (Unit {0})
  release_error (done n) = ok tt
  release_error (errno e) = if e == 19 then err device_not_found else err (other "{}" (e ∷ []))

  unfoldable pub release_interface : ℕ → Op (Attached W) (Unit {0})
  unfolding ioctl_release_interface
  release_interface interface s =
      let (n, w) = ioctl_release_interface k s.device.fd interface s.world in
      (release_error n, record s { world = w })

  abbrev raw_some : Result ℕ × List ℕ × Attached W → Result ℕ × Option (List ℕ) × Attached W
  raw_some (r, buf, s) = (r, some buf, s)

  unfoldable pub control_transfer :
      ControlSetup → Option (List ℕ) → ℕ → Attached W → Result ℕ × Option (List ℕ) × Attached W
  control_transfer setup (some buf) timeout s = raw_some (
      raw_control setup.request_type setup.request setup.value setup.index buf
        (timeout_millis timeout) s)
  control_transfer setup none timeout s =
      if not (bit_and setup.request_type 0x80 == 0)
      then (err (other "IN transfer requires a data buffer" []), none, s)
      else (let (r, _, s') =
            raw_control setup.request_type setup.request setup.value setup.index
              (replicate setup.length 0) (timeout_millis timeout) s in
          (r, none, s'))

  unfoldable pub bulk_read : ℕ → List ℕ → ℕ → ReadOp (Attached W)
  bulk_read endpoint buf timeout s =
      if bit_and endpoint 0x80 == 0
      then (err (other "bulk_read requires an IN endpoint, got {:#04x}" (endpoint ∷ [])), buf, s)
      else raw_bulk endpoint buf (timeout_millis timeout) s

  unfoldable pub bulk_write : ℕ → List ℕ → ℕ → Op (Attached W) ℕ
  bulk_write endpoint buf timeout s =
      if not (bit_and endpoint 0x80 == 0)
      then (err (other "bulk_write requires an OUT endpoint, got {:#04x}" (endpoint ∷ [])), s)
      else (let (r, _, s') = raw_bulk endpoint buf (timeout_millis timeout) s in (r, s'))

  unfoldable pub reset_pipe : ℕ → Op (Attached W) (Unit {0})
  unfolding ioctl_clear_halt ioctl_reset_endpoint
  reset_pipe endpoint s =
      let (n, w) = ioctl_clear_halt k s.device.fd endpoint s.world in
      let (m, w') = ioctl_reset_endpoint k s.device.fd endpoint w in
      elim n [
        | done _ ↦ (ok tt, record s { world = w })
        | errno e ↦
            if e == 25 || e == 22
            then (discard (map_errno m), record s { world = w' })
            else (discard (map_errno (errno e)), record s { world = w })
      ]

  unfoldable pub reset_device : Op (Attached W) (Unit {0})
  unfolding ioctl_reset_device
  reset_device s =
      let (n, w) = ioctl_reset_device k s.device.fd s.world in
      (discard (map_errno n), record s { world = w })

  unfoldable pub get_alternate_setting : ℕ → Op (Attached W) ℕ
  get_alternate_setting interface s =
      let setup : ControlSetup = record {
        request_type = 0x81;
        request = 0x0A;
        value = 0;
        index = interface;
        length = 1;
      } in
      let (r, buf, s') = control_transfer setup (some (replicate 1 0)) 1_000_000_000 s in
      (r >>= λ n. if ltb n 1 then err invalid_descriptor else first buf, s')
    where
      first : Option (List ℕ) → Result ℕ
      first none = panic
      first (some bytes) = index bytes 0

  unfoldable pub set_alternate_setting : ℕ → ℕ → Op (Attached W) (Unit {0})
  unfolding ioctl_set_interface
  set_alternate_setting interface alt s =
      let (n, w) =
        ioctl_set_interface k s.device.fd (record { interface = interface; altsetting = alt })
          s.world in
      and_then (map_errno n, record s { world = w }) λ _ s'. best_effort (refresh_endpoint_cache s')

  -- A hit in the cache, or one refresh and a second look.
  abbrev pub hit_or_refresh : ℕ → Option EndpointInfo → Op (Attached W) EndpointInfo
  hit_or_refresh endpoint (some info) s = (ok info, s)
  hit_or_refresh endpoint none s =
      and_then (refresh_endpoint_cache s)
        λ _ s'. (found_or_not endpoint (lookup endpoint s'.device.endpoint_cache), s')

  unfoldable pub get_pipe_info : ℕ → Op (Attached W) EndpointInfo
  get_pipe_info endpoint s = hit_or_refresh endpoint (lookup endpoint s.device.endpoint_cache) s
