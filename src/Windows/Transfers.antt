-- ===== src/Windows/Transfers.antt =====
-- usb-lib/src/backend/windows.rs: the synchronous transfers, the descriptors, the pipes and the
-- alternate settings of `impl UsbDevice for WinUsbDevice`.
use rust_usb.Base.{
  ℕ, ◌%◌, ◌^◌, min, List, [], ◌∷◌, Option, none, some, ◌==◌, not, if◌then◌else◌, ltb, ◌||◌,
  replicate,
}
use rust_usb.Error.{Result, ok, err, other, invalid_descriptor, ◌>>=◌, ◌>>◌}
use rust_usb.Bytes.{index, slice, u16_from_le_bytes, le_units}
use rust_usb.Text.{Text, from_utf16_lossy}
use rust_usb.Transfer.{ControlSetup, get_descriptor}
use rust_usb.Endpoint.{EndpointInfo}
use rust_usb.Endpoint
use rust_usb.Descriptor.Device.{DeviceDescriptor}
use rust_usb.Descriptor.Device
use rust_usb.Descriptor.Config.{ConfigDescriptor}
use rust_usb.Descriptor.Config
use rust_usb.Descriptor.Bos.{BosDescriptor}
use rust_usb.Descriptor.Bos
use rust_usb.Descriptor.Hub.{HubDescriptor}
use rust_usb.Descriptor.Hub
use rust_usb.Backend.{and_then, Op, ReadOp, timeout_millis}
use rust_usb.Windows.{from_win, WinUsb, Attached, PipeInformation}
use rust_usb.Windows.Device.{interface_handle, probe, handle_for_endpoint, handles, to_le_bytes}

module _ {W : Type 0} (api : WinUsb W) where
  -- `set_pipe_timeout`: a timeout of 0 leaves the policy as it is, and an error is dropped.
  unfoldable pub set_pipe_timeout : ℕ → ℕ → ℕ → W → W
  set_pipe_timeout h endpoint timeout_ms w =
      if timeout_ms == 0
      then w
      else (api.set_pipe_policy h endpoint 0x03 (to_le_bytes timeout_ms) w).1

  unfoldable pub do_control_transfer :
      ControlSetup → Option (List ℕ) → ℕ → Attached W → Result ℕ × Option (List ℕ) × Attached W
  unfolding set_pipe_timeout
  do_control_transfer setup (some buf) timeout_ms s =
      let w = set_pipe_timeout s.device.usb_handle 0x00 timeout_ms s.world in
      let (r, buf', w') = api.control_transfer s.device.usb_handle setup buf w in
      (from_win r, some buf', record s { world = w' })
  do_control_transfer setup none timeout_ms s =
      let w = set_pipe_timeout s.device.usb_handle 0x00 timeout_ms s.world in
      let (r, _, w') = api.control_transfer s.device.usb_handle setup [] w in
      (from_win r, none, record s { world = w' })

  -- A transfer into a buffer of the caller's own.
  unfoldable pub read_control : ControlSetup → List ℕ → ReadOp (Attached W)
  unfolding do_control_transfer
  read_control setup buf s =
      let w = set_pipe_timeout s.device.usb_handle 0x00 1000 s.world in
      let (r, buf', w') = api.control_transfer s.device.usb_handle setup buf w in
      (from_win r, buf', record s { world = w' })

  unfoldable pub read_device_descriptor : Op (Attached W) DeviceDescriptor
  unfolding read_control get_descriptor
  read_device_descriptor s =
      let (r, buf, s') = read_control (get_descriptor 0x01 0 0x0000 18) (replicate 18 0) s in
      (r >> Device.from_bytes buf, s')

  unfoldable pub read_total_length : ℕ → Op (Attached W) ℕ
  unfolding read_control get_descriptor
  read_total_length i s =
      let (r, hdr, s') = read_control (get_descriptor 0x02 i 0x0000 9) (replicate 9 0) s in
      (
        do
          _ ← r
          lo ← index hdr 2
          hi ← index hdr 3
          let total_len = u16_from_le_bytes lo hi
          if ltb total_len 9 then err invalid_descriptor else ok total_len,
        s',
      )

  unfoldable pub read_config_descriptor : ℕ → Op (Attached W) ConfigDescriptor
  unfolding read_total_length read_control get_descriptor
  read_config_descriptor i s = and_then (read_total_length i s) λ total_len s'.
      let setup = get_descriptor 0x02 i 0x0000 (total_len % 2 ^ 16) in
      let (r, buf, s'') = read_control setup (replicate total_len 0) s' in
      (r >> Config.from_bytes buf, s'')

  unfoldable pub read_string_descriptor : ℕ → ℕ → Op (Attached W) Text
  unfolding read_control get_descriptor
  read_string_descriptor i lang s =
      let (r, buf, s') = read_control (get_descriptor 0x03 i lang 255) (replicate 255 0) s in
      (
        r >>= λ transferred.
            if ltb transferred 2
            then err invalid_descriptor
            else (index buf 0 >>= λ b_length.
                if ltb b_length 2 || ltb transferred b_length
                then err invalid_descriptor
                else (slice buf 2 b_length >>= λ content.
                    ok (from_utf16_lossy (le_units content)))),
        s',
      )

  -- The header of the BOS descriptor, for `wTotalLength`.
  unfoldable pub read_bos_length : Op (Attached W) ℕ
  unfolding read_control get_descriptor
  read_bos_length s =
      let (r, hdr, s') = read_control (get_descriptor 0x0F 0 0 5) (replicate 5 0) s in
      (
        do
          n ← r
          tag ← index hdr 1
          lo ← index hdr 2
          hi ← index hdr 3
          let total_len = u16_from_le_bytes lo hi
          if ltb n 5 || not (tag == 0x0F) then err invalid_descriptor else ok total_len,
        s',
      )

  unfoldable pub read_bos_descriptor : Op (Attached W) BosDescriptor
  unfolding read_bos_length read_control get_descriptor
  read_bos_descriptor s = and_then (read_bos_length s) λ total_len s'.
      let size = min total_len 4096 in
      let (r, buf, s'') =
        read_control (get_descriptor 0x0F 0 0 (size % 2 ^ 16)) (replicate size 0) s' in
      (r >>= λ n. slice buf 0 n >>= λ bytes. Bos.from_bytes bytes, s'')

  unfoldable pub read_hub_descriptor : Op (Attached W) HubDescriptor
  unfolding read_control
  read_hub_descriptor s =
      let setup : ControlSetup = record {
        request_type = 0xA0;
        request = 0x06;
        value = 0x2900;
        index = 0;
        length = 71;
      } in
      let (r, buf, s') = read_control setup (replicate 71 0) s in
      (r >>= λ n. slice buf 0 n >>= λ bytes. Hub.from_bytes bytes, s')

  unfoldable pub control_transfer :
      ControlSetup → Option (List ℕ) → ℕ → Attached W → Result ℕ × Option (List ℕ) × Attached W
  control_transfer setup buf timeout s = do_control_transfer setup buf (timeout_millis timeout) s

  unfoldable pub bulk_read : ℕ → List ℕ → ℕ → ReadOp (Attached W)
  unfolding set_pipe_timeout
  bulk_read endpoint buf timeout s =
      let h = handle_for_endpoint api endpoint s in
      let w = set_pipe_timeout h endpoint (timeout_millis timeout) s.world in
      let (r, buf', w') = api.read_pipe h endpoint buf w in
      (from_win r, buf', record s { world = w' })

  unfoldable pub bulk_write : ℕ → List ℕ → ℕ → Op (Attached W) ℕ
  unfolding set_pipe_timeout
  bulk_write endpoint buf timeout s =
      let h = handle_for_endpoint api endpoint s in
      let w = set_pipe_timeout h endpoint (timeout_millis timeout) s.world in
      let (r, w') = api.write_pipe h endpoint buf w in (from_win r, record s { world = w' })

  unfoldable pub reset_pipe : ℕ → Op (Attached W) (Unit {0})
  reset_pipe endpoint s =
      let (r, w) = api.reset_pipe (handle_for_endpoint api endpoint s) endpoint s.world in
      (from_win r, record s { world = w })

  unfoldable pub abort_pipe : ℕ → Op (Attached W) (Unit {0})
  abort_pipe endpoint s =
      let (r, w) = api.abort_pipe (handle_for_endpoint api endpoint s) endpoint s.world in
      (from_win r, record s { world = w })

  unfoldable pub get_alternate_setting : ℕ → Op (Attached W) ℕ
  get_alternate_setting interface s = (
    interface_handle api interface s.device >>= λ h. from_win (api.get_alternate_setting h s.world),
    s,
  )

  unfoldable pub set_alternate_setting : ℕ → ℕ → Op (Attached W) (Unit {0})
  set_alternate_setting interface alt s =
      and_then (interface_handle api interface s.device, s)
        λ h s'.
          let (r, w) = api.set_alternate_setting h alt s'.world in
          (from_win r, record s' { world = w })

  abbrev info_or_error : ℕ → Option (ℕ × PipeInformation) → Result EndpointInfo
  info_or_error endpoint none =
      err (other "endpoint {:#04x} not found on any claimed interface" (endpoint ∷ []))
  info_or_error endpoint (some (_, info)) =
      ok (Endpoint.new info.pipe_id (info.pipe_type % 2 ^ 8) info.maximum_packet_size info.interval)

  unfoldable pub get_pipe_info : ℕ → Op (Attached W) EndpointInfo
  get_pipe_info endpoint s = (
    info_or_error endpoint
        (probe api endpoint s.world (s.device.usb_handle ∷ handles s.device.assoc_handles)),
    s,
  )
