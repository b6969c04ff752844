-- ===== src/Windows/Overlapped.antt =====
-- usb-lib/src/backend/windows.rs: the overlapped transfers, which wait on an event of their own.
use rust_usb.Base.{ℕ, List, ◌==◌, if◌then◌else◌, true, false}
use rust_usb.Error.{
  UsbError, Result, ok, err, panic, no_fuel, from_win32, permission, other_kind, io, timeout,
}
use rust_usb.Backend.{Op, ReadOp, timeout_millis}
use rust_usb.Windows.{Win, done, failed, Wait, object_0, other_wait, WinUsb, Attached}
use rust_usb.Windows.Device.{handle_for_endpoint}

-- HRESULTs of `ERROR_IO_PENDING`, `ERROR_OPERATION_ABORTED` and `ERROR_ACCESS_DENIED`.
abbrev pub io_pending : ℕ
io_pending = 0x8007_03E5

abbrev pub operation_aborted : ℕ
operation_aborted = 0x8007_03E3

-- `UsbError::Io(std::io::Error::last_os_error())`, of which the kind counts.
abbrev pub last_os_error : ℕ → UsbError
last_os_error code = io (if code == 0x8007_0005 then permission else other_kind code)

-- `if timeout_ms == 0 { INFINITE } else { timeout_ms }`
abbrev pub wait_millis : ℕ → ℕ
wait_millis timeout_ms = if timeout_ms == 0 then 0xffff_ffff else timeout_ms

-- A block that ends in a result, or that `?` leaves together with the whole function.
pub data Flow : Type 0 where
  falls_through : Result ℕ → Flow
  returns : UsbError → Flow

module _ {W : Type 0} (api : WinUsb W) where
  unfoldable pub cancel_and_drain_overlapped : ℕ → ℕ → List ℕ → W → Result (Unit {0}) × List ℕ × W
  cancel_and_drain_overlapped file event buf w =
      let (cancelled, w') = api.cancel_io file event w in
      let (drained, buf', w'') = api.get_overlapped_result file event true buf w' in
      elim cancelled [
        | failed code ↦ (err (last_os_error code), buf, w')
        | done _ ↦ elim drained [
          | done _ ↦ (ok tt, buf', w'')
          | failed code ↦
              if code == operation_aborted
              then (ok tt, buf', w'')
              else (err (from_win32 code), buf', w'')
        ]
      ]

  -- The transfer has completed: `GetOverlappedResult(..)?`
  abbrev pub collect : ℕ → ℕ → List ℕ → W → Flow × List ℕ × W
  collect file event buf w =
      let (r, buf', w') = api.get_overlapped_result file event false buf w in
      elim r [
        | done n ↦ (falls_through (ok n), buf', w')
        | failed code ↦ (returns (from_win32 code), buf', w')
      ]

  abbrev pub timed_out : Result (Unit {0}) → Flow
  timed_out (ok _) = falls_through (err timeout)
  timed_out (err e) = returns e
  timed_out panic = falls_through panic
  timed_out no_fuel = falls_through no_fuel

  -- The wait has timed out: `cancel_and_drain_overlapped(..)?; Err(UsbError::Timeout)`
  unfoldable pub give_up : ℕ → ℕ → List ℕ → W → Flow × List ℕ × W
  unfolding cancel_and_drain_overlapped
  give_up file event buf w =
      let (r, buf', w') = cancel_and_drain_overlapped file event buf w in (timed_out r, buf', w')

  abbrev pub after_wait : Wait → ℕ → ℕ → List ℕ → W → Flow × List ℕ × W
  unfolding give_up
  after_wait object_0 file event buf w = collect file event buf w
  after_wait other_wait file event buf w = give_up file event buf w

  -- The `match io_result`
  unfoldable pub settle : Win ℕ → ℕ → ℕ → ℕ → List ℕ → W → Flow × List ℕ × W
  unfolding after_wait
  settle (done n) file event ms buf w = (falls_through (ok n), buf, w)
  settle (failed code) file event ms buf w =
      let (waited, w') = api.wait_for_single_object event (wait_millis ms) w in
      if code == io_pending
      then after_wait waited file event buf w'
      else (falls_through (err (from_win32 code)), buf, w)

  -- `CloseHandle(event)` at the end of the function.
  abbrev pub finish : ℕ → Flow × List ℕ × W → Result ℕ × List ℕ × W
  finish event (falls_through r, buf, w) = (r, buf, api.close_handle event w)
  finish event (returns e, buf, w) = (err e, buf, w)

  unfoldable pub overlapped_read : ℕ → ℕ → ℕ → List ℕ → ℕ → W → Result ℕ × List ℕ × W
  unfolding settle
  overlapped_read file h endpoint buf time w =
      let (created, w1) = api.create_event w in
      elim created [
        | failed code ↦ (err (from_win32 code), buf, w1)
        | done event ↦
            let (io_result, buf', w2) = api.read_pipe_overlapped h endpoint buf event w1 in
            finish event (settle io_result file event (timeout_millis time) buf' w2)
      ]

  unfoldable pub overlapped_write : ℕ → ℕ → ℕ → List ℕ → ℕ → W → Result ℕ × W
  unfolding settle
  overlapped_write file h endpoint buf time w =
      let (created, w1) = api.create_event w in
      elim created [
        | failed code ↦ (err (from_win32 code), w1)
        | done event ↦
            let (io_result, w2) = api.write_pipe_overlapped h endpoint buf event w1 in
            let (r, _, w') =
              finish event (settle io_result file event (timeout_millis time) buf w2) in
            (r, w')
      ]

  -- The async transfers of bulk and of interrupt endpoints.
  unfoldable pub async_read : ℕ → List ℕ → ℕ → ReadOp (Attached W)
  unfolding overlapped_read
  async_read endpoint buf time s =
      let h = handle_for_endpoint api endpoint s in
      let (r, buf', w) = overlapped_read s.device.file_handle h endpoint buf time s.world in
      (r, buf', record s { world = w })

  unfoldable pub async_write : ℕ → List ℕ → ℕ → Op (Attached W) ℕ
  unfolding overlapped_write
  async_write endpoint buf time s =
      let h = handle_for_endpoint api endpoint s in
      let (r, w) = overlapped_write s.device.file_handle h endpoint buf time s.world in
      (r, record s { world = w })
