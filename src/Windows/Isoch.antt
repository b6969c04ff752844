-- ===== src/Windows/Isoch.antt =====
-- usb-lib/src/backend/windows.rs: the isochronous transfers, on a buffer that is registered for them.
use rust_usb.Base.{ℕ, ◌%◌, ◌^◌, List, ◌==◌, if◌then◌else◌, length}
use rust_usb.Error.{Result, ok, err, from_win32, timeout}
use rust_usb.Backend.{Op, ReadOp}
use rust_usb.Windows.{Win, done, failed, Wait, object_0, other_wait, WinUsb, Attached}
use rust_usb.Windows.Device.{handle_for_endpoint}
use rust_usb.Windows.Overlapped.{Flow, falls_through, returns, io_pending, collect}

module _ {W : Type 0} (api : WinUsb W) where
  abbrev pub after_infinite : Wait → ℕ → ℕ → List ℕ → W → Flow × List ℕ × W
  after_infinite object_0 file event buf w = collect api file event buf w
  after_infinite other_wait file event buf w = (falls_through (err timeout), buf, w)

  -- The outcome of the call, and the wait for a pending one, which has no limit.
  unfoldable pub isoch_settle : Win (Unit {0}) → ℕ → ℕ → List ℕ → W → Flow × List ℕ × W
  isoch_settle (done _) file event buf w = collect api file event buf w
  isoch_settle (failed code) file event buf w =
      let (waited, w') = api.wait_for_single_object event 0xffff_ffff w in
      if code == io_pending
      then after_infinite waited file event buf w'
      else (falls_through (err (from_win32 code)), buf, w)

  -- The buffer is unregistered and the event is closed, unless `?` has left the function.
  abbrev pub clean_up : ℕ → ℕ → Flow × List ℕ × W → Result ℕ × List ℕ × W
  clean_up buffer event (falls_through r, buf, w) =
      (r, buf, api.close_handle event (api.unregister_isoch_buffer buffer w))
  clean_up buffer event (returns e, buf, w) = (err e, buf, w)

  -- The read, behind the registration of its buffer.
  unfoldable pub read_registered : ℕ → ℕ → List ℕ → W → Result ℕ × List ℕ × W
  unfolding isoch_settle
  read_registered file buffer buf w =
      let (created, w1) = api.create_event w in
      elim created [
        | failed code ↦ (err (from_win32 code), buf, w1)
        | done event ↦
            let (io_ok, buf', w2) =
              api.read_isoch_pipe_asap buffer (length buf % 2 ^ 32) event buf w1 in
            clean_up buffer event (isoch_settle io_ok file event buf' w2)
      ]

  unfoldable pub isoch_transfer_read : ℕ → ℕ → ℕ → List ℕ → W → Result ℕ × List ℕ × W
  unfolding read_registered
  isoch_transfer_read file h endpoint buf w =
      let (registered, w1) = api.register_isoch_buffer h endpoint buf w in
      if length buf == 0 then (ok 0, buf, w) else (elim registered [
        | failed code ↦ (err (from_win32 code), buf, w1)
        | done buffer ↦ read_registered file buffer buf w1
      ])

  -- The write, behind the registration of its buffer.
  unfoldable pub write_registered : ℕ → ℕ → List ℕ → W → Result ℕ × W
  unfolding isoch_settle
  write_registered file buffer buf w =
      let (created, w1) = api.create_event w in
      elim created [
        | failed code ↦ (err (from_win32 code), w1)
        | done event ↦
            let (io_ok, w2) = api.write_isoch_pipe_asap buffer (length buf % 2 ^ 32) event buf w1 in
            let (r, _, w') = clean_up buffer event (isoch_settle io_ok file event buf w2) in (r, w')
      ]

  unfoldable pub isoch_transfer_write : ℕ → ℕ → ℕ → List ℕ → W → Result ℕ × W
  unfolding write_registered
  isoch_transfer_write file h endpoint buf w =
      let (registered, w1) = api.register_isoch_buffer h endpoint buf w in
      if length buf == 0 then (ok 0, w) else (elim registered [
        | failed code ↦ (err (from_win32 code), w1)
        | done buffer ↦ write_registered file buffer buf w1
      ])

  unfoldable pub isoch_read : ℕ → List ℕ → ReadOp (Attached W)
  unfolding isoch_transfer_read
  isoch_read endpoint buf s =
      let h = handle_for_endpoint api endpoint s in
      let (r, buf', w) = isoch_transfer_read s.device.file_handle h endpoint buf s.world in
      (r, buf', record s { world = w })

  unfoldable pub isoch_write : ℕ → List ℕ → Op (Attached W) ℕ
  unfolding isoch_transfer_write
  isoch_write endpoint buf s =
      let h = handle_for_endpoint api endpoint s in
      let (r, w) = isoch_transfer_write s.device.file_handle h endpoint buf s.world in
      (r, record s { world = w })
