-- ===== src/Windows/Leaks.antt =====
-- What an isochronous read that fails early leaves behind.
use rust_usb.Base.{ℕ, ◌<◌, ◌≡◌, refl, ◌∙◌, List, ◌==◌, false, arith, length, ◌%◌, ◌^◌}
use rust_usb.Error.{UsbError, err, from_win32}
use rust_usb.Windows.{Win, done, failed, WinUsb}
use rust_usb.Windows.Overlapped.{Flow, falls_through, returns}
use rust_usb.Windows.Isoch.{isoch_settle, clean_up, read_registered, isoch_transfer_read}
use rust_usb.Windows.Events.{Events}
use rust_usb.Windows.Buffers.{Buffers, WithBuffer, WithBoth, isoch_settle-Same}

module _ {W : Type 0} (api : WinUsb W) (events : Events api) (account : Buffers api events) where
  open events use {open_events, created, not_created, closed}
  open account use {
    buffers, registered, refused, unregistered, event_created, event_closed, read, written,
    registering_keeps, unregistering_keeps, reading_keeps, writing_keeps,
  }

  isoch_settle-returns :
      (r : Win (Unit {0})) (file event code : ℕ) (buf : List ℕ) (w : W)
      → r ≡ done tt
      → (api.get_overlapped_result file event false buf w).0 ≡ failed code
      → (isoch_settle api r file event buf w).0 ≡ returns (from_win32 code)
  unfolding isoch_settle
  isoch_settle-returns (done _) file event code buf w e broken = ground arith
  isoch_settle-returns (failed c) file event code buf w e broken = cc

  clean_up-returns :
      (buffer event : ℕ) (e : UsbError) (x : Flow × List ℕ × W)
      → x.0 ≡ returns e
      → clean_up api buffer event x ≡ (err e, x.1, x.2)
  clean_up-returns buffer event e (falls_through r, buf, w) h = cc
  clean_up-returns buffer event e (returns f, buf, w) h = ground arith

  registered_read :
      (file h endpoint buffer : ℕ) (buf : List ℕ) (w : W)
      → 0 < length buf
      → let (r, w1) = api.register_isoch_buffer h endpoint buf w in
        r ≡ done buffer
        → isoch_transfer_read api file h endpoint buf w ≡ read_registered api file buffer buf w1
  unfolding isoch_transfer_read
  registered_read file h endpoint buffer buf w pos e =
      let full : length buf == 0 ≡ false = ground arith in rw (isoch_transfer_read, full, e) refl

  -- A read of at least one byte whose buffer is registered. If no event can be created, it returns that
  -- error and the buffer stays registered. If the call completes at once and its result is then an
  -- error, it returns that error, the buffer stays registered and the event stays open. Nothing can
  -- give either back any more.
  pub isoch_read_leaks :
      (file h endpoint buffer code : ℕ) (buf : List ℕ) (w : W)
      → 0 < length buf
      → let (r, w1) = api.register_isoch_buffer h endpoint buf w in
        r ≡ done buffer
        → let (q, _, w') = isoch_transfer_read api file h endpoint buf w in
          let (created, w2) = api.create_event w1 in
          (created ≡ failed code → (q ≡ err (from_win32 code)) × WithBuffer api events account w w')
          × ((event : ℕ)
              → created ≡ done event
              → let (io_ok, buf', w3) =
                  api.read_isoch_pipe_asap buffer (length buf % 2 ^ 32) event buf w2 in
                io_ok ≡ done tt
                → (api.get_overlapped_result file event false buf' w3).0 ≡ failed code
                → (q ≡ err (from_win32 code)) × WithBoth api events account w w')
  unfolding read_registered
  isoch_read_leaks file h endpoint buffer code buf w pos e =
      let w1 = (api.register_isoch_buffer h endpoint buf w).1 in
      let w2 = (api.create_event w1).1 in
      let b = registered h endpoint buffer buf w e in
      let o = registering_keeps h endpoint buf w in
      rw (registered_read file h endpoint buffer buf w pos e) (
        λ no_event.
            rw (read_registered, no_event)
              (refl, (event_created w1 ∙ b, not_created code w1 no_event ∙ o)),
        λ event made completed broken.
            let n = length buf % 2 ^ 32 in
            let call = api.read_isoch_pipe_asap buffer n event buf w2 in
            let flow = isoch_settle api call.0 file event call.1 call.2 in
            let early : flow.0 ≡ returns (from_win32 code) =
              isoch_settle-returns call.0 file event code call.1 call.2 completed broken in
            let (b', o') = isoch_settle-Same api events account call.0 file event call.1 call.2 in
            rw (read_registered, made, clean_up-returns buffer event (from_win32 code) flow early)
              (
                refl,
                (
                  omega (arith, b', read buffer n event buf w2, event_created w1, b),
                  omega (arith, o', reading_keeps buffer n event buf w2, created event w1 made, o),
                ),
              ),
      )
