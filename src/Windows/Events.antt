-- ===== src/Windows/Events.antt =====
-- The event handles of the overlapped transfers: which are closed, and which are not.
use rust_usb.Base.{ℕ, suc, ◌-◌, ◌≡◌, ◌⊎◌, inl, inr, refl, ◌∙◌, List, Bool, true, false, arith}
use rust_usb.Error.{UsbError, Result, err, from_win32}
use rust_usb.Backend.{timeout_millis}
use rust_usb.Windows.{Win, Win-cases, done, failed, Wait, object_0, other_wait, WinUsb}
use rust_usb.Windows.Overlapped.{
  Flow, falls_through, returns, cancel_and_drain_overlapped, give_up, after_wait, settle, finish,
  wait_millis, io_pending, overlapped_read, overlapped_write,
}

-- What Windows documents of event handles: `open_events` counts those that are open, and only
-- `CreateEventW` and `CloseHandle` change it.
pub record Events {W : Type 0} (api : WinUsb W) : Type 0 where
  pub open_events : W → ℕ
  pub created :
      (event : ℕ) (w : W)
      → (api.create_event w).0 ≡ done event
      → open_events (api.create_event w).1 ≡ suc (open_events w)
  pub not_created :
      (code : ℕ) (w : W)
      → (api.create_event w).0 ≡ failed code
      → open_events (api.create_event w).1 ≡ open_events w
  pub closed : (event : ℕ) (w : W) → open_events (api.close_handle event w) ≡ open_events w - 1
  pub read :
      (h e event : ℕ) (buf : List ℕ) (w : W)
      → open_events (api.read_pipe_overlapped h e buf event w).2 ≡ open_events w
  pub written :
      (h e event : ℕ) (buf : List ℕ) (w : W)
      → open_events (api.write_pipe_overlapped h e buf event w).1 ≡ open_events w
  pub waited :
      (event ms : ℕ) (w : W) → open_events (api.wait_for_single_object event ms w).1 ≡ open_events w
  pub collected :
      (file event : ℕ) (block : Bool) (buf : List ℕ) (w : W)
      → open_events (api.get_overlapped_result file event block buf w).2 ≡ open_events w
  pub cancelled :
      (file event : ℕ) (w : W) → open_events (api.cancel_io file event w).1 ≡ open_events w

module _ {W : Type 0} (api : WinUsb W) (events : Events api) where
  open events use {
    open_events, created, not_created, closed, read, written, waited, collected, cancelled,
  }

  drain-events :
      (file event : ℕ) (buf : List ℕ) (w : W)
      → open_events (cancel_and_drain_overlapped api file event buf w).2 ≡ open_events w
  unfolding cancel_and_drain_overlapped
  drain-events file event buf w =
      ground (
        arith,
        cancelled file event w,
        collected file event true buf (api.cancel_io file event w).1,
      )

  after_wait-events :
      (r : Wait) (file event : ℕ) (buf : List ℕ) (w : W)
      → open_events (after_wait api r file event buf w).2 ≡ open_events w
  unfolding give_up
  after_wait-events object_0 file event buf w = ground (arith, collected file event false buf w)
  after_wait-events other_wait file event buf w = drain-events file event buf w

  settle-events :
      (r : Win ℕ) (file event ms : ℕ) (buf : List ℕ) (w : W)
      → open_events (settle api r file event ms buf w).2 ≡ open_events w
  unfolding settle
  settle-events (done n) file event ms buf w = refl
  settle-events (failed code) file event ms buf w =
      let call = api.wait_for_single_object event (wait_millis ms) w in
      ground
        (arith, waited event (wait_millis ms) w, after_wait-events call.0 file event buf call.1)

  -- The event is closed, or the function has returned early with an error.
  abbrev pub Balanced : ℕ → Result ℕ → ℕ → Type 0
  Balanced before r after = (after ≡ before) ⊎ ((after ≡ suc before) × (e : UsbError) × (r ≡ err e))

  finish-events :
      (event before : ℕ) (x : Flow × List ℕ × W)
      → open_events x.2 ≡ suc before
      → let (r, _, w) = finish api event x in Balanced before r (open_events w)
  finish-events event before (falls_through r, buf, w) h = inl (closed event w ∙ omega arith)
  finish-events event before (returns e, buf, w) h = inr (h, e, refl)

  read_flow : ℕ → ℕ → ℕ → ℕ → List ℕ → ℕ → W → Flow × List ℕ × W
  read_flow event file h endpoint buf time w =
      let (io_result, buf', w') = api.read_pipe_overlapped h endpoint buf event w in
      settle api io_result file event (timeout_millis time) buf' w'

  write_flow : ℕ → ℕ → ℕ → ℕ → List ℕ → ℕ → W → Flow × List ℕ × W
  write_flow event file h endpoint buf time w =
      let (io_result, w') = api.write_pipe_overlapped h endpoint buf event w in
      settle api io_result file event (timeout_millis time) buf w'

  read-created :
      (event file h endpoint time : ℕ) (buf : List ℕ) (w : W)
      → (api.create_event w).0 ≡ done event
      → overlapped_read api file h endpoint buf time w
        ≡ finish api event (read_flow event file h endpoint buf time (api.create_event w).1)
  unfolding overlapped_read read_flow
  read-created event file h endpoint time buf w e = rw (overlapped_read, e) refl

  read-failed :
      (code file h endpoint time : ℕ) (buf : List ℕ) (w : W)
      → (api.create_event w).0 ≡ failed code
      → overlapped_read api file h endpoint buf time w
        ≡ (err (from_win32 code), buf, (api.create_event w).1)
  unfolding overlapped_read
  read-failed code file h endpoint time buf w e = rw (overlapped_read, e) refl

  write-created :
      (event file h endpoint time : ℕ) (buf : List ℕ) (w : W)
      → (api.create_event w).0 ≡ done event
      → let (r, _, w') =
          finish api event (write_flow event file h endpoint buf time (api.create_event w).1) in
        overlapped_write api file h endpoint buf time w ≡ (r, w')
  unfolding overlapped_write write_flow
  write-created event file h endpoint time buf w e = rw (overlapped_write, e) refl

  write-failed :
      (code file h endpoint time : ℕ) (buf : List ℕ) (w : W)
      → (api.create_event w).0 ≡ failed code
      → overlapped_write api file h endpoint buf time w
        ≡ (err (from_win32 code), (api.create_event w).1)
  unfolding overlapped_write
  write-failed code file h endpoint time buf w e = rw (overlapped_write, e) refl

  read_flow-events :
      (event file h endpoint time : ℕ) (buf : List ℕ) (w : W)
      → open_events (read_flow event file h endpoint buf time w).2 ≡ open_events w
  unfolding read_flow
  read_flow-events event file h endpoint time buf w =
      settle-events _ file event (timeout_millis time) _ _ ∙ read h endpoint event buf w

  write_flow-events :
      (event file h endpoint time : ℕ) (buf : List ℕ) (w : W)
      → open_events (write_flow event file h endpoint buf time w).2 ≡ open_events w
  unfolding write_flow
  write_flow-events event file h endpoint time buf w =
      settle-events _ file event (timeout_millis time) buf _ ∙ written h endpoint event buf w

  -- An overlapped read and an overlapped write leave as many event handles open as there were, or one
  -- more, and then they return an error: none is left open by a transfer that succeeds.
  pub overlapped_events :
      (file h endpoint time : ℕ) (buf : List ℕ) (w : W)
      → let (r, _, w1) = overlapped_read api file h endpoint buf time w in
        let (q, w2) = overlapped_write api file h endpoint buf time w in
        Balanced (open_events w) r (open_events w1) × Balanced (open_events w) q (open_events w2)
  overlapped_events file h endpoint time buf w = elim (Win-cases (api.create_event w).0) [
    | inl (code, e) ↦
        rw
          (
            read-failed code file h endpoint time buf w e,
            write-failed code file h endpoint time buf w e,
          )
          (inl (not_created code w e), inl (not_created code w e))
    | inr (event, e) ↦
        let w' = (api.create_event w).1 in
        rw
          (
            read-created event file h endpoint time buf w e,
            write-created event file h endpoint time buf w e,
          )
          (
            finish-events event (open_events w) (read_flow event file h endpoint buf time w')
                (read_flow-events event file h endpoint time buf w' ∙ created event w e),
            finish-events event (open_events w) (write_flow event file h endpoint buf time w')
                (write_flow-events event file h endpoint time buf w' ∙ created event w e),
          )
  ]

  settle-returns :
      (r : Win ℕ) (file event ms code : ℕ) (buf : List ℕ) (w : W)
      → r ≡ failed io_pending
      → let (wait, w') = api.wait_for_single_object event (wait_millis ms) w in
        wait ≡ object_0
        → (api.get_overlapped_result file event false buf w').0 ≡ failed code
        → (settle api r file event ms buf w).0 ≡ returns (from_win32 code)
  unfolding settle
  settle-returns (done n) file event ms code buf w e signalled broken = cc
  settle-returns (failed c) file event ms code buf w e signalled broken = ground arith

  finish-returns :
      (event : ℕ) (e : UsbError) (x : Flow × List ℕ × W)
      → x.0 ≡ returns e
      → finish api event x ≡ (err e, x.1, x.2)
  finish-returns event e (falls_through r, buf, w) h = cc
  finish-returns event e (returns f, buf, w) h = ground arith

  -- Where an overlapped read is pending, its event is signalled in time, and its result is then an
  -- error: the read returns that error and leaves the event handle open, which nothing can close any
  -- more.
  pub overlapped_read_leaks :
      (event code file h endpoint time : ℕ) (buf : List ℕ) (w : W)
      → (api.create_event w).0 ≡ done event
      → let (io_result, buf', w1) =
          api.read_pipe_overlapped h endpoint buf event (api.create_event w).1 in
        io_result ≡ failed io_pending
        → let (wait, w2) =
            api.wait_for_single_object event (wait_millis (timeout_millis time)) w1 in
          wait ≡ object_0
          → (api.get_overlapped_result file event false buf' w2).0 ≡ failed code
          → let (r, _, w') = overlapped_read api file h endpoint buf time w in
            (r ≡ err (from_win32 code)) × (open_events w' ≡ suc (open_events w))
  overlapped_read_leaks event code file h endpoint time buf w e pending signalled broken =
      let w' = (api.create_event w).1 in
      let flow = read_flow event file h endpoint buf time w' in
      let early : flow.0 ≡ returns (from_win32 code) =
        unfold read_flow in
        settle-returns _ file event (timeout_millis time) code _ _ pending signalled broken in
      rw
        (
          read-created event file h endpoint time buf w e,
          finish-returns event (from_win32 code) flow early,
        )
        (refl, read_flow-events event file h endpoint time buf w' ∙ created event w e)
