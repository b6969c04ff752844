-- ===== src/Windows/Buffers.antt =====
-- The registered buffers and the events of isochronous transfers: which are given back, and which not.
use rust_usb.Base.{
  ℕ, suc, ◌-◌, ◌≡◌, ◌⊎◌, inl, inr, refl, ◌∙◌, List, ◌==◌, Bool, false, Bool-cases, arith, length,
  ◌%◌, ◌^◌,
}
use rust_usb.Error.{UsbError, Result, err, from_win32}
use rust_usb.Windows.{Win, Win-cases, done, failed, Wait, object_0, other_wait, WinUsb}
use rust_usb.Windows.Overlapped.{Flow, falls_through, returns, io_pending, collect}
use rust_usb.Windows.Isoch.{
  after_infinite, isoch_settle, clean_up, read_registered, isoch_transfer_read, write_registered,
  isoch_transfer_write,
}
use rust_usb.Windows.Events.{Events}

-- What Windows documents: `buffers` counts the registered ones, and only the two calls on them change
-- it, which leave the events as they are.
pub record Buffers {W : Type 0} (api : WinUsb W) (events : Events api) : Type 0 where
  pub buffers : W → ℕ
  pub registered :
      (h e b : ℕ) (buf : List ℕ) (w : W)
      → (api.register_isoch_buffer h e buf w).0 ≡ done b
      → buffers (api.register_isoch_buffer h e buf w).1 ≡ suc (buffers w)
  pub refused :
      (h e code : ℕ) (buf : List ℕ) (w : W)
      → (api.register_isoch_buffer h e buf w).0 ≡ failed code
      → buffers (api.register_isoch_buffer h e buf w).1 ≡ buffers w
  pub unregistered : (b : ℕ) (w : W) → buffers (api.unregister_isoch_buffer b w) ≡ buffers w - 1
  pub event_created : (w : W) → buffers (api.create_event w).1 ≡ buffers w
  pub event_closed : (event : ℕ) (w : W) → buffers (api.close_handle event w) ≡ buffers w
  pub read :
      (b n event : ℕ) (buf : List ℕ) (w : W)
      → buffers (api.read_isoch_pipe_asap b n event buf w).2 ≡ buffers w
  pub written :
      (b n event : ℕ) (buf : List ℕ) (w : W)
      → buffers (api.write_isoch_pipe_asap b n event buf w).1 ≡ buffers w
  pub waited :
      (event ms : ℕ) (w : W) → buffers (api.wait_for_single_object event ms w).1 ≡ buffers w
  pub collected :
      (file event : ℕ) (block : Bool) (buf : List ℕ) (w : W)
      → buffers (api.get_overlapped_result file event block buf w).2 ≡ buffers w
  pub registering_keeps :
      (h e : ℕ) (buf : List ℕ) (w : W)
      → events.open_events (api.register_isoch_buffer h e buf w).1 ≡ events.open_events w
  pub unregistering_keeps :
      (b : ℕ) (w : W) → events.open_events (api.unregister_isoch_buffer b w) ≡ events.open_events w
  pub reading_keeps :
      (b n event : ℕ) (buf : List ℕ) (w : W)
      → events.open_events (api.read_isoch_pipe_asap b n event buf w).2 ≡ events.open_events w
  pub writing_keeps :
      (b n event : ℕ) (buf : List ℕ) (w : W)
      → events.open_events (api.write_isoch_pipe_asap b n event buf w).1 ≡ events.open_events w

module _ {W : Type 0} (api : WinUsb W) (events : Events api) (account : Buffers api events) where
  open events use {open_events, created, not_created, closed}
  open account use {
    buffers, registered, refused, unregistered, event_created, event_closed, read, written,
    registering_keeps, unregistering_keeps, reading_keeps, writing_keeps,
  }

  -- As many buffers are registered and as many events are open; or one more buffer; or one more of each.
  abbrev pub Same : W → W → Type 0
  Same w w' = (buffers w' ≡ buffers w) × (open_events w' ≡ open_events w)

  abbrev pub WithBuffer : W → W → Type 0
  WithBuffer w w' = (buffers w' ≡ suc (buffers w)) × (open_events w' ≡ open_events w)

  abbrev pub WithBoth : W → W → Type 0
  WithBoth w w' = (buffers w' ≡ suc (buffers w)) × (open_events w' ≡ suc (open_events w))

  collect-Same : (file event : ℕ) (buf : List ℕ) (w : W) → Same w (collect api file event buf w).2
  collect-Same file event buf w = (
    ground (arith, account.collected file event false buf w),
    ground (arith, events.collected file event false buf w),
  )

  after_infinite-Same :
      (waited : Wait) (file event : ℕ) (buf : List ℕ) (w : W)
      → Same w (after_infinite api waited file event buf w).2
  after_infinite-Same object_0 file event buf w = collect-Same file event buf w
  after_infinite-Same other_wait file event buf w = (refl, refl)

  pub isoch_settle-Same :
      (r : Win (Unit {0})) (file event : ℕ) (buf : List ℕ) (w : W)
      → Same w (isoch_settle api r file event buf w).2
  unfolding isoch_settle
  isoch_settle-Same (done _) file event buf w = collect-Same file event buf w
  isoch_settle-Same (failed code) file event buf w =
      let call = api.wait_for_single_object event 0xffff_ffff w in
      let (b, o) = after_infinite-Same call.0 file event buf call.1 in
      elim (Bool-cases (code == io_pending)) [
        | inl pending ↦
            rw pending
              (b ∙ account.waited event 0xffff_ffff w, o ∙ events.waited event 0xffff_ffff w)
        | inr settled ↦ rw settled (refl, refl)
      ]

  -- Everything is given back, or the function has returned early with an error and without the buffer.
  abbrev pub Kept : W → Result ℕ → W → Type 0
  Kept w r w' = Same w w' ⊎ ((e : UsbError) × (r ≡ err e) × (WithBuffer w w' ⊎ WithBoth w w'))

  clean_up-Kept :
      (buffer event : ℕ) (w : W) (x : Flow × List ℕ × W)
      → WithBoth w x.2
      → let (r, _, w') = clean_up api buffer event x in Kept w r w'
  clean_up-Kept buffer event w (falls_through r, buf, w') (b, o) =
      let w'' = api.unregister_isoch_buffer buffer w' in
      inl (
        omega (arith, event_closed event w'', unregistered buffer w'),
        omega (arith, closed event w'', unregistering_keeps buffer w'),
      )
  clean_up-Kept buffer event w (returns e, buf, w') holds = inr (e, refl, inr holds)

  read_registered-Kept :
      (file buffer : ℕ) (buf : List ℕ) (w w1 : W)
      → WithBuffer w w1
      → let (r, _, w') = read_registered api file buffer buf w1 in Kept w r w'
  unfolding read_registered
  read_registered-Kept file buffer buf w w1 (b, o) = elim (Win-cases (api.create_event w1).0) [
    | inl (code, e) ↦
        rw (read_registered, e)
          (inr (from_win32 code, refl, inl (event_created w1 ∙ b, not_created code w1 e ∙ o)))
    | inr (event, e) ↦
        let w2 = (api.create_event w1).1 in
        let n = length buf % 2 ^ 32 in
        let call = api.read_isoch_pipe_asap buffer n event buf w2 in
        let (b', o') = isoch_settle-Same call.0 file event call.1 call.2 in
        rw (read_registered, e)
          (clean_up-Kept buffer event w (isoch_settle api call.0 file event call.1 call.2) (
            omega (arith, b', read buffer n event buf w2, event_created w1, b),
            omega (arith, o', reading_keeps buffer n event buf w2, created event w1 e, o),
          ))
  ]

  write_registered-Kept :
      (file buffer : ℕ) (buf : List ℕ) (w w1 : W)
      → WithBuffer w w1
      → let (r, w') = write_registered api file buffer buf w1 in Kept w r w'
  unfolding write_registered
  write_registered-Kept file buffer buf w w1 (b, o) = elim (Win-cases (api.create_event w1).0) [
    | inl (code, e) ↦
        rw (write_registered, e)
          (inr (from_win32 code, refl, inl (event_created w1 ∙ b, not_created code w1 e ∙ o)))
    | inr (event, e) ↦
        let w2 = (api.create_event w1).1 in
        let n = length buf % 2 ^ 32 in
        let call = api.write_isoch_pipe_asap buffer n event buf w2 in
        let (b', o') = isoch_settle-Same call.0 file event buf call.1 in
        rw (write_registered, e)
          (clean_up-Kept buffer event w (isoch_settle api call.0 file event buf call.1) (
            omega (arith, b', written buffer n event buf w2, event_created w1, b),
            omega (arith, o', writing_keeps buffer n event buf w2, created event w1 e, o),
          ))
  ]

  -- An isochronous read and an isochronous write give back the buffer that they register and the event
  -- that they create, or they return an error and keep the buffer, with the event or without it: a
  -- transfer that succeeds keeps nothing.
  pub isoch_transfers_keep :
      (file h endpoint : ℕ) (buf : List ℕ) (w : W)
      → let (r, _, w1) = isoch_transfer_read api file h endpoint buf w in
        let (q, w2) = isoch_transfer_write api file h endpoint buf w in Kept w r w1 × Kept w q w2
  unfolding isoch_transfer_read isoch_transfer_write
  isoch_transfers_keep file h endpoint buf w =
      let call = api.register_isoch_buffer h endpoint buf w in
      elim (Bool-cases (length buf == 0)) [
        | inl empty ↦
            rw (isoch_transfer_read, isoch_transfer_write, empty)
              (inl (refl, refl), inl (refl, refl))
        | inr full ↦ elim (Win-cases call.0) [
          | inl (code, e) ↦
              let same : Same w call.1 =
                (refused h endpoint code buf w e, registering_keeps h endpoint buf w) in
              rw (isoch_transfer_read, isoch_transfer_write, full, e) (inl same, inl same)
          | inr (buffer, e) ↦
              let held : WithBuffer w call.1 =
                (registered h endpoint buffer buf w e, registering_keeps h endpoint buf w) in
              rw (isoch_transfer_read, isoch_transfer_write, full, e)
                (
                  read_registered-Kept file buffer buf w call.1 held,
                  write_registered-Kept file buffer buf w call.1 held,
                )
        ]
      ]
