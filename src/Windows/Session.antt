-- ===== src/Windows/Session.antt =====
-- A device from its opening to its drop: the file and the WinUSB handles.
use rust_usb.Base.{
  ◌⊎◌, ℕ, suc, ◌≡◌, refl, ap, ◌∙◌, inl, inr, List, ◌==◌, Bool, true, false, Bool-cases, arith,
}
use rust_usb.Error.{UsbError, Result, ok, err, panic, no_fuel}
use rust_usb.Text.{Text}
use rust_usb.Backend.{and_then}
use rust_usb.Windows.{Win-cases, WinUsb, WinUsbDevice, Attached}
use rust_usb.Windows.Device.{drop}
use rust_usb.Windows.Ledger.{Ledger, Held}
use rust_usb.Windows.Drop.{Step, steps, drop-steps}
use rust_usb.Windows.Open.{
  access_denied, invalid_handle_value, open_readonly, open_file, fresh, initialized, open_device,
}
use rust_usb.Windows.Files.{Files, steps-files, drop-files}

module _ {W : Type 0} (api : WinUsb W) (ledger : Ledger api) (account : Files api ledger) where
  open ledger use {live, Sound, close_live, close_sound}
  open account use {
    files, file_opened, file_refused, file_live, file_sound, made_live, unmade_live, made_sound,
    made_files, closed, freed, associated,
  }

  -- No WinUSB handle is live, and none was freed twice.
  abbrev pub Idle : W → Type 0
  Idle w = ((j : ℕ) → live w j ≡ false) × Sound w

  -- What opening the file leaves, and what opening the device leaves.
  abbrev FileOpened : W → Result ℕ × W → Type 0
  FileOpened w (ok h, w') = Idle w' × (files w' ≡ suc (files w))
  FileOpened w (err e, w') = Idle w' × (files w' ≡ files w)
  FileOpened w (panic, w') = ⊥
  FileOpened w (no_fuel, w') = ⊥

  abbrev pub DeviceOpened : W → Result WinUsbDevice × W → Type 0
  DeviceOpened w (ok d, w') =
      Held api ledger (record { device = d; world = w' }) × (files w' ≡ suc (files w))
  DeviceOpened w (err e, w') = Idle w' × (files w' ≡ files w)
  DeviceOpened w (panic, w') = ⊥
  DeviceOpened w (no_fuel, w') = ⊥

  created-Idle :
      (writable : Bool) (path : Text) (w : W) → Idle w → Idle (api.create_file writable path w).1
  created-Idle writable path w (dead, sound) =
      (λ j. file_live writable path j w ∙ dead j, file_sound writable path w sound)

  open_readonly-FileOpened :
      (path : Text) (w : W) → Idle w → FileOpened w (open_readonly api path w)
  unfolding open_readonly
  open_readonly-FileOpened path w idle =
      let call = api.create_file false path w in
      elim (Win-cases call.0) [
        | inl (code, e) ↦
            rw (open_readonly, e) (created-Idle false path w idle, file_refused false path code w e)
        | inr (h, e) ↦ elim (Bool-cases (h == invalid_handle_value)) [
          | inl invalid ↦
              rw (open_readonly, e, invalid)
                (created-Idle false path w idle, file_opened false path h w e ∙ rw invalid refl)
          | inr valid ↦
              rw (open_readonly, e, valid)
                (created-Idle false path w idle, file_opened false path h w e ∙ rw valid refl)
        ]
      ]

  same_files-FileOpened :
      (w w' : W) (x : Result ℕ × W) → files w' ≡ files w → FileOpened w' x → FileOpened w x
  same_files-FileOpened w w' (ok h, v) e (idle, n) = (idle, n ∙ ap suc e)
  same_files-FileOpened w w' (err f, v) e (idle, n) = (idle, n ∙ e)
  same_files-FileOpened w w' (panic, v) e x = x
  same_files-FileOpened w w' (no_fuel, v) e x = x

  open_file-FileOpened : (path : Text) (w : W) → Idle w → FileOpened w (open_file api path w)
  unfolding open_file
  open_file-FileOpened path w idle =
      let call = api.create_file true path w in
      let kept = created-Idle true path w idle in
      elim (Win-cases call.0) [
        | inl (code, e) ↦ elim (Bool-cases (code == access_denied)) [
          | inl denied ↦
              rw (open_file, e, denied)
                (same_files-FileOpened w call.1 (open_readonly api path call.1)
                  (file_refused true path code w e) (open_readonly-FileOpened path call.1 kept))
          | inr broken ↦ rw (open_file, e, broken) (kept, file_refused true path code w e)
        ]
        | inr (h, e) ↦ elim (Bool-cases (h == invalid_handle_value)) [
          | inl invalid ↦
              rw (open_file, e, invalid) (kept, file_opened true path h w e ∙ rw invalid refl)
          | inr valid ↦ rw (open_file, e, valid) (kept, file_opened true path h w e ∙ rw valid refl)
        ]
      ]

  initialized-DeviceOpened :
      (file : ℕ) (w w' : W)
      → Idle w'
      → files w' ≡ suc (files w)
      → DeviceOpened w (initialized api file w')
  unfolding initialized
  initialized-DeviceOpened file w w' (dead, sound) n =
      let call = api.initialize file w' in
      elim (Win-cases call.0) [
        | inl (code, e) ↦
            rw (initialized, e)
              (
                (
                  λ j. close_live file j call.1 ∙ (unmade_live file code j w' e ∙ dead j),
                  close_sound file call.1 (made_sound file w' sound),
                ),
                omega (arith, closed file call.1, made_files file w', n),
              )
        | inr (u, e) ↦
            let kept : Held api ledger (record { device = fresh api file u; world = call.1 }) =
              record {
                exact = λ j. ground (arith, made_live file u j w' e, dead j);
                distinct = (refl, tt);
                one_each = tt;
                cached = tt;
                sound = made_sound file w' sound;
              } in
            rw (initialized, e) (kept, made_files file w' ∙ n)
      ]

  and_then-DeviceOpened :
      (w : W) (x : Result ℕ × W) → FileOpened w x → DeviceOpened w (and_then x (initialized api))
  and_then-DeviceOpened w (ok file, w') (idle, n) = initialized-DeviceOpened file w w' idle n
  and_then-DeviceOpened w (err e, w') x = x
  and_then-DeviceOpened w (panic, w') x = x
  and_then-DeviceOpened w (no_fuel, w') x = x

  pub open_device-DeviceOpened :
      (path : Text) (w : W) → Idle w → DeviceOpened w (open_device api path w)
  unfolding open_device
  open_device-DeviceOpened path w idle =
      and_then-DeviceOpened w (open_file api path w) (open_file-FileOpened path w idle)

  -- From a world without live WinUSB handles, a device is opened. Opening either fails, and then no handle
  -- is live and as many files are open as before; or it gives a device, on which a client claims and
  -- releases interfaces in any sequence, and after the drop at its end no handle is live, none was
  -- freed twice, and as many files are open as before. It neither panics nor runs out of fuel.
  pub open_device-session :
      (path : Text) (l : List Step) (w : W)
      → Idle w
      → let (r, w') = open_device api path w in
        ((e : UsbError) × (r ≡ err e) × Idle w' × (files w' ≡ files w))
        ⊎ ((d : WinUsbDevice) × (r ≡ ok d)
            × (let end = drop api (steps api l (record { device = d; world = w' })) in
                Idle end × (files end ≡ files w)))
  open_device-session path l w idle =
      outcome (open_device api path w) (open_device-DeviceOpened path w idle)
    where
      outcome :
          (x : Result WinUsbDevice × W)
          → DeviceOpened w x
          → ((e : UsbError) × (x.0 ≡ err e) × Idle x.1 × (files x.1 ≡ files w))
            ⊎ ((d : WinUsbDevice) × (x.0 ≡ ok d)
                × (let end = drop api (steps api l (record { device = d; world = x.1 })) in
                    Idle end × (files end ≡ files w)))
      outcome (ok d, w') (held, n) =
          let s : Attached W = record { device = d; world = w' } in
          inr (
            d,
            refl,
            (
              (λ j. (drop-steps api ledger l s j held).0, (drop-steps api ledger l s 0 held).1),
              omega (
                arith,
                drop-files api ledger account (steps api l s),
                steps-files api ledger account l s,
                n,
              ),
            ),
          )
      outcome (err e, w') (quiet, n) = inl (e, refl, quiet, n)
      outcome (panic, w') x = absurd x
      outcome (no_fuel, w') x = absurd x
