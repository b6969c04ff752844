-- ===== src/Windows/Using.antt =====
-- The handles that transfers use, on a device that was opened and on which interfaces were claimed and
-- released.
use rust_usb.Base.{ℕ, ◌≡◌, sym, ◌∙◌, List, true, arith, contains}
use rust_usb.Error.{Result, ok, err, panic, no_fuel}
use rust_usb.Text.{Text}
use rust_usb.Windows.{WinUsb, WinUsbDevice}
use rust_usb.Windows.Device.{handle_for_endpoint}
use rust_usb.Windows.Entries.{held}
use rust_usb.Windows.Ledger.{Ledger, Held}
use rust_usb.Windows.Lifetime.{handle_for_endpoint-live}
use rust_usb.Windows.Drop.{Step, steps, steps-Held}
use rust_usb.Windows.Files.{Files}
use rust_usb.Windows.Open.{open_device}
use rust_usb.Windows.Session.{Idle, DeviceOpened, open_device-DeviceOpened}

module _ {W : Type 0} (api : WinUsb W) (ledger : Ledger api) (account : Files api ledger) where
  opened-Held :
      (w : W) (d : WinUsbDevice) (x : Result WinUsbDevice × W)
      → DeviceOpened api ledger account w x
      → x.0 ≡ ok d
      → Held api ledger (record { device = d; world = x.1 })
  opened-Held w d (ok d', w') (kept, n) e =
      let same : d' ≡ d = ground (arith, e) in rw (sym same) kept
  opened-Held w d (err f, w') x e = cc
  opened-Held w d (panic, w') x e = cc
  opened-Held w d (no_fuel, w') x e = cc

  -- From a world without live WinUSB handles, a device is opened, and a client claims and releases
  -- interfaces on it, in any sequence and whatever the calls return. Then the handle on which a
  -- transfer to any endpoint goes, whether it comes from the cache or from the search through the
  -- pipes, is one that the device still holds, and it is live: a handle that a release freed is
  -- never used.
  pub handle_for_endpoint-steps :
      (path : Text) (l : List Step) (endpoint : ℕ) (w : W) (d : WinUsbDevice)
      → Idle api ledger account w
      → (open_device api path w).0 ≡ ok d
      → let s = steps api l (record { device = d; world = (open_device api path w).1 }) in
        let h = handle_for_endpoint api endpoint s in
        (contains h (held s.device) ≡ true) × (ledger.live s.world h ≡ true)
  handle_for_endpoint-steps path l endpoint w d idle e =
      let x = open_device api path w in
      let s = steps api l (record { device = d; world = x.1 }) in
      let kept : Held api ledger s =
        steps-Held api ledger l _
          (opened-Held w d x (open_device-DeviceOpened api ledger account path w idle) e) in
      let live = handle_for_endpoint-live api ledger endpoint s kept in
      (sym (kept.exact _) ∙ live, live)
