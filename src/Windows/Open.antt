-- ===== src/Windows/Open.antt =====
-- usb-lib/src/backend/windows.rs: opening a device, and resetting it.
use rust_usb.Base.{ℕ, [], ◌==◌, if◌then◌else◌, true, false, Option, none, some}
use rust_usb.Error.{Result, ok, err, from_win32, device_not_found, permission_denied, other}
use rust_usb.Text.{Text}
use rust_usb.Backend.{and_then, Op}
use rust_usb.Windows.{done, failed, from_win, WinUsb, WinUsbDevice, Attached}

-- The HRESULT of `ERROR_ACCESS_DENIED`
abbrev pub access_denied : ℕ
access_denied = 0x8007_0005

-- The handle -1 on 64 bits.
abbrev pub invalid_handle_value : ℕ
invalid_handle_value = 0xffff_ffff_ffff_ffff

-- `OnceLock`: empty until the first call.
abbrev pub Once : Type 0 → Type 0
Once A = Option A

module _ {W : Type 0} (api : WinUsb W) where
  -- Attempt 2: the read-only fallback.
  unfoldable pub open_readonly : Text → Op W ℕ
  open_readonly path w =
      let (r, w') = api.create_file false path w in
      elim r [
        | failed code ↦ (err (from_win32 code), w')
        | done h ↦ (if h == invalid_handle_value then err permission_denied else ok h, w')
      ]

  -- The file of the device, for reading and writing if that is allowed.
  unfoldable pub open_file : Text → Op W ℕ
  unfolding open_readonly
  open_file path w =
      let (r, w') = api.create_file true path w in
      let fallback = open_readonly path w' in
      elim r [
        | failed code ↦ if code == access_denied then fallback else (err (from_win32 code), w')
        | done h ↦ (if h == invalid_handle_value then err device_not_found else ok h, w')
      ]

  abbrev pub fresh : ℕ → ℕ → WinUsbDevice
  fresh file usb = record {
    file_handle = file;
    usb_handle = usb;
    assoc_handles = [];
    endpoint_cache = [];
  }

  -- `WinUsb_Initialize`: if it fails, the file is closed.
  unfoldable pub initialized : ℕ → Op W WinUsbDevice
  initialized file w =
      let (r, w') = api.initialize file w in
      elim r [
        | failed code ↦ (err (from_win32 code), api.close_handle file w')
        | done usb ↦ (ok (fresh file usb), w')
      ]

  -- `WinUsbDevice::open`
  unfoldable pub open_device : Text → Op W WinUsbDevice
  unfolding open_file initialized
  open_device path w = and_then (open_file path w) initialized

  abbrev resolved : Option ℕ → Result ℕ
  resolved none = err (other "WinUsb_ResetDevice symbol not found in winusb.dll" [])
  resolved (some f) = ok f

  -- The symbol is looked up once for the process, and a failure is kept too.
  unfoldable pub resolve_winusb_reset_device : Once (Option ℕ) × W → Result ℕ × Once (Option ℕ) × W
  resolve_winusb_reset_device (some found, w) = (resolved found, some found, w)
  resolve_winusb_reset_device (none, w) =
      let (found, w') = api.find_reset_device w in (resolved found, some found, w')

  unfoldable pub reset_device : Op (Once (Option ℕ) × Attached W) (Unit {0})
  unfolding resolve_winusb_reset_device
  reset_device (once, s) =
      let (r, once', w) = resolve_winusb_reset_device (once, s.world) in
      and_then (r, (once', record s { world = w }))
        λ f (cell, t).
          let (done_or_failed, w') = api.reset_device f t.device.usb_handle t.world in
          (from_win done_or_failed, (cell, record t { world = w' }))
