-- ===== src/Windows/Listing.antt =====
-- What enumeration leaves: every device that it opens is dropped, and the set of devices is destroyed.
use rust_usb.Base.{
  ℕ, zero, suc, ◌+◌, ◌%◌, ◌^◌, ◌<◌, ◌≤◌, ◌≡◌, ◌⊎◌, refl, ◌∙◌, inl, inr, List, [], ◌∷◌, ◌==◌, true,
  false, Bool-cases, arith, le→leb, ltb,
}
use rust_usb.Error.{Result, ok, err, panic, no_fuel, Returns, from_win32}
use rust_usb.Text.{Text}
use rust_usb.Backend.{and_then, Op, DeviceInfo}
use rust_usb.Windows.{Win-cases, failed, WinUsb, WinUsbDevice, Attached}
use rust_usb.Windows.Device.{free_reversed, handles}
use rust_usb.Windows.Device
use rust_usb.Windows.Ledger.{Ledger, Held}
use rust_usb.Windows.Drop.{steps, drop-steps}
use rust_usb.Windows.Files.{Files, drop-files}
use rust_usb.Windows.Open.{access_denied, open_readonly, open_file, initialized, open_device}
use rust_usb.Windows.Session.{Idle, DeviceOpened, open_device-DeviceOpened}
use rust_usb.Windows.SetupApi.{
  SetupApi, or_unnamed, names_and_drop, opened_names, read_string_descriptors,
}
use rust_usb.Windows.Transfers.{read_device_descriptor}
use rust_usb.Windows.Enumerate.{
  detail_buffer, detail_path, device_info, unless_empty, detailed, visit, pushed, enumerate_from,
  enumerate_winusb_devices,
}
use rust_usb.Windows.Quiet.{Never, Sets, Same-Held, names-Reads}

returned : {A : Type 0} (r : Result A) → Returns Never r → (a : A) × (r ≡ ok a)
returned (ok a) x = (a, refl)
returned (err e) x = absurd x
returned panic x = absurd x
returned no_fuel x = absurd x

module _ {W : Type 0} (api : WinUsb W) (setup : SetupApi W) (ledger : Ledger api)
    (account : Files api ledger) (laws : Sets api ledger account setup) where
  open account use {files}
  open laws use {
    sets, count, few, ended, sized, made, unmade, destroyed, making, destroying, file_sets,
    initialize_sets, free_sets, close_sets,
  }

  -- Sets of devices, through opening and dropping a device.
  open_readonly-sets : (path : Text) (w : W) → sets (open_readonly api path w).1 ≡ sets w
  unfolding open_readonly
  open_readonly-sets path w = elim (Win-cases (api.create_file false path w).0) [
    | inl (code, e) ↦ rw (open_readonly, e) (file_sets false path w)
    | inr (h, e) ↦ rw (open_readonly, e) (file_sets false path w)
  ]

  open_file-sets : (path : Text) (w : W) → sets (open_file api path w).1 ≡ sets w
  unfolding open_file
  open_file-sets path w =
      let call = api.create_file true path w in
      let same = file_sets true path w in
      elim (Win-cases call.0) [
        | inl (code, e) ↦ elim (Bool-cases (code == access_denied)) [
          | inl denied ↦ rw (open_file, e, denied) (open_readonly-sets path call.1 ∙ same)
          | inr broken ↦ rw (open_file, e, broken) same
        ]
        | inr (h, e) ↦ rw (open_file, e) same
      ]

  initialized-sets : (file : ℕ) (w : W) → sets (initialized api file w).1 ≡ sets w
  unfolding initialized
  initialized-sets file w =
      let call = api.initialize file w in
      elim (Win-cases call.0) [
        | inl (code, e) ↦ rw (initialized, e) (close_sets file call.1 ∙ initialize_sets file w)
        | inr (u, e) ↦ rw (initialized, e) (initialize_sets file w)
      ]

  and_then-sets :
      {A B : Type 0} (x : Result A × W) (f : A → Op W B)
      → ((a : A) (w : W) → sets (f a w).1 ≡ sets w)
      → sets (and_then x f).1 ≡ sets x.1
  and_then-sets (ok a, w) f go = go a w
  and_then-sets (err e, w) f go = refl
  and_then-sets (panic, w) f go = refl
  and_then-sets (no_fuel, w) f go = refl

  open_device-sets : (path : Text) (w : W) → sets (open_device api path w).1 ≡ sets w
  unfolding open_device
  open_device-sets path w =
      and_then-sets (open_file api path w) (initialized api) initialized-sets
      ∙ open_file-sets path w

  free_reversed-sets : (hs : List ℕ) (w : W) → sets (free_reversed api hs w) ≡ sets w
  unfolding free_reversed
  free_reversed-sets [] w = refl
  free_reversed-sets (h ∷ hs) w = free_sets h (free_reversed api hs w) ∙ free_reversed-sets hs w

  drop-sets : (s : Attached W) → sets (Device.drop api s) ≡ sets s.world
  unfolding Device.drop
  drop-sets s =
      let hs = handles s.device.assoc_handles in
      let w = free_reversed api hs s.world in
      close_sets s.device.file_handle (api.free s.device.usb_handle w)
      ∙ (free_sets s.device.usb_handle w ∙ free_reversed-sets hs s.world)

  -- The outcome returns, and its world has no live handle, and the files and the sets of `w`.
  abbrev pub Released : {A : Type 0} → W → Result A × W → Type 0
  Released w (r, w') =
      Returns Never r × Idle api ledger account w' × (files w' ≡ files w) × (sets w' ≡ sets w)

  names_and_drop-Released :
      (w : W) (s : Attached W)
      → Held api ledger s
      → files s.world ≡ suc (files w)
      → sets s.world ≡ sets w
      → Released w (names_and_drop api s)
  unfolding names_and_drop steps
  names_and_drop-Released w s held n m =
      let (r, s') = or_unnamed api (read_device_descriptor api s) in
      let (returns, same) = names-Reads api ledger account setup laws s in
      let x = Same-Held api ledger account setup laws s s' same held in
      (
        returns,
        (λ j. (drop-steps api ledger [] s' j x).0, (drop-steps api ledger [] s' 0 x).1),
        omega (arith, drop-files api ledger account s', same.1.2, n),
        drop-sets s' ∙ (same.2 ∙ m),
      )

  opened_names-Released :
      (w : W) (x : Result WinUsbDevice × W)
      → DeviceOpened api ledger account w x
      → sets x.1 ≡ sets w
      → Released w (opened_names api x)
  unfolding names_and_drop opened_names
  opened_names-Released w (ok d, w') (held, n) m =
      names_and_drop-Released w (record { device = d; world = w' }) held n m
  opened_names-Released w (err e, w') (idle, n) m = (tt, idle, n, m)
  opened_names-Released w (panic, w') x m = absurd x
  opened_names-Released w (no_fuel, w') x m = absurd x

  read_string_descriptors-Released :
      (path : Text) (w : W)
      → Idle api ledger account w
      → Released w (read_string_descriptors api path w)
  unfolding read_string_descriptors
  read_string_descriptors-Released path w idle =
      opened_names-Released w (open_device api path w)
        (open_device-DeviceOpened api ledger account path w idle) (open_device-sets path w)

  and_then-Released :
      {A B : Type 0} (w : W) (x : Result A × W) (f : A → Op W B)
      → Released w x
      → ((a : A) (v : W) → Idle api ledger account v → Released v (f a v))
      → Released w (and_then x f)
  and_then-Released w (ok a, v) f (_, idle, n, m) go =
      let (returns, idle', n', m') = go a v idle in (returns, idle', n' ∙ n, m' ∙ m)
  and_then-Released w (err e, v) f x go = absurd x.0
  and_then-Released w (panic, v) f x go = absurd x.0
  and_then-Released w (no_fuel, v) f x go = absurd x.0

  module _ (to_uppercase : Text → Text) where
    device_info-Released :
        (set device : ℕ) (path : Text) (w : W)
        → Idle api ledger account w
        → Released w (device_info api setup to_uppercase set device path w)
    unfolding device_info
    device_info-Released set device path w idle =
        and_then-Released w _ _ (read_string_descriptors-Released path w idle)
          λ names v still. (tt, still, refl, refl)

    unless_empty-Released :
        (set device : ℕ) (path : Text) (w : W)
        → Idle api ledger account w
        → Released w (unless_empty api setup to_uppercase set device path w)
    unfolding device_info unless_empty
    unless_empty-Released set device [] w idle = (tt, idle, refl, refl)
    unless_empty-Released set device (c ∷ cs) w idle =
        device_info-Released set device (c ∷ cs) w idle

    detailed-Released :
        (set iface size device : ℕ) (buf : List ℕ) (w : W)
        → Idle api ledger account w
        → Released w (detailed api setup to_uppercase set iface size device buf w)
    unfolding detailed
    detailed-Released set iface size device buf w idle =
        let (r, buf', device') = setup.interface_detail set iface buf device w in
        elim (Win-cases r) [
          | inl (code, e) ↦ rw (detailed, e) (tt, idle, refl, refl)
          | inr (done_, e) ↦
              rw (detailed, e) (unless_empty-Released set device' (detail_path size buf') w idle)
        ]

    visit-Released :
        (set iface : ℕ) (w : W)
        → Idle api ledger account w
        → Released w (visit api setup to_uppercase set iface w)
    unfolding visit detail_buffer
    visit-Released set iface w idle =
        let (size, device) = setup.detail_size set iface w in
        elim (sized set iface w) [
          | inl nothing ↦ rw (visit, nothing) (tt, idle, refl, refl)
          | inr enough ↦ elim (Bool-cases (size == 0)) [
            | inl empty ↦ rw (visit, empty) (tt, idle, refl, refl)
            | inr full ↦
                rw (visit, full, detail_buffer, le→leb 4 size enough)
                  (detailed-Released set iface size device _ w idle)
          ]
        ]

    enumerate_from-Released :
        (fuel set i : ℕ) (devices : List DeviceInfo) (w : W)
        → Idle api ledger account w
        → i ≤ count set
        → count set < i + fuel
        → Released w (enumerate_from api setup to_uppercase fuel set i devices w)
    unfolding enumerate_from
    enumerate_from-Released zero set i devices w idle low enough = absurd (omega arith)
    enumerate_from-Released (suc fuel) set i devices w idle low enough =
        elim (Win-cases (setup.enum_device_interfaces set i w)) [
          | inl (code, e) ↦ rw (enumerate_from, e) (tt, idle, refl, refl)
          | inr (iface, e) ↦ elim (Bool-cases (ltb i (count set))) [
            | inr over ↦ let (code, e') = ended set i w (ground arith) in cc
            | inl more ↦
                let within : i < count set = ground arith in
                let step : (i + 1) % 2 ^ 32 ≡ i + 1 = omega (arith, few set) in
                rw (enumerate_from, e)
                  (and_then-Released w (visit api setup to_uppercase set iface w) _
                    (visit-Released set iface w idle)
                    λ found v still. rw step (
                      enumerate_from-Released fuel set (i + 1) (pushed devices found) v still
                        (omega arith) (omega arith)))
          ]
        ]

    -- From a world without live WinUSB handles, enumeration returns the devices that it found, or the
    -- error of `SetupDiGetClassDevsW`, and nothing else: it neither panics nor, with more fuel than any
    -- set has interfaces, runs out of fuel. Then no WinUSB handle is live, none was freed twice, and
    -- as many files are open, and as many sets of devices exist, as before, although it opened every
    -- device that it found.
    pub enumerate_winusb_devices-Released :
        (fuel : ℕ) (w : W)
        → Idle api ledger account w
        → ((set : ℕ) → count set < fuel)
        → let (r, w') = enumerate_winusb_devices api setup to_uppercase fuel w in
          (((devices : List DeviceInfo) × (r ≡ ok devices))
            ⊎ ((code : ℕ) × ((setup.get_class_devs w).0 ≡ failed code)
                × (r ≡ err (from_win32 code))))
          × Idle api ledger account w'
          × (files w' ≡ files w)
          × (sets w' ≡ sets w)
    unfolding enumerate_winusb_devices
    enumerate_winusb_devices-Released fuel w (dead, sound) enough =
        let (r, v) = setup.get_class_devs w in
        let (live, clean, n) = making w in
        let idle : Idle api ledger account v = (λ j. live j ∙ dead j, clean sound) in
        elim (Win-cases r) [
          | inl (code, e) ↦
              rw (enumerate_winusb_devices, e) (inr (code, refl, refl), idle, n, unmade code w e)
          | inr (set, e) ↦
              let (q, u) = enumerate_from api setup to_uppercase fuel set 0 [] v in
              let (returns, (dead', sound'), n', m) =
                enumerate_from-Released fuel set 0 [] v idle (omega arith)
                  (omega (arith, enough set)) in
              let (live', clean', n'') = destroying set u in
              rw (enumerate_winusb_devices, e)
                (
                  inl (returned q returns),
                  (λ j. live' j ∙ dead' j, clean' sound'),
                  n'' ∙ (n' ∙ n),
                  omega (arith, destroyed set u, m, made set w e),
                )
        ]
