-- ===== src/MacOs/Lifecycle.antt =====
-- Opening and dropping a device: which references are held.
use rust_usb.Base.{refl, false, Bool-cases, inl, inr, ap, ℕ, ◌+◌, ◌≡◌, ◌≢◌, some, ◌==◌, arith}
use rust_usb.Error.{UsbError, Result, ok, err, panic, no_fuel}
use rust_usb.Text.{Text}
use rust_usb.Backend.{and_then}
use rust_usb.MacOs.Iokit.{Iokit, MacOsDevice}
use rust_usb.MacOs.Device.{
  open_error, create_device_interface, open_service, open_intf, new_device, drop,
}
use rust_usb.MacOs.Ledger.{Thing, Ledger, same, object, device, opened_device}

-- The references to a device that is open.
abbrev pub open_device : ℕ → Thing → ℕ
open_device intf o = same (device intf) o + same (opened_device intf) o

module _ {W : Type 0} (iokit : Iokit W) (ledger : Ledger iokit) where
  open ledger use {
    refs, object_released, device_plugin_made, device_queried, plugin_released, device_opened,
    device_closed, device_released,
  }

  abbrev of_created : Result ℕ → Thing → ℕ
  of_created (ok intf) o = same (device intf) o
  of_created (err e) o = 0
  of_created panic o = 0
  of_created no_fuel o = 0

  create_device_interface-refs :
      (service : ℕ) (w : W) (o : Thing)
      → let (r, w') = create_device_interface iokit service w in
        refs w' o ≡ refs w o + of_created r o
  unfolding create_device_interface
  create_device_interface-refs service w o =
      let made = iokit.create_device_plugin service w in
      let queried = iokit.query_device made.1 made.2 in
      ground (
        arith,
        device_plugin_made service w o,
        device_queried made.1 made.2 o,
        plugin_released made.1 queried.2 o,
      )

  create_device_interface-nonnull :
      (service : ℕ) (w : W) → (create_device_interface iokit service w).0 ≢ ok 0
  unfolding create_device_interface
  create_device_interface-nonnull service w = ground arith

  drop-refs :
      (d : MacOsDevice) (base : ℕ) (w : W) (o : Thing)
      → d.device_intf ≢ 0
      → refs w o ≡ base + open_device d.device_intf o
      → refs (drop iokit (record { device = d; world = w })) o ≡ base
  unfolding drop
  drop-refs d base w o h e = ground (
    arith,
    device_closed d.device_intf w o,
    device_released d.device_intf (iokit.usb_device_close d.device_intf w) o,
  )

  open_intf-drop :
      (path : Text) (intf base : ℕ) (w w' : W) (o : Thing) (d : MacOsDevice)
      → intf ≢ 0
      → refs w o ≡ base + same (device intf) o
      → open_intf iokit path intf w ≡ (ok d, w')
      → (refs w' o ≡ base + open_device d.device_intf o)
        × (refs (drop iokit (record { device = d; world = w' })) o ≡ base)
  open_intf-drop path intf base w w' o d h held e =
      let call = iokit.usb_device_open intf w in
      elim (Bool-cases (call.0 == 0)) [
        | inr failed ↦ absurd (ground arith)
        | inl there ↦
            let same_device : new_device path intf ≡ d = ground arith in
            let same_world : call.1 ≡ w' = ap (λ x. x.1) e in
            let same_intf : intf ≡ d.device_intf = ap (λ x. x.device_intf) same_device in
            let held' : refs w' o ≡ base + open_device d.device_intf o =
              rw (← same_world, ← same_intf) (ground (arith, device_opened intf w o)) in
            (held', drop-refs d base w' o (rw (← same_intf) h) held')
      ]

  after_created-drop :
      (path : Text) (base : ℕ) (x : Result ℕ × W) (w' : W) (o : Thing) (d : MacOsDevice)
      → x.0 ≢ ok 0
      → refs x.1 o ≡ base + of_created x.0 o
      → and_then x (open_intf iokit path) ≡ (ok d, w')
      → (refs w' o ≡ base + open_device d.device_intf o)
        × (refs (drop iokit (record { device = d; world = w' })) o ≡ base)
  after_created-drop path base (ok intf, w) w' o d h held e =
      open_intf-drop path intf base w w' o d (λ z. h (ap ok z)) held e
  after_created-drop path base (err f, w) w' o d h held e = absurd (ground arith)
  after_created-drop path base (panic, w) w' o d h held e = absurd (ground arith)
  after_created-drop path base (no_fuel, w) w' o d h held e = absurd (ground arith)

  open_service-drop :
      (path : Text) (service base : ℕ) (w : W) (o : Thing) (d : MacOsDevice) (w' : W)
      → refs w o ≡ base + same (object service) o
      → open_service iokit path (some service) w ≡ (ok d, w')
      → (refs w' o ≡ base + open_device d.device_intf o)
        × (refs (drop iokit (record { device = d; world = w' })) o ≡ base)
  unfolding open_service
  open_service-drop path service base w o d w' held e =
      let created = create_device_interface iokit service w in
      after_created-drop path base (created.0, iokit.release_object service created.1) w' o d
        (create_device_interface-nonnull service w)
        (omega
          (arith, create_device_interface-refs service w o, object_released service created.1 o))
        e

  open_intf-failed :
      (path : Text) (intf base : ℕ) (w : W) (o : Thing)
      → (iokit.usb_device_open intf w).0 ≢ 0
      → refs w o ≡ base + same (device intf) o
      → let (r, w') = open_intf iokit path intf w in
        (r ≡ err (open_error (iokit.usb_device_open intf w).0))
        × (refs w' o ≡ base + same (device intf) o)
  open_intf-failed path intf base w o failed held =
      let kr = (iokit.usb_device_open intf w).0 in
      let nonzero : kr == 0 ≡ false = ground arith in
      (rw nonzero refl, ground (arith, device_opened intf w o))

  -- The service that the search found, referenced once more than before. When opening it succeeds, the
  -- references are those from before, one to the device interface and one for the open device, and
  -- dropping the device gives back both. When creating the device interface fails, opening fails and
  -- leaves the references from before. When it succeeds and `USBDeviceOpen` fails, opening fails with
  -- the error of that call, and the reference to the device interface is still there: nothing releases
  -- it.
  pub open_service-refs :
      (path : Text) (service base : ℕ) (w : W) (o : Thing)
      → refs w o ≡ base + same (object service) o
      → let (created, w1) = create_device_interface iokit service w in
        let released = iokit.release_object service w1 in
        let (r, w') = open_service iokit path (some service) w in
        ((d : MacOsDevice) (w'' : W)
          → open_service iokit path (some service) w ≡ (ok d, w'')
          → (refs w'' o ≡ base + open_device d.device_intf o)
            × (refs (drop iokit (record { device = d; world = w'' })) o ≡ base))
        × ((e : UsbError) → created ≡ err e → (r ≡ err e) × (refs w' o ≡ base))
        × ((intf : ℕ)
            → created ≡ ok intf
            → (iokit.usb_device_open intf released).0 ≢ 0
            → (r ≡ err (open_error (iokit.usb_device_open intf released).0))
              × (refs w' o ≡ base + same (device intf) o))
  unfolding open_service
  open_service-refs path service base w o held =
      let (created, w1) = create_device_interface iokit service w in
      let kept = create_device_interface-refs service w o in
      let gone = object_released service w1 o in
      (
        λ d w'' e. open_service-drop path service base w o d w'' held e,
        λ e failed.
            rw failed (refl, omega (arith, held, gone, kept, ap (λ r. of_created r o) failed)),
        λ intf made failed. rw made (
            open_intf-failed path intf base _ o failed
              (omega (arith, held, gone, kept, ap (λ r. of_created r o) made))),
      )
