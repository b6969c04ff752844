-- ===== src/Context/Tests.antt =====
-- A context whose backend opens a mock device, and the theorem on it.
use rust_usb.Base.{ℕ, ◌≡◌, ◌≢◌, refl, List, [], ◌∷◌, Option, none, some, false}
use rust_usb.Error.{ok}
use rust_usb.Backend.{UsbBackend}
use rust_usb.Mock.{MockDevice, mock_device, claim_interface, release_interface}
use rust_usb.Mock.Tests.{descriptor}
use rust_usb.Handle.{Locked, DeviceHandle}
use rust_usb.Handle.Calls.{Call, run}
use rust_usb.Handle.Sharing.{session, alone}
use rust_usb.Context.{Opened, Fresh, open_device, open_device-alone}

abbrev device : MockDevice
device = record { descriptor = descriptor; configs = []; strings = []; claimed_interfaces = [] }

abbrev platform : UsbBackend (Unit {0}) MockDevice
platform = record { enumerate = λ b. (ok [], b); open_device = λ path b. (ok device, b) }

abbrev context : Opened (Unit {0}) MockDevice
context = record { backend = tt; store = record { cell = λ a. none; next = 4 } }

abbrev handle : DeviceHandle
handle = record { inner = 4 }

abbrev calls : List (DeviceHandle × Call)
calls = (handle, Call.claim_interface 1) ∷ (handle, Call.release_interface 1) ∷ []

open_device-alone_example :
    let (r, c) = open_device platform [] context in
    let (replies, store) = session mock_device calls c.store in
    let (r', c') = open_device platform [] (record c { store = store }) in
    let left : Option (Locked MockDevice) =
      some (record { device = (alone mock_device calls device).1; poisoned = false }) in
    (r ≡ ok handle)
    × (context.store.cell 4 ≡ none)
    × ((a : ℕ) → 4 ≢ a → c.store.cell a ≡ none)
    × (replies ≡ (alone mock_device calls device).0)
    × (store.cell 4 ≡ left)
    × ((h : DeviceHandle) × (r' ≡ ok h)
        × (h.inner ≢ 4)
        × (c'.store.cell h.inner ≡ some (record { device = device; poisoned = false })))
    × (c'.store.cell 4 ≡ left)
    × Fresh c'.store
unfolding alone run claim_interface release_interface
open_device-alone_example =
    open_device-alone platform mock_device [] [] device device context calls (λ a h. refl) refl
      (refl, (refl, tt)) (refl, (refl, tt)) refl
