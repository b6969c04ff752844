-- ===== src/Context.antt =====
-- usb-lib/src/api/context.rs: the entry point. Its backend is the platform's, any `UsbBackend`; the devices
-- that it opens go into the store of the handles. `register_hotplug` is the platform's `register`.
mod Tests
use rust_usb.Base.{
  ℕ, suc, ◌+◌, ◌≡◌, ◌≢◌, ◌≤◌, Option, none, refl, ◌∙◌, List, some, false, arith, ==_refl, ◌==◌,
  if◌then◌else◌,
}
use rust_usb.Error.{Result, ok, err, panic, no_fuel}
use rust_usb.Text.{Text}
use rust_usb.Backend.{and_then, and_then_ok, Op, DeviceInfo, UsbBackend, UsbDevice}
use rust_usb.Handle.{Store, Locked, DeviceHandle}
use rust_usb.Handle
use rust_usb.Handle.Calls.{Call}
use rust_usb.Handle.Sharing.{session, alone, AllAt, AllCalm, session-alone, session_others}

-- No device stands at an address that is still to be given away.
abbrev pub Fresh : {D : Type 0} → Store D → Type 0
Fresh store = (a : ℕ) → store.next ≤ a → store.cell a ≡ none

-- What the operations of a context act on.
pub record Opened (B D : Type 0) : Type 0 where
  pub backend : B
  pub store : Store D

module _ {D : Type 0} where
  new-others :
      (dev : D) (store : Store D) (b : ℕ)
      → store.next ≢ b
      → (Handle.new dev store).1.cell b ≡ store.cell b
  unfolding Handle.new
  new-others dev store b ne = ground (arith, ne)

  new-Fresh : (dev : D) (store : Store D) → Fresh store → Fresh (Handle.new dev store).1
  unfolding Handle.new
  new-Fresh dev store fresh b above = ground (arith, above, fresh b (omega arith))

module _ {B D : Type 0} (platform : UsbBackend B D) where
  unfoldable pub devices : Op (Opened B D) (List DeviceInfo)
  devices c = let (r, b) = platform.enumerate c.backend in (r, record c { backend = b })

  -- `Ok(DeviceHandle::new(dev))`
  abbrev pub with_handle : D → Op (Opened B D) DeviceHandle
  with_handle dev c = let (h, store) = Handle.new dev c.store in (ok h, record c { store = store })

  -- `UsbContext::open`
  unfoldable pub open_device : Text → Op (Opened B D) DeviceHandle
  unfolding Handle.new
  open_device path c =
      let (r, b) = platform.open_device path c.backend in
      and_then (r, record c { backend = b }) with_handle

  opened :
      (dev : D) (r : Result D) (c : Opened B D)
      → r ≡ ok dev
      → and_then (r, c) with_handle ≡ with_handle dev c
  opened dev r c e = and_then_ok (r, c) with_handle dev e

  -- From a store in which no device stands at an address that is still to be given away: where the backend
  -- opens the path as a device, `open` returns a handle of its own. Nothing stood at its address, and the
  -- devices of all other handles are as they were. Calls through the handle and its clones, as long
  -- as the device does not panic, return what the same calls return on the device that the backend
  -- opened, which nobody else has, and leave it in the same state, not poisoned. If a path is then
  -- opened as a device once more, be it the same, the new handle is another one, the first device
  -- is still as its calls left it, and again no device stands at an address that is still to be given
  -- away.
  pub open_device-alone :
      (methods : UsbDevice D) (path path' : Text) (dev dev' : D) (c : Opened B D)
      (calls : List (DeviceHandle × Call))
      → Fresh c.store
      → (platform.open_device path c.backend).0 ≡ ok dev
      → AllAt methods c.store.next calls
      → AllCalm methods (alone methods calls dev).0
      → (platform.open_device path' (platform.open_device path c.backend).1).0 ≡ ok dev'
      → let (r, c') = open_device path c in
        let (replies, store) = session methods calls c'.store in
        let (r', c'') = open_device path' (record c' { store = store }) in
        let left : Option (Locked D) =
          some (record { device = (alone methods calls dev).1; poisoned = false }) in
        (r ≡ ok (record { inner = c.store.next }))
        × (c.store.cell c.store.next ≡ none)
        × ((a : ℕ) → c.store.next ≢ a → c'.store.cell a ≡ c.store.cell a)
        × (replies ≡ (alone methods calls dev).0)
        × (store.cell c.store.next ≡ left)
        × ((h : DeviceHandle) × (r' ≡ ok h)
            × (h.inner ≢ c.store.next)
            × (c''.store.cell h.inner ≡ some (record { device = dev'; poisoned = false })))
        × (c''.store.cell c.store.next ≡ left)
        × Fresh c''.store
  unfolding open_device Handle.new
  open_device-alone methods path path' dev dev' c calls new e at calm e' =
      let c1 : Opened B D = record c { backend = (platform.open_device path c.backend).1 } in
      let a = c.store.next in
      let store1 = (Handle.new dev c.store).1 in
      let cell : store1.cell a ≡ some (record { device = dev; poisoned = false }) =
        rw (==_refl a) refl in
      let (same, left) = session-alone methods calls a store1 dev cell at calm in
      let (next, others) = session_others methods calls a store1 dev cell at calm in
      let store2 = (session methods calls store1).1 in
      let different : store2.next ≢ a = ground (arith, next) in
      let fresh : Fresh store2 = λ b above.
        others b (ground (arith, next, above))
        ∙ new-Fresh dev c.store new b (ground (arith, next, above)) in
      let c2 : Opened B D = record {
        backend = (platform.open_device path' c1.backend).1;
        store = store2;
      } in
      rw
        (
          opened dev (platform.open_device path c.backend).0 c1 e,
          opened dev' (platform.open_device path' c1.backend).0 c2 e',
        )
        (
          refl,
          new a (omega arith),
          (λ b ne. ground (arith, ne)),
          same,
          left,
          (record { inner = store2.next }, refl, different, rw (==_refl store2.next) refl),
          (new-others dev' store2 a different ∙ left),
          new-Fresh dev' store2 fresh,
        )
