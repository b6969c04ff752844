-- ===== src/Handle.antt =====
-- usb-lib/src/api/device_handle.rs: a handle is a shared, locked device. The devices behind
-- `Arc<Mutex<..>>` stand in a store; a handle is the address of one, and a clone has the same address.
pub mod Calls
pub mod Sharing
pub mod Blocking
mod Tests
use rust_usb.Base.{ℕ, suc, ◌+◌, ◌==◌, List, Option, none, some, Bool, true, false, if◌then◌else◌}
use rust_usb.Error.{Result, ok, err, panic, no_fuel}
use rust_usb.Transfer.{ControlSetup}
use rust_usb.Backend.{Op, ReadOp, UsbDevice, Required}

-- What a `Mutex` holds, and whether a thread has panicked while it held the lock.
pub record Locked (S : Type 0) : Type 0 where
  pub device : S
  pub poisoned : Bool

pub record Store (S : Type 0) : Type 0 where
  pub cell : ℕ → Option (Locked S)
  pub next : ℕ

pub record DeviceHandle : Type 0 where
  pub inner : ℕ

-- `#[derive(Clone)]`: the `Arc` is cloned, not the device.
unfoldable pub clone : DeviceHandle → DeviceHandle
clone h = h

abbrev pub is_panic : {A : Type 0} → Result A → Bool
is_panic (ok _) = false
is_panic (err _) = false
is_panic panic = true
is_panic no_fuel = false

module _ {S : Type 0} where
  abbrev pub put : Store S → ℕ → Locked S → Store S
  put store a c = record store { cell = λ b. if a == b then some c else store.cell b }

  -- `DeviceHandle::new`: `Arc::new(Mutex::new(dev))` at an address of its own.
  unfoldable pub new : S → Store S → DeviceHandle × Store S
  new dev store = (
    record { inner = store.next },
    record (put store store.next (record { device = dev; poisoned = false })) {
      next = store.next + 1;
    },
  )

  -- `self.inner.lock().unwrap().op(..)`: a poisoned lock panics in `unwrap`, and a panic of the
  -- operation poisons it.
  unfoldable pub with_lock : {A : Type 0} → DeviceHandle → Op S A → Op (Store S) A
  with_lock h op store = elim (store.cell h.inner) [
    | none ↦ (panic, store)
    | some c ↦
        if c.poisoned
        then (panic, store)
        else (let (r, s) = op c.device in
            (r, put store h.inner (record { device = s; poisoned = is_panic r })))
  ]

  -- The same for an operation that writes into the caller's buffer.
  unfoldable pub with_lock_read : DeviceHandle → List ℕ → ReadOp S → ReadOp (Store S)
  with_lock_read h buf op store = elim (store.cell h.inner) [
    | none ↦ (panic, buf, store)
    | some c ↦
        if c.poisoned
        then (panic, buf, store)
        else (let (r, buf', s) = op c.device in
            (r, buf', put store h.inner (record { device = s; poisoned = is_panic r })))
  ]

  unfoldable pub with_lock_control :
      DeviceHandle
      → Option (List ℕ)
      → (S → Result ℕ × Option (List ℕ) × S)
      → Store S
      → Result ℕ × Option (List ℕ) × Store S
  with_lock_control h buf op store = elim (store.cell h.inner) [
    | none ↦ (panic, buf, store)
    | some c ↦
        if c.poisoned
        then (panic, buf, store)
        else (let (r, buf', s) = op c.device in
            (r, buf', put store h.inner (record { device = s; poisoned = is_panic r })))
  ]

  -- The methods of `impl DeviceHandle`, which has one for each method of the trait: so a handle has
  -- the operations of a device, over the store.
  unfoldable pub methods : UsbDevice S → DeviceHandle → UsbDevice (Store S)
  methods dev h = record {
    required = record {
      read_device_descriptor = with_lock h dev.read_device_descriptor;
      read_config_descriptor = λ index. with_lock h (dev.read_config_descriptor index);
      read_string_descriptor = λ index lang. with_lock h (dev.read_string_descriptor index lang);
      claim_interface = λ interface. with_lock h (dev.claim_interface interface);
      release_interface = λ interface. with_lock h (dev.release_interface interface);
      control_transfer =
          λ setup buf timeout. with_lock_control h buf (dev.control_transfer setup buf timeout);
    };
    bulk_read = λ endpoint buf timeout. with_lock_read h buf (dev.bulk_read endpoint buf timeout);
    bulk_write = λ endpoint buf timeout. with_lock h (dev.bulk_write endpoint buf timeout);
    interrupt_read =
        λ endpoint buf timeout. with_lock_read h buf (dev.interrupt_read endpoint buf timeout);
    interrupt_write =
        λ endpoint buf timeout. with_lock h (dev.interrupt_write endpoint buf timeout);
    reset_pipe = λ endpoint. with_lock h (dev.reset_pipe endpoint);
    abort_pipe = λ endpoint. with_lock h (dev.abort_pipe endpoint);
    reset_device = with_lock h dev.reset_device;
    get_alternate_setting = λ interface. with_lock h (dev.get_alternate_setting interface);
    set_alternate_setting = λ interface alt. with_lock h (dev.set_alternate_setting interface alt);
    get_pipe_info = λ endpoint. with_lock h (dev.get_pipe_info endpoint);
    get_pipe_policy = λ endpoint kind. with_lock h (dev.get_pipe_policy endpoint kind);
    set_pipe_policy = λ endpoint policy. with_lock h (dev.set_pipe_policy endpoint policy);
    read_bos_descriptor = with_lock h dev.read_bos_descriptor;
    read_hub_descriptor = with_lock h dev.read_hub_descriptor;
    async_bulk_read =
        λ endpoint buf timeout. with_lock_read h buf (dev.async_bulk_read endpoint buf timeout);
    async_bulk_write =
        λ endpoint buf timeout. with_lock h (dev.async_bulk_write endpoint buf timeout);
    async_interrupt_read = λ endpoint buf timeout.
        with_lock_read h buf (dev.async_interrupt_read endpoint buf timeout);
    async_interrupt_write =
        λ endpoint buf timeout. with_lock h (dev.async_interrupt_write endpoint buf timeout);
    isoch_read = λ endpoint buf. with_lock_read h buf (dev.isoch_read endpoint buf);
    isoch_write = λ endpoint buf. with_lock h (dev.isoch_write endpoint buf);
  }
