-- ===== src/Handle/Sharing.antt =====
-- What handles share: a call through a handle is a call of the device behind it, under a lock.
use rust_usb.Base.{ℕ, ◌≡◌, ◌≢◌, refl, List, [], ◌∷◌, some, true, false, arith}
use rust_usb.Backend.{UsbDevice}
use rust_usb.Handle.{
  Store, DeviceHandle, put, with_lock, with_lock_read, with_lock_control, methods,
}
use rust_usb.Handle.Calls.{Call, Reply, run, panicked}

module _ {S : Type 0} (dev : UsbDevice S) where
  -- Any call through a handle whose lock is not poisoned returns what the device behind it returns,
  -- and puts back the state that the device is left in; the lock is poisoned exactly if the device
  -- panicked.
  pub methods-run :
      (h : DeviceHandle) (call : Call) (store : Store S) (s : S)
      → store.cell h.inner ≡ some (record { device = s; poisoned = false })
      → run (methods dev h) call store ≡ (
        (run dev call s).0,
        put store h.inner
            (record { device = (run dev call s).1; poisoned = panicked (run dev call s).0 }),
      )
  unfolding run methods with_lock with_lock_read with_lock_control
  methods-run h Call.read_device_descriptor store s e = ground arith
  methods-run h _ store s e = ground arith

  -- Once a thread has panicked under a device's lock, every call through every handle of that device
  -- panics, and changes nothing.
  pub methods_poisoned :
      (h : DeviceHandle) (call : Call) (store : Store S) (s : S)
      → store.cell h.inner ≡ some (record { device = s; poisoned = true })
      → (panicked (run (methods dev h) call store).0 ≡ true)
        × ((run (methods dev h) call store).1 ≡ store)
  unfolding run methods with_lock with_lock_read with_lock_control
  methods_poisoned h Call.read_device_descriptor store s e = ground arith
  methods_poisoned h _ store s e = ground arith

  -- A call through one handle leaves the devices of all handles at other addresses alone.
  pub methods_others :
      (h : DeviceHandle) (call : Call) (store : Store S) (s : S) (a : ℕ)
      → store.cell h.inner ≡ some (record { device = s; poisoned = false })
      → h.inner ≢ a
      → (run (methods dev h) call store).1.cell a ≡ store.cell a
  methods_others h call store s a e ne = rw (methods-run h call store s e) (ground arith)

  -- Calls through several handles, in the order in which they get the lock.
  unfoldable pub session : List (DeviceHandle × Call) → Store S → List Reply × Store S
  session [] store = ([], store)
  session ((h, call) ∷ calls) store =
      let (r, store') = run (methods dev h) call store in
      let (rs, last) = session calls store' in (r ∷ rs, last)

  -- The same calls on a device that nobody shares.
  unfoldable pub alone : List (DeviceHandle × Call) → S → List Reply × S
  alone [] s = ([], s)
  alone ((h, call) ∷ calls) s =
      let (r, s') = run dev call s in let (rs, last) = alone calls s' in (r ∷ rs, last)

  abbrev pub AllCalm : List Reply → Type 0
  AllCalm [] = Unit {0}
  AllCalm (r ∷ rs) = (panicked r ≡ false) × AllCalm rs

  abbrev pub AllAt : ℕ → List (DeviceHandle × Call) → Type 0
  AllAt a [] = Unit {0}
  AllAt a ((h, call) ∷ calls) = (h.inner ≡ a) × AllAt a calls

  -- Calls through any handles that share one device, as long as the device does not panic, return in
  -- whatever order they are made what the same calls return on a device that nobody shares, and
  -- leave the device in the same state, its lock not poisoned.
  pub session-alone :
      (calls : List (DeviceHandle × Call)) (a : ℕ) (store : Store S) (s : S)
      → store.cell a ≡ some (record { device = s; poisoned = false })
      → AllAt a calls
      → AllCalm (alone calls s).0
      → ((session calls store).0 ≡ (alone calls s).0)
        × ((session calls store).1.cell a
            ≡ some (record { device = (alone calls s).1; poisoned = false }))
  unfolding session alone
  session-alone [] a store s e at calm = (refl, e)
  session-alone ((h, call) ∷ calls) a store s e (here, at) (calm, later) =
      let locked : store.cell h.inner ≡ some (record { device = s; poisoned = false }) =
        rw here e in
      let after : Store S = (run (methods dev h) call store).1 in
      let mid : S = (run dev call s).1 in
      let step = methods-run h call store s locked in
      let held : after.cell a ≡ some (record { device = mid; poisoned = false }) =
        ground (arith, step, here) in
      let (same, final) = session-alone calls a after mid held at later in
      (ground (arith, step, same), final)

  -- Such calls leave the devices at all other addresses, and the address that the next handle gets.
  pub session_others :
      (calls : List (DeviceHandle × Call)) (a : ℕ) (store : Store S) (s : S)
      → store.cell a ≡ some (record { device = s; poisoned = false })
      → AllAt a calls
      → AllCalm (alone calls s).0
      → ((session calls store).1.next ≡ store.next)
        × ((b : ℕ) → a ≢ b → (session calls store).1.cell b ≡ store.cell b)
  unfolding session alone
  session_others [] a store s e at calm = (refl, λ b ne. refl)
  session_others ((h, call) ∷ calls) a store s e (here, at) (calm, later) =
      let locked : store.cell h.inner ≡ some (record { device = s; poisoned = false }) =
        rw here e in
      let after : Store S = (run (methods dev h) call store).1 in
      let mid : S = (run dev call s).1 in
      let step = methods-run h call store s locked in
      let held : after.cell a ≡ some (record { device = mid; poisoned = false }) =
        ground (arith, step, here) in
      let (next, others) = session_others calls a after mid held at later in
      (ground (arith, step, next), λ b ne. ground (arith, step, here, ne, others b ne))
