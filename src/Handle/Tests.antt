-- ===== src/Handle/Tests.antt =====
-- Handles on a mock device, and the theorems on them.
use rust_usb.Base.{ℕ, ◌≡◌, refl, List, [], ◌∷◌, none, some, true, false}
use rust_usb.Mock.{MockDevice, mock_device, claim_interface, release_interface}
use rust_usb.Mock.Tests.{descriptor}
use rust_usb.Handle.{Store, DeviceHandle, put, methods, with_lock, with_lock_read, clone}
use rust_usb.Handle.Calls.{Call, run}
use rust_usb.Handle.Sharing.{session, alone, session-alone}
use rust_usb.Handle.Blocking
use rust_usb.Handle.Blocking.{Outcome, blocking_transfers, reads_return_or_lose_buffer}

abbrev device : MockDevice
device = record { descriptor = descriptor; configs = []; strings = []; claimed_interfaces = [] }

abbrev handle : DeviceHandle
handle = record { inner = 0 }

abbrev empty_store : Store MockDevice
empty_store = record { cell = λ _. none; next = 0 }

abbrev store : Store MockDevice
store = record (put empty_store 0 (record { device = device; poisoned = false })) { next = 1 }

abbrev poisoned_store : Store MockDevice
poisoned_store = record (put empty_store 0 (record { device = device; poisoned = true })) {
  next = 1;
}

abbrev calls : List (DeviceHandle × Call)
calls = (handle, Call.claim_interface 1) ∷ (handle, Call.release_interface 1) ∷ []

session-alone_example :
    ((session mock_device calls store).0 ≡ (alone mock_device calls device).0)
    × ((session mock_device calls store).1.cell 0
        ≡ some (record { device = (alone mock_device calls device).1; poisoned = false }))
unfolding alone run claim_interface release_interface
session-alone_example =
    session-alone mock_device calls 0 store device refl (refl, (refl, tt)) (refl, (refl, tt))

blocking_transfers_example :
    (Blocking.bulk_read mock_device false handle 0x81 (1 ∷ []) 5 store
      ≡ (methods mock_device handle).async_bulk_read 0x81 (1 ∷ []) 5 store)
    × (Blocking.bulk_write mock_device false handle 0x81 (1 ∷ []) 5 store
        ≡ (methods mock_device handle).async_bulk_write 0x81 (1 ∷ []) 5 store)
    × (Blocking.interrupt_read mock_device false handle 0x81 (1 ∷ []) 5 store
        ≡ (methods mock_device handle).async_interrupt_read 0x81 (1 ∷ []) 5 store)
    × (Blocking.interrupt_write mock_device false handle 0x81 (1 ∷ []) 5 store
        ≡ (methods mock_device handle).async_interrupt_write 0x81 (1 ∷ []) 5 store)
unfolding methods with_lock with_lock_read
blocking_transfers_example =
    blocking_transfers mock_device handle 0x81 5 (1 ∷ []) store (λ e. cc) (λ e. cc) (λ e. cc)
      (λ e. cc)

reads_return_or_lose_buffer_example :
    let buf : List ℕ = 1 ∷ 2 ∷ [] in
    Outcome false
      ((methods mock_device handle).async_bulk_read 0x81 buf 5 poisoned_store)
      poisoned_store
      (Blocking.bulk_read mock_device false handle 0x81 buf 5 poisoned_store)
    × Outcome false
        ((methods mock_device handle).async_interrupt_read 0x81 buf 5 poisoned_store)
        poisoned_store
        (Blocking.interrupt_read mock_device false handle 0x81 buf 5 poisoned_store)
reads_return_or_lose_buffer_example =
    reads_return_or_lose_buffer mock_device false handle 0x81 5 (1 ∷ 2 ∷ []) poisoned_store

-- The lock is poisoned, so the buffer is lost.
lost : (Blocking.bulk_read mock_device false handle 0x81 (1 ∷ 2 ∷ []) 5 poisoned_store).1 ≡ []
unfolding Blocking.bulk_read methods with_lock_read clone
lost = refl
