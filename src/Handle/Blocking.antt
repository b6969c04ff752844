-- ===== src/Handle/Blocking.antt =====
-- usb-lib/src/api/async_transfers.rs: the four transfers that run on Tokio's pool of blocking threads.
-- The runtime may cancel a task before it starts, which `cancelled` says; a task that panics is
-- reported as a failure to join, like a cancelled one.
use rust_usb.Base.{
  ℕ, ◌-◌, ◌≡◌, ◌≢◌, ◌⊎◌, inl, inr, refl, List, [], ◌++◌, length, take, replicate, take_all,
  append-nil, Bool, true, false, arith,
}
use rust_usb.Error.{UsbError, Result, ok, err, panic, no_fuel, other}
use rust_usb.Backend.{UsbDevice}
use rust_usb.Handle.{Store, DeviceHandle, clone, methods}

abbrev pub join_failed : UsbError
join_failed = other "spawn_blocking failed: {}" []

-- `inner_buf.resize(cap, 0)`
abbrev resize : List ℕ → ℕ → List ℕ
resize buf cap = take cap buf ++ replicate (cap - length buf) 0

-- `std::mem::take`: the buffer, and the empty one that is left in its place.
abbrev mem_take : List ℕ → List ℕ × List ℕ
mem_take buf = (buf, [])

-- What the `.await` of `spawn_blocking` gives: what the task returns, or a `JoinError`, with which
-- everything that the task owned is dropped.
pub data Joined (A : Type 0) : Type 0 where
  finished : A → Joined A
  join_error : Joined A

abbrev caught : {A S : Type 0} → Result ℕ × A × S → Joined (Result ℕ × A) × S
caught (ok n, a, s) = (finished (ok n, a), s)
caught (err e, a, s) = (finished (err e, a), s)
caught (panic, a, s) = (join_error, s)
caught (no_fuel, a, s) = (finished (no_fuel, a), s)

-- A task gives its result and what it hands back of what it owned.
unfoldable pub spawn_blocking :
    {A S : Type 0} → Bool → (S → Result ℕ × A × S) → S → Joined (Result ℕ × A) × S
spawn_blocking true task s = (join_error, s)
spawn_blocking false task s = caught (task s)

-- `.await.map_err(..)?`, with the caller's buffer; behind it, `*buf = inner_buf; result`.
abbrev written_back : {S : Type 0} → List ℕ → Joined (Result ℕ × List ℕ) × S → Result ℕ × List ℕ × S
written_back buf (join_error, s) = (err join_failed, buf, s)
written_back buf (finished (result, inner_buf), s) = (result, inner_buf, s)

abbrev awaited : {S : Type 0} → Joined (Result ℕ × Unit {0}) × S → Result ℕ × S
awaited (join_error, s) = (err join_failed, s)
awaited (finished (result, _), s) = (result, s)

-- A task that owns nothing that it hands back.
abbrev returning : {S : Type 0} → Result ℕ × S → Result ℕ × Unit {0} × S
returning (result, s) = (result, tt, s)

resize_self : (buf : List ℕ) → resize buf (length buf) ≡ buf
resize_self buf =
    let none_missing : length buf - length buf ≡ 0 = omega arith in
    rw (none_missing, take_all (length buf) buf (omega arith)) (append-nil buf)

-- What a read gives for a task: the task ran and its result and its buffer are handed on, or the buffer is
-- lost, because the task was cancelled or panicked.
abbrev pub Outcome :
    {S : Type 0} → Bool → Result ℕ × List ℕ × S → S → Result ℕ × List ℕ × S → Type 0
Outcome cancelled task store (r, buf, s) =
    ((cancelled ≡ false) × (task.0 ≢ panic) × (r ≡ task.0) × (buf ≡ task.1) × (s ≡ task.2))
    ⊎ ((r ≡ err join_failed)
        × (buf ≡ [])
        × (((cancelled ≡ true) × (s ≡ store))
            ⊎ ((cancelled ≡ false) × (task.0 ≡ panic) × (s ≡ task.2))))

caught-Outcome :
    {S : Type 0} (task : Result ℕ × List ℕ × S) (store : S)
    → Outcome false task store (written_back [] (caught task))
caught-Outcome (ok n, buf, s) store = inl (refl, (λ e. cc), refl, refl, refl)
caught-Outcome (err e, buf, s) store = inl (refl, (λ e. cc), refl, refl, refl)
caught-Outcome (panic, buf, s) store = inr (refl, refl, inr (refl, refl, refl))
caught-Outcome (no_fuel, buf, s) store = inl (refl, (λ e. cc), refl, refl, refl)

read_back : {S : Type 0} (x : Result ℕ × List ℕ × S) → x.0 ≢ panic → written_back [] (caught x) ≡ x
read_back (ok n, buf, s) h = refl
read_back (err e, buf, s) h = refl
read_back (panic, buf, s) h = absurd (h refl)
read_back (no_fuel, buf, s) h = refl

wrote_back : {S : Type 0} (x : Result ℕ × S) → x.0 ≢ panic → awaited (caught (returning x)) ≡ x
wrote_back (ok n, s) h = refl
wrote_back (err e, s) h = refl
wrote_back (panic, s) h = absurd (h refl)
wrote_back (no_fuel, s) h = refl

module _ {S : Type 0} (dev : UsbDevice S) where
  unfoldable pub bulk_read :
      Bool → DeviceHandle → ℕ → List ℕ → ℕ → Store S → Result ℕ × List ℕ × Store S
  unfolding spawn_blocking
  bulk_read cancelled handle endpoint buf timeout store =
      let cap = length buf in
      let (taken, left) = mem_take buf in
      let inner_buf = resize taken cap in
      let h = clone handle in
      written_back left (
        spawn_blocking cancelled ((methods dev h).async_bulk_read endpoint inner_buf timeout) store)

  unfoldable pub bulk_write : Bool → DeviceHandle → ℕ → List ℕ → ℕ → Store S → Result ℕ × Store S
  unfolding spawn_blocking
  bulk_write cancelled handle endpoint buf timeout store =
      let h = clone handle in
      let sent = buf in
      awaited (
        spawn_blocking cancelled
          (λ s. returning ((methods dev h).async_bulk_write endpoint sent timeout s)) store)

  unfoldable pub interrupt_read :
      Bool → DeviceHandle → ℕ → List ℕ → ℕ → Store S → Result ℕ × List ℕ × Store S
  unfolding spawn_blocking
  interrupt_read cancelled handle endpoint buf timeout store =
      let cap = length buf in
      let (taken, left) = mem_take buf in
      let inner_buf = resize taken cap in
      let h = clone handle in
      written_back left (
        spawn_blocking cancelled ((methods dev h).async_interrupt_read endpoint inner_buf timeout)
          store)

  unfoldable pub interrupt_write :
      Bool → DeviceHandle → ℕ → List ℕ → ℕ → Store S → Result ℕ × Store S
  unfolding spawn_blocking
  interrupt_write cancelled handle endpoint buf timeout store =
      let h = clone handle in
      let sent = buf in
      awaited (
        spawn_blocking cancelled
          (λ s. returning ((methods dev h).async_interrupt_write endpoint sent timeout s)) store)

  -- Where the task runs and the device neither panics nor has a poisoned lock, the four transfers
  -- return what the blocking calls on the same handle return, on the caller's own buffer, and leave
  -- the same devices.
  pub blocking_transfers :
      (h : DeviceHandle) (endpoint timeout : ℕ) (buf : List ℕ) (store : Store S)
      → ((methods dev h).async_bulk_read endpoint buf timeout store).0 ≢ panic
      → ((methods dev h).async_bulk_write endpoint buf timeout store).0 ≢ panic
      → ((methods dev h).async_interrupt_read endpoint buf timeout store).0 ≢ panic
      → ((methods dev h).async_interrupt_write endpoint buf timeout store).0 ≢ panic
      → (bulk_read false h endpoint buf timeout store
          ≡ (methods dev h).async_bulk_read endpoint buf timeout store)
        × (bulk_write false h endpoint buf timeout store
            ≡ (methods dev h).async_bulk_write endpoint buf timeout store)
        × (interrupt_read false h endpoint buf timeout store
            ≡ (methods dev h).async_interrupt_read endpoint buf timeout store)
        × (interrupt_write false h endpoint buf timeout store
            ≡ (methods dev h).async_interrupt_write endpoint buf timeout store)
  unfolding bulk_read bulk_write interrupt_read interrupt_write clone spawn_blocking
  blocking_transfers h endpoint timeout buf store a b c d =
      rw (resize_self buf) (read_back _ a, wrote_back _ b, read_back _ c, wrote_back _ d)

  -- Both reads, whatever happens: either the task ran and did not panic, and then the read returns the
  -- task's result, in the caller's buffer what the task read into it; or the task was cancelled, which
  -- leaves the devices alone, or it panicked, because the lock was poisoned or in the device, and
  -- then the read returns an error and the caller's buffer is empty: its bytes and its length are lost.
  pub reads_return_or_lose_buffer :
      (cancelled : Bool) (h : DeviceHandle) (endpoint timeout : ℕ) (buf : List ℕ) (store : Store S)
      → Outcome cancelled
          ((methods dev h).async_bulk_read endpoint buf timeout store)
          store
          (bulk_read cancelled h endpoint buf timeout store)
        × Outcome cancelled
            ((methods dev h).async_interrupt_read endpoint buf timeout store)
            store
            (interrupt_read cancelled h endpoint buf timeout store)
  unfolding bulk_read interrupt_read clone spawn_blocking
  reads_return_or_lose_buffer true h endpoint timeout buf store =
      (inr (refl, refl, inl (refl, refl)), inr (refl, refl, inl (refl, refl)))
  reads_return_or_lose_buffer false h endpoint timeout buf store =
      rw (resize_self buf) (caught-Outcome _ store, caught-Outcome _ store)
