-- ===== src/MacOs/Balance.antt =====
-- The operations that open an interface close it again: no reference is lost on any path.
use rust_usb.Base.{
  ℕ, ◌∙◌, ◌+◌, ◌≡◌, ◌≢◌, inl, inr, refl, List, Option-cases, arith, Bool-cases, length, lookup,
  nat_eq,
}
use rust_usb.Error.{UsbError, Result, ok, err, panic, no_fuel}
use rust_usb.Backend.{and_then, Op}
use rust_usb.MacOs.Iokit.{Iokit, Attached}
use rust_usb.MacOs.Interfaces.{
  poisoned_error, endpoint_on, number_on, open_interface_for_endpoint, find_interface,
}
use rust_usb.MacOs.Pipes.{
  read_opened, cached_pipe, no_pipe, read_open, bulk_read, write_open, bulk_write, set_open,
  set_alternate_setting, info_open, get_pipe_info,
}
use rust_usb.MacOs.Ledger.{Thing, Ledger, of_opened, open_interface, closed_and_released}
use rust_usb.MacOs.Searches.{search_interfaces-held, search_interfaces-Opens, Opens}
use rust_usb.MacOs.Looks.{
  IsSettled, endpoint_on-nonnull, number_on-nonnull, endpoint_on-Balanced, number_on-Balanced,
}

cached_pipe-IsSettled :
    {W : Type 0} (missing : UsbError) (endpoint : ℕ) (s : Attached W)
    → IsSettled (cached_pipe missing endpoint s)
unfolding cached_pipe
cached_pipe-IsSettled missing endpoint s = elim (Bool-cases s.device.poisoned) [
  | inl poisoned ↦ inr (poisoned_error, rw poisoned refl)
  | inr sound ↦ elim (Option-cases (lookup endpoint s.device.pipe_cache)) [
    | inl nothing ↦ inr (missing, rw (sound, nothing) refl)
    | inr (pipe, there) ↦ inl (pipe, rw (sound, there) refl)
  ]
]

module _ {W : Type 0} (iokit : Iokit W) (ledger : Ledger iokit) where
  open ledger use {refs, pipe_read, pipe_written, alternate_set}

  -- A nonnull interface that an operation was given open, and that it closes.
  abbrev Given : Thing → ℕ → ℕ → Attached W → Type 0
  Given o base intf s = (intf ≢ 0) × (refs s.world o ≡ base + open_interface intf o)

  read_open-refs :
      (endpoint base intf : ℕ) (buf : List ℕ) (s : Attached W) (o : Thing)
      → Given o base intf s
      → refs (read_open iokit endpoint buf intf s).2.world o ≡ base
  unfolding read_open
  read_open-refs endpoint base intf buf s o (h, e) =
      elim (cached_pipe-IsSettled (no_pipe endpoint) endpoint s) [
        | inl (pipe, p) ↦
            let w = (iokit.read_pipe intf pipe buf (length buf) s.world).3 in
            rw (read_open, p)
              (closed_and_released iokit ledger intf base w o h
                (pipe_read intf pipe (length buf) buf s.world o ∙ e))
        | inr (f, p) ↦ rw (read_open, p) (closed_and_released iokit ledger intf base s.world o h e)
      ]

  write_open-refs :
      (endpoint base intf : ℕ) (buf : List ℕ) (s : Attached W) (o : Thing)
      → Given o base intf s
      → refs (write_open iokit endpoint buf intf s).1.world o ≡ base
  unfolding write_open
  write_open-refs endpoint base intf buf s o (h, e) =
      elim (cached_pipe-IsSettled (no_pipe endpoint) endpoint s) [
        | inl (pipe, p) ↦
            let w = (iokit.write_pipe intf pipe buf (length buf) s.world).1 in
            rw (write_open, p)
              (closed_and_released iokit ledger intf base w o h
                (pipe_written intf pipe (length buf) buf s.world o ∙ e))
        | inr (f, p) ↦ rw (write_open, p) (closed_and_released iokit ledger intf base s.world o h e)
      ]

  set_open-refs :
      (alt base intf : ℕ) (s : Attached W) (o : Thing)
      → Given o base intf s
      → refs (set_open iokit alt intf s).1.world o ≡ base
  unfolding set_open
  set_open-refs alt base intf s o (h, e) =
      let w = (iokit.set_alternate_interface intf alt s.world).1 in
      ground
        (arith, closed_and_released iokit ledger intf base w o h, alternate_set intf alt s.world o)

  info_open-refs :
      (endpoint base intf : ℕ) (s : Attached W) (o : Thing)
      → Given o base intf s
      → refs (info_open iokit endpoint intf s).1.world o ≡ base
  unfolding info_open
  info_open-refs endpoint base intf s o (h, e) =
      closed_and_released iokit ledger intf base s.world o h e

  -- An operation goes on with the interface that a search opened.
  and_then-refs :
      {A : Type 0} (base : ℕ) (x : Result ℕ × Attached W) (go : ℕ → Op (Attached W) A) (o : Thing)
      → ((intf : ℕ) (s : Attached W) → Given o base intf s → refs (go intf s).1.world o ≡ base)
      → Opens (λ intf _. intf ≢ 0) x
      → refs x.1.world o ≡ base + of_opened x.0 o
      → refs (and_then x go).1.world o ≡ base
  and_then-refs base (ok intf, s) go o closes h e = closes intf s (h, e)
  and_then-refs base (err f, s) go o closes h e = omega (arith, e)
  and_then-refs base (panic, s) go o closes h e = omega (arith, e)
  and_then-refs base (no_fuel, s) go o closes h e = omega (arith, e)

  read_opened-refs :
      (endpoint base : ℕ) (buf : List ℕ) (x : Result ℕ × Attached W) (o : Thing)
      → Opens (λ intf _. intf ≢ 0) x
      → refs x.1.world o ≡ base + of_opened x.0 o
      → refs (read_opened iokit endpoint buf x).2.world o ≡ base
  unfolding read_open
  read_opened-refs endpoint base buf (ok intf, s) o h e =
      read_open-refs endpoint base intf buf s o (h, e)
  read_opened-refs endpoint base buf (err f, s) o h e = omega (arith, e)
  read_opened-refs endpoint base buf (panic, s) o h e = omega (arith, e)
  read_opened-refs endpoint base buf (no_fuel, s) o h e = omega (arith, e)

  endpoint_search :
      (endpoint : ℕ) (s : Attached W) (o : Thing)
      → let x = open_interface_for_endpoint iokit endpoint s in
        Opens (λ intf _. intf ≢ 0) x × (refs x.1.world o ≡ refs s.world o + of_opened x.0 o)
  unfolding open_interface_for_endpoint
  endpoint_search endpoint s o = (
    search_interfaces-Opens iokit (endpoint_on iokit endpoint) (λ intf _. intf ≢ 0)
        (λ iter intf t h. endpoint_on-nonnull iokit endpoint iter intf t h) _ _ s,
    search_interfaces-held iokit ledger (endpoint_on iokit endpoint)
        (endpoint_on-Balanced iokit ledger endpoint) _ _ s o,
  )

  interface_search :
      (interface : ℕ) (s : Attached W) (o : Thing)
      → let x = find_interface iokit interface s in
        Opens (λ intf _. intf ≢ 0) x × (refs x.1.world o ≡ refs s.world o + of_opened x.0 o)
  unfolding find_interface
  interface_search interface s o = (
    search_interfaces-Opens iokit (number_on iokit interface) (λ intf _. intf ≢ 0)
        (λ iter intf t h. number_on-nonnull iokit interface iter intf t h) _ _ s,
    search_interfaces-held iokit ledger (number_on iokit interface)
        (number_on-Balanced iokit ledger interface) _ _ s o,
  )

  bulk_read-refs :
      (endpoint : ℕ) (buf : List ℕ) (s : Attached W) (o : Thing)
      → refs (bulk_read iokit endpoint buf s).2.world o ≡ refs s.world o
  unfolding bulk_read
  bulk_read-refs endpoint buf s o =
      let (h, e) = endpoint_search endpoint s o in
      ground (
        arith,
        read_opened-refs endpoint (refs s.world o) buf
            (open_interface_for_endpoint iokit endpoint s) o h e,
      )

  bulk_write-refs :
      (endpoint : ℕ) (buf : List ℕ) (s : Attached W) (o : Thing)
      → refs (bulk_write iokit endpoint buf s).1.world o ≡ refs s.world o
  unfolding bulk_write
  bulk_write-refs endpoint buf s o =
      let (h, e) = endpoint_search endpoint s o in
      ground (
        arith,
        and_then-refs (refs s.world o) (open_interface_for_endpoint iokit endpoint s)
            (write_open iokit endpoint buf) o
            (λ intf t g. write_open-refs endpoint (refs s.world o) intf buf t o g) h e,
      )

  -- Reading and writing on a pipe, asking for a pipe and setting an alternate setting, on every path
  -- through the search for the interface and through the operation, errors included: each reference
  -- to an iterator, a service, a plugin or an interface, and each open interface, is there as often
  -- afterwards as it was before.
  pub operations_balance :
      (endpoint interface alt : ℕ) (buf : List ℕ) (s : Attached W) (o : Thing)
      → (refs (bulk_read iokit endpoint buf s).2.world o ≡ refs s.world o)
        × (refs (bulk_write iokit endpoint buf s).1.world o ≡ refs s.world o)
        × (refs (get_pipe_info iokit endpoint s).1.world o ≡ refs s.world o)
        × (refs (set_alternate_setting iokit interface alt s).1.world o ≡ refs s.world o)
  unfolding get_pipe_info set_alternate_setting
  operations_balance endpoint interface alt buf s o =
      let base = refs s.world o in
      let (h, e) = endpoint_search endpoint s o in
      let (h', e') = interface_search interface s o in
      (
        bulk_read-refs endpoint buf s o,
        bulk_write-refs endpoint buf s o,
        and_then-refs base (open_interface_for_endpoint iokit endpoint s) (info_open iokit endpoint)
            o (λ intf t g. info_open-refs endpoint base intf t o g) h e,
        and_then-refs base (find_interface iokit interface s) (set_open iokit alt) o
            (λ intf t g. set_open-refs alt base intf t o g) h' e',
      )
