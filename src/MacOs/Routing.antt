-- ===== src/MacOs/Routing.antt =====
-- A transfer goes to the pipe of the endpoint that it names.
use rust_usb.Base.{ℕ, ◌≤◌, ◌<◌, ◌≡◌, refl, List, ◌==◌, false, arith, length, nat_eq, le→ltb}
use rust_usb.Error.{UsbError, ok}
use rust_usb.Backend.{Op, ReadOp, u32_max}
use rust_usb.MacOs.Iokit.{Iokit, Attached}
use rust_usb.MacOs.Interfaces.{close_and_release_interface, open_interface_for_endpoint}
use rust_usb.MacOs.Pipes.{
  kr_result, cached_pipe, no_pipe, read_open, bulk_read, write_open, bulk_write,
}
use rust_usb.MacOs.Mapped.{Mapped, open_interface_for_endpoint-Mapped}

module _ {W : Type 0} (iokit : Iokit W) where
  cached_pipe-Mapped :
      (missing : UsbError) (endpoint intf pipe : ℕ) (t : Attached W)
      → Mapped iokit endpoint intf t pipe
      → cached_pipe missing endpoint t ≡ ok pipe
  unfolding cached_pipe
  cached_pipe-Mapped missing endpoint intf pipe t mapped = rw (mapped.sound, mapped.cached) refl

  -- The transfer of a buffer on this pipe of an open interface, which is closed behind it.
  abbrev pub read_on : ℕ → ℕ → List ℕ → ReadOp (Attached W)
  read_on intf pipe buf t =
      let (kr, n, buf', w) = iokit.read_pipe intf pipe buf (length buf) t.world in
      (kr_result iokit kr n, buf', record t { world = close_and_release_interface iokit intf w })

  abbrev pub write_on : ℕ → ℕ → List ℕ → Op (Attached W) ℕ
  write_on intf pipe buf t =
      let (kr, w) = iokit.write_pipe intf pipe buf (length buf) t.world in
      (
        kr_result iokit kr (length buf),
        record t { world = close_and_release_interface iokit intf w },
      )

  read_open_pipe :
      (endpoint intf pipe : ℕ) (buf : List ℕ) (t : Attached W)
      → cached_pipe (no_pipe endpoint) endpoint t ≡ ok pipe
      → read_open iokit endpoint buf intf t ≡ read_on intf pipe buf t
  unfolding read_open
  read_open_pipe endpoint intf pipe buf t e = rw (read_open, e) refl

  write_open_pipe :
      (endpoint intf pipe : ℕ) (buf : List ℕ) (t : Attached W)
      → cached_pipe (no_pipe endpoint) endpoint t ≡ ok pipe
      → write_open iokit endpoint buf intf t ≡ write_on intf pipe buf t
  unfolding write_open
  write_open_pipe endpoint intf pipe buf t e = rw (write_open, e) refl

  -- A buffer of 1 up to 2 ^ 32 - 1 bytes, and an endpoint for which an interface is found and opened.
  -- Then the cache has a pipe for the endpoint that this interface had when it was looked at, with the
  -- endpoint's own address, and reading and writing are the transfer of the buffer on that pipe of
  -- that interface, behind which the interface is closed. The error of an endpoint without a mapped
  -- pipe is never returned.
  pub bulk_transfers_pipe :
      (endpoint intf : ℕ) (buf : List ℕ) (s t : Attached W)
      → 0 < length buf
      → length buf ≤ u32_max
      → open_interface_for_endpoint iokit endpoint s ≡ (ok intf, t)
      → (pipe : ℕ) × Mapped iokit endpoint intf t pipe
        × (bulk_read iokit endpoint buf s ≡ read_on intf pipe buf t)
        × (bulk_write iokit endpoint buf s ≡ write_on intf pipe buf t)
  unfolding bulk_read bulk_write read_open
  bulk_transfers_pipe endpoint intf buf s t pos small e =
      let nonempty : length buf == 0 ≡ false = ground arith in
      let (pipe, mapped) : (pipe : ℕ) × Mapped iokit endpoint intf t pipe =
        rw e at (open_interface_for_endpoint-Mapped iokit endpoint s) in
      let cached = cached_pipe-Mapped (no_pipe endpoint) endpoint intf pipe t mapped in
      (
        pipe,
        mapped,
        rw (nonempty, le→ltb _ _ small, e) (read_open_pipe endpoint intf pipe buf t cached),
        rw (nonempty, le→ltb _ _ small, e) (write_open_pipe endpoint intf pipe buf t cached),
      )
