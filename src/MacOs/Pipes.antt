-- ===== src/MacOs/Pipes.antt =====
-- usb-lib/src/backend/macos.rs: the transfers on pipes, the alternate settings and the information on a
-- pipe, each with an interface that is opened for it.
use rust_usb.Base.{
  ℕ, List, [], ◌∷◌, none, some, ◌==◌, not, if◌then◌else◌, ltb, length, lookup, nat_eq,
}
use rust_usb.Error.{UsbError, Result, ok, err, panic, no_fuel, other, ◌>>=◌}
use rust_usb.Endpoint.{EndpointInfo}
use rust_usb.Endpoint
use rust_usb.Backend.{and_then, Op, ReadOp, u32_max}
use rust_usb.MacOs.Iokit.{Iokit, PipeProperties, Attached, iokit_pipe_kr_to_usb_error}
use rust_usb.MacOs.Interfaces.{
  poisoned_error, address_of, close_and_release_interface, open_interface_for_endpoint,
  find_interface,
}

-- The pipe of an endpoint in the cache. `missing` is the error of a caller without one.
unfoldable pub cached_pipe : {W : Type 0} → UsbError → ℕ → Attached W → Result ℕ
cached_pipe missing endpoint s =
    if s.device.poisoned
    then err poisoned_error
    else (elim (lookup endpoint s.device.pipe_cache) [ some pipe ↦ ok pipe | none ↦ err missing ])

abbrev pub no_pipe : ℕ → UsbError
no_pipe endpoint = other "endpoint {:#04x} has no mapped pipe" (endpoint ∷ [])

module _ {W : Type 0} (iokit : Iokit W) where
  abbrev pub kr_result : {A : Type 0} → ℕ → A → Result A
  unfolding iokit_pipe_kr_to_usb_error
  kr_result kr a = if kr == 0 then ok a else err (iokit_pipe_kr_to_usb_error kr)

  -- `ReadPipe` on an open interface.
  unfoldable pub read_open : ℕ → List ℕ → ℕ → ReadOp (Attached W)
  unfolding cached_pipe kr_result
  read_open endpoint buf intf s = elim (cached_pipe (no_pipe endpoint) endpoint s) [
    | ok pipe ↦
        let (kr, transfer_size, buf', w) = iokit.read_pipe intf pipe buf (length buf) s.world in
        (
          kr_result kr transfer_size,
          buf',
          record s { world = close_and_release_interface iokit intf w },
        )
    | err e ↦ (err e, buf, record s { world = close_and_release_interface iokit intf s.world })
    | panic ↦ (panic, buf, s)
    | no_fuel ↦ (no_fuel, buf, s)
  ]

  abbrev pub read_opened : ℕ → List ℕ → Result ℕ × Attached W → Result ℕ × List ℕ × Attached W
  unfolding read_open
  read_opened endpoint buf (ok intf, s) = read_open endpoint buf intf s
  read_opened endpoint buf (err e, s) = (err e, buf, s)
  read_opened endpoint buf (panic, s) = (panic, buf, s)
  read_opened endpoint buf (no_fuel, s) = (no_fuel, buf, s)

  unfoldable pub bulk_read : ℕ → List ℕ → ReadOp (Attached W)
  unfolding open_interface_for_endpoint
  bulk_read endpoint buf s =
      if length buf == 0
      then (ok 0, buf, s)
      else (if ltb u32_max (length buf)
          then (err (other "buffer length exceeds macOS pipe size" []), buf, s)
          else read_opened endpoint buf (open_interface_for_endpoint iokit endpoint s))

  -- `WritePipe` on an open interface.
  unfoldable pub write_open : ℕ → List ℕ → ℕ → Op (Attached W) ℕ
  unfolding cached_pipe kr_result
  write_open endpoint buf intf s = elim (cached_pipe (no_pipe endpoint) endpoint s) [
    | ok pipe ↦
        let (kr, w) = iokit.write_pipe intf pipe buf (length buf) s.world in
        (kr_result kr (length buf), record s { world = close_and_release_interface iokit intf w })
    | err e ↦ (err e, record s { world = close_and_release_interface iokit intf s.world })
    | panic ↦ (panic, s)
    | no_fuel ↦ (no_fuel, s)
  ]

  unfoldable pub bulk_write : ℕ → List ℕ → Op (Attached W) ℕ
  unfolding write_open open_interface_for_endpoint
  bulk_write endpoint buf s =
      let opened =
        and_then (open_interface_for_endpoint iokit endpoint s) (write_open endpoint buf) in
      if length buf == 0
      then (ok 0, s)
      else (if ltb u32_max (length buf)
          then (err (other "buffer length exceeds macOS pipe size" []), s)
          else opened)

  -- `SetAlternateInterface` on an open interface, after which the cache is emptied.
  unfoldable pub set_open : ℕ → ℕ → Op (Attached W) (Unit {0})
  unfolding close_and_release_interface iokit_pipe_kr_to_usb_error
  set_open alt intf s =
      let (kr, w) = iokit.set_alternate_interface intf alt s.world in
      let closed = record s { world = close_and_release_interface iokit intf w } in
      if not (kr == 0)
      then (err (iokit_pipe_kr_to_usb_error kr), closed)
      else (if s.device.poisoned
          then (panic, closed)
          else (ok tt, record closed { device = record closed.device { pipe_cache = [] } }))

  unfoldable pub set_alternate_setting : ℕ → ℕ → Op (Attached W) (Unit {0})
  unfolding set_open find_interface
  set_alternate_setting interface alt s = and_then (find_interface iokit interface s) (set_open alt)

  abbrev pub info_from : ℕ → PipeProperties → Result EndpointInfo
  unfolding iokit_pipe_kr_to_usb_error address_of
  info_from kr p =
      if kr == 0
      then ok (Endpoint.new (address_of p) p.transfer_type p.max_packet_size p.interval)
      else err (iokit_pipe_kr_to_usb_error kr)

  -- `GetPipeProperties` on an open interface.
  unfoldable pub info_open : ℕ → ℕ → Op (Attached W) EndpointInfo
  unfolding info_from cached_pipe close_and_release_interface
  info_open endpoint intf s =
      let missing =
        other "endpoint {:#04x} not in pipe cache after interface scan" (endpoint ∷ []) in
      let closed = record s { world = close_and_release_interface iokit intf s.world } in
      (
        cached_pipe missing endpoint s >>= λ pipe.
            let (kr, properties) = iokit.get_pipe_properties intf pipe s.world in
            info_from kr properties,
        closed,
      )

  unfoldable pub get_pipe_info : ℕ → Op (Attached W) EndpointInfo
  unfolding info_open open_interface_for_endpoint
  get_pipe_info endpoint s =
      and_then (open_interface_for_endpoint iokit endpoint s) (info_open endpoint)
