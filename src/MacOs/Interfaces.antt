-- ===== src/MacOs/Interfaces.antt =====
-- usb-lib/src/backend/macos.rs: the interfaces that an operation opens and closes.
use rust_usb.Base.{
  ℕ, zero, suc, ◌+◌, List, [], ◌∷◌, Option, none, some, ◌==◌, ◌||◌, not, if◌then◌else◌, Bool, true,
  false, bit_and, bit_or, lookup, insert, nat_eq,
}
use rust_usb.Error.{UsbError, Result, ok, err, panic, no_fuel, invalid_handle, other}
use rust_usb.Backend.{and_then, Op}
use rust_usb.MacOs.Iokit.{Iokit, PipeProperties, Attached, iokit_pipe_kr_to_usb_error}

-- `(number & 0x0f) | if direction != 0 { 0x80 } else { 0x00 }`
unfoldable pub address_of : PipeProperties → ℕ
address_of p = bit_or (bit_and p.number 0x0f) (if p.direction == 0 then 0x00 else 0x80)

-- `cache.extend(discovered)`
abbrev pub extend : List (ℕ × ℕ) → List (ℕ × ℕ) → List (ℕ × ℕ)
extend cache [] = cache
extend cache ((endpoint, pipe) ∷ rest) = extend (insert endpoint pipe cache) rest

-- A look at an open interface: it is the wanted one, or is closed again.
abbrev pub Found : Type 0
Found = Option ℕ

abbrev pub stop_or : {S : Type 0} → Found → Op S ℕ → Op S ℕ
stop_or none rest s = rest s
stop_or (some intf) rest s = (ok intf, s)

abbrev pub is_some : Option ℕ → Bool
is_some none = false
is_some (some _) = true

abbrev pub poisoned_error : UsbError
poisoned_error = other "macOS pipe cache lock poisoned" []

module _ {W : Type 0} (iokit : Iokit W) where
  unfoldable pub close_and_release_interface : ℕ → W → W
  close_and_release_interface intf w =
      if intf == 0 then w else iokit.release_interface intf (iokit.usb_interface_close intf w)

  -- The same with the release of the iterator, as on every early return of the loops below.
  abbrev pub give_up : {A : Type 0} → UsbError → ℕ → ℕ → W → Result A × W
  unfolding close_and_release_interface
  give_up e iter intf w = (err e, iokit.release_object iter (close_and_release_interface intf w))

  -- `USBInterfaceOpen`
  unfoldable pub open_queried : ℕ → ℕ → W → Result ℕ × W
  unfolding give_up iokit_pipe_kr_to_usb_error
  open_queried iter intf w =
      let (kr, w') = iokit.usb_interface_open intf w in
      if kr == 0 then (ok intf, w') else give_up (iokit_pipe_kr_to_usb_error kr) iter intf w'

  -- `QueryInterface`, after which the plugin is released.
  unfoldable pub query_plugin : ℕ → ℕ → W → Result ℕ × W
  unfolding open_queried
  query_plugin iter plugin w =
      let (kr, intf, w1) = iokit.query_interface plugin w in
      let w2 = iokit.release_plugin plugin w1 in
      if not (kr == 0) || intf == 0
      then (
        err (other "QueryInterface for IOUSBInterfaceInterface failed: {:#x}" (kr ∷ [])),
        iokit.release_object iter w2,
      )
      else open_queried iter intf w2

  -- The service that the iterator has given, opened. A null plugin is an error that the two searches
  -- report in their own ways.
  unfoldable pub open_service_interface : UsbError → ℕ → ℕ → W → Result ℕ × W
  unfolding query_plugin iokit_pipe_kr_to_usb_error
  open_service_interface null_plugin iter service w =
      let (kr, plugin, w1) = iokit.create_interface_plugin service w in
      let w2 = iokit.release_object service w1 in
      if not (kr == 0)
      then (err (iokit_pipe_kr_to_usb_error kr), iokit.release_object iter w2)
      else (if plugin == 0
          then (err null_plugin, iokit.release_object iter w2)
          else query_plugin iter plugin w2)

  -- `for pipe_ref in 1..=num_endpoints`, from `pipe_ref` on with `left` to go.
  unfoldable pub discover : ℕ → W → ℕ → ℕ → List (ℕ × ℕ) → Result (List (ℕ × ℕ))
  unfolding address_of iokit_pipe_kr_to_usb_error
  discover intf w pipe_ref zero discovered = ok discovered
  discover intf w pipe_ref (suc left) discovered =
      let (kr, properties) = iokit.get_pipe_properties intf pipe_ref w in
      let more =
        discover intf w (pipe_ref + 1) left (insert (address_of properties) pipe_ref discovered) in
      if kr == 0 then more else err (iokit_pipe_kr_to_usb_error kr)

  -- All pipes of an interface.
  unfoldable pub pipes_of : ℕ → W → Result (List (ℕ × ℕ))
  unfolding discover
  pipes_of intf w =
      let (kr, num_endpoints) = iokit.get_num_endpoints intf w in
      if kr == 0 then discover intf w 1 num_endpoints [] else err (iokit_pipe_kr_to_usb_error kr)

  abbrev pub with_pipes : List (ℕ × ℕ) → Attached W → Attached W
  with_pipes discovered s = record s {
    device = record s.device { pipe_cache = extend s.device.pipe_cache discovered };
  }

  unfoldable pub endpoint_on : ℕ → ℕ → ℕ → Op (Attached W) Found
  unfolding pipes_of give_up close_and_release_interface
  endpoint_on endpoint iter intf s = elim (pipes_of intf s.world) [
    | ok discovered ↦
        let s' = with_pipes discovered s in
        if s.device.poisoned
        then (
          err poisoned_error,
          record s { world = iokit.release_object iter (close_and_release_interface intf s.world) },
        )
        else (if is_some (lookup endpoint discovered)
            then (ok (some intf), record s' { world = iokit.release_object iter s.world })
            else (ok none, record s' { world = close_and_release_interface intf s.world }))
    | err e ↦ (
      err e,
      record s { world = iokit.release_object iter (close_and_release_interface intf s.world) },
    )
    | panic ↦ (panic, s)
    | no_fuel ↦ (no_fuel, s)
  ]

  unfoldable pub number_on : ℕ → ℕ → ℕ → Op (Attached W) Found
  unfolding give_up close_and_release_interface iokit_pipe_kr_to_usb_error
  number_on interface iter intf s =
      let (kr, found_number) = iokit.get_interface_number intf s.world in
      let closed = close_and_release_interface intf s.world in
      if not (kr == 0)
      then (
        err (iokit_pipe_kr_to_usb_error kr),
        record s { world = iokit.release_object iter closed },
      )
      else (if found_number == interface
          then (ok (some intf), record s { world = iokit.release_object iter s.world })
          else (ok none, record s { world = closed }))

  -- One service of a `loop`: the interface is opened and looked at.
  unfoldable pub visit : UsbError → (ℕ → ℕ → Op (Attached W) Found) → ℕ → ℕ → Op (Attached W) Found
  unfolding open_service_interface
  visit null_plugin look iter service s =
      let (opened, w) =
        open_service_interface null_plugin iter service (iokit.next_object service s.world) in
      and_then (opened, record s { world = w }) (look iter)

  -- The `loop` over the services of the iterator, and the error behind it.
  unfoldable pub search_services :
      UsbError → UsbError → (ℕ → ℕ → Op (Attached W) Found) → ℕ → List ℕ → Op (Attached W) ℕ
  unfolding visit
  search_services missing null_plugin look iter [] s =
      (err missing, record s { world = iokit.release_object iter s.world })
  search_services missing null_plugin look iter (service ∷ rest) s =
      let after = search_services missing null_plugin look iter rest in
      and_then (visit null_plugin look iter service s) λ found s'. stop_or found after s'

  -- The iterator over the interfaces of the device, and the search through it.
  unfoldable pub search_interfaces :
      UsbError → UsbError → (ℕ → ℕ → Op (Attached W) Found) → Op (Attached W) ℕ
  unfolding search_services
  search_interfaces missing null_plugin look s =
      let (kr, iter, found, w) = iokit.create_interface_iterator s.device.device_intf s.world in
      let s' = record s { world = w } in
      if s.device.device_intf == 0
      then (err invalid_handle, s)
      else (if not (kr == 0)
          then (err (iokit_pipe_kr_to_usb_error kr), s')
          else (if iter == 0
              then (err invalid_handle, s')
              else search_services missing null_plugin look iter found s'))

  unfoldable pub open_interface_for_endpoint : ℕ → Op (Attached W) ℕ
  unfolding search_interfaces endpoint_on
  open_interface_for_endpoint endpoint =
      search_interfaces (other "endpoint {:#04x} not found on any interface" (endpoint ∷ []))
        invalid_handle (endpoint_on endpoint)

  unfoldable pub find_interface : ℕ → Op (Attached W) ℕ
  unfolding search_interfaces number_on iokit_pipe_kr_to_usb_error
  find_interface interface =
      search_interfaces (other "interface {} not found" (interface ∷ []))
        (iokit_pipe_kr_to_usb_error 0) (number_on interface)
