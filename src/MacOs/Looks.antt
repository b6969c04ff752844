-- ===== src/MacOs/Looks.antt =====
-- The looks at an open interface: which pipes it has, or which number.
use rust_usb.Base.{
  ℕ, zero, suc, ◌+◌, ◌≡◌, ◌≢◌, ◌⊎◌, inl, inr, refl, List, [], Option-cases, ◌==◌, arith, Bool-cases,
  lookup, insert, nat_eq,
}
use rust_usb.Error.{UsbError, Result, ok, err}
use rust_usb.MacOs.Iokit.{Iokit, Attached, iokit_pipe_kr_to_usb_error}
use rust_usb.MacOs.Interfaces.{
  close_and_release_interface, discover, pipes_of, address_of, endpoint_on, number_on,
}
use rust_usb.MacOs.Ledger.{Ledger, same, object, Balanced, closed_and_released}
use rust_usb.MacOs.Searches.{Finds}

-- A result that is neither a panic nor out of fuel.
abbrev pub IsSettled : {A : Type 0} → Result A → Type 0
IsSettled {A} r = ((a : A) × (r ≡ ok a)) ⊎ ((e : UsbError) × (r ≡ err e))

module _ {W : Type 0} (iokit : Iokit W) where
  discover-IsSettled :
      (intf : ℕ) (w : W) (pipe_ref left : ℕ) (found : List (ℕ × ℕ))
      → IsSettled (discover iokit intf w pipe_ref left found)
  unfolding discover
  discover-IsSettled intf w pipe_ref zero found = inl (found, refl)
  discover-IsSettled intf w pipe_ref (suc left) found =
      let call = iokit.get_pipe_properties intf pipe_ref w in
      elim (Bool-cases (call.0 == 0)) [
        | inl there ↦ rw there (
            discover-IsSettled intf w (pipe_ref + 1) left
              (insert (address_of call.1) pipe_ref found))
        | inr failed ↦ inr (iokit_pipe_kr_to_usb_error call.0, rw failed refl)
      ]

  pub pipes_of-IsSettled : (intf : ℕ) (w : W) → IsSettled (pipes_of iokit intf w)
  unfolding pipes_of
  pipes_of-IsSettled intf w =
      let call = iokit.get_num_endpoints intf w in
      elim (Bool-cases (call.0 == 0)) [
        | inl there ↦ rw there (discover-IsSettled intf w 1 call.1 [])
        | inr failed ↦ inr (iokit_pipe_kr_to_usb_error call.0, rw failed refl)
      ]

  pub endpoint_on-nonnull :
      (endpoint iter intf : ℕ) (s : Attached W)
      → intf ≢ 0
      → Finds (λ i _. i ≢ 0) (endpoint_on iokit endpoint iter intf s)
  unfolding endpoint_on
  endpoint_on-nonnull endpoint iter intf s h = elim (pipes_of-IsSettled intf s.world) [
    | inr (f, p) ↦ rw (endpoint_on, p) tt
    | inl (pipes, p) ↦ elim (Bool-cases s.device.poisoned) [
      | inl poisoned ↦ rw (endpoint_on, p, poisoned) tt
      | inr sound ↦ elim (Option-cases (lookup endpoint pipes)) [
        | inl nothing ↦ rw (endpoint_on, p, sound, nothing) tt
        | inr (pipe, there) ↦ rw (endpoint_on, p, sound, there) h
      ]
    ]
  ]

  pub number_on-nonnull :
      (interface iter intf : ℕ) (s : Attached W)
      → intf ≢ 0
      → Finds (λ i _. i ≢ 0) (number_on iokit interface iter intf s)
  unfolding number_on
  number_on-nonnull interface iter intf s h =
      let call = iokit.get_interface_number intf s.world in
      elim (Bool-cases (call.0 == 0)) [
        | inr failed ↦ rw (number_on, failed) tt
        | inl got ↦ elim (Bool-cases (call.1 == interface)) [
          | inl wanted ↦ rw (number_on, got, wanted) h
          | inr unlike ↦ rw (number_on, got, unlike) tt
        ]
      ]

module _ {W : Type 0} (iokit : Iokit W) (ledger : Ledger iokit) where
  open ledger use {refs, object_released, pipe_read, pipe_written, alternate_set}

  pub endpoint_on-Balanced : (endpoint : ℕ) → Balanced iokit ledger (endpoint_on iokit endpoint)
  unfolding endpoint_on
  endpoint_on-Balanced endpoint iter intf base s o h e =
      let closed = close_and_release_interface iokit intf s.world in
      let back = closed_and_released iokit ledger intf (base + same (object iter) o) s.world o h in
      elim (pipes_of-IsSettled iokit intf s.world) [
        | inl (pipes, p) ↦
            rw (endpoint_on, p)
              (ground (arith, back, object_released iter closed o, object_released iter s.world o))
        | inr (f, p) ↦ rw (endpoint_on, p) (ground (arith, back, object_released iter closed o))
      ]

  pub number_on-Balanced : (interface : ℕ) → Balanced iokit ledger (number_on iokit interface)
  unfolding number_on
  number_on-Balanced interface iter intf base s o h e =
      let closed = close_and_release_interface iokit intf s.world in
      ground (
        arith,
        closed_and_released iokit ledger intf (base + same (object iter) o) s.world o h,
        object_released iter closed o,
        object_released iter s.world o,
      )
