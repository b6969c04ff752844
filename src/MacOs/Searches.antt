-- ===== src/MacOs/Searches.antt =====
-- What a search through the interfaces of a device leaves of the references.
use rust_usb.Base.{
  ℕ, ◌+◌, ◌≡◌, ◌≢◌, ap, inl, inr, List, [], ◌∷◌, none, some, ◌==◌, arith, Bool-cases,
}
use rust_usb.Error.{UsbError, Result, ok, err, panic, no_fuel}
use rust_usb.Backend.{and_then, Op}
use rust_usb.MacOs.Iokit.{Iokit, Attached}
use rust_usb.MacOs.Interfaces.{
  Found, stop_or, open_service_interface, visit, search_services, search_interfaces,
}
use rust_usb.MacOs.Ledger.{
  Thing, Ledger, same, object, owed, of_opened, with_iter, Balanced, open_service_interface-nonnull,
  open_service_interface-refs,
}

module _ {W : Type 0} (iokit : Iokit W) (ledger : Ledger iokit)
    (look : ℕ → ℕ → Op (Attached W) Found) (balanced : Balanced iokit ledger look) where
  open ledger use {refs, next, object_released, iterator_made}

  and_then-owed :
      (iter base : ℕ) (x : Result ℕ × Attached W) (o : Thing)
      → x.0 ≢ ok 0
      → refs x.1.world o ≡ base + with_iter iter x.0 o
      → let (r, s') = and_then x (look iter) in refs s'.world o ≡ base + owed iter r o
  and_then-owed iter base (ok intf, s) o h e =
      balanced iter intf base s o (ground (arith, h)) (omega (arith, e))
  and_then-owed iter base (err f, s) o h e = e
  and_then-owed iter base (panic, s) o h e = e
  and_then-owed iter base (no_fuel, s) o h e = e

  visit-owed :
      (null_plugin : UsbError) (iter service base : ℕ) (s : Attached W) (o : Thing)
      → refs s.world o ≡ base + same (object iter) o
      → let (r, s') = visit iokit null_plugin look iter service s in
        refs s'.world o ≡ base + owed iter r o
  unfolding visit
  visit-owed null_plugin iter service base s o e =
      let w = iokit.next_object service s.world in
      let call = open_service_interface iokit null_plugin iter service w in
      and_then-owed iter base (call.0, record s { world = call.1 }) o
        (open_service_interface-nonnull iokit null_plugin iter service w)
        (open_service_interface-refs iokit ledger null_plugin iter service base w o
          (omega (arith, next service s.world o)))

  continue :
      (iter base : ℕ) (rest : Op (Attached W) ℕ) (x : Result Found × Attached W) (o : Thing)
      → ((s : Attached W)
          → refs s.world o ≡ base + same (object iter) o
          → refs (rest s).1.world o ≡ base + of_opened (rest s).0 o)
      → refs x.1.world o ≡ base + owed iter x.0 o
      → let (r, s') = and_then x (λ found s'. stop_or found rest s') in
        refs s'.world o ≡ base + of_opened r o
  continue iter base rest (ok (some intf), s) o go e = e
  continue iter base rest (ok none, s) o go e = go s e
  continue iter base rest (err f, s) o go e = e
  continue iter base rest (panic, s) o go e = e
  continue iter base rest (no_fuel, s) o go e = e

  search_services-held :
      (missing null_plugin : UsbError) (iter : ℕ) (found : List ℕ) (base : ℕ) (s : Attached W)
      (o : Thing)
      → refs s.world o ≡ base + same (object iter) o
      → let (r, s') = search_services iokit missing null_plugin look iter found s in
        refs s'.world o ≡ base + of_opened r o
  unfolding search_services
  search_services-held missing null_plugin iter [] base s o e =
      omega (arith, object_released iter s.world o)
  search_services-held missing null_plugin iter (service ∷ rest) base s o e =
      continue iter base (search_services iokit missing null_plugin look iter rest)
        (visit iokit null_plugin look iter service s) o
        (λ s' e'. search_services-held missing null_plugin iter rest base s' o e')
        (visit-owed null_plugin iter service base s o e)

  -- A search leaves the references as they were, with those to the interface that it found and opened.
  pub search_interfaces-held :
      (missing null_plugin : UsbError) (s : Attached W) (o : Thing)
      → let (r, s') = search_interfaces iokit missing null_plugin look s in
        refs s'.world o ≡ refs s.world o + of_opened r o
  unfolding search_interfaces
  search_interfaces-held missing null_plugin s o =
      let call = iokit.create_interface_iterator s.device.device_intf s.world in
      let s' : Attached W = record s { world = call.3 } in
      ground (
        arith,
        iterator_made s.device.device_intf s.world o,
        search_services-held missing null_plugin call.1 call.2 (refs s.world o) s' o,
      )

-- What a look, and a search, say of the interface that they find.
abbrev pub Finds : {S : Type 0} → (ℕ → S → Type 0) → Result Found × S → Type 0
Finds P (ok (some intf), s) = P intf s
Finds P (ok none, s) = Unit {0}
Finds P (err e, s) = Unit {0}
Finds P (panic, s) = Unit {0}
Finds P (no_fuel, s) = Unit {0}

abbrev pub Opens : {S : Type 0} → (ℕ → S → Type 0) → Result ℕ × S → Type 0
Opens P (ok intf, s) = P intf s
Opens P (err e, s) = Unit {0}
Opens P (panic, s) = Unit {0}
Opens P (no_fuel, s) = Unit {0}

module _ {W : Type 0} (iokit : Iokit W) (look : ℕ → ℕ → Op (Attached W) Found)
    (P : ℕ → Attached W → Type 0)
    (finds : (iter intf : ℕ) (s : Attached W) → intf ≢ 0 → Finds P (look iter intf s)) where
  and_then-Finds :
      (iter : ℕ) (x : Result ℕ × Attached W) → x.0 ≢ ok 0 → Finds P (and_then x (look iter))
  and_then-Finds iter (ok intf, s) h = finds iter intf s (λ z. h (ap ok z))
  and_then-Finds iter (err e, s) h = tt
  and_then-Finds iter (panic, s) h = tt
  and_then-Finds iter (no_fuel, s) h = tt

  stop_or-Opens :
      (rest : Op (Attached W) ℕ) (x : Result Found × Attached W)
      → ((s : Attached W) → Opens P (rest s))
      → Finds P x
      → Opens P (and_then x (λ found s'. stop_or found rest s'))
  stop_or-Opens rest (ok (some intf), s) go p = p
  stop_or-Opens rest (ok none, s) go p = go s
  stop_or-Opens rest (err e, s) go p = tt
  stop_or-Opens rest (panic, s) go p = tt
  stop_or-Opens rest (no_fuel, s) go p = tt

  search_services-Opens :
      (missing null_plugin : UsbError) (iter : ℕ) (found : List ℕ) (s : Attached W)
      → Opens P (search_services iokit missing null_plugin look iter found s)
  unfolding search_services visit
  search_services-Opens missing null_plugin iter [] s = tt
  search_services-Opens missing null_plugin iter (service ∷ rest) s =
      let w = iokit.next_object service s.world in
      let call = open_service_interface iokit null_plugin iter service w in
      stop_or-Opens (search_services iokit missing null_plugin look iter rest)
        (visit iokit null_plugin look iter service s)
        (λ s'. search_services-Opens missing null_plugin iter rest s')
        (and_then-Finds iter (call.0, record s { world = call.1 })
          (open_service_interface-nonnull iokit null_plugin iter service w))

  pub search_interfaces-Opens :
      (missing null_plugin : UsbError) (s : Attached W)
      → Opens P (search_interfaces iokit missing null_plugin look s)
  unfolding search_interfaces
  search_interfaces-Opens missing null_plugin s =
      let call = iokit.create_interface_iterator s.device.device_intf s.world in
      let s' : Attached W = record s { world = call.3 } in
      elim (Bool-cases (s.device.device_intf == 0)) [
        | inl null ↦ rw null tt
        | inr device ↦ elim (Bool-cases (call.0 == 0)) [
          | inr failed ↦ rw (device, failed) tt
          | inl made ↦ elim (Bool-cases (call.1 == 0)) [
            | inl nothing ↦ rw (device, made, nothing) tt
            | inr there ↦
                rw (device, made, there)
                  (search_services-Opens missing null_plugin call.1 call.2 s')
          ]
        ]
      ]
