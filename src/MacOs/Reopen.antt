-- ===== src/MacOs/Reopen.antt =====
-- A path that enumeration makes leads back to the device.
use rust_usb.Base.{
  ℕ, ◌<◌, ◌≡◌, refl, ap, List, [], ◌∷◌, ◌==◌, ◌&&◌, none, some, Bool, true, false, ℤ, pos, negsuc,
  arith, All, ◌⊎◌, inl, inr, Option-cases, Bool-cases, contains, contains-head, contains-tail,
  contains-cases,
}
use rust_usb.Error.{ok}
use rust_usb.Backend.{DeviceInfo}
use rust_usb.MacOs.Path.{parse_iokit_path, parse_iokit_path-device_path}
use rust_usb.MacOs.Registry.{
  Registry, Matching, services, wrap, or_zero, bus_of, address_of, info_with,
  device_info_from_service, enumerate_loop, enumerate_iokit_devices, find_loop,
  find_service_by_bus_addr, release,
}

pub wrap-byte : (z : ℤ) → wrap 256 z < 256
unfolding wrap
wrap-byte (pos n) = omega arith
wrap-byte (negsuc n) = omega arith

pub wrap-word : (z : ℤ) → wrap 65536 z < 65536
unfolding wrap
wrap-word (pos n) = omega arith
wrap-word (negsuc n) = omega arith

-- Opening the path finds some service of the same bus and address.
abbrev pub Reopens : Registry → Matching → List ℕ → DeviceInfo → Type 0
Reopens registry matching held info =
    (parse_iokit_path info.path ≡ ok (info.bus_number, info.device_address))
    × (service : ℕ) × ((find_service_by_bus_addr registry matching info.bus_number
          info.device_address held).0
        ≡ some service)
    × (bus_of registry service ≡ info.bus_number)
    × (address_of registry service ≡ info.device_address)

module _ (registry : Registry) where
  parse-info_with :
      (service : ℕ) (vendor product : ℤ)
      → let info = info_with registry service vendor product in
        parse_iokit_path info.path ≡ ok (info.bus_number, info.device_address)
  unfolding info_with bus_of address_of
  parse-info_with service vendor product =
      parse_iokit_path-device_path _ _ _ _ (wrap-byte (or_zero (registry.usb_bus_number service)))
        (wrap-byte (or_zero (registry.usb_address service))) (wrap-word vendor) (wrap-word product)

  info_from_service-cases :
      (service : ℕ)
      → (device_info_from_service registry service ≡ none)
        ⊎ ((vendor product : ℤ) × (device_info_from_service registry service
              ≡ some (info_with registry service vendor product)))
  unfolding device_info_from_service
  info_from_service-cases service = elim (Option-cases (registry.id_vendor service)) [
    | inl no_vendor ↦ inl (rw no_vendor refl)
    | inr (vendor, v) ↦ elim (Option-cases (registry.id_product service)) [
      | inl no_product ↦ inl (rw (v, no_product) refl)
      | inr (product, p) ↦ inr (vendor, product, rw (v, p) refl)
    ]
  ]

  at_place : ℕ → ℕ → Bool
  at_place other service =
      bus_of registry other == bus_of registry service
      && address_of registry other == address_of registry service

  at_place-true :
      (other service : ℕ)
      → at_place other service ≡ true
      → (bus_of registry other ≡ bus_of registry service)
        × (address_of registry other ≡ address_of registry service)
  unfolding at_place
  at_place-true other service e = ground arith

  at_place-same : (other service : ℕ) → at_place other service ≡ false → other ≡ service → ⊥
  unfolding at_place
  at_place-same other service e same =
      ground (arith, ap (bus_of registry) same, ap (address_of registry) same)

  -- A service among those that are searched is found, or one before it at the same place.
  find_loop-contains :
      (service iter : ℕ) (found held : List ℕ)
      → contains service found ≡ true
      → (other : ℕ) × ((find_loop registry
            (bus_of registry service)
            (address_of registry service)
            iter
            found
            held).0
          ≡ some other)
        × (bus_of registry other ≡ bus_of registry service)
        × (address_of registry other ≡ address_of registry service)
  unfolding find_loop at_place
  find_loop-contains service iter [] held c = cc
  find_loop-contains service iter (first ∷ rest) held c =
      let later = find_loop-contains service iter rest (release first (first ∷ held)) in
      elim (Bool-cases (at_place first service)) [
        | inl here ↦ let (b, a) = at_place-true first service here in (first, rw here refl, b, a)
        | inr elsewhere ↦ elim (contains-cases service first rest c) [
          | inl same ↦ absurd (at_place-same first service elsewhere same)
          | inr behind ↦ let (other, e, b, a) = later behind in (other, rw elsewhere e, b, a)
        ]
      ]

  enumerate_loop-All :
      (P : DeviceInfo → Type 0) (found held : List ℕ)
      → ((service : ℕ)
          → contains service found ≡ true
          → (vendor product : ℤ) → P (info_with registry service vendor product))
      → All P (enumerate_loop registry found held).0
  unfolding enumerate_loop
  enumerate_loop-All P [] held h = tt
  enumerate_loop-All P (service ∷ rest) held h =
      let later =
        enumerate_loop-All P rest (release service (service ∷ held))
          (λ s c v p. h s (contains-tail s service rest c) v p) in
      elim (info_from_service-cases service) [
        | inl skipped ↦ rw skipped later
        | inr (vendor, product, e) ↦
            rw e (h service (contains-head service rest) vendor product, later)
      ]

  -- For every device that enumeration lists, whatever the registry says of the services: opening its
  -- path parses its bus and its address, and a search of the same services for them finds a service
  -- that is at this bus and address.
  pub enumerate-Reopens :
      (iter : ℕ) (found held : List ℕ)
      → let matching = services iter found in
        (infos : List DeviceInfo) × ((enumerate_iokit_devices registry matching held).0 ≡ ok infos)
        × All (Reopens registry matching held) infos
  unfolding enumerate_iokit_devices find_service_by_bus_addr
  enumerate-Reopens iter found held = (
    (enumerate_loop registry found (iter ∷ held)).0,
    refl,
    enumerate_loop-All (Reopens registry (services iter found) held) found (iter ∷ held)
        (λ service c vendor product.
          let (other, e, b, a) = find_loop-contains service iter found (iter ∷ held) c in
          (
            parse-info_with service vendor product,
            other,
            unfold info_with in e,
            unfold info_with in b,
            unfold info_with in a,
          )),
  )
