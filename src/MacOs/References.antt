-- ===== src/MacOs/References.antt =====
-- Every reference to an IOKit object is released, but for that to the service that a search finds.
use rust_usb.Base.{
  ℕ, ◌≡◌, refl, ap, ◌∙◌, List, [], ◌∷◌, ◌==◌, ◌&&◌, Option, none, some, arith, inl, inr, Bool-cases,
  ==_refl,
}
use rust_usb.MacOs.Registry.{
  Registry, Matching, null_dictionary, failure, services, bus_of, address_of, enumerate_loop,
  enumerate_iokit_devices, find_loop, find_service_by_bus_addr, release,
}

release-first : (object : ℕ) (held : List ℕ) → release object (object ∷ held) ≡ held
unfolding release
release-first object held = rw (==_refl object) refl

release-second :
    (object other : ℕ) (held : List ℕ) → release object (other ∷ object ∷ held) ≡ other ∷ held
unfolding release
release-second object other held = ground (arith, release-first object held, ==_refl object)

-- The references after a search.
abbrev pub with_found : Option ℕ → List ℕ → List ℕ
with_found none held = held
with_found (some service) held = service ∷ held

module _ (registry : Registry) where
  enumerate_loop-held : (found held : List ℕ) → (enumerate_loop registry found held).1 ≡ held
  unfolding enumerate_loop
  enumerate_loop-held [] held = refl
  enumerate_loop-held (service ∷ rest) held =
      enumerate_loop-held rest (release service (service ∷ held)) ∙ release-first service held

  find_loop-held :
      (bus addr iter : ℕ) (found held : List ℕ)
      → let (result, held') = find_loop registry bus addr iter found (iter ∷ held) in
        held' ≡ with_found result held
  unfolding find_loop
  find_loop-held bus addr iter [] held = release-first iter held
  find_loop-held bus addr iter (service ∷ rest) held =
      elim (Bool-cases (bus_of registry service == bus && address_of registry service == addr)) [
        | inl here ↦ rw here (release-second iter service held)
        | inr elsewhere ↦
            rw (elsewhere, release-first service (iter ∷ held))
              (find_loop-held bus addr iter rest held)
      ]

  -- Whatever the matching gives, an error included: enumeration leaves the program with the references
  -- it had before, and a search leaves it with those and one to the service that it found, if it
  -- found one.
  pub references_balance :
      (matching : Matching) (bus addr : ℕ) (held : List ℕ)
      → ((enumerate_iokit_devices registry matching held).1 ≡ held)
        × (let (result, held') = find_service_by_bus_addr registry matching bus addr held in
            held' ≡ with_found result held)
  unfolding enumerate_iokit_devices find_service_by_bus_addr
  references_balance null_dictionary bus addr held = (refl, refl)
  references_balance (failure kr) bus addr held = (refl, refl)
  references_balance (services iter found) bus addr held = (
    ap (release iter) (enumerate_loop-held found (iter ∷ held)) ∙ release-first iter held,
    find_loop-held bus addr iter found held,
  )
