-- ===== src/MacOs/Registry.antt =====
-- usb-lib/src/backend/macos.rs: enumeration, and the search for the device that is opened. IOKit is a
-- parameter: what the registry says of a service, and which services a matching finds. `held` are the
-- references that the program has not released.
use rust_usb.Base.{
  ℕ, ◌-◌, ◌%◌, List, [], ◌∷◌, ◌==◌, ◌&&◌, Option, none, some, if◌then◌else◌, ℤ, pos, negsuc,
}
use rust_usb.Error.{Result, ok, err, other}
use rust_usb.Text.{Text}
use rust_usb.Backend.{DeviceInfo}
use rust_usb.MacOs.Path.{device_path}

-- The properties that the code reads, of one service.
pub record Registry : Type 0 where
  pub id_vendor : ℕ → Option ℤ
  pub id_product : ℕ → Option ℤ
  pub usb_bus_number : ℕ → Option ℤ
  pub usb_address : ℕ → Option ℤ
  pub usb_vendor_name : ℕ → Option Text
  pub usb_product_name : ℕ → Option Text
  pub usb_serial_number : ℕ → Option Text

-- `IOServiceMatching` and `IOServiceGetMatchingServices`: an iterator, with the services it will give.
pub data Matching : Type 0 where
  null_dictionary : Matching
  failure : ℕ → Matching
  services : ℕ → List ℕ → Matching

-- `as u16` and `as u8` of an i64, where `modulus` is 2 ^ 16 or 2 ^ 8.
unfoldable pub wrap : ℕ → ℤ → ℕ
wrap modulus (pos n) = n % modulus
wrap modulus (negsuc n) = modulus - 1 - n % modulus

abbrev pub or_zero : Option ℤ → ℤ
or_zero none = pos 0
or_zero (some z) = z

unfoldable pub bus_of : Registry → ℕ → ℕ
unfolding wrap
bus_of registry service = wrap 256 (or_zero (registry.usb_bus_number service))

unfoldable pub address_of : Registry → ℕ → ℕ
unfolding wrap
address_of registry service = wrap 256 (or_zero (registry.usb_address service))

-- The information on a service whose ids are these.
unfoldable pub info_with : Registry → ℕ → ℤ → ℤ → DeviceInfo
unfolding wrap bus_of address_of device_path
info_with registry service vendor product = record {
  vendor_id = wrap 65536 vendor;
  product_id = wrap 65536 product;
  bus_number = bus_of registry service;
  device_address = address_of registry service;
  path =
      device_path (bus_of registry service) (address_of registry service) (wrap 65536 vendor)
        (wrap 65536 product);
  manufacturer = registry.usb_vendor_name service;
  product = registry.usb_product_name service;
  serial_number = registry.usb_serial_number service;
}

abbrev info_from : Registry → ℕ → Option ℤ → Option ℤ → Option DeviceInfo
info_from registry service none product = none
info_from registry service (some vendor) none = none
info_from registry service (some vendor) (some product) =
    some (info_with registry service vendor product)

unfoldable pub device_info_from_service : Registry → ℕ → Option DeviceInfo
device_info_from_service registry service =
    info_from registry service (registry.id_vendor service) (registry.id_product service)

-- `IOObjectRelease`: one reference fewer.
unfoldable pub release : ℕ → List ℕ → List ℕ
release object [] = []
release object (h ∷ held) = let rest = release object held in if h == object then held else h ∷ rest

abbrev pub push_info : Option DeviceInfo → List DeviceInfo → List DeviceInfo
push_info none infos = infos
push_info (some info) infos = info ∷ infos

-- The `loop`, from the services that the iterator still has.
unfoldable pub enumerate_loop : Registry → List ℕ → List ℕ → List DeviceInfo × List ℕ
unfolding device_info_from_service release
enumerate_loop registry [] held = ([], held)
enumerate_loop registry (service ∷ rest) held =
    let (infos, held') = enumerate_loop registry rest (release service (service ∷ held)) in
    (push_info (device_info_from_service registry service) infos, held')

unfoldable pub enumerate_iokit_devices :
    Registry → Matching → List ℕ → Result (List DeviceInfo) × List ℕ
unfolding enumerate_loop
enumerate_iokit_devices registry null_dictionary held =
    (err (other "IOServiceMatching returned NULL" []), held)
enumerate_iokit_devices registry (failure kr) held =
    (err (other "IOServiceGetMatchingServices err {:#x}" (kr ∷ [])), held)
enumerate_iokit_devices registry (services iter found) held =
    let (infos, held') = enumerate_loop registry found (iter ∷ held) in
    (ok infos, release iter held')

-- The `loop` of the search, which leaves the service that it finds to the caller.
unfoldable pub find_loop : Registry → ℕ → ℕ → ℕ → List ℕ → List ℕ → Option ℕ × List ℕ
unfolding bus_of address_of release
find_loop registry bus addr iter [] held = (none, release iter held)
find_loop registry bus addr iter (service ∷ rest) held =
    let next = find_loop registry bus addr iter rest (release service (service ∷ held)) in
    if bus_of registry service == bus && address_of registry service == addr
    then (some service, release iter (service ∷ held))
    else next

unfoldable pub find_service_by_bus_addr : Registry → Matching → ℕ → ℕ → List ℕ → Option ℕ × List ℕ
unfolding find_loop
find_service_by_bus_addr registry null_dictionary bus addr held = (none, held)
find_service_by_bus_addr registry (failure kr) bus addr held = (none, held)
find_service_by_bus_addr registry (services iter found) bus addr held =
    find_loop registry bus addr iter found (iter ∷ held)
