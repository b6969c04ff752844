-- ===== src/MacOs/Tests.antt =====
-- A registry with two services and a device on a shelf of references, and the theorems on them.
use rust_usb.Base.{
  one_if, remove, ℕ, zero, ◌+◌, ◌≡◌, ◌≢◌, refl, arith, List, [], ◌∷◌, none, some, All, pos, ◌||◌,
  if◌then◌else◌, true, false, contains,
}
use native.Mathlib.Decide.{ℕ_discrete}
use rust_usb.Error.{UsbError, ok, err, other, io, other_kind}
use rust_usb.Backend.{DeviceInfo}
use rust_usb.MacOs.Iokit.{Attached, MacOsDevice}
use rust_usb.MacOs.Device.{
  has_interface, create_device_interface, open_service, drop, claim_interface, release_interface,
}
use rust_usb.MacOs.Interfaces.{
  open_interface_for_endpoint, search_interfaces, search_services, visit, endpoint_on,
  open_service_interface, query_plugin, open_queried, pipes_of, discover, address_of,
}
use rust_usb.MacOs.Pipes.{bulk_read, bulk_write, get_pipe_info, set_alternate_setting}
use rust_usb.MacOs.Ledger.{object, device, opened, opened_device, same, Thing-discrete}
use rust_usb.MacOs.Balance.{operations_balance}
use rust_usb.MacOs.Mapped.{Mapped}
use rust_usb.MacOs.Routing.{read_on, write_on, bulk_transfers_pipe}
use rust_usb.MacOs.Lifecycle.{open_device, open_service-refs}
use rust_usb.MacOs.Claims.{Claims, claim_and_release_exact}
use rust_usb.MacOs.Serving.{claim_interface-Serves}
use rust_usb.MacOs.Shelf.{World, count, configuration, shelf, shelf_ledger}
use rust_usb.MacOs.Registry.{Registry, Matching, services, enumerate_iokit_devices}
use rust_usb.MacOs.Reopen.{Reopens, enumerate-Reopens}

-- Service n is at address n of bus 20, and the second has no vendor name.
abbrev two_services : Registry
two_services = record {
  id_vendor = λ n. some (pos 0x05ac);
  id_product = λ n. some (pos 0x8600);
  usb_bus_number = λ n. some (pos 20);
  usb_address = λ n. some (pos n);
  usb_vendor_name = λ n. none;
  usb_product_name = λ n. none;
  usb_serial_number = λ n. none;
}

abbrev both : Matching
both = services 900 (1 ∷ 2 ∷ [])

enumerate-Reopens_example :
    (infos : List DeviceInfo) × ((enumerate_iokit_devices two_services both []).0 ≡ ok infos)
    × All (Reopens two_services both []) infos
enumerate-Reopens_example = enumerate-Reopens two_services 900 (1 ∷ 2 ∷ []) []

abbrev on_shelf : MacOsDevice
on_shelf = record {
  path = [];
  device_intf = 5;
  claimed_interfaces = 3 ∷ [];
  pipe_cache = [];
  poisoned = false;
}

abbrev started : Attached World
started = record { device = on_shelf; world = device 5 ∷ opened_device 5 ∷ [] }

operations_balance_example :
    (count (bulk_read (shelf 0) 0x81 (1 ∷ 2 ∷ []) started).2.world (opened 7)
      ≡ count started.world (opened 7))
    × (count (bulk_write (shelf 0) 0x81 (1 ∷ 2 ∷ []) started).1.world (opened 7)
        ≡ count started.world (opened 7))
    × (count (get_pipe_info (shelf 0) 0x81 started).1.world (opened 7)
        ≡ count started.world (opened 7))
    × (count (set_alternate_setting (shelf 0) 0 1 started).1.world (opened 7)
        ≡ count started.world (opened 7))
unfolding shelf_ledger
operations_balance_example =
    operations_balance (shelf 0) (shelf_ledger 0) 0x81 0 1 (1 ∷ 2 ∷ []) started (opened 7)

abbrev interface_7_open : Attached World
interface_7_open = (open_interface_for_endpoint (shelf 0) 0x81 started).1

bulk_transfers_pipe_example :
    (pipe : ℕ) × Mapped (shelf 0) 0x81 7 interface_7_open pipe
    × (bulk_read (shelf 0) 0x81 (1 ∷ 2 ∷ 3 ∷ []) started
        ≡ read_on (shelf 0) 7 pipe (1 ∷ 2 ∷ 3 ∷ []) interface_7_open)
    × (bulk_write (shelf 0) 0x81 (1 ∷ 2 ∷ 3 ∷ []) started
        ≡ write_on (shelf 0) 7 pipe (1 ∷ 2 ∷ 3 ∷ []) interface_7_open)
unfolding open_interface_for_endpoint search_interfaces search_services visit endpoint_on
    open_service_interface query_plugin open_queried pipes_of discover address_of shelf one_if
    Thing-discrete remove ℕ_discrete
bulk_transfers_pipe_example =
    bulk_transfers_pipe (shelf 0) 0x81 7 (1 ∷ 2 ∷ 3 ∷ []) started interface_7_open (omega arith)
      (omega arith) refl

claim_and_release_exact_example :
    Claims true 0 started (claim_interface (shelf 0) 0 started)
    × Claims false 0 started (release_interface (shelf 0) 0 started)
claim_and_release_exact_example = claim_and_release_exact (shelf 0) 0 started

claim_interface-Serves_example : (claim_interface (shelf 0) 0 started).0 ≡ (
    if contains 0 (3 ∷ []) || has_interface 0 configuration.interfaces
    then ok tt
    else err (other "interface {} not found in configuration" (0 ∷ [])))
unfolding shelf
claim_interface-Serves_example =
    claim_interface-Serves (shelf 0) (λ w. Unit {0}) configuration 0 0 started (omega arith)
      (λ buf w p h. (refl, refl, refl, tt)) (λ buf w p h. (refl, refl, refl, tt)) tt refl
      (omega arith)

abbrev found : World
found = object 3 ∷ []

-- The device is open in another program.
open_service-refs_example :
    let (created, w1) = create_device_interface (shelf 0xe000_02c5) 3 found in
    let (r, w') = open_service (shelf 0xe000_02c5) [] (some 3) found in
    ((d : MacOsDevice) (w'' : World)
      → open_service (shelf 0xe000_02c5) [] (some 3) found ≡ (ok d, w'')
      → (count w'' (device 5) ≡ 0 + open_device d.device_intf (device 5))
        × (count (drop (shelf 0xe000_02c5) (record { device = d; world = w'' })) (device 5) ≡ 0))
    × ((e : UsbError) → created ≡ err e → (r ≡ err e) × (count w' (device 5) ≡ 0))
    × ((intf : ℕ)
        → created ≡ ok intf
        → 0xe000_02c5 ≢ zero
        → (r ≡ err (io (other_kind 0xe000_02c5)))
          × (count w' (device 5) ≡ 0 + same (device intf) (device 5)))
unfolding shelf shelf_ledger
open_service-refs_example =
    open_service-refs (shelf 0xe000_02c5) (shelf_ledger 0xe000_02c5) [] 3 0 found (device 5) refl
