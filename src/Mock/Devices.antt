-- ===== src/Mock/Devices.antt =====
-- The table of simulated devices: what `enumerate` sees of what was added.
use rust_usb.Base.{
  ◌≡◌, refl, List, [], ◌∷◌, ◌++◌, none, arith, map, lookup, insert, values, list_eq, append-nil,
}
use rust_usb.Error.{ok}
use rust_usb.Text.{Text}
use rust_usb.Descriptor.Device.{DeviceDescriptor}
use rust_usb.Descriptor.Config.{ConfigDescriptor}
use rust_usb.Backend.{DeviceInfo}
use rust_usb.Mock.{MockDeviceInfo, MockBackend, Strings, add_device, enumerate}
use mathlib.Core.List.{Perm, perm_middle}
use mathlib.Core.List.Perm

values-insert :
    (path : Text) (d : MockDeviceInfo) (m : List (Text × MockDeviceInfo))
    → lookup path m ≡ none
    → values (insert path d m) ≡ values m ++ (d ∷ [])
values-insert path d [] h = refl
values-insert path d ((j, w) ∷ m) h = ground (arith, values-insert path d m)

-- `enumerate` lists a device added under a new path and all that it listed before, each as often, in
-- some order, whatever the orders in which the table is iterated.
pub enumerate-add_device :
    (before after : List MockDeviceInfo → List MockDeviceInfo)
    → ((l : List MockDeviceInfo) → Perm (before l) l)
    → ((l : List MockDeviceInfo) → Perm (after l) l)
    → (info : DeviceInfo) (descriptor : DeviceDescriptor) (configs : List ConfigDescriptor)
      (strings : Strings) (backend : MockBackend)
    → lookup info.path backend.devices ≡ none
    → (old new : List DeviceInfo) × ((enumerate before backend).0 ≡ ok old)
      × ((enumerate after (add_device info descriptor configs strings backend)).0 ≡ ok new)
      × Perm new (info ∷ old)
unfolding enumerate add_device
enumerate-add_device before after p q info descriptor configs strings backend h =
    let entry : MockDeviceInfo = record {
      info = info;
      descriptor = descriptor;
      configs = configs;
      strings = strings;
    } in
    let old = values backend.devices in
    let added : Perm (old ++ (entry ∷ [])) (entry ∷ old) =
      rw (append-nil old) at (perm_middle {a = entry} old []) in
    let iterated : Perm (after (values (insert info.path entry backend.devices)))
        (entry ∷ before old) =
      Perm.trans (q _) (
        rw (values-insert info.path entry backend.devices h)
          (Perm.trans added (Perm.cons entry (Perm.symm (p old))))) in
    (
      map (λ d. d.info) (before old),
      map (λ d. d.info) (after (values (insert info.path entry backend.devices))),
      refl,
      refl,
      Perm.map (λ d. d.info) iterated,
    )
