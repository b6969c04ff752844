-- ===== src/Hotplug/Paths.antt =====
-- The paths that the notifications of macOS report.
use rust_usb.Base.{
  arith, ℕ, ◌≡◌, refl, sym, ap, ◌∙◌, inl, inr, Option, [], none, some, Option-cases,
}
use rust_usb.Error.{ok}
use rust_usb.Text.{Text}
use rust_usb.Backend.{DeviceInfo}
use rust_usb.MacOs.Path.{parse_iokit_path, parse_iokit_path-device_path}
use rust_usb.MacOs.Registry.{
  Registry, or_zero, bus_of, address_of, info_with, device_info_from_service,
}
use rust_usb.MacOs.Reopen.{wrap-byte, wrap-word}
use rust_usb.Hotplug.RunLoop.{build_device_path}

path_of : Option DeviceInfo → Text
path_of none = []
path_of (some info) = info.path

-- The path in the notification of a service is one that opening a device accepts, and it names the bus and
-- the address of the service. Where enumeration shows the service, it shows it with that very path.
pub parse_iokit_path-build_device_path :
    (registry : Registry) (service : ℕ)
    → (parse_iokit_path (build_device_path registry service)
        ≡ ok (bus_of registry service, address_of registry service))
      × ((info : DeviceInfo)
          → device_info_from_service registry service ≡ some info
          → build_device_path registry service ≡ info.path)
unfolding path_of build_device_path bus_of address_of device_info_from_service info_with
parse_iokit_path-build_device_path registry service = (
  parse_iokit_path-device_path _ _ _ _ (wrap-byte (or_zero (registry.usb_bus_number service)))
      (wrap-byte (or_zero (registry.usb_address service)))
      (wrap-word (or_zero (registry.id_vendor service)))
      (wrap-word (or_zero (registry.id_product service))),
  λ info e. elim (Option-cases (registry.id_vendor service)) [
    | inl no_vendor ↦ absurd (ground arith)
    | inr (vendor, v) ↦ elim (Option-cases (registry.id_product service)) [
      | inl no_product ↦ absurd (ground arith)
      | inr (product, p) ↦
          let shown : device_info_from_service registry service
              ≡ some (info_with registry service vendor product) =
            rw (v, p) refl in
          rw (v, p) (ap path_of (sym shown ∙ e))
    ]
  ],
)
