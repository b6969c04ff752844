-- ===== src/Linux/Open.antt =====
-- Opening a device node.
use rust_usb.Base.{ℕ, ◌≡◌, refl, ap, ◌∙◌, []}
use rust_usb.Error.{Result, ok, err, panic, no_fuel}
use rust_usb.Text.{Text}
use rust_usb.Descriptor.Config.{ConfigDescriptor}
use rust_usb.Linux.{Kernel, Attached, file}
use rust_usb.Linux.Device.{cache_from, refresh_endpoint_cache}
use rust_usb.Linux.Backend.{open_node, open_device, attach, warmed, fresh}
use rust_usb.Linux.Cache.{ServesConfig, refresh-ServesConfig}

module _ {W : Type 0} (k : Kernel W) where
  warmed_ok :
      (x : Result (Unit {0}) × Attached W) → x.0 ≡ ok tt → warmed k x ≡ (ok x.1.device, x.1.world)
  warmed_ok (ok b, s) e = refl
  warmed_ok (err b, s) e = cc
  warmed_ok (panic, s) e = cc
  warmed_ok (no_fuel, s) e = cc

  -- Where the node opens, be it only for reading, as the file of a device that is there and serves a
  -- configuration: `open` succeeds, with the endpoints of that configuration in the cache, and the
  -- device is still there.
  pub open_device_lem :
      (P : W → Type 0) (c : ConfigDescriptor) (path : Text) (fd : ℕ) (w : W)
      → (open_node k path w).0 ≡ file fd
      → P (open_node k path w).1
      → ServesConfig k P fd c
      → let (r, w') = open_device k path w in
        (r ≡ ok (record { fd = fd; endpoint_cache = cache_from c.interfaces [] })) × P w'
  unfolding open_device
  open_device_lem P c path fd w opened p h =
      let w' = (open_node k path w).1 in
      let start : Attached W = record { device = fresh k fd; world = w' } in
      let (r, q, d) = refresh-ServesConfig k P c start h p in
      let step = ap (λ o. attach k o w') opened ∙ warmed_ok (refresh_endpoint_cache k start) r in
      rw step (ap ok d, q)
