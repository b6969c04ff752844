-- ===== src/Windows/Enumerate/Tests.antt =====
-- An enumeration on a Windows with one device.
use rust_usb.Base.{
  ℕ, suc, ◌-◌, ◌≡◌, ◌⊎◌, inr, refl, List, [], ◌∷◌, none, arith, ◌==◌, if◌then◌else◌, Bool, true,
  false, ◌&&◌, contains, leb, ◌++◌,
}
use rust_usb.Error.{ok, err, from_win32}
use rust_usb.Windows.{done, failed}
use rust_usb.Windows.Session.{Idle}
use rust_usb.Text.{Text}
use rust_usb.Text.Search.{Without}
use rust_usb.Text.Numbers.{display_capital_hex, hex_capital}
use rust_usb.Bytes.{index}
use rust_usb.Descriptor.Device.{from_bytes}
use rust_usb.Backend.{DeviceInfo}
use rust_usb.Linux.Strings.{le_bytes}
use rust_usb.Windows.SetupApi.{SetupApi, ids_of, read_vid_pid}
use rust_usb.Windows.Enumerate.{enumerate_winusb_devices}
use rust_usb.Windows.Quiet.{Sets}
use rust_usb.Windows.HardwareIds.{multi_sz, read_vid_pid-hardware_id}
use rust_usb.Windows.Listing.{enumerate_winusb_devices-Released}
use rust_usb.Windows.HardwareId.{hardware_id}
use rust_usb.Windows.Tests.{World, api, ledger, files, quiet}

-- The string "X", and a hardware id.
abbrev id_list : List ℕ
id_list = le_bytes (multi_sz ((88 ∷ []) ∷ []) (hardware_id 0x045E 0x07A5 [] ++ (0 ∷ 0 ∷ [])))

-- One interface, with a detail of 10 bytes that has the path "AB" and a hardware id, but no location.
setup : SetupApi World
setup = record {
  get_class_devs = λ w. (done 21, record w { sets = suc w.sets });
  destroy_device_info_list = λ set w. record w { sets = w.sets - 1 };
  enum_device_interfaces = λ set i w. if i == 0 then done 31 else failed 259;
  detail_size = λ set iface w. (10, 41);
  interface_detail =
      λ set iface buf device w. (done tt, 8 ∷ 0 ∷ 0 ∷ 0 ∷ 65 ∷ 0 ∷ 66 ∷ 0 ∷ 0 ∷ 0 ∷ [], device);
  registry_property =
      λ set device property buf w. if property == 1 then (done tt, id_list) else (failed 13, buf);
}

sets : Sets api ledger files setup
unfolding ledger files setup
sets = record {
  sets = λ w. w.sets;
  count = λ set. 1;
  few = λ set. omega arith;
  ended = λ set i w h. (259, ground (arith, h));
  sized = λ set iface w. inr (omega arith);
  made = λ set w e. refl;
  unmade = λ code w e. cc;
  destroyed = λ set w. refl;
  making = λ w. (λ j. refl, λ s. s, refl);
  destroying = λ set w. (λ j. refl, λ s. s, refl);
  control = λ h p buf w. ((λ j. refl, λ s. s, refl), refl);
  transferred = λ h n p buf w e. (ground (arith, e), refl);
  policy = λ h e id bytes w. ((λ j. refl, λ s. s, refl), refl);
  file_sets = λ writable path w. same_sets writable w;
  initialize_sets = λ file w. refl;
  free_sets = λ h w. refl;
  close_sets = λ h w. refl;
}
  where
    same_sets : (writable : Bool) (w : World) → (api.create_file writable [] w).1.sets ≡ w.sets
    same_sets true w = refl
    same_sets false w = refl

-- ASCII letters only.
abbrev to_uppercase : Text → Text
to_uppercase [] = []
to_uppercase (c ∷ cs) = (if leb 97 c && leb c 122 then c - 32 else c) ∷ to_uppercase cs

enumerated :
    (enumerate_winusb_devices api setup to_uppercase 2 quiet).0
    ≡ ok (
        record {
          vendor_id = 0x045E;
          product_id = 0x07A5;
          bus_number = 0;
          device_address = 0;
          path = 65 ∷ 66 ∷ [];
          manufacturer = none;
          product = none;
          serial_number = none;
        }
        ∷ [])
unfolding enumerate_winusb_devices setup from_bytes index display_capital_hex hex_capital
enumerated = refl

enumerate_winusb_devices-Released_example :
    let (r, w) = enumerate_winusb_devices api setup to_uppercase 2 quiet in
    (((devices : List DeviceInfo) × (r ≡ ok devices))
      ⊎ ((code : ℕ) × ((setup.get_class_devs quiet).0 ≡ failed code) × (r ≡ err (from_win32 code))))
    × Idle api ledger files w
    × (w.open_handles ≡ 0)
    × (w.sets ≡ 0)
unfolding ledger files sets
enumerate_winusb_devices-Released_example =
    enumerate_winusb_devices-Released api setup ledger files sets to_uppercase 2 quiet
      (λ j. refl, refl) (λ set. omega arith)

no_zeros : (t : List ℕ) → contains 0 t ≡ false → Without 0 t
no_zeros [] e = tt
no_zeros (c ∷ cs) e = (ground (arith, e), no_zeros cs (ground (arith, e)))

read_vid_pid-hardware_id_example : read_vid_pid setup to_uppercase 21 41 quiet ≡ (0x045E, 0x07A5)
unfolding setup display_capital_hex hex_capital ids_of
read_vid_pid-hardware_id_example =
    read_vid_pid-hardware_id setup to_uppercase 21 41 0x045E 0x07A5 ((88 ∷ []) ∷ [])
      (hardware_id 0x045E 0x07A5 []) (0 ∷ []) id_list [] quiet refl refl
      ((λ e. cc, (refl, tt), refl), tt) (λ e. cc) (no_zeros (hardware_id 0x045E 0x07A5 []) refl)
      refl (omega arith) (omega arith)
