-- ===== src/Transfer/Tests.antt =====
-- Standard requests at concrete arguments.
use rust_usb.Base.{◌≡◌, refl}
use rust_usb.Transfer.{get_descriptor}

get_descriptor_runs : (get_descriptor 0x03 2 0x0409 255).value ≡ 0x0302
unfolding get_descriptor
get_descriptor_runs = refl
