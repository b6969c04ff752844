-- ===== src/MacOs/Iokit.antt =====
-- usb-lib/src/backend/macos.rs: the calls of IOKit, as parameters. IOKit is a record of operations on a
-- world of type `W`. Pointers and object handles are numbers, and 0 is null. An IOReturn is its value as
-- a u32, where 0 is success. A vtable entry that is missing is a call that returns
-- `K_IORETURN_UNSUPPORTED`.
use rust_usb.Base.{ℕ, List, [], ◌∷◌, ◌==◌, ◌||◌, if◌then◌else◌, Bool}
use rust_usb.Error.{
  UsbError, io, other_kind, stall, timeout, device_not_found, permission_denied, invalid_handle,
  unsupported, other,
}
use rust_usb.Text.{Text}

-- `IOUSBDevRequestTO`, but for the buffer and the count of bytes that comes back.
pub record DevRequest : Type 0 where
  pub request_type : ℕ
  pub request : ℕ
  pub value : ℕ
  pub index : ℕ
  pub length : ℕ
  pub no_data_timeout : ℕ
  pub completion_timeout : ℕ

-- The out-parameters of `GetPipeProperties`.
pub record PipeProperties : Type 0 where
  pub direction : ℕ
  pub number : ℕ
  pub transfer_type : ℕ
  pub max_packet_size : ℕ
  pub interval : ℕ

-- A call with an out-pointer returns its IOReturn and what it wrote.
pub record Iokit (W : Type 0) : Type 0 where
  -- `IOIteratorNext`, when it gives this object.
  pub next_object : ℕ → W → W
  pub release_object : ℕ → W → W
  pub create_device_plugin : ℕ → W → ℕ × ℕ × W
  pub create_interface_plugin : ℕ → W → ℕ × ℕ × W
  pub query_device : ℕ → W → ℕ × ℕ × W
  pub query_interface : ℕ → W → ℕ × ℕ × W
  pub release_plugin : ℕ → W → W
  pub usb_device_open : ℕ → W → ℕ × W
  pub usb_device_close : ℕ → W → W
  pub release_device : ℕ → W → W
  pub device_request_to : ℕ → DevRequest → List ℕ → W → ℕ × ℕ × List ℕ × W
  -- The iterator, with the services that it will give.
  pub create_interface_iterator : ℕ → W → ℕ × ℕ × List ℕ × W
  pub usb_interface_open : ℕ → W → ℕ × W
  pub usb_interface_close : ℕ → W → W
  pub release_interface : ℕ → W → W
  pub get_num_endpoints : ℕ → W → ℕ × ℕ
  pub get_pipe_properties : ℕ → ℕ → W → ℕ × PipeProperties
  pub get_interface_number : ℕ → W → ℕ × ℕ
  pub read_pipe : ℕ → ℕ → List ℕ → ℕ → W → ℕ × ℕ × List ℕ × W
  pub write_pipe : ℕ → ℕ → List ℕ → ℕ → W → ℕ × W
  pub set_alternate_interface : ℕ → ℕ → W → ℕ × W

abbrev pub k_ioreturn_exclusive_access : ℕ
k_ioreturn_exclusive_access = 0xe000_02d5

abbrev pub k_ioreturn_not_open : ℕ
k_ioreturn_not_open = 0xe000_02d6

abbrev pub k_ioreturn_unsupported : ℕ
k_ioreturn_unsupported = 0xe000_02c5

abbrev pub k_ioreturn_no_device : ℕ
k_ioreturn_no_device = 0xe000_02ed

unfoldable pub iokit_pipe_kr_to_usb_error : ℕ → UsbError
iokit_pipe_kr_to_usb_error kr =
    if kr == 0
    then other "unexpected success code in error mapper" []
    else (if kr == k_ioreturn_no_device || kr == k_ioreturn_not_open
        then invalid_handle
        else (if kr == k_ioreturn_unsupported then unsupported else io (other_kind kr)))

unfoldable pub iokit_kr_to_usb_error : ℕ → UsbError
iokit_kr_to_usb_error kr =
    if kr == 0xe000_404f
    then stall
    else (if kr == 0xe000_4051
        then timeout
        else (if kr == 0xe000_02ed
            then device_not_found
            else (if kr == 0xe000_02c1
                then permission_denied
                else other "IOReturn {:#x}" (kr ∷ []))))

pub record MacOsDevice : Type 0 where
  pub path : Text
  pub device_intf : ℕ
  pub claimed_interfaces : List ℕ
  pub pipe_cache : List (ℕ × ℕ)
  -- Whether the mutex around `pipe_cache` is poisoned.
  pub poisoned : Bool

pub record Attached (W : Type 0) : Type 0 where
  pub device : MacOsDevice
  pub world : W
