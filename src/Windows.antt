-- ===== src/Windows.antt =====
-- usb-lib/src/backend/windows.rs: the WinUSB backend. This file has the system calls, as parameters:
-- Windows is a record of operations on a world of type `W`. A call that fails gives its error as the
-- HRESULT that `windows::core::Error` carries.
pub mod Device
pub mod Entries
pub mod Ledger
pub mod Lifetime
pub mod Drop
pub mod Transfers
pub mod Policy
pub mod Overlapped
pub mod Events
pub mod Open
pub mod Files
pub mod Session
pub mod Using
pub mod Isoch
pub mod Buffers
pub mod Leaks
pub mod HardwareId
pub mod SetupApi
pub mod Enumerate
pub mod Quiet
pub mod Listing
pub mod HardwareIds
mod Tests
use rust_usb.Base.{ℕ, Option, List, Bool, ◌≡◌, ◌⊎◌, inl, inr, refl}
use rust_usb.Error.{UsbError, Result, ok, err, from_win32}
use rust_usb.Text.{Text}
use rust_usb.Transfer.{ControlSetup}

-- `windows::core::Result`
pub data Win (A : Type 0) : Type 0 where
  done : A → Win A
  failed : ℕ → Win A

-- `.map_err(UsbError::from)`
abbrev pub from_win : {A : Type 0} → Win A → Result A
from_win (done a) = ok a
from_win (failed code) = err (from_win32 code)

pub Win-cases : {A : Type 0} (x : Win A) → ((c : ℕ) × (x ≡ failed c)) ⊎ ((a : A) × (x ≡ done a))
Win-cases (done a) = inr (a, refl)
Win-cases (failed c) = inl (c, refl)

-- `WINUSB_PIPE_INFORMATION`
pub record PipeInformation : Type 0 where
  pub pipe_type : ℕ
  pub pipe_id : ℕ
  pub maximum_packet_size : ℕ
  pub interval : ℕ

-- What `WaitForSingleObject` returns: `WAIT_OBJECT_0`, or another value.
pub data Wait : Type 0 where
  object_0 other_wait : Wait

-- Handles are numbers. Queries read the world, and the other calls change it.
pub record WinUsb (W : Type 0) : Type 0 where
  pub get_associated_interface : ℕ → ℕ → W → Win ℕ × W
  pub query_interface_number : ℕ → W → Win ℕ
  pub query_pipe : ℕ → ℕ → W → Win PipeInformation
  pub free : ℕ → W → W
  pub close_handle : ℕ → W → W
  pub control_transfer : ℕ → ControlSetup → List ℕ → W → Win ℕ × List ℕ × W
  pub read_pipe : ℕ → ℕ → List ℕ → W → Win ℕ × List ℕ × W
  pub write_pipe : ℕ → ℕ → List ℕ → W → Win ℕ × W
  pub reset_pipe : ℕ → ℕ → W → Win (Unit {0}) × W
  pub abort_pipe : ℕ → ℕ → W → Win (Unit {0}) × W
  pub get_alternate_setting : ℕ → W → Win ℕ
  pub set_alternate_setting : ℕ → ℕ → W → Win (Unit {0}) × W
  pub get_pipe_policy : ℕ → ℕ → ℕ → ℕ → W → Win (List ℕ)
  pub set_pipe_policy : ℕ → ℕ → ℕ → List ℕ → W → Win (Unit {0}) × W
  pub create_event : W → Win ℕ × W
  pub read_pipe_overlapped : ℕ → ℕ → List ℕ → ℕ → W → Win ℕ × List ℕ × W
  pub write_pipe_overlapped : ℕ → ℕ → List ℕ → ℕ → W → Win ℕ × W
  pub wait_for_single_object : ℕ → ℕ → W → Wait × W
  -- The result of an overlapped call, with what the buffer holds when it has completed.
  pub get_overlapped_result : ℕ → ℕ → Bool → List ℕ → W → Win ℕ × List ℕ × W
  pub cancel_io : ℕ → ℕ → W → Win (Unit {0}) × W
  -- `CreateFileW`, for reading and writing or only for reading.
  pub create_file : Bool → Text → W → Win ℕ × W
  pub initialize : ℕ → W → Win ℕ × W
  -- `LoadLibraryW` and `GetProcAddress` of `WinUsb_ResetDevice`, and a call of what they give.
  pub find_reset_device : W → Option ℕ × W
  pub reset_device : ℕ → ℕ → W → Win (Unit {0}) × W
  pub register_isoch_buffer : ℕ → ℕ → List ℕ → W → Win ℕ × W
  pub unregister_isoch_buffer : ℕ → W → W
  pub read_isoch_pipe_asap : ℕ → ℕ → ℕ → List ℕ → W → Win (Unit {0}) × List ℕ × W
  pub write_isoch_pipe_asap : ℕ → ℕ → ℕ → List ℕ → W → Win (Unit {0}) × W

pub record WinUsbDevice : Type 0 where
  pub file_handle : ℕ
  pub usb_handle : ℕ
  pub assoc_handles : List (ℕ × ℕ)
  pub endpoint_cache : List (ℕ × ℕ)

pub record Attached (W : Type 0) : Type 0 where
  pub device : WinUsbDevice
  pub world : W
