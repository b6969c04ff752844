-- ===== src/Backend.antt =====
-- usb-lib/src/backend/mod.rs and usb-lib/src/core/device.rs: the traits `UsbBackend` and `UsbDevice`
-- as records of operations over the state `S` of a backend or a device. `&mut self` and `&self` with
-- inner state are state passing; a `&mut [u8]` argument is returned beside the result. A `Duration`
-- is the number of its nanoseconds.
use rust_usb.Base.{◌≡◌, arith, ℕ, ◌/◌, List, Option, min}
use rust_usb.Error.{ok, panic, no_fuel, Result, err, unsupported}
use rust_usb.Text.{Text}
use rust_usb.Transfer.{ControlSetup}
use rust_usb.Endpoint.{EndpointInfo}
use rust_usb.PipePolicy.{PipePolicy, PipePolicyKind}
use rust_usb.Descriptor.Device.{DeviceDescriptor}
use rust_usb.Descriptor.Config.{ConfigDescriptor}
use rust_usb.Descriptor.Bos.{BosDescriptor}
use rust_usb.Descriptor.Hub.{HubDescriptor}

pub record DeviceInfo : Type 0 where
  pub vendor_id : ℕ
  pub product_id : ℕ
  pub bus_number : ℕ
  pub device_address : ℕ
  pub path : Text
  pub manufacturer : Option Text
  pub product : Option Text
  pub serial_number : Option Text

abbrev pub Op : Type 0 → Type 0 → Type 0
Op S A = S → Result A × S

-- `?` where the state goes on.
abbrev pub and_then : {S A B : Type 0} → Result A × S → (A → Op S B) → Result B × S
and_then (ok a, s) f = f a s
and_then (err e, s) f = (err e, s)
and_then (panic, s) f = (panic, s)
and_then (no_fuel, s) f = (no_fuel, s)

pub and_then_ok :
    {S A B : Type 0} (x : Result A × S) (f : A → Op S B) (a : A)
    → x.0 ≡ ok a
    → and_then x f ≡ f a x.1
and_then_ok (ok b, s) f a e = ground (arith, e)
and_then_ok (err b, s) f a e = cc
and_then_ok (panic, s) f a e = cc
and_then_ok (no_fuel, s) f a e = cc

-- A transfer into the caller's buffer.
abbrev pub ReadOp : Type 0 → Type 0
ReadOp S = S → Result ℕ × List ℕ × S

-- `timeout.as_millis().min(u32::MAX as u128) as u32`
abbrev pub u32_max : ℕ
u32_max = 0xffff_ffff

unfoldable pub timeout_millis : ℕ → ℕ
timeout_millis duration = min (duration / 1_000_000) u32_max

pub record UsbBackend (S D : Type 0) : Type 0 where
  pub enumerate : Op S (List DeviceInfo)
  pub open_device : Text → Op S D

-- The methods of `UsbDevice` that a device must implement.
pub record Required (S : Type 0) : Type 0 where
  pub read_device_descriptor : Op S DeviceDescriptor
  pub read_config_descriptor : ℕ → Op S ConfigDescriptor
  pub read_string_descriptor : ℕ → ℕ → Op S Text
  pub claim_interface : ℕ → Op S (Unit {0})
  pub release_interface : ℕ → Op S (Unit {0})
  pub control_transfer : ControlSetup → Option (List ℕ) → ℕ → S → Result ℕ × Option (List ℕ) × S

pub record UsbDevice (S : Type 0) : Type 0 where
  pub required : Required S
  pub open required use *
  pub bulk_read : ℕ → List ℕ → ℕ → ReadOp S
  pub bulk_write : ℕ → List ℕ → ℕ → Op S ℕ
  pub interrupt_read : ℕ → List ℕ → ℕ → ReadOp S
  pub interrupt_write : ℕ → List ℕ → ℕ → Op S ℕ
  pub reset_pipe : ℕ → Op S (Unit {0})
  pub abort_pipe : ℕ → Op S (Unit {0})
  pub reset_device : Op S (Unit {0})
  pub get_alternate_setting : ℕ → Op S ℕ
  pub set_alternate_setting : ℕ → ℕ → Op S (Unit {0})
  pub get_pipe_info : ℕ → Op S EndpointInfo
  pub get_pipe_policy : ℕ → PipePolicyKind → Op S PipePolicy
  pub set_pipe_policy : ℕ → PipePolicy → Op S (Unit {0})
  pub read_bos_descriptor : Op S BosDescriptor
  pub read_hub_descriptor : Op S HubDescriptor
  pub async_bulk_read : ℕ → List ℕ → ℕ → ReadOp S
  pub async_bulk_write : ℕ → List ℕ → ℕ → Op S ℕ
  pub async_interrupt_read : ℕ → List ℕ → ℕ → ReadOp S
  pub async_interrupt_write : ℕ → List ℕ → ℕ → Op S ℕ
  pub isoch_read : ℕ → List ℕ → ReadOp S
  pub isoch_write : ℕ → List ℕ → Op S ℕ

abbrev no_read : {S : Type 0} → List ℕ → ReadOp S
no_read buf s = (err unsupported, buf, s)

-- The default methods of the trait, over the required ones of a device.
abbrev pub with_defaults : {S : Type 0} → Required S → UsbDevice S
with_defaults required = record {
  required = required;
  bulk_read = λ _ buf _. no_read buf;
  bulk_write = λ _ _ _ s. (err unsupported, s);
  interrupt_read = λ _ buf _. no_read buf;
  interrupt_write = λ _ _ _ s. (err unsupported, s);
  reset_pipe = λ _ s. (err unsupported, s);
  abort_pipe = λ _ s. (err unsupported, s);
  reset_device = λ s. (err unsupported, s);
  get_alternate_setting = λ _ s. (err unsupported, s);
  set_alternate_setting = λ _ _ s. (err unsupported, s);
  get_pipe_info = λ _ s. (err unsupported, s);
  get_pipe_policy = λ _ _ s. (err unsupported, s);
  set_pipe_policy = λ _ _ s. (err unsupported, s);
  read_bos_descriptor = λ s. (err unsupported, s);
  read_hub_descriptor = λ s. (err unsupported, s);
  async_bulk_read = λ _ buf _. no_read buf;
  async_bulk_write = λ _ _ _ s. (err unsupported, s);
  async_interrupt_read = λ _ buf _. no_read buf;
  async_interrupt_write = λ _ _ _ s. (err unsupported, s);
  isoch_read = λ _ buf. no_read buf;
  isoch_write = λ _ _ s. (err unsupported, s);
}
