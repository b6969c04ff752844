-- ===== src/Handle/Calls.antt =====
-- Every call that a client can make of a device, as data, with its outcome: by it one statement speaks
-- of all methods.
use rust_usb.Base.{ℕ, List, Option, Bool}
use rust_usb.Error.{Result}
use rust_usb.Text.{Text}
use rust_usb.Transfer.{ControlSetup}
use rust_usb.Endpoint.{EndpointInfo}
use rust_usb.PipePolicy.{PipePolicy, PipePolicyKind}
use rust_usb.Descriptor.Device.{DeviceDescriptor}
use rust_usb.Descriptor.Config.{ConfigDescriptor}
use rust_usb.Descriptor.Bos.{BosDescriptor}
use rust_usb.Descriptor.Hub.{HubDescriptor}
use rust_usb.Backend.{UsbDevice}
use rust_usb.Handle.{is_panic}

pub data Call : Type 0 where
  read_device_descriptor read_bos_descriptor read_hub_descriptor reset_device : Call
  read_config_descriptor claim_interface release_interface reset_pipe abort_pipe : ℕ → Call
  get_alternate_setting get_pipe_info : ℕ → Call
  read_string_descriptor set_alternate_setting : ℕ → ℕ → Call
  control_transfer : ControlSetup → Option (List ℕ) → ℕ → Call
  bulk_read bulk_write interrupt_read interrupt_write : ℕ → List ℕ → ℕ → Call
  async_bulk_read async_bulk_write : ℕ → List ℕ → ℕ → Call
  async_interrupt_read async_interrupt_write : ℕ → List ℕ → ℕ → Call
  isoch_read isoch_write : ℕ → List ℕ → Call
  get_pipe_policy : ℕ → PipePolicyKind → Call
  set_pipe_policy : ℕ → PipePolicy → Call

pub data Reply : Type 0 where
  device : Result DeviceDescriptor → Reply
  config : Result ConfigDescriptor → Reply
  text : Result Text → Reply
  done : Result (Unit {0}) → Reply
  count : Result ℕ → Reply
  filled : Result ℕ → List ℕ → Reply
  controlled : Result ℕ → Option (List ℕ) → Reply
  endpoint : Result EndpointInfo → Reply
  policy : Result PipePolicy → Reply
  bos : Result BosDescriptor → Reply
  hub : Result HubDescriptor → Reply

abbrev pub panicked : Reply → Bool
panicked (device r) = is_panic r
panicked (config r) = is_panic r
panicked (text r) = is_panic r
panicked (done r) = is_panic r
panicked (count r) = is_panic r
panicked (filled r _) = is_panic r
panicked (controlled r _) = is_panic r
panicked (endpoint r) = is_panic r
panicked (policy r) = is_panic r
panicked (bos r) = is_panic r
panicked (hub r) = is_panic r

abbrev pub reply : {S A : Type 0} → (Result A → Reply) → Result A × S → Reply × S
reply f (r, s) = (f r, s)

abbrev pub filled_by : {S : Type 0} → Result ℕ × List ℕ × S → Reply × S
filled_by (r, buf, s) = (filled r buf, s)

abbrev pub controlled_by : {S : Type 0} → Result ℕ × Option (List ℕ) × S → Reply × S
controlled_by (r, buf, s) = (controlled r buf, s)

unfoldable pub run : {S : Type 0} → UsbDevice S → Call → S → Reply × S
run dev read_device_descriptor s = reply device (dev.read_device_descriptor s)
run dev read_bos_descriptor s = reply bos (dev.read_bos_descriptor s)
run dev read_hub_descriptor s = reply hub (dev.read_hub_descriptor s)
run dev reset_device s = reply done (dev.reset_device s)
run dev (read_config_descriptor i) s = reply config (dev.read_config_descriptor i s)
run dev (claim_interface i) s = reply done (dev.claim_interface i s)
run dev (release_interface i) s = reply done (dev.release_interface i s)
run dev (reset_pipe e) s = reply done (dev.reset_pipe e s)
run dev (abort_pipe e) s = reply done (dev.abort_pipe e s)
run dev (get_alternate_setting i) s = reply count (dev.get_alternate_setting i s)
run dev (get_pipe_info e) s = reply endpoint (dev.get_pipe_info e s)
run dev (read_string_descriptor i l) s = reply text (dev.read_string_descriptor i l s)
run dev (set_alternate_setting i a) s = reply done (dev.set_alternate_setting i a s)
run dev (control_transfer p buf t) s = controlled_by (dev.control_transfer p buf t s)
run dev (bulk_read e buf t) s = filled_by (dev.bulk_read e buf t s)
run dev (bulk_write e buf t) s = reply count (dev.bulk_write e buf t s)
run dev (interrupt_read e buf t) s = filled_by (dev.interrupt_read e buf t s)
run dev (interrupt_write e buf t) s = reply count (dev.interrupt_write e buf t s)
run dev (async_bulk_read e buf t) s = filled_by (dev.async_bulk_read e buf t s)
run dev (async_bulk_write e buf t) s = reply count (dev.async_bulk_write e buf t s)
run dev (async_interrupt_read e buf t) s = filled_by (dev.async_interrupt_read e buf t s)
run dev (async_interrupt_write e buf t) s = reply count (dev.async_interrupt_write e buf t s)
run dev (isoch_read e buf) s = filled_by (dev.isoch_read e buf s)
run dev (isoch_write e buf) s = reply count (dev.isoch_write e buf s)
run dev (get_pipe_policy e k) s = reply policy (dev.get_pipe_policy e k s)
run dev (set_pipe_policy e p) s = reply done (dev.set_pipe_policy e p s)
