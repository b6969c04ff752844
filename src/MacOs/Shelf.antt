-- ===== src/MacOs/Shelf.antt =====
-- A world of IOKit calls for the tests: the list of the references that are held.
use rust_usb.Base.{
  count as count_in, remove as remove_in, count-remove, one_if-unlike, ℕ, ◌≡◌, refl, List, [], ◌∷◌,
  ◌++◌, ◌==◌, if◌then◌else◌, arith, length, take, drop, min, none,
}
use rust_usb.Descriptor.Endpoint.{EndpointDescriptor}
use rust_usb.Descriptor.Interface.{InterfaceDescriptor}
use rust_usb.Descriptor.Config.{ConfigDescriptor}
use rust_usb.Descriptor.Config.Encode
use rust_usb.MacOs.Iokit.{Iokit, DevRequest, PipeProperties}
use rust_usb.MacOs.Ledger.{
  Thing, Ledger, Thing-discrete, object, plugin, device, opened_device, interface, opened,
}

abbrev pub World : Type 0
World = List Thing

abbrev pub count : World → Thing → ℕ
count = count_in Thing-discrete

abbrev pub remove : Thing → World → World
remove = remove_in Thing-discrete

abbrev pub bulk_in : EndpointDescriptor
bulk_in = record {
  endpoint_address = 0x81;
  attributes = 2;
  max_packet_size = 64;
  interval = 0;
  ss_companion = none;
}

abbrev pub only_interface : InterfaceDescriptor
only_interface = record {
  interface_number = 0;
  alternate_setting = 0;
  num_endpoints = 1;
  interface_class = 0xFF;
  interface_sub_class = 0;
  interface_protocol = 0;
  interface_index = 0;
  endpoints = bulk_in ∷ [];
  hid_descriptor = none;
}

abbrev pub configuration : ConfigDescriptor
configuration = record {
  total_length = 25;
  num_interfaces = 1;
  configuration_value = 1;
  configuration_index = 0;
  attributes = 0x80;
  max_power = 50;
  interfaces = only_interface ∷ [];
}

abbrev serve : List ℕ → List ℕ → World → ℕ × ℕ × List ℕ × World
serve bytes buf w =
    (0, min (length buf) (length bytes), take (length buf) bytes ++ drop (length bytes) buf, w)

abbrev answer : DevRequest → List ℕ → World → ℕ × ℕ × List ℕ × World
answer request buf w =
    if request.request == 0x06
    then serve (Encode.encode configuration) buf w
    else serve (0 ∷ []) buf w

-- The device 5, which has the interface 7, which has the pipe 1 for the endpoint 0x81. `kr` is what opening
-- the device returns. An interface is queried only while it is not open.
unfoldable pub shelf : ℕ → Iokit World
shelf kr = record {
  next_object = λ s w. object s ∷ w;
  release_object = λ h w. remove (object h) w;
  create_device_plugin = λ s w. (0, 4, plugin 4 ∷ w);
  create_interface_plugin = λ s w. (0, 4, plugin 4 ∷ w);
  query_device = λ p w. (0, 5, device 5 ∷ w);
  query_interface = λ p w. if count w (opened 7) == 0 then (0, 7, interface 7 ∷ w) else (1, 0, w);
  release_plugin = λ p w. remove (plugin p) w;
  usb_device_open = λ d w. (kr, (if kr == 0 then opened_device d ∷ w else w));
  usb_device_close = λ d w. remove (opened_device d) w;
  release_device = λ d w. remove (device d) w;
  device_request_to = λ d request buf w. answer request buf w;
  create_interface_iterator = λ d w. (0, 6, 8 ∷ [], object 6 ∷ w);
  usb_interface_open = λ i w. (0, opened i ∷ w);
  usb_interface_close = λ i w. remove (opened i) w;
  release_interface = λ i w. remove (interface i) w;
  get_num_endpoints = λ i w. (0, 1);
  get_pipe_properties = λ i pipe w. (0, pipe_1);
  get_interface_number = λ i w. (0, 0);
  read_pipe = λ i pipe buf n w. (0, 2, 10 ∷ 20 ∷ drop 2 buf, w);
  write_pipe = λ i pipe buf n w. (0, w);
  set_alternate_interface = λ i alt w. (0, w);
}
  where
    pipe_1 : PipeProperties
    pipe_1 = record {
      direction = 1;
      number = 1;
      transfer_type = 2;
      max_packet_size = 64;
      interval = 0;
    }

unfoldable pub shelf_ledger : (kr : ℕ) → Ledger (shelf kr)
unfolding shelf
shelf_ledger kr = record {
  refs = count;
  next = λ s w o. refl;
  object_released = λ h w o. count-remove Thing-discrete (object h) w o;
  iterator_made = λ d w o. refl;
  plugin_made = λ s w o. refl;
  device_plugin_made = λ s w o. refl;
  interface_queried = λ p w o. ground arith;
  interface_fresh = λ p w. ground (arith, fresh w);
  device_queried = λ p w o. refl;
  plugin_released = λ p w o. count-remove Thing-discrete (plugin p) w o;
  interface_opened = λ i w o. refl;
  interface_closed = λ i w o. count-remove Thing-discrete (opened i) w o;
  interface_released = λ i w o. count-remove Thing-discrete (interface i) w o;
  device_opened = λ d w o. ground arith;
  device_closed = λ d w o. count-remove Thing-discrete (opened_device d) w o;
  device_released = λ d w o. count-remove Thing-discrete (device d) w o;
  pipe_read = λ i p n buf w o. refl;
  pipe_written = λ i p n buf w o. refl;
  alternate_set = λ i a w o. refl;
}
  where
    fresh : (w : World) → count (interface 7 ∷ w) (opened 7) ≡ count w (opened 7)
    fresh w = rw (one_if-unlike Thing-discrete (interface 7) (opened 7) (λ e. cc)) (omega arith)
