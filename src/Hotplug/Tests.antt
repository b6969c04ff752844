-- ===== src/Hotplug/Tests.antt =====
-- One device that arrives while the handle is held, and the theorems on that run.
use rust_usb.Base.{
  ◌==◌, if◌then◌else◌, length, count, remove, count-remove, pos, ◌<◌, ◌≡◌, ◌⊎◌, refl, List, [], ◌∷◌,
  ◌++◌, none, some, Bool, true, false, arith,
}
use rust_usb.Error.{ok}
use rust_usb.Hotplug.{HotplugEvent, device_arrived}
use rust_usb.Hotplug.Worker.{
  UdevEvent, add, Phase, finished, at_head, in_poll, in_events, Owner, holding, joining, dropped,
  Worker, calls_for, register, Runs, go_on, stops, poll_ready, handles, drained, sets_flag, joined,
  Reaches, registered, arrives, runs, drops,
}
use rust_usb.Hotplug.Delivery.{Answered, calls_in_order}
use rust_usb.Hotplug.Stopping.{dropped_is_silent, steps_left, stop_ends_worker}
use rust_usb.Backend.{DeviceInfo}
use rust_usb.MacOs.Path.{parse_iokit_path}
use rust_usb.MacOs.Registry.{Registry, wrap, bus_of, address_of, device_info_from_service}
use rust_usb.Hotplug.Registration
use rust_usb.Hotplug.Registration.{
  Notification, start, register_result, Step, registers, begins, starts, step_on,
  data_outlives_callbacks,
}
use rust_usb.Hotplug.RunLoop.{build_device_path, Notifications, Thread, setup, worker}
use rust_usb.Hotplug.Contexts.{
  Resource, Resource-discrete, object, port, dictionary, Account, SetUp,
}
use rust_usb.Hotplug.Paths.{parse_iokit_path-build_device_path}
use rust_usb.Hotplug.Ending.{delivered_if, worker_balance}

abbrev plugged : UdevEvent
plugged = record { devnode = some (47 ∷ 97 ∷ []); syspath = 47 ∷ []; event_type = add }

abbrev state : Bool → Phase → Owner → List UdevEvent → List HotplugEvent → Worker
state stop phase owner queue calls = record {
  stop = stop;
  phase = phase;
  owner = owner;
  queue = queue;
  calls = calls;
}

abbrev called : List HotplugEvent
called = device_arrived (47 ∷ 97 ∷ []) ∷ []

queued : Reaches (plugged ∷ []) (state false at_head holding (plugged ∷ []) [])
unfolding register
queued = arrives [] (state false at_head holding [] []) plugged registered

handled : Reaches (plugged ∷ []) (state false in_events holding [] called)
unfolding calls_for
handled =
    runs _ (state false in_events holding (plugged ∷ []) []) _
      (runs _ (state false in_poll holding (plugged ∷ []) []) _
        (runs _ (state false at_head holding (plugged ∷ []) []) _ queued (go_on _ refl refl))
        (poll_ready _ refl))
      (handles _ plugged [] refl refl)

ended : Reaches (plugged ∷ []) (state true finished joining [] called)
ended =
    runs _ (state true at_head joining [] called) _
      (drops _ (state false at_head holding [] called) _
        (runs _ (state false in_events holding [] called) _ handled (drained _ refl refl))
        (sets_flag _ refl))
      (stops _ refl refl)

calls_in_order_example :
    (done : List UdevEvent) × ((plugged ∷ []) ≡ done ++ []) × Answered done called
calls_in_order_example =
    calls_in_order (plugged ∷ []) (state false in_events holding [] called) handled

dropped_is_silent_example :
    (finished ≡ finished)
    × ¬ Runs (state true finished dropped [] called) (state true at_head dropped [] called)
dropped_is_silent_example =
    dropped_is_silent (plugged ∷ []) (state true finished dropped [] called)
      (state true at_head dropped [] called)
      (drops _ (state true finished joining [] called) _ ended (joined _ refl refl)) refl

stop_ends_worker_example :
    let w = state true at_head joining [] called in
    let w' = state true finished joining [] called in
    (true ≡ true)
    × (steps_left w' < steps_left w)
    × ((finished ≡ finished) ⊎ ((next : Worker) × Runs w' next))
stop_ends_worker_example =
    stop_ends_worker (state true at_head joining [] called) (state true finished joining [] called)
      refl (stops _ refl refl)

-- A callback is running.
called_back :
    Registration.Reaches
      (record start { stage = Registration.holding; registered = true; running = true })
unfolding register_result
called_back =
    step_on (record start { stage = Registration.holding; registered = true }) _
      (step_on start _ starts (registers start 0 refl refl)) (begins _ refl)

data_outlives_callbacks_example :
    (true ≡ true → true ≡ true)
    × (true ≡ false
        → (true ≡ false)
          × ((n' : Notification)
              → Step
                  (record start { stage = Registration.holding; registered = true; running = true })
                  n'
              → (n'.running ≡ false) × (n'.calls ≡ [])))
data_outlives_callbacks_example =
    data_outlives_callbacks
      (record start { stage = Registration.holding; registered = true; running = true }) called_back
      refl

-- The world is what is held. The second dictionary is null, so the setup fails after the first watch.
abbrev World : Type 0
World = List Resource

abbrev half_working : Notifications World
half_working = record {
  port_create = λ w. (4, port 4 ∷ w);
  port_destroy = λ p w. remove Resource-discrete (port p) w;
  run_loop_source = λ p w. 5;
  add_source = λ s w. w;
  service_matching = λ w. if length w == 1 then (7, dictionary 7 ∷ w) else (0, w);
  add_notification =
      λ p b d w. (0, 6, 8 ∷ [], object 6 ∷ remove Resource-discrete (dictionary d) w);
  next_object = λ h w. object h ∷ w;
  release_object = λ h w. remove Resource-discrete (object h) w;
}

account : Account half_working
account = record {
  refs = count Resource-discrete;
  port_made = λ w o. refl;
  port_gone = λ p w o. count-remove Resource-discrete (port p) w o;
  source_added = λ s w o. refl;
  matching_made = λ w o. ground arith;
  watched = λ p d b w o. ground (arith, count-remove Resource-discrete (dictionary d) w o);
  next = λ h w o. refl;
  released = λ h w o. count-remove Resource-discrete (object h) w o;
}

abbrev nameless : Registry
nameless = record {
  id_vendor = λ n. none;
  id_product = λ n. none;
  usb_bus_number = λ n. some (pos 20);
  usb_address = λ n. some (pos n);
  usb_vendor_name = λ n. none;
  usb_product_name = λ n. none;
  usb_serial_number = λ n. none;
}

abbrev idle : Thread World
idle = record { contexts = []; calls = []; world = [] }

worker_balance_example :
    let (r, running) = setup half_working idle in
    let end = worker half_working nameless ((true, 9 ∷ []) ∷ []) idle in
    SetUp half_working account idle (object 6) (r, running)
    × (count Resource-discrete end.world (object 6) ≡ 0)
    × (end.contexts ≡ [])
    × (end.calls ≡ delivered_if nameless ((true, 9 ∷ []) ∷ []) r)
unfolding account
worker_balance_example =
    worker_balance half_working account nameless ((true, 9 ∷ []) ∷ []) idle (object 6)

parse_iokit_path-build_device_path_example :
    (parse_iokit_path (build_device_path nameless 9) ≡ ok (20, 9))
    × ((info : DeviceInfo)
        → device_info_from_service nameless 9 ≡ some info
        → build_device_path nameless 9 ≡ info.path)
unfolding bus_of address_of wrap
parse_iokit_path-build_device_path_example = parse_iokit_path-build_device_path nameless 9
