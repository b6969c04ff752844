-- ===== src/Hotplug/RunLoop.antt =====
-- usb-lib/src/hotplug.rs, the macOS `platform`: the worker thread, from its setup to its end. IOKit's
-- notifications are a parameter, a record of calls on a world of type `W`. Object handles and ports are
-- numbers, and 0 is null. The run loop is the sequence of the callbacks that it makes until it is
-- stopped. Logging is not modelled.
use rust_usb.Base.{
  ℕ, List, [], ◌∷◌, ◌++◌, Option, none, some, ◌==◌, if◌then◌else◌, Bool, true, false,
}
use rust_usb.Error.{Result, ok, err, other}
use rust_usb.Text.{Text}
use rust_usb.MacOs.Path.{device_path}
use rust_usb.MacOs.Registry.{Registry, wrap, or_zero}
use rust_usb.Hotplug.{HotplugEvent, device_arrived, device_left}

pub record Notifications (W : Type 0) : Type 0 where
  pub port_create : W → ℕ × W
  pub port_destroy : ℕ → W → W
  pub run_loop_source : ℕ → W → ℕ
  pub add_source : ℕ → W → W
  -- `IOServiceMatching`: a dictionary, which `IOServiceAddMatchingNotification` uses up.
  pub service_matching : W → ℕ × W
  -- The notification of arrivals or of removals, with the iterator and the services that it will give.
  pub add_notification : ℕ → Bool → ℕ → W → ℕ × ℕ × List ℕ × W
  -- `IOIteratorNext`, when it gives this object.
  pub next_object : ℕ → W → W
  pub release_object : ℕ → W → W

-- What the worker thread acts on: the contexts in the heap, by their `is_arrival`, the calls of the
-- user's callback, and the world.
pub record Thread (W : Type 0) : Type 0 where
  pub contexts : List Bool
  pub calls : List HotplugEvent
  pub world : W

-- What the thread holds while its run loop runs.
pub record Running : Type 0 where
  pub port : ℕ
  pub arrived_iter : ℕ
  pub removed_iter : ℕ

-- `Box::from_raw` of the context with this `is_arrival`, and the drop of it.
unfoldable pub free_context : Bool → List Bool → List Bool
free_context true [] = []
free_context true (true ∷ rest) = rest
free_context true (false ∷ rest) = false ∷ free_context true rest
free_context false [] = []
free_context false (false ∷ rest) = rest
free_context false (true ∷ rest) = true ∷ free_context false rest

unfoldable pub build_device_path : Registry → ℕ → Text
unfolding wrap device_path
build_device_path registry service =
    device_path (wrap 256 (or_zero (registry.usb_bus_number service)))
      (wrap 256 (or_zero (registry.usb_address service)))
      (wrap 65536 (or_zero (registry.id_vendor service)))
      (wrap 65536 (or_zero (registry.id_product service)))

unfoldable pub event_for : Registry → Bool → ℕ → HotplugEvent
unfolding build_device_path
event_for registry true service = device_arrived (build_device_path registry service)
event_for registry false service = device_left (build_device_path registry service)

module _ {W : Type 0} (iokit : Notifications W) where
  -- The `loop` of `service_callback`, over the services of the iterator.
  unfoldable pub service_callback : Registry → Bool → List ℕ → Thread W → Thread W
  unfolding event_for
  service_callback registry is_arrival [] t = t
  service_callback registry is_arrival (service ∷ rest) t =
      service_callback registry is_arrival rest (record t {
        calls = t.calls ++ (event_for registry is_arrival service ∷ []);
        world = iokit.release_object service (iokit.next_object service t.world);
      })

  unfoldable pub drain_iterator_silent : List ℕ → W → W
  drain_iterator_silent [] w = w
  drain_iterator_silent (service ∷ rest) w =
      drain_iterator_silent rest (iokit.release_object service (iokit.next_object service w))

  abbrev pub destroy : ℕ → Thread W → Thread W
  destroy port t = record t { world = iokit.port_destroy port t.world }

  abbrev pub release : ℕ → Thread W → Thread W
  release h t = record t { world = iokit.release_object h t.world }

  abbrev pub free : Bool → Thread W → Thread W
  unfolding free_context
  free is_arrival t = record t { contexts = free_context is_arrival t.contexts }

  -- The registration for arrivals or for removals: the iterator, or nothing and the context freed.
  unfoldable pub watch : ℕ → Bool → Thread W → Option ℕ × Thread W
  unfolding free drain_iterator_silent
  watch port is_arrival t =
      let boxed = record t { contexts = is_arrival ∷ t.contexts } in
      let (dict, w) = iokit.service_matching boxed.world in
      let (kr, iter, services, w') = iokit.add_notification port is_arrival dict w in
      if dict == 0
      then (none, free is_arrival (record boxed { world = w }))
      else (if kr == 0
          then (some iter, record boxed { world = drain_iterator_silent services w' })
          else (none, free is_arrival (record boxed { world = w' })))

  -- The registration for removals, behind that for arrivals.
  unfoldable pub watch_removals : ℕ → Option ℕ × Thread W → Option Running × Thread W
  unfolding watch free
  watch_removals port (none, t) = (none, destroy port t)
  watch_removals port (some arrived, t) =
      let (r, t') = watch port false t in
      elim r [
        | none ↦ (none, destroy port (release arrived (free true t')))
        | some removed ↦
            (some (record { port = port; arrived_iter = arrived; removed_iter = removed }), t')
      ]

  -- The worker up to the run loop: nothing after a failure, for which a null run loop is sent.
  unfoldable pub setup : Thread W → Option Running × Thread W
  unfolding watch watch_removals
  setup t =
      let (port, w) = iokit.port_create t.world in
      let created = record t { world = w } in
      let source = iokit.run_loop_source port w in
      let attached = record created { world = iokit.add_source source w } in
      if port == 0
      then (none, created)
      else (if source == 0
          then (none, destroy port created)
          else watch_removals port (watch port true attached))

  -- `CFRunLoopRun`: the callbacks that it makes, each for the arrivals or the removals and with the
  -- services of the iterator.
  unfoldable pub run : Registry → List (Bool × List ℕ) → Thread W → Thread W
  unfolding service_callback
  run registry [] t = t
  run registry ((is_arrival, services) ∷ rest) t =
      run registry rest (service_callback registry is_arrival services t)

  -- Behind the run loop.
  unfoldable pub clean_up : Running → Thread W → Thread W
  unfolding free
  clean_up r t =
      free false (free true (destroy r.port (release r.removed_iter (release r.arrived_iter t))))

  unfoldable pub finish : Registry → List (Bool × List ℕ) → Option Running × Thread W → Thread W
  unfolding run clean_up
  finish registry callbacks (none, t) = t
  finish registry callbacks (some r, t) = clean_up r (run registry callbacks t)

  -- The worker thread, from its start to its end.
  unfoldable pub worker : Registry → List (Bool × List ℕ) → Thread W → Thread W
  unfolding setup finish
  worker registry callbacks t = finish registry callbacks (setup t)

  -- What `register` returns, from what the worker has sent.
  unfoldable pub register : Option Running → Result Running
  register none = err (other "macOS hotplug: IONotificationPort setup failed" [])
  register (some r) = ok r
