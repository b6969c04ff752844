-- ===== src/Hotplug/Ending.antt =====
-- What the worker thread of macOS has given back at its end, and what it has delivered.

use rust_usb.Base.{
  ℕ, ◌≡◌, refl, ap, sym, ◌∙◌, List, [], ◌∷◌, ◌++◌, append_assoc, append-nil, Option, none, some,
  Bool, true, false, arith,
}
use rust_usb.MacOs.Registry.{Registry}
use rust_usb.Hotplug.{HotplugEvent}
use rust_usb.Hotplug.RunLoop.{
  Notifications, Thread, Running, free_context, event_for, service_callback, setup, run, clean_up,
  finish, worker,
}
use rust_usb.Hotplug.Contexts.{Resource, Account, SetUp, setup-SetUp}

-- The events of the callbacks, in order.
abbrev pub events_of : Registry → Bool → List ℕ → List HotplugEvent
events_of registry is_arrival [] = []
events_of registry is_arrival (service ∷ rest) =
    event_for registry is_arrival service ∷ events_of registry is_arrival rest

abbrev pub delivered : Registry → List (Bool × List ℕ) → List HotplugEvent
delivered registry [] = []
delivered registry ((is_arrival, services) ∷ rest) =
    events_of registry is_arrival services ++ delivered registry rest

-- What is delivered, which is nothing where the setup has failed.
abbrev pub delivered_if : Registry → List (Bool × List ℕ) → Option Running → List HotplugEvent
delivered_if registry callbacks none = []
delivered_if registry callbacks (some r) = delivered registry callbacks

module _ {W : Type 0} (iokit : Notifications W) (account : Account iokit) where
  open account use {
    refs, port_made, port_gone, source_added, matching_made, watched, next, released,
  }

  service_callback-kept :
      (registry : Registry) (b : Bool) (services : List ℕ) (t : Thread W) (o : Resource)
      → let t' = service_callback iokit registry b services t in
        (refs t'.world o ≡ refs t.world o)
        × (t'.contexts ≡ t.contexts)
        × (t'.calls ≡ t.calls ++ events_of registry b services)
  unfolding service_callback
  service_callback-kept registry b [] t o = (refl, refl, sym (append-nil t.calls))
  service_callback-kept registry b (s ∷ rest) t o =
      let t1 : Thread W = record t {
        calls = t.calls ++ (event_for registry b s ∷ []);
        world = iokit.release_object s (iokit.next_object s t.world);
      } in
      let (e, c, l) = service_callback-kept registry b rest t1 o in
      (
        omega (arith, e, released s (iokit.next_object s t.world) o, next s t.world o),
        c,
        l ∙ append_assoc t.calls (event_for registry b s ∷ []) (events_of registry b rest),
      )

  run-kept :
      (registry : Registry) (callbacks : List (Bool × List ℕ)) (t : Thread W) (o : Resource)
      → let t' = run iokit registry callbacks t in
        (refs t'.world o ≡ refs t.world o)
        × (t'.contexts ≡ t.contexts)
        × (t'.calls ≡ t.calls ++ delivered registry callbacks)
  unfolding run
  run-kept registry [] t o = (refl, refl, sym (append-nil t.calls))
  run-kept registry ((b, services) ∷ rest) t o =
      let t1 = service_callback iokit registry b services t in
      let (e, c, l) = service_callback-kept registry b services t o in
      let (e', c', l') = run-kept registry rest t1 o in
      (
        e' ∙ e,
        c' ∙ c,
        l'
            ∙ (ap (λ xs. xs ++ delivered registry rest) l
                ∙ append_assoc t.calls (events_of registry b services) (delivered registry rest)),
      )

  finish-kept :
      (registry : Registry) (callbacks : List (Bool × List ℕ)) (t : Thread W) (o : Resource)
      (x : Option Running × Thread W)
      → SetUp iokit account t o x
      → let t' = finish iokit registry callbacks x in
        (refs t'.world o ≡ refs t.world o)
        × (t'.contexts ≡ t.contexts)
        × (t'.calls ≡ t.calls ++ delivered_if registry callbacks x.0)
  unfolding finish clean_up free_context
  finish-kept registry callbacks t o (none, t1) (e, c, l) = (e, c, l ∙ sym (append-nil t.calls))
  finish-kept registry callbacks t o (some r, t1) (e, c, l) =
      let t2 = run iokit registry callbacks t1 in
      let (e', c', l') = run-kept registry callbacks t1 o in
      let w1 = iokit.release_object r.arrived_iter t2.world in
      let w2 = iokit.release_object r.removed_iter w1 in
      (
        omega (
          arith,
          released r.arrived_iter t2.world o,
          released r.removed_iter w1 o,
          port_gone r.port w2 o,
          e,
          e',
        ),
        ap (λ cs. free_context false (free_context true cs)) (c' ∙ c) ∙ freed t.contexts,
        l' ∙ ap (λ xs. xs ++ delivered registry callbacks) l,
      )
    where
      freed : (cs : List Bool) → free_context false (free_context true (false ∷ true ∷ cs)) ≡ cs
      freed cs = refl

  -- The worker thread of macOS, whatever call of its setup fails, and whatever callbacks its run loop makes
  -- before it is stopped: at its end every port, dictionary and object is referenced as often as before
  -- it started, and the contexts in the heap are those from before. While the run loop runs, one port,
  -- two iterators and two contexts more are held. The user's callback has been called once for each
  -- service of each callback, in order, and never if the setup failed.
  pub worker_balance :
      (registry : Registry) (callbacks : List (Bool × List ℕ)) (t : Thread W) (o : Resource)
      → let (r, running) = setup iokit t in
        let end = worker iokit registry callbacks t in
        SetUp iokit account t o (r, running)
        × (refs end.world o ≡ refs t.world o)
        × (end.contexts ≡ t.contexts)
        × (end.calls ≡ t.calls ++ delivered_if registry callbacks r)
  unfolding worker
  worker_balance registry callbacks t o =
      let up = setup-SetUp iokit account t o in
      let (e, c, l) = finish-kept registry callbacks t o (setup iokit t) up in (up, e, c, l)
