-- ===== src/Hotplug/Worker.antt =====
-- usb-lib/src/hotplug.rs, the Linux `platform`: the worker thread and the handle that stops it, as a
-- step relation. udev queues events at any time; the thread polls and hands them to the callback; the
-- owner of the handle drops it, which sets the flag and joins the thread.
use rust_usb.Base.{◌≡◌, List, [], ◌∷◌, ◌++◌, Option, none, some, Bool, true, false}
use rust_usb.Text.{Text}
use rust_usb.Hotplug.{HotplugEvent, device_arrived, device_left}

pub data EventType : Type 0 where
  add remove other_type : EventType

-- An event of the udev monitor.
pub record UdevEvent : Type 0 where
  pub devnode : Option Text
  pub syspath : Text
  pub event_type : EventType

-- Where the thread is: at the head of `while`, in `poll`, in the `for` over the events, or finished.
pub data Phase : Type 0 where
  at_head in_poll in_events finished : Phase

-- What the owner has done: kept the handle, set the flag in `drop` and waiting in `join`, or all of
-- `drop`.
pub data Owner : Type 0 where
  holding joining dropped : Owner

-- `queue` is what the monitor has not handed out; `calls` are the calls of the callback, in order.
pub record Worker : Type 0 where
  pub stop : Bool
  pub phase : Phase
  pub owner : Owner
  pub queue : List UdevEvent
  pub calls : List HotplugEvent

-- `devnode().map(..).unwrap_or_else(|| syspath ..)`
abbrev pub path_or : Option Text → Text → Text
path_or none syspath = syspath
path_or (some node) syspath = node

abbrev call_of : EventType → Text → List HotplugEvent
call_of add path = device_arrived path ∷ []
call_of remove path = device_left path ∷ []
call_of other_type path = []

-- The body of the `for`: the calls for one event.
unfoldable pub calls_for : UdevEvent → List HotplugEvent
calls_for event = call_of event.event_type (path_or event.devnode event.syspath)

-- `register`: the thread starts at the head of its loop.
unfoldable pub register : Worker
register = record { stop = false; phase = at_head; owner = holding; queue = []; calls = [] }

-- A step of the thread. `poll_nothing` is a timeout, an error of `poll` or an event other than
-- POLLIN, and may come whatever is queued.
pub data Runs : Worker → Worker → Type 0 where
  go_on : (w : Worker) → w.phase ≡ at_head → w.stop ≡ false → Runs w (record w { phase = in_poll })
  stops : (w : Worker) → w.phase ≡ at_head → w.stop ≡ true → Runs w (record w { phase = finished })
  poll_nothing : (w : Worker) → w.phase ≡ in_poll → Runs w (record w { phase = at_head })
  poll_ready : (w : Worker) → w.phase ≡ in_poll → Runs w (record w { phase = in_events })
  handles :
      (w : Worker) (event : UdevEvent) (rest : List UdevEvent)
      → w.phase ≡ in_events
      → w.queue ≡ event ∷ rest
      → Runs w (record w { queue = rest; calls = w.calls ++ calls_for event })
  drained :
      (w : Worker) → w.phase ≡ in_events → w.queue ≡ [] → Runs w (record w { phase = at_head })

-- A step of the owner: `drop`, up to the join and behind it.
pub data Drops : Worker → Worker → Type 0 where
  sets_flag : (w : Worker) → w.owner ≡ holding → Drops w (record w { stop = true; owner = joining })
  joined :
      (w : Worker) → w.owner ≡ joining → w.phase ≡ finished → Drops w (record w { owner = dropped })

-- What can be reached, in any interleaving, after udev has queued these events.
pub data Reaches : List UdevEvent → Worker → Type 0 where
  registered : Reaches [] register
  arrives :
      (events : List UdevEvent) (w : Worker) (event : UdevEvent)
      → Reaches events w
      → Reaches (events ++ (event ∷ [])) (record w { queue = w.queue ++ (event ∷ []) })
  runs :
      (events : List UdevEvent) (w w' : Worker) → Reaches events w → Runs w w' → Reaches events w'
  drops :
      (events : List UdevEvent) (w w' : Worker) → Reaches events w → Drops w w' → Reaches events w'
