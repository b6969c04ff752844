-- ===== src/Hotplug/Delivery.antt =====
-- Which calls the callback gets.
use rust_usb.Base.{
  ◌≡◌, ◌⊎◌, inl, inr, refl, ◌∙◌, ap, sym, List, [], ◌∷◌, ◌++◌, none, some, append_assoc, append-nil,
  Option-cases,
}
use rust_usb.Text.{Text}
use rust_usb.Hotplug.{HotplugEvent, device_arrived, device_left}
use rust_usb.Hotplug.Worker.{
  EventType, UdevEvent, add, remove, other_type, Worker, path_or, calls_for, register, Runs, go_on,
  stops, poll_nothing, poll_ready, handles, drained, Drops, sets_flag, joined, Reaches, registered,
  arrives, runs, drops,
}

-- The path of an event: its device node if it has one, and its path in sysfs otherwise.
abbrev pub PathOf : UdevEvent → Text → Type 0
PathOf event path = (event.devnode ≡ some path) ⊎ ((event.devnode ≡ none) × (event.syspath ≡ path))

-- The calls that a list of udev events asks for, in order: one for each device that was added or
-- removed, with its path, and none for another event.
pub data Answered : List UdevEvent → List HotplugEvent → Type 0 where
  nothing : Answered [] []
  added :
      (events : List UdevEvent) (calls : List HotplugEvent) (event : UdevEvent) (path : Text)
      → Answered events calls
      → event.event_type ≡ add
      → PathOf event path
      → Answered (events ++ (event ∷ [])) (calls ++ (device_arrived path ∷ []))
  removed :
      (events : List UdevEvent) (calls : List HotplugEvent) (event : UdevEvent) (path : Text)
      → Answered events calls
      → event.event_type ≡ remove
      → PathOf event path
      → Answered (events ++ (event ∷ [])) (calls ++ (device_left path ∷ []))
  passed_over :
      (events : List UdevEvent) (calls : List HotplugEvent) (event : UdevEvent)
      → Answered events calls
      → event.event_type ≡ other_type
      → Answered (events ++ (event ∷ [])) calls

event_type-cases : (t : EventType) → (t ≡ add) ⊎ ((t ≡ remove) ⊎ (t ≡ other_type))
event_type-cases add = inl refl
event_type-cases remove = inr (inl refl)
event_type-cases other_type = inr (inr refl)

abbrev path_of : UdevEvent → Text
path_of event = path_or event.devnode event.syspath

path_of-PathOf : (event : UdevEvent) → PathOf event (path_of event)
path_of-PathOf event = elim (Option-cases event.devnode) [
  | inl e ↦ inr (e, rw e refl)
  | inr (node, e) ↦ inl (e ∙ rw e refl)
]

calls_for-add :
    (event : UdevEvent)
    → event.event_type ≡ add
    → calls_for event ≡ device_arrived (path_of event) ∷ []
unfolding calls_for
calls_for-add event e = rw e refl

calls_for-remove :
    (event : UdevEvent)
    → event.event_type ≡ remove
    → calls_for event ≡ device_left (path_of event) ∷ []
unfolding calls_for
calls_for-remove event e = rw e refl

calls_for-other_type : (event : UdevEvent) → event.event_type ≡ other_type → calls_for event ≡ []
unfolding calls_for
calls_for-other_type event e = rw e refl

-- The body of the loop makes the calls that its event asks for.
calls_for-Answered :
    (events : List UdevEvent) (calls : List HotplugEvent) (event : UdevEvent)
    → Answered events calls
    → Answered (events ++ (event ∷ [])) (calls ++ calls_for event)
calls_for-Answered events calls event a = elim (event_type-cases event.event_type) [
  | inl e ↦
      rw (calls_for-add event e)
        (added events calls event (path_of event) a e (path_of-PathOf event))
  | inr (inl e) ↦
      rw (calls_for-remove event e)
        (removed events calls event (path_of event) a e (path_of-PathOf event))
  | inr (inr e) ↦
      rw (calls_for-other_type event e, append-nil calls) (passed_over events calls event a e)
]

-- The events that the thread has handled: with those that are queued they are all that arrived.
abbrev Delivered : List UdevEvent → Worker → Type 0
Delivered events w =
    (handled : List UdevEvent) × (events ≡ handled ++ w.queue) × Answered handled w.calls

Runs-Delivered :
    (events : List UdevEvent) (w w' : Worker) → Runs w w' → Delivered events w → Delivered events w'
Runs-Delivered events w _ (go_on _ _ _) d = d
Runs-Delivered events w _ (stops _ _ _) d = d
Runs-Delivered events w _ (poll_nothing _ _) d = d
Runs-Delivered events w _ (poll_ready _ _) d = d
Runs-Delivered events w _ (handles _ event rest _ queued) (handled, e, a) = (
  handled ++ (event ∷ []),
  e ∙ (ap (λ q. handled ++ q) queued ∙ sym (append_assoc handled (event ∷ []) rest)),
  calls_for-Answered handled w.calls event a,
)
Runs-Delivered events w _ (drained _ _ _) d = d

Drops-Delivered :
    (events : List UdevEvent) (w w' : Worker)
    → Drops w w'
    → Delivered events w
    → Delivered events w'
Drops-Delivered events w _ (sets_flag _ _) d = d
Drops-Delivered events w _ (joined _ _ _) d = d

-- In every state that can be reached, in any interleaving of udev, the thread and the owner: the events
-- that arrived are, in order, some that are handled and those that are still queued, and the callback
-- has been called exactly as the handled ones ask for: with the arrival of each device that was
-- added and the leaving of each that was removed, by device node or else by path in sysfs, in
-- order, and for no other event. No event is lost, called for twice or overtaken.
pub calls_in_order :
    (events : List UdevEvent) (w : Worker)
    → Reaches events w
    → (handled : List UdevEvent) × (events ≡ handled ++ w.queue) × Answered handled w.calls
calls_in_order _ _ registered = unfold register in ([], refl, nothing)
calls_in_order _ _ (arrives events w event r) =
    let (handled, e, a) = calls_in_order events w r in
    (handled, ap (λ l. l ++ (event ∷ [])) e ∙ append_assoc handled w.queue (event ∷ []), a)
calls_in_order events w' (runs _ w _ r step) =
    Runs-Delivered events w w' step (calls_in_order events w r)
calls_in_order events w' (drops _ w _ r step) =
    Drops-Delivered events w w' step (calls_in_order events w r)
