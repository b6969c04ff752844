-- ===== src/Hotplug/Callback.antt =====
-- usb-lib/src/hotplug.rs, the Windows `platform`: the notification callback. The memory behind the
-- symbolic link's pointer is a list of UTF-16 units; a scan that leaves it is undefined behaviour in
-- the source, and a panic here.
use rust_usb.Base.{ℕ, List, [], ◌∷◌, Option, none, some, ◌==◌, ◌||◌, if◌then◌else◌, Bool}
use rust_usb.Error.{Result, ok, panic, ◌>>=◌}
use rust_usb.Text.{Text, from_utf16_lossy}
use rust_usb.Hotplug.{HotplugEvent, device_arrived, device_left}

-- `CM_NOTIFY_ACTION`
pub data Action : Type 0 where
  arrival removal : Action
  other_action : ℕ → Action

-- `while *sym_ptr.add(len) != 0 { len += 1 }`: the units before the first zero.
unfoldable pub until_null : List ℕ → Result (List ℕ)
until_null [] = panic
until_null (u ∷ units) =
    let rest = until_null units in if u == 0 then ok [] else (rest >>= λ l. ok (u ∷ l))

abbrev event_of : Action → Text → Option HotplugEvent
event_of arrival path = some (device_arrived path)
event_of removal path = some (device_left path)
event_of (other_action n) path = none

-- The event that the user's callback is called with, if it is called.
unfoldable pub cm_callback : Bool → Bool → Action → List ℕ → Result (Option HotplugEvent)
unfolding until_null
cm_callback context_null data_null (other_action n) link = ok none
cm_callback context_null data_null action link =
    let path = until_null link in
    if context_null || data_null
    then ok none
    else (path >>= λ units. ok (event_of action (from_utf16_lossy units)))
