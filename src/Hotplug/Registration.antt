-- ===== src/Hotplug/Registration.antt =====
-- usb-lib/src/hotplug.rs, the Windows `platform`: the registration, the callbacks of the system's thread and
-- the drop, as a step relation. What Windows documents is in it: callbacks begin only while the
-- notification is registered, and `CM_Unregister_Notification`, where it succeeds, returns only when none
-- is running. Where it fails, the notification stays registered.
use rust_usb.Base.{
  ℕ, ◌≡◌, ◌≢◌, ◌⊎◌, inl, refl, List, [], ◌∷◌, ◌++◌, Option, none, some, ◌==◌, if◌then◌else◌, Bool,
  true, false, arith,
}
use rust_usb.Error.{Result, ok, err, other}
use rust_usb.Hotplug.{HotplugEvent}
use rust_usb.Hotplug.Callback.{Action, arrival, cm_callback}

-- Where the owner is: in `register`, with the handle, behind `CM_Unregister_Notification` in `drop`, behind
-- the drop of `_data`, or without a handle because `register` has failed.
pub data Stage : Type 0 where
  registering holding unregistered freed refused : Stage

-- `data_alive` is whether the allocation that the callback gets as its context is there;
-- `unregister_failed` is whether the CONFIGRET that `drop` throws away was a failure.
pub record Notification : Type 0 where
  pub stage : Stage
  pub registered : Bool
  pub running : Bool
  pub data_alive : Bool
  pub unregister_failed : Bool
  pub calls : List HotplugEvent

-- `register`, before `CM_Register_Notification`.
abbrev pub start : Notification
start = record {
  stage = registering;
  registered = false;
  running = false;
  data_alive = true;
  unregister_failed = false;
  calls = [];
}

-- What `register` returns for a CONFIGRET.
unfoldable pub register_result : ℕ → Result (Unit {0})
register_result rc =
    if rc == 0
    then ok tt
    else err (other "CM_Register_Notification failed with CONFIGRET {:#010x}" (rc ∷ []))

abbrev pub to_list : Option HotplugEvent → List HotplugEvent
to_list none = []
to_list (some event) = event ∷ []

pub data Step : Notification → Notification → Type 0 where
  registers :
      (n : Notification) (rc : ℕ)
      → n.stage ≡ registering
      → register_result rc ≡ ok tt
      → Step n (record n { stage = holding; registered = true })
  -- `register` returns early, which drops `data`.
  fails :
      (n : Notification) (rc : ℕ)
      → n.stage ≡ registering
      → register_result rc ≢ ok tt
      → Step n (record n { stage = refused; data_alive = false })
  -- The system's thread enters `cm_callback`.
  begins : (n : Notification) → n.registered ≡ true → Step n (record n { running = true })
  -- `cm_callback` returns, after it has called the user's callback or not.
  returns :
      (n : Notification) (action : Action) (link : List ℕ) (event : Option HotplugEvent)
      → n.running ≡ true
      → cm_callback false false action link ≡ ok event
      → Step n (record n { running = false; calls = n.calls ++ to_list event })
  -- `drop`: `let _ = CM_Unregister_Notification(..)`, and then the field `_data`.
  unregisters :
      (n : Notification) (rc : ℕ)
      → n.stage ≡ holding
      → rc ≡ 0
      → n.running ≡ false
      → Step n (record n { stage = unregistered; registered = false })
  not_unregistered :
      (n : Notification) (rc : ℕ)
      → n.stage ≡ holding
      → rc ≢ 0
      → Step n (record n { stage = unregistered; unregister_failed = true })
  frees :
      (n : Notification)
      → n.stage ≡ unregistered
      → Step n (record n { stage = freed; data_alive = false })

pub data Reaches : Notification → Type 0 where
  starts : Reaches start
  step_on : (n n' : Notification) → Reaches n → Step n n' → Reaches n'

-- As long as no unregistration has failed, the data is there in every stage in which the system can use
-- it, and later nothing uses it.
abbrev Guarded : Notification → Type 0
Guarded n =
    ((n.stage ≡ registering) × (n.data_alive ≡ true) × (n.registered ≡ false) × (n.running ≡ false))
    ⊎ (((n.stage ≡ holding) × (n.data_alive ≡ true) × (n.registered ≡ true))
        ⊎ (((n.registered ≡ false)
              × (n.running ≡ false)
              × (n.stage ≢ registering)
              × (n.stage ≢ holding))
            ⊎ ((n.unregister_failed ≡ true) × (n.stage ≢ registering) × (n.stage ≢ holding))))

Step-Guarded : (n n' : Notification) → Step n n' → Guarded n → Guarded n'
Step-Guarded n _ (registers _ rc s e) g = ground arith
Step-Guarded n _ (fails _ rc s e) g = ground arith
Step-Guarded n _ (begins _ r) g = ground arith
Step-Guarded n _ (returns _ action link event r e) g = ground arith
Step-Guarded n _ (unregisters _ rc s e r) g = ground arith
Step-Guarded n _ (not_unregistered _ rc s e) g = ground arith
Step-Guarded n _ (frees _ s) g = ground arith

Reaches-Guarded : (n : Notification) → Reaches n → Guarded n
Reaches-Guarded _ starts = inl (refl, refl, refl, refl)
Reaches-Guarded _ (step_on n n' r step) = Step-Guarded n n' step (Reaches-Guarded n r)

-- In any interleaving of the system's callbacks with `register` and `drop`, as long as
-- `CM_Unregister_Notification` has not failed: while a callback runs, the context that it reads is
-- allocated. Once the context is freed, by the drop or because `register` has failed, no callback
-- runs, and none begins or calls the user's callback any more.
pub data_outlives_callbacks :
    (n : Notification)
    → Reaches n
    → n.unregister_failed ≡ false
    → (n.running ≡ true → n.data_alive ≡ true)
      × (n.data_alive ≡ false
          → (n.running ≡ false)
            × ((n' : Notification) → Step n n' → (n'.running ≡ false) × (n'.calls ≡ n.calls)))
data_outlives_callbacks n r fine =
    let g = Reaches-Guarded n r in
    (
      λ running. ground (arith, g),
      λ gone. (ground (arith, g), λ n' step. quiet n n' step g gone fine),
    )
  where
    quiet :
        (n n' : Notification)
        → Step n n'
        → Guarded n
        → n.data_alive ≡ false
        → n.unregister_failed ≡ false
        → (n'.running ≡ false) × (n'.calls ≡ n.calls)
    quiet n _ (registers _ rc s e) g gone fine = ground arith
    quiet n _ (fails _ rc s e) g gone fine = ground arith
    quiet n _ (begins _ r) g gone fine = ground arith
    quiet n _ (returns _ action link event r e) g gone fine = ground arith
    quiet n _ (unregisters _ rc s e r) g gone fine = ground arith
    quiet n _ (not_unregistered _ rc s e) g gone fine = ground arith
    quiet n _ (frees _ s) g gone fine = ground arith

-- From every state that can be reached and in which the owner holds the handle: if
-- `CM_Unregister_Notification` fails in `drop`, then a state can be reached in which the drop is
-- over and the context is freed, and a callback runs with it; and for any link with a terminator
-- it calls the user's callback with the device that arrived.
pub failed_unregister_dangles :
    (n : Notification) (rc : ℕ) (link : List ℕ) (event : HotplugEvent)
    → Reaches n
    → n.stage ≡ holding
    → rc ≢ 0
    → cm_callback false false arrival link ≡ ok (some event)
    → (m : Notification) × Reaches m
      × (m.stage ≡ freed)
      × (m.data_alive ≡ false)
      × (m.running ≡ true)
      × ((m' : Notification) × Step m m' × (m'.calls ≡ n.calls ++ (event ∷ [])))
failed_unregister_dangles n rc link event r s bad e =
    let n1 : Notification = record n { stage = unregistered; unregister_failed = true } in
    let n2 : Notification = record n1 { stage = freed; data_alive = false } in
    let m : Notification = record n2 { running = true } in
    let listening : n.registered ≡ true = ground (arith, Reaches-Guarded n r) in
    let failed = step_on n n1 r (not_unregistered n rc s bad) in
    let gone = step_on n1 n2 failed (frees n1 refl) in
    (
      m,
      step_on n2 m gone (begins n2 listening),
      refl,
      refl,
      refl,
      (
        record m { running = false; calls = n.calls ++ (event ∷ []) },
        returns m arrival link (some event) refl e,
        refl,
      ),
    )
