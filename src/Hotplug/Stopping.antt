-- ===== src/Hotplug/Stopping.antt =====
-- Dropping the handle: the thread ends, and then no callback runs any more.
use rust_usb.Base.{ℕ, ◌+◌, ◌<◌, ◌≡◌, ◌⊎◌, inl, inr, refl, List, [], ◌∷◌, ◌++◌, arith, length, true}
use rust_usb.Hotplug.Worker.{
  UdevEvent, Phase, finished, at_head, in_poll, in_events, holding, joining, dropped, Worker,
  calls_for, register, Runs, go_on, stops, poll_nothing, poll_ready, handles, drained, sets_flag,
  joined, Reaches, registered, arrives, runs, drops,
}

-- The flag is set once `drop` has begun, and the thread has ended once it has returned.
abbrev pub InOrder : Worker → Type 0
InOrder w = (w.owner ≡ holding) ⊎ ((w.stop ≡ true) × ((w.owner ≡ joining) ⊎ (w.phase ≡ finished)))

Runs-InOrder : (w w' : Worker) → Runs w w' → InOrder w → InOrder w'
Runs-InOrder w _ (go_on _ p g) h = ground arith
Runs-InOrder w _ (stops _ p g) h = ground arith
Runs-InOrder w _ (poll_nothing _ p) h = ground arith
Runs-InOrder w _ (poll_ready _ p) h = ground arith
Runs-InOrder w _ (handles _ event rest p q) h = ground arith
Runs-InOrder w _ (drained _ p q) h = ground arith

Reaches-InOrder : (events : List UdevEvent) (w : Worker) → Reaches events w → InOrder w
Reaches-InOrder _ _ registered = unfold register in inl refl
Reaches-InOrder _ _ (arrives events w event r) = Reaches-InOrder events w r
Reaches-InOrder events _ (runs _ w w' r step) = Runs-InOrder w w' step (Reaches-InOrder events w r)
Reaches-InOrder events _ (drops _ w _ r (sets_flag _ _)) = inr (refl, inl refl)
Reaches-InOrder events _ (drops _ w _ r (joined _ j f)) =
    ground (arith, Reaches-InOrder events w r, j, f)

-- Once `drop` has returned, the thread has ended and has no step left, so the callback is never called
-- again.
pub dropped_is_silent :
    (events : List UdevEvent) (w w' : Worker)
    → Reaches events w
    → w.owner ≡ dropped
    → (w.phase ≡ finished) × ¬ Runs w w'
dropped_is_silent events w w' r gone =
    let ended : w.phase ≡ finished = ground (arith, Reaches-InOrder events w r, gone) in
    (ended, λ step. no_step w w' step ended)
  where
    no_step : (w w' : Worker) → Runs w w' → w.phase ≡ finished → ⊥
    no_step w _ (go_on _ p _) e = cc
    no_step w _ (stops _ p _) e = cc
    no_step w _ (poll_nothing _ p) e = cc
    no_step w _ (poll_ready _ p) e = cc
    no_step w _ (handles _ _ _ p _) e = cc
    no_step w _ (drained _ p _) e = cc

abbrev phase_rank : Phase → ℕ
phase_rank finished = 0
phase_rank at_head = 1
phase_rank in_events = 2
phase_rank in_poll = 3

-- A measure of what a stopped thread has left to do: its phase, and the queued events.
abbrev pub steps_left : Worker → ℕ
steps_left w = phase_rank w.phase + length w.queue

descends :
    (w w' : Worker) → Runs w w' → w.stop ≡ true → (w'.stop ≡ true) × (steps_left w' < steps_left w)
descends w _ (go_on _ p g) s = cc
descends w _ (stops _ p _) s = ground arith
descends w _ (poll_nothing _ p) s = ground arith
descends w _ (poll_ready _ p) s = ground arith
descends w _ (handles _ event rest p q) s = ground arith
descends w _ (drained _ p q) s = ground arith

phase_cases : (p : Phase) → (p ≡ finished) ⊎ (p ≡ at_head) ⊎ (p ≡ in_poll) ⊎ (p ≡ in_events)
phase_cases finished = inl refl
phase_cases at_head = inr (inl refl)
phase_cases in_poll = inr (inr (inl refl))
phase_cases in_events = inr (inr (inr refl))

queue_cases :
    (q : List UdevEvent) → (q ≡ []) ⊎ ((e : UdevEvent) × (rest : List UdevEvent) × (q ≡ e ∷ rest))
queue_cases [] = inl refl
queue_cases (e ∷ rest) = inr (e, rest, refl)

progress : (w : Worker) → w.stop ≡ true → (w.phase ≡ finished) ⊎ ((w' : Worker) × Runs w w')
progress w s = elim (phase_cases w.phase) [
  | inl ended ↦ inl ended
  | inr (inl p) ↦ inr (record w { phase = finished }, stops w p s)
  | inr (inr (inl p)) ↦ inr (record w { phase = at_head }, poll_nothing w p)
  | inr (inr (inr p)) ↦ elim (queue_cases w.queue) [
    | inl none_left ↦ inr (record w { phase = at_head }, drained w p none_left)
    | inr (e, rest, q) ↦
        inr (record w { queue = rest; calls = w.calls ++ calls_for e }, handles w e rest p q)
  ]
]

-- Once the flag is set, every step of the thread brings its end nearer: it leaves the flag set and
-- lowers the measure `steps_left`. After the step the thread has ended, or it can take another, so
-- that `join` never waits for a thread that is stuck. Only an event that udev queues meanwhile raises
-- the measure.
pub stop_ends_worker :
    (w w' : Worker)
    → w.stop ≡ true
    → Runs w w'
    → (w'.stop ≡ true)
      × (steps_left w' < steps_left w)
      × ((w'.phase ≡ finished) ⊎ ((next : Worker) × Runs w' next))
stop_ends_worker w w' s step = let (s', less) = descends w w' step s in (s', less, progress w' s')
