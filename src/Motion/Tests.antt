-- ===== src/Motion/Tests.antt =====
-- The unit tests of motion_event_latch.rs and event/event_bus.rs, and instances.
use sentinel_video_receiver.Prelude.{
  ℕ, ◌≡◌, refl, Bool, true, false, none, some, [], ◌∷◌, if◌then◌else◌, Text, text_same, text_key,
  pair_same, pair_key, get, insert, remove, retain,
}
use sentinel_video_receiver.Motion.Event.{MotionEvent, MotionMetadata, MotionState}
use sentinel_video_receiver.Motion.StateBus.{set, clear_camera, same_event, get-set, set-set}
use sentinel_video_receiver.Motion.Latch.{new, new_with_grace, key_of, normalize}
use sentinel_video_receiver.Motion.Latch.Period.{
  phase, phase_step, normalize-phase_step, run, HasId, run-HasId,
}

program : Unit {0}
unfolding get insert remove retain text_same pair_same set clear_camera new_with_grace normalize
program = tt

abbrev event : Bool → ℕ → ℕ → MotionEvent
event active ts id = record {
  rule = 1 ∷ [];
  active = active;
  ts = ts;
  camera_id = 2 ∷ [];
  event_id = id ∷ [];
}

-- `normalize_reuses_event_id_within_grace_window`
reuses_within_grace :
    (normalize
      (normalize (normalize (new_with_grace 3) (event true 0 10)).0 (event false 1 10)).0
      (event true 2 11)).1.event_id
    ≡ 10 ∷ []
unfolding program
reuses_within_grace = refl

-- `normalize_uses_new_event_id_after_end`
new_id_after_end :
    (normalize
      (normalize (normalize (new_with_grace 0) (event true 0 10)).0 (event false 1 10)).0
      (event true 3 11)).1.event_id
    ≡ 11 ∷ []
unfolding program
new_id_after_end = refl

abbrev meta : ℕ → ℕ → MotionMetadata
meta camera event = record { camera_id = camera ∷ []; event_id = event ∷ [] }

-- `clear_camera_removes_only_matching_motion_state`
clear_camera_keeps_others :
    clear_camera ((1 ∷ [], meta 1 1) ∷ (2 ∷ [], meta 2 2) ∷ []) (1 ∷ [])
    ≡ ((2 ∷ [], meta 2 2) ∷ [], true)
unfolding program
clear_camera_keeps_others = refl

abbrev no_motion : MotionState
no_motion = []

abbrev rule : Text
rule = 7 ∷ []

get-set_example : get rule (set no_motion rule true (some (meta 1 1))).0 ≡ (
    if text_same rule rule
    then (if true
        then (if same_event (meta 1 1).event_id (get rule no_motion)
            then get rule no_motion
            else some (meta 1 1))
        else none)
    else get rule no_motion)
get-set_example = get-set no_motion rule rule true (meta 1 1)

set-set_example :
    (set (set [] (7 ∷ []) true (some (meta 1 1))).0 (7 ∷ []) true (some (meta 1 1))).1 ≡ false
set-set_example = set-set [] (7 ∷ []) true (some (meta 1 1))

abbrev started : MotionEvent
started = event true 5 10

normalize-phase_step_example :
    let (latch', event') = normalize (new_with_grace 3) started in
    let step = phase_step 3 started (phase (key_of started) (new_with_grace 3)) in
    (phase (key_of started) latch' ≡ (
      if pair_same (key_of started) (key_of started)
      then step.0
      else phase (key_of started) (new_with_grace 3)))
    × (event' ≡ record started { event_id = step.1 })
    × (latch'.grace_window ≡ 3)
unfolding new_with_grace
normalize-phase_step_example = normalize-phase_step (new_with_grace 3) started (key_of started)

run-HasId_example :
    let (latch', sent) = run (normalize new started).0 (event true 6 11 ∷ []) in
    HasId (key_of started) (normalize new started).1.event_id sent
    × ((normalize latch' (event false 9 12)).1.event_id ≡ (normalize new started).1.event_id)
run-HasId_example =
    run-HasId new started (event true 6 11 ∷ []) (event false 9 12) refl ((λ _. refl), tt) refl refl
