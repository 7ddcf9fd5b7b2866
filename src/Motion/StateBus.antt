-- ===== src/Motion/StateBus.antt =====
-- `MotionStateBus` of sentinel_rtp_cam/src/event/event_bus.rs. The closures of `send_if_modified` return
-- the new state and whether receivers are told.
use sentinel_video_receiver.Prelude.{
  ◌≡◌, refl, arith, Bool, true, false, not, Option, none, some, ◌==◌, if◌then◌else◌, length, Text,
  text_same, text_same_iff, text_key, get, insert, remove, retain, get-insert, get-remove,
}
use sentinel_video_receiver.Motion.Event.{MotionMetadata, MotionState}

abbrev is_some {ℓ} : {A : Type ℓ} → Option A → Bool
is_some none = false
is_some (some a) = true

-- `.map(|m| m.event_id == meta.event_id).unwrap_or(false)`
abbrev pub same_event : Text → Option MotionMetadata → Bool
same_event event_id none = false
same_event event_id (some m) = text_same m.event_id event_id

unfoldable pub set_active : MotionState → Text → Option MotionMetadata → MotionState × Bool
set_active state rule none = (state, false)
set_active state rule (some meta) =
    if same_event meta.event_id (get rule state)
    then (state, false)
    else (insert rule meta state, true)

unfoldable pub set : MotionState → Text → Bool → Option MotionMetadata → MotionState × Bool
unfolding set_active
set state rule true metadata = set_active state rule metadata
set state rule false metadata = (remove rule state, is_some (get rule state))

unfoldable pub clear_camera : MotionState → Text → MotionState × Bool
clear_camera state camera_id =
    let kept = retain (λ _ metadata. not (text_same metadata.camera_id camera_id)) state in
    (kept, not (length kept == length state))

-- What the state holds for a rule after `set`: nothing if the rule was ended; the given metadata if
-- it was started with another event id than the state holds; else what it held. Other rules keep
-- theirs.
pub get-set :
    (state : MotionState) (rule other : Text) (active : Bool) (meta : MotionMetadata)
    → get other (set state rule active (some meta)).0 ≡ (
        if text_same rule other
        then (if active
            then (if same_event meta.event_id (get rule state) then get rule state else some meta)
            else none)
        else get other state)
unfolding set
get-set state rule other active meta =
    ground (
      arith,
      text_same_iff rule other,
      get-insert rule other meta state,
      get-remove rule other state,
    )

-- Repeating a `set` with the same rule, flag and metadata tells the receivers nothing: the update
-- is idempotent.
pub set-set :
    (state : MotionState) (rule : Text) (active : Bool) (metadata : Option MotionMetadata)
    → (set (set state rule active metadata).0 rule active metadata).1 ≡ false
unfolding set
set-set state rule true none = refl
set-set state rule true (some meta) = ground (
  arith,
  text_same_iff rule rule,
  text_same_iff meta.event_id meta.event_id,
  get-insert rule rule meta state,
)
set-set state rule false metadata =
    ground (arith, text_same_iff rule rule, get-remove rule rule state)
