-- ===== src/Clip/Recorder/Run/Invariant.antt =====
-- What holds of a recorder whatever its loop is given, and whatever files and json do.
use sentinel_video_receiver.Prelude.{
  ℕ, ◌+◌, ◌≤◌, ◌≡◌, arith, Bool, true, false, Option, none, some, Bytes,
}
use sentinel_video_receiver.Motion.Event.{MotionState}
use sentinel_video_receiver.Clip.Recorder.{
  ClipRecorder, ClipRecorderConfig, Recording, State, StickyMotion, idle, armed, recording, seconds,
  arm, or_min, stop_when_quiet, motion_deadline, motion_transition,
}

-- The hard deadline of a clip that started at the given instant.
abbrev pub hard_deadline : Option ℕ → ℕ → Option ℕ
hard_deadline none started_at = none
hard_deadline (some secs) started_at = some (started_at + seconds secs)

-- A deadline is not before an instant.
abbrev pub NotBefore : ℕ → Option ℕ → Type 0
NotBefore least none = Unit
NotBefore least (some t) = least ≤ t

-- A recording at an instant: it has started, its hard deadline is `max_clip_secs` after its start,
-- and its other deadline leaves it the minimum duration.
pub record Timely (cfg : ClipRecorderConfig) (instant : ℕ) (r : Recording) : Type 0 where
  pub started_lem : r.started_at ≤ instant
  pub hard_lem : r.hard_stop_at ≡ hard_deadline cfg.max_clip_secs r.started_at
  pub stop_lem : NotBefore (r.started_at + cfg.min_clip_duration) r.stop_at

abbrev pub Present {ℓ} : {A : Type ℓ} → Option A → Type 0
Present none = ⊥
Present (some a) = Unit

abbrev pub StateOk : ClipRecorderConfig → Option Bytes → Option Bytes → ℕ → State → Type 0
StateOk cfg sps pps instant idle = Unit
StateOk cfg sps pps instant (armed a) = Unit
StateOk cfg sps pps instant (recording r) = Timely cfg instant r × Present sps × Present pps

-- A clip under way is timely, and both parameter sets have been seen.
abbrev pub WellFormed : ℕ → ClipRecorder → Type 0
WellFormed instant rec = StateOk rec.cfg rec.last_sps rec.last_pps instant rec.state

pub StateOk-later :
    (cfg : ClipRecorderConfig) (sps pps : Option Bytes) (i j : ℕ) (s : State)
    → i ≤ j
    → StateOk cfg sps pps i s
    → StateOk cfg sps pps j s
StateOk-later cfg sps pps i j idle le h = tt
StateOk-later cfg sps pps i j (armed a) le h = tt
StateOk-later cfg sps pps i j (recording r) le (t, p, q) = (
  record {
    started_lem = omega (arith, t.started_lem);
    hard_lem = t.hard_lem;
    stop_lem = t.stop_lem;
  },
  p,
  q,
)

pub motion_deadline_lem :
    (cfg : ClipRecorderConfig) (started_at elapsed_at now : ℕ)
    → started_at ≤ elapsed_at
    → elapsed_at ≤ now
    → started_at + cfg.min_clip_duration ≤ motion_deadline cfg started_at elapsed_at now
unfolding motion_deadline
motion_deadline_lem cfg started_at elapsed_at now h k = ground arith

pub stop_when_quiet-NotBefore :
    (cfg : ClipRecorderConfig) (started_at elapsed_at now : ℕ) (stop_at : Option ℕ)
    → started_at ≤ elapsed_at
    → elapsed_at ≤ now
    → NotBefore (started_at + cfg.min_clip_duration) stop_at
    → NotBefore
        (started_at + cfg.min_clip_duration)
        (stop_when_quiet cfg started_at elapsed_at now stop_at)
stop_when_quiet-NotBefore cfg started_at elapsed_at now none h k n =
    motion_deadline_lem cfg started_at elapsed_at now h k
stop_when_quiet-NotBefore cfg started_at elapsed_at now (some t) h k n = n

pub arm-StateOk :
    (cfg : ClipRecorderConfig) (sps pps : Option Bytes) (i : ℕ) (sticky : Option StickyMotion)
    (now : ℕ) (s : State)
    → StateOk cfg sps pps i s
    → StateOk cfg sps pps i (arm sticky now s)
arm-StateOk cfg sps pps i none now s h = h
arm-StateOk cfg sps pps i (some sticky) now s h = tt

pub motion_transition-StateOk :
    (cfg : ClipRecorderConfig) (sps pps : Option Bytes) (i elapsed_at now : ℕ) (active : Bool)
    (m : MotionState) (sticky : Option StickyMotion) (s : State)
    → i ≤ elapsed_at
    → elapsed_at ≤ now
    → StateOk cfg sps pps i s
    → StateOk cfg sps pps now (motion_transition cfg active m sticky elapsed_at now s)
unfolding motion_transition
motion_transition-StateOk cfg sps pps i elapsed_at now true m sticky idle h k ok =
    arm-StateOk cfg sps pps now (or_min m sticky) now idle tt
motion_transition-StateOk cfg sps pps i elapsed_at now false m sticky idle h k ok = tt
motion_transition-StateOk cfg sps pps i elapsed_at now true m sticky (armed a) h k ok = tt
motion_transition-StateOk cfg sps pps i elapsed_at now false m sticky (armed a) h k ok =
    ground arith
motion_transition-StateOk cfg sps pps i elapsed_at now true m sticky (recording r) h k (t, p, q) = (
  record { started_lem = omega (arith, t.started_lem); hard_lem = t.hard_lem; stop_lem = tt },
  p,
  q,
)
motion_transition-StateOk cfg sps pps i elapsed_at now false m sticky (recording r) h k (t, p, q) =
    (
      record {
        started_lem = omega (arith, t.started_lem);
        hard_lem = t.hard_lem;
        stop_lem =
            stop_when_quiet-NotBefore cfg r.started_at elapsed_at now r.stop_at
              (omega (arith, t.started_lem)) k t.stop_lem;
      },
      p,
      q,
    )
