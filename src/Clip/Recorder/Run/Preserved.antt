-- ===== src/Clip/Recorder/Run/Preserved.antt =====
-- Every round of the loop preserves the invariant, whatever files and json do.
use sentinel_video_receiver.Prelude.{
  ℕ, ◌≤◌, ◌≡◌, refl, arith, not, Option, none, some, List, [], ◌∷◌, is_empty, Bytes,
}
use sentinel_video_receiver.H264.Nal.{nal_type_from_annexb}
use sentinel_video_receiver.Clip.Files.{ClipFiles}
use sentinel_video_receiver.Clip.Writer
use sentinel_video_receiver.Clip.Writer.{ClipWriter, total_bytes}
use sentinel_video_receiver.Clip.Recorder.{
  ClipRecorder, ClipRecorderConfig, new, Armed, Recording, State, idle, armed, recording,
  is_recording, or_min, next_sticky, on_motion_state_change, rearm_if_motion_active,
}
use sentinel_video_receiver.Clip.Recorder.Stop.{
  Clock, ClipSidecar, announce, stop_clip, stop_recording, flush_recording, maybe_stop_on_deadline,
}
use sentinel_video_receiver.Clip.Recorder.Nal.{
  new_recording, start_recording, on_nal_armed, on_nal_recording, feed_param_set, on_nal_slice,
  on_nal,
}
use sentinel_video_receiver.Clip.Recorder.Run.{
  Event, tick, cleanup, flush, motion, nal, step, rounds,
}
use sentinel_video_receiver.Clip.Recorder.Run.Invariant.{
  StateOk, WellFormed, StateOk-later, arm-StateOk, motion_transition-StateOk,
}

-- A recorder that holds what another does, but for its state and its channel.
pub record SameSetup (rec rec' : ClipRecorder) : Type 0 where
  pub cfg_lem : rec'.cfg ≡ rec.cfg
  pub sps_lem : rec'.last_sps ≡ rec.last_sps
  pub pps_lem : rec'.last_pps ≡ rec.last_pps
  pub motion_lem : rec'.last_motion_state ≡ rec.last_motion_state
  pub sticky_lem : rec'.sticky_motion ≡ rec.sticky_motion

module _ (f : ClipFiles) (to_json : ClipSidecar → Option Bytes) where
  -- No clip is under way after `stop_recording`, whatever fails in it.
  pub stop_recording_lem :
      (clock : Clock) (s : f.State) (rec : ClipRecorder)
      → let rec' = (stop_recording f to_json clock (s, rec)).1 in
        (rec'.state ≡ idle) × SameSetup rec rec'
  unfolding stop_recording stop_clip announce
  stop_recording_lem clock s rec = ground arith

  start_recording-StateOk :
      (clock : Clock) (a : Armed) (sps pps bytes : Bytes) (s : f.State) (rec : ClipRecorder)
      → WellFormed clock.now rec
      → rec.last_sps ≡ some sps
      → rec.last_pps ≡ some pps
      → WellFormed clock.now (start_recording f to_json clock a sps pps bytes (s, rec)).0.1
  unfolding start_recording new_recording
  start_recording-StateOk clock a sps pps bytes s rec ok h k = ground (arith, h, k)

  stop_recording-StateOk :
      (clock : Clock) (i : ℕ) (s : f.State) (rec : ClipRecorder)
      → WellFormed i (stop_recording f to_json clock (s, rec)).1
  stop_recording-StateOk clock i s rec = ground (arith, stop_recording_lem clock s rec)

  on_nal_recording-StateOk :
      (clock : Clock) (i : ℕ) (r : Recording) (bytes : Bytes) (s : f.State) (rec : ClipRecorder)
      → rec.state ≡ recording r
      → WellFormed i rec
      → WellFormed i (on_nal_recording f to_json clock r bytes (s, rec)).0.1
  unfolding on_nal_recording
  on_nal_recording-StateOk clock i r bytes s rec h ok =
      let (s', w) = (Writer.write_nal f bytes (s, r.writer)).0 in
      let rec' : ClipRecorder = record rec { state = recording (record r { writer = w }) } in
      ground (arith, h, stop_recording-StateOk clock i s' rec')

  on_nal_armed-StateOk :
      (clock : Clock) (a : Armed) (nt : ℕ) (bytes : Bytes) (sps pps : Option Bytes) (s : f.State)
      (rec : ClipRecorder)
      → WellFormed clock.now rec
      → rec.last_sps ≡ sps
      → rec.last_pps ≡ pps
      → WellFormed clock.now (on_nal_armed f to_json clock a nt bytes sps pps (s, rec)).0.1
  on_nal_armed-StateOk clock a nt bytes none pps s rec ok h k = ok
  on_nal_armed-StateOk clock a nt bytes (some sps) none s rec ok h k = ok
  on_nal_armed-StateOk clock a nt bytes (some sps) (some pps) s rec ok h k =
      ground (arith, ok, start_recording-StateOk clock a sps pps bytes s rec ok h k)

  on_state-StateOk :
      (clock : Clock) (nt : ℕ) (bytes : Bytes) (s : f.State) (rec : ClipRecorder) (state : State)
      → WellFormed clock.now rec
      → rec.state ≡ state
      → WellFormed clock.now (on_nal_slice f to_json clock nt bytes (s, rec)).0.1
  unfolding on_nal_slice
  on_state-StateOk clock nt bytes s rec idle ok h = ground (arith, ok, h)
  on_state-StateOk clock nt bytes s rec (armed a) ok h =
      ground (
        arith,
        h,
        on_nal_armed-StateOk clock a nt bytes rec.last_sps rec.last_pps s rec ok refl refl,
      )
  on_state-StateOk clock nt bytes s rec (recording r) ok h =
      ground (arith, h, on_nal_recording-StateOk clock clock.now r bytes s rec h ok)

  feed_param_set-StateOk :
      (i : ℕ) (bytes : Bytes) (s : f.State) (rec : ClipRecorder)
      → WellFormed i rec
      → WellFormed i (feed_param_set f to_json bytes (s, rec)).1
  unfolding feed_param_set
  feed_param_set-StateOk i bytes s rec ok = ground (arith, ok)

  flush_recording-StateOk :
      (i : ℕ) (s : f.State) (rec : ClipRecorder)
      → WellFormed i rec
      → WellFormed i (flush_recording f to_json (s, rec)).1
  unfolding flush_recording
  flush_recording-StateOk i s rec ok = ground (arith, ok)

  Present_lem :
      (cfg : ClipRecorderConfig) (sps pps : Option Bytes) (bytes : Bytes) (i : ℕ) (st : State)
      → StateOk cfg sps pps i st
      → StateOk cfg (some bytes) pps i st × StateOk cfg sps (some bytes) i st
  Present_lem cfg sps pps bytes i idle ok = (tt, tt)
  Present_lem cfg sps pps bytes i (armed a) ok = (tt, tt)
  Present_lem cfg sps pps bytes i (recording r) (t, p, q) = ((t, tt, q), (t, p, tt))

  on_type-StateOk :
      (clock : Clock) (bytes : Bytes) (nal_type : Option ℕ) (s : f.State) (rec : ClipRecorder)
      → WellFormed clock.now rec
      → nal_type_from_annexb bytes ≡ nal_type
      → WellFormed clock.now (on_nal f to_json clock bytes (s, rec)).0.1
  unfolding on_nal
  on_type-StateOk clock bytes none s rec ok h = ground (arith, ok, h)
  on_type-StateOk clock bytes (some nt) s rec ok h =
      let (with_sps, with_pps) =
        Present_lem rec.cfg rec.last_sps rec.last_pps bytes clock.now rec.state ok in
      ground (
        arith,
        h,
        feed_param_set-StateOk clock.now bytes s (record rec { last_sps = some bytes }) with_sps,
        feed_param_set-StateOk clock.now bytes s (record rec { last_pps = some bytes }) with_pps,
        on_state-StateOk clock nt bytes s rec rec.state ok refl,
      )

  rearm-StateOk :
      (now i : ℕ) (rec : ClipRecorder)
      → WellFormed i rec
      → WellFormed i (rearm_if_motion_active now rec)
  unfolding rearm_if_motion_active
  rearm-StateOk now i rec ok = ground (
    arith,
    ok,
    arm-StateOk rec.cfg rec.last_sps rec.last_pps i (or_min rec.last_motion_state rec.sticky_motion)
        now rec.state ok,
  )

  maybe_stop-StateOk :
      (clock : Clock) (i : ℕ) (s : f.State) (rec : ClipRecorder)
      → WellFormed i rec
      → WellFormed i (maybe_stop_on_deadline f to_json clock (s, rec)).1
  unfolding maybe_stop_on_deadline
  maybe_stop-StateOk clock i s rec ok =
      let rec' = (stop_recording f to_json clock (s, rec)).1 in
      let ok' = stop_recording-StateOk clock i s rec in
      ground (arith, ok, ok', rearm-StateOk clock.now i rec' ok')

  -- Both reads of the clock are not before an instant, and in order.
  pub record After (instant : ℕ) (clock : Clock) : Type 0 where
    pub elapsed_lem : instant ≤ clock.elapsed_at
    pub now_lem : clock.elapsed_at ≤ clock.now

  later_lem :
      (clock : Clock) (instant : ℕ) (rec : ClipRecorder)
      → After instant clock
      → WellFormed instant rec
      → WellFormed clock.now rec
  later_lem clock instant rec after ok =
      StateOk-later rec.cfg rec.last_sps rec.last_pps instant clock.now rec.state
        (omega (arith, after.elapsed_lem, after.now_lem)) ok

  pub step-WellFormed :
      (clock : Clock) (event : Event) (instant : ℕ) (s : f.State) (rec : ClipRecorder)
      → After instant clock
      → WellFormed instant rec
      → WellFormed clock.now (step f to_json clock event (s, rec)).0.1
  unfolding step on_motion_state_change
  step-WellFormed clock tick instant s rec after ok =
      maybe_stop-StateOk clock clock.now s rec (later_lem clock instant rec after ok)
  step-WellFormed clock cleanup instant s rec after ok = later_lem clock instant rec after ok
  step-WellFormed clock flush instant s rec after ok =
      flush_recording-StateOk clock.now s rec (later_lem clock instant rec after ok)
  step-WellFormed clock (motion m) instant s rec after ok =
      motion_transition-StateOk rec.cfg rec.last_sps rec.last_pps instant clock.elapsed_at clock.now
        (not (is_empty m)) m (next_sticky m (is_recording rec.state) rec.sticky_motion) rec.state
        after.elapsed_lem after.now_lem ok
  step-WellFormed clock (nal bytes) instant s rec after ok =
      on_type-StateOk clock bytes (nal_type_from_annexb bytes) s rec
        (later_lem clock instant rec after ok) refl

  -- The clocks of the rounds go forward from an instant.
  abbrev pub Forward : ℕ → List (Clock × Event) → Type 0
  Forward instant [] = Unit
  Forward instant ((clock, event) ∷ events) = After instant clock × Forward clock.now events

  -- The last instant that the rounds have read, from a given one on.
  abbrev pub last_now : ℕ → List (Clock × Event) → ℕ
  last_now instant [] = instant
  last_now instant ((clock, event) ∷ events) = last_now clock.now events

  rounds_lem :
      (instant : ℕ) (events : List (Clock × Event)) (s : f.State) (rec : ClipRecorder)
      → Forward instant events
      → WellFormed instant rec
      → (rounds f to_json events (s, rec)).1 ≡ none
      → WellFormed (last_now instant events) (rounds f to_json events (s, rec)).0.1
  unfolding rounds
  rounds_lem instant [] s rec h ok e = ok
  rounds_lem instant ((clock, event) ∷ events) s rec (h, k) ok e =
      let (s', rec') = (step f to_json clock event (s, rec)).0 in
      ground (
        arith,
        e,
        step-WellFormed clock event instant s rec h ok,
        rounds_lem clock.now events s' rec' k,
      )

  -- From a new recorder on, in any order of its rounds, as long as the clock does not run backwards and
  -- no round returns an error: while a clip is under way, both parameter sets have been seen, the
  -- clip's hard deadline is `max_clip_secs` after its start (none, if that is not configured), and
  -- its other deadline, if set, is not before its start plus `min_clip_duration`.
  pub rounds-new-WellFormed :
      (cfg : ClipRecorderConfig) (events : List (Clock × Event)) (s : f.State)
      → Forward 0 events
      → (rounds f to_json events (s, new cfg)).1 ≡ none
      → WellFormed (last_now 0 events) (rounds f to_json events (s, new cfg)).0.1
  unfolding new
  rounds-new-WellFormed cfg events s h e = rounds_lem 0 events s (new cfg) h tt e
