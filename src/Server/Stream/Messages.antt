-- ===== src/Server/Stream/Messages.antt =====
-- The handling of messages in `run_stream` of sentinel_rtp_cam/src/server_pipeline.rs, and its loop.
use sentinel_video_receiver.Prelude.{
  ℕ, ◌+◌, ◌%◌, Bool, true, false, not, ◌&&◌, Option, none, some, List, [], ◌∷◌, ◌++◌, if◌then◌else◌,
  is_empty, Outcome, ok, Bytes, Text,
}
use sentinel_video_receiver.Rtp
use sentinel_video_receiver.Rtp.{RtpPacket, ParseError}
use sentinel_video_receiver.H264.Depacketizer.{Nals, push_rtp_payload}
use sentinel_video_receiver.Clip.Files.{ClipFiles, and_then}
use sentinel_video_receiver.Live.Stream.{saturating_suc, is_some}
use sentinel_video_receiver.Live.Stream.Messages.{out_of_sequence}
use sentinel_video_receiver.Server.Health.{
  StreamConfig, StreamHealthSnapshot, mark_stream_error, maybe_write_stream_health,
}
use sentinel_video_receiver.Server.Stream.{
  StreamMsg, rtp, gap, motion, AccessUnit, ClipState, StreamState, start, build_access_unit,
  prune_ring, should_finalize_clip, drop_input,
}
use sentinel_video_receiver.Server.Stream.Clips.{
  ClipSidecar, ClipReads, try_start_clip, write_active, finalize_clip, cleanup_stale_parts,
}

-- The reads of the clocks in one round of the loop.
pub record Reads : Type 0 where
  pub received_utc : ℕ
  pub error_utc : ℕ
  pub unit_at : ℕ
  pub unit_utc : ℕ
  pub pruned_at : ℕ
  pub clip : ClipReads
  pub tick_at : ℕ
  pub ended_utc : ℕ
  pub health_at : ℕ
  pub health_utc : ℕ

-- A round of the `select!`.
pub data Event : Type 0 where
  tick : Event
  message : StreamMsg → Event

-- The resets of a gap, and of a packet or a payload that cannot be read.
unfoldable pub lose_input : StreamState → StreamState
lose_input p = record (drop_input p) { expected_seq = none }

unfoldable pub on_gap : Reads → StreamState → StreamState
on_gap reads p = lose_input (record p {
  stats = record p.stats {
    total_gaps = saturating_suc p.stats.total_gaps;
    last_gap_at = some reads.received_utc;
  };
})

unfoldable pub on_error : Reads → StreamState → StreamState
on_error reads p = lose_input (record p { stats = mark_stream_error reads.error_utc p.stats })

unfoldable pub on_motion : Reads → Text → Bool → StreamState → StreamState
on_motion reads rule active p =
    let p' : StreamState = record p {
      stats = record p.stats {
        total_motion_events = saturating_suc p.stats.total_motion_events;
        last_motion_at = some reads.received_utc;
      };
    } in
    if active && not (is_some p.clip)
    then record p' { clip_pending = true; pending_rule = rule; pending_ring_snapshot = some p.ring }
    else p'

-- The unit that enters the ring, if one does, and whether the stream is in sync: the block of
-- `if !synced`.
unfoldable pub admit : Bool → AccessUnit → Option Bytes → Option Bytes → Option AccessUnit
admit true au sps pps = some au
admit false au (some sps) (some pps) =
    if au.has_idr then some (record au { nals = sps ∷ pps ∷ au.nals }) else none
admit false au _ _ = none

unfoldable pub push_ring : Reads → ℕ → AccessUnit → StreamState → StreamState
push_ring reads ring_secs au p = record p {
  synced = true;
  ring = prune_ring reads.pruned_at ring_secs (p.ring ++ (au ∷ []));
  stats = record p.stats {
    total_access_units = saturating_suc p.stats.total_access_units;
    last_access_unit_at = some reads.unit_utc;
  };
}

-- `ring.back()`
unfoldable pub back : List AccessUnit → Option AccessUnit
back [] = none
back (au ∷ aus) = elim (back aus) [ none ↦ some au | some last ↦ some last ]

abbrev pub Step : ClipFiles → Type 0
Step f = (f.State × StreamState) × Option f.Error

module _ (f : ClipFiles) (sidecar_json : ClipSidecar → Bytes)
    (health_json : StreamHealthSnapshot → Bytes) (cfg : StreamConfig) where
  -- `if clip_pending && clip.is_none()`.
  unfoldable pub start_pending : Reads → f.State × StreamState → Step f
  start_pending reads (s, p) =
      if p.clip_pending && not (is_some p.clip)
      then (let ((s', clip), e) =
            try_start_clip f cfg reads.clip p.pending_rule p.pending_ring_snapshot p.sps p.pps s in
          and_then ((s', p), e)
            λ (s, p). elim clip [
              | none ↦ ((s, p), none)
              | some cs ↦ (
                (
                  s,
                  record p { clip = some cs; clip_pending = false; pending_ring_snapshot = none },
                ),
                none,
              )
            ])
      else ((s, p), none)

  -- `if let Some(cs) = &mut clip` and `if let Some(au) = ring.back()`.
  unfoldable pub write_back :
      Option ClipState → Option AccessUnit → f.State × StreamState → f.State × StreamState
  write_back (some cs) (some au) (s, p) =
      let (s', clip) = write_active f cfg.clip_write_retry_count au.nals (s, cs) in
      (s', record p { clip = clip })
  write_back _ _ sp = sp

  -- What follows the admission of a unit.
  unfoldable pub on_unit : Reads → AccessUnit → f.State × StreamState → Step f
  on_unit reads au (s, p) =
      and_then (start_pending reads (s, push_ring reads cfg.ring_secs au p))
        λ (s, p). (write_back p.clip (back p.ring) (s, p), none)

  abbrev pub on_admitted : Reads → Option AccessUnit → f.State × StreamState → Step f
  on_admitted reads none sp = (sp, none)
  on_admitted reads (some au) sp = on_unit reads au sp

  -- The body of `if pkt.marker`.
  unfoldable pub on_marker : Reads → f.State × StreamState → Step f
  on_marker reads (s, p) =
      if is_empty p.current_au
      then ((s, p), none)
      else (let (au, found) = build_access_unit reads.unit_at p.current_au p.sps p.pps in
          let p' : StreamState = record p { sps = found.sps; pps = found.pps; current_au = [] } in
          on_admitted reads (admit p.synced au found.sps found.pps) (s, p'))

  unfoldable pub on_pushed : Reads → RtpPacket → Nals → f.State × StreamState → Step f
  on_pushed reads pkt (ok nals) (s, p) =
      let p' : StreamState = record p { current_au = p.current_au ++ nals } in
      if pkt.marker then on_marker reads (s, p') else ((s, p'), none)
  on_pushed reads pkt _ (s, p) = ((s, on_error reads p), none)

  -- A packet in or out of sequence.
  unfoldable pub on_packet : Reads → RtpPacket → f.State × StreamState → Step f
  on_packet reads pkt (s, p) =
      let next : StreamState = record p {
        expected_seq = some ((pkt.sequence_number + 1) % 65536);
      } in
      if out_of_sequence pkt.sequence_number p.expected_seq
      then ((s, drop_input next), none)
      else (let (dep, pushed) = push_rtp_payload p.dep pkt.payload in
          on_pushed reads pkt pushed (s, record next { dep = dep }))

  unfoldable pub on_parsed : Reads → Outcome ParseError RtpPacket → f.State × StreamState → Step f
  on_parsed reads (ok pkt) sp = on_packet reads pkt sp
  on_parsed reads _ (s, p) = ((s, on_error reads p), none)

  abbrev pub count_rtp : Reads → StreamState → StreamState
  count_rtp reads p = record p {
    stats = record p.stats {
      total_rtp_packets = saturating_suc p.stats.total_rtp_packets;
      last_rtp_at = some reads.received_utc;
    };
  }

  unfoldable pub on_message : Reads → StreamMsg → f.State × StreamState → Step f
  on_message reads (gap last new) (s, p) = ((s, on_gap reads p), none)
  on_message reads (motion rule active ts) (s, p) = ((s, on_motion reads rule active p), none)
  on_message reads (rtp bytes) (s, p) = on_parsed reads (Rtp.parse bytes) (s, count_rtp reads p)

  -- The clip of the tick, taken and finalized when it is due.
  unfoldable pub finalize_due : Reads → Option ClipState → f.State × StreamState → Step f
  finalize_due reads none sp = (sp, none)
  finalize_due reads (some cs) (s, p) =
      if should_finalize_clip reads.tick_at cs.stop_at cs.hard_stop_at
      then (let (s', e) = finalize_clip f sidecar_json cfg.stream_id reads.ended_utc (s, cs) in
          ((s', record p { clip = none }), e))
      else ((s, p), none)

  unfoldable pub on_tick : Reads → f.State × StreamState → Step f
  on_tick reads (s, p) = and_then (finalize_due reads p.clip (s, p)) λ (s, p).
      let ((s', stats), e) =
        maybe_write_stream_health f health_json cfg reads.health_at reads.health_utc
          (is_some p.clip) p.clip_pending (s, p.stats) in
      ((s', record p { stats = stats }), e)

  unfoldable pub round : Reads → Event → f.State × StreamState → Step f
  round reads tick sp = on_tick reads sp
  round reads (message msg) sp = on_message reads msg sp

  -- The loop, up to the first error.
  unfoldable pub rounds : List (Reads × Event) → f.State × StreamState → Step f
  rounds [] sp = (sp, none)
  rounds ((reads, event) ∷ events) sp = and_then (round reads event sp) (rounds events)

  -- `run_stream`, up to its first error; `none` is a clip directory that cannot be listed. The branch
  -- of the timer is always there, so that the loop ends with an error only.
  unfoldable pub run_stream : ℕ → List (Reads × Event) → f.State → Option (Step f)
  run_stream system events s =
      let (s₁, e) = f.create_dir_all s cfg.clip_dir in
      elim e [
        | some e ↦ some ((s₁, start), some e)
        | none ↦ elim (cleanup_stale_parts f cfg system s₁) [
          | none ↦ none
          | some s₂ ↦ some (rounds events (s₂, start))
        ]
      ]
