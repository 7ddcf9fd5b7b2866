-- ===== src/Server/Stream/Log.antt =====
-- What each round of `run_stream` in sentinel_rtp_cam/src/server_pipeline.rs does to the sync of the stream
-- and which unit it puts into the ring.
use sentinel_video_receiver.Prelude.{
  Option, none, some, List, [], ◌∷◌, ◌++◌, if◌then◌else◌, is_empty, Outcome, ok, Bytes,
}
use sentinel_video_receiver.Rtp
use sentinel_video_receiver.Rtp.{RtpPacket, ParseError}
use sentinel_video_receiver.H264.Depacketizer.{Nals, push_rtp_payload}
use sentinel_video_receiver.Clip.Files.{ClipFiles}
use sentinel_video_receiver.Live.Stream.Messages.{out_of_sequence}
use sentinel_video_receiver.Server.Health.{StreamConfig, StreamHealthSnapshot}
use sentinel_video_receiver.Server.Stream.{
  rtp, gap, motion, AccessUnit, StreamState, build_access_unit,
}
use sentinel_video_receiver.Server.Stream.Clips.{ClipSidecar}
use sentinel_video_receiver.Server.Stream.Messages.{Reads, Event, tick, message, admit, round}
use sentinel_video_receiver.Server.Stream.History.{Entry, lost, entered}

abbrev pub admitted_log : Reads → Option AccessUnit → List Entry
admitted_log reads none = []
admitted_log reads (some au) = entered reads.pruned_at au ∷ []

abbrev pub marker_log : Reads → StreamState → List Entry
marker_log reads p =
    if is_empty p.current_au
    then []
    else (let (au, found) = build_access_unit reads.unit_at p.current_au p.sps p.pps in
        admitted_log reads (admit p.synced au found.sps found.pps))

abbrev pub pushed_log : Reads → RtpPacket → Nals → StreamState → List Entry
pushed_log reads pkt (ok nals) p =
    if pkt.marker then marker_log reads (record p { current_au = p.current_au ++ nals }) else []
pushed_log reads pkt _ p = lost ∷ []

abbrev pub packet_log : Reads → RtpPacket → StreamState → List Entry
packet_log reads pkt p =
    if out_of_sequence pkt.sequence_number p.expected_seq
    then lost ∷ []
    else pushed_log reads pkt (push_rtp_payload p.dep pkt.payload).1 p

abbrev pub parsed_log : Reads → Outcome ParseError RtpPacket → StreamState → List Entry
parsed_log reads (ok pkt) p = packet_log reads pkt p
parsed_log reads _ p = lost ∷ []

abbrev pub round_log : Reads → Event → StreamState → List Entry
round_log reads tick p = []
round_log reads (message (gap last new)) p = lost ∷ []
round_log reads (message (motion rule active ts)) p = []
round_log reads (message (rtp bytes)) p = parsed_log reads (Rtp.parse bytes) p

module _ (f : ClipFiles) (sidecar_json : ClipSidecar → Bytes)
    (health_json : StreamHealthSnapshot → Bytes) (cfg : StreamConfig) where
  -- All rounds, up to the first error.
  abbrev pub rounds_log : List (Reads × Event) → f.State × StreamState → List Entry
  rounds_log [] sp = []
  rounds_log ((reads, event) ∷ events) sp =
      let (sp', e) = round f sidecar_json health_json cfg reads event sp in
      round_log reads event sp.1 ++ elim e [ none ↦ rounds_log events sp' | some e ↦ [] ]
