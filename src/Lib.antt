-- ===== src/Lib.antt =====
-- Verification of the RTP camera agent and receiver (Rust, crate `sentinel_rtp_cam`).
--
-- The parts. A camera's RTP packets are parsed (core/rtp.rs; core/rtp_refactored.rs is the zero-copy
-- version), their payloads become H.264 NAL units (core/h264_depacketize.rs), and a gate holds the
-- NALs back until a decoder can start (core/h264_sync.rs). Agent and server talk in framed messages
-- (proto.rs). Motion events of a camera get stable event ids (motion_event_latch.rs) and become a
-- state that watchers see (event/event_bus.rs); on that state and the NALs the recorder
-- (core/clip_recorder.rs) starts and ends clips, which it writes in batches (core/clip_writer.rs). The
-- live stream takes the same packets, cuts their access units into MPEG-TS segments and lists these in a
-- playlist (live/v2.rs); the older pipeline (server_pipeline.rs) keeps them in a ring and writes clips out
-- of it on motion. The server has one pipeline for each stream, started when a message of that stream
-- arrives (bin/server_ingest.rs). When the disk is full the oldest clips go (utils/disk_cleanup.rs). The agent
-- tracks outages of a camera (bin/agent_forward.rs), reads packets out of an RTSP connection
-- (rtsp/interleaved.rs), sends them on in TLS records (agent_uplink.rs) and repeats HTTP requests
-- (utils/retry_helper.rs).
--
-- Files, with paths from sentinel_rtp_cam/src.
--   Prelude, and below it: shared types, bytes and words, lists over the native numbers.
--   Io: tokio's byte streams, as interfaces with laws.
--   Rtp: core/rtp.rs. Below it Wire (the RFC 3550 layout as a writer), Bounds, RoundTrip and ZeroCopy
--     (core/rtp_refactored.rs), with ZeroCopy.Agree for the two parsers side by side.
--   H264.Nal, H264.Depacketizer, H264.SyncGate: core/video.rs, core/h264_depacketize.rs and
--     core/h264_sync.rs.
--   Proto: proto.rs.
--   Motion: motion_event_latch.rs (Latch; Latch.Period is its specification) and the data and the
--     `MotionStateBus` of event/event_bus.rs.
--   Clip: core/clip_writer.rs (Writer; Writer.Retry: the retries of server_pipeline.rs, without
--     time-outs) and core/clip_recorder.rs (Recorder: motion states; Nal: video; Stop: the end of a clip;
--     Cleanup: files removed; Run: the loop), over the files of Clip.Files.
--     Clip.Disk: utils/disk_cleanup.rs.
--   Server: server_pipeline.rs (Health: counters and health files; Stream: variables, units and the ring;
--     Stream.Clips: its clips; Stream.Messages: `run_stream`; below Stream too, Log, History, Units and
--     Preserved: what enters the ring, and the invariant; Prerolls and Content: what its clips hold).
--     Ingest: the table of streams in bin/server_ingest.rs; Ingest.Connection: `handle_conn`; Readers
--     and Routes: who reads which channel; Ready, Endings and Deliveries: what becomes of messages.
--   Live: live/v2.rs. Ts: MPEG-TS packets; Publisher: files published by renaming, and segments;
--     Playlist: the listed segments; Stream and Stream.Messages: `run_stream_v2` (Stream.Marks and
--     Stream.Losses: what lost input does to it). Its counters, health
--     files and logs, and the directories of sessions, are not modelled.
--   Texts: the functions on `str` that the code uses.
--   Rtsp: rtsp/interleaved.rs, over `read_exact_bytes` of rtsp/rtsp.rs, whose client is a byte stream in
--     the sense of Io. Response: requests and responses of rtsp/rtsp.rs. Receiver: the loops of
--     rtsp/rtsp_receiver_tcp.rs and rtsp/rtsp_receiver_udp.rs; the UDP one's watchdog is left out.
--     Uplink: the records of agent_uplink.rs.
--   Agent.Offline: `OfflineTracker` of bin/agent_forward.rs. Agent.Retry: utils/retry_helper.rs.
--
-- How the model stands to the code. A byte is a number below 256; shifts and masks are written as
-- divisions and remainders, and Prelude.Words compares these forms with the bit operations for every
-- byte. A method on `&mut self` returns the new state. A call comes to a value, an error value with
-- the numbers of its message, or a panic (an index or a slice out of range). `usize` is unbounded:
-- no sum of it here goes beyond the length of a buffer by more than 2 ^ 18. The u64 numbers of bytes and
-- segments are unbounded too, as are instants. Log lines are left out.
-- A map with unique keys is an association list. An instant is a number of nanoseconds, and each call
-- takes what it reads of the clocks as an argument. The loop of the recorder and that of `run_stream` are
-- lists of their events, in any order; these loops end with an error only, since the branches of their
-- timers are always there.
-- The `while` of `read_exact_bytes` has as fuel the number of bytes asked for and one more; it ends after
-- one round.
-- Connections and pipelines of the server run side by side: what each does under a lock is one step, and
-- the steps may come in any order. What others do between the calls of `send_or_recreate_stream_msg` is an
-- argument of it; `handle_conn` is a connection that nothing interrupts.
-- The loop of `read_response` has as fuel the greatest length of a head, and the length of the body,
-- and one more each; each round takes a byte or more.
-- The loop of `cleanup_until_space_available` has a fuel that the caller of the model chooses; one more
-- than there are files in the directory is enough, as long as no other process adds any.
-- The `while` of `packetize_ts` has as fuel the length of the payload; each round takes a byte or more.
-- The `while` of `handle_stap_a` has as fuel the length of the payload and one more; each round takes
-- three bytes or more, so it ends by its own test.
pub mod Prelude
pub mod Texts
pub mod Io
pub mod Rtp
pub mod H264
pub mod Proto
pub mod Motion
pub mod Clip
pub mod Agent
pub mod Live
pub mod Rtsp
pub mod Uplink
pub mod Server
