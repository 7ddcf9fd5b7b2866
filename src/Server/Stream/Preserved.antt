-- ===== src/Server/Stream/Preserved.antt =====
-- The rounds of `run_stream` in sentinel_rtp_cam/src/server_pipeline.rs, with the invariant of its variables.
use sentinel_video_receiver.Prelude.{ℕ, List, [], ◌∷◌}
use sentinel_video_receiver.Rtp
use sentinel_video_receiver.Server.Stream.Messages.{Reads, Event}
use sentinel_video_receiver.Server.Stream.Units.{InOrder}

-- The clock goes forward within the rounds and from round to round.
abbrev pub Forward : ℕ → List (Reads × Event) → Type 0
Forward now [] = Unit
Forward now ((reads, event) ∷ events) = InOrder now reads × Forward reads.pruned_at events

-- The last reading of it.
abbrev pub last_at : ℕ → List (Reads × Event) → ℕ
last_at now [] = now
last_at now ((reads, event) ∷ events) = last_at reads.pruned_at events
