-- ===== src/Clip/Writer/Retry.antt =====
-- `write_active_clip_nal_with_retry` of sentinel_rtp_cam/src/server_pipeline.rs, with no time-outs.
use sentinel_video_receiver.Prelude.{
  ℕ, zero, suc, ◌+◌, ◌*◌, ◌≡◌, arith, Bool, true, false, none, some, ◌++◌, length, length-append,
  Bytes,
}
use sentinel_video_receiver.Clip.Files.{ClipFiles}
use sentinel_video_receiver.Clip.Writer.{
  ClipWriter, total_bytes, write_pending, flush_pending, write_nal,
}

module _ (f : ClipFiles) where
  -- The `for`, with the attempts after the next one. When the last one fails, the .part file is
  -- removed.
  unfoldable pub attempts : ℕ → Bytes → f.State × ClipWriter → (f.State × ClipWriter) × Bool
  attempts zero nal (s, w) =
      let ((s', w'), e) = write_nal f nal (s, w) in
      elim e [ none ↦ ((s', w'), true) | some e ↦ (((f.remove_file s' w'.part_path).0, w'), false) ]
  attempts (suc left) nal (s, w) =
      let (sw', e) = write_nal f nal (s, w) in
      let rest = attempts left nal sw' in elim e [ none ↦ (sw', true) | some e ↦ rest ]

  unfoldable pub write_active_clip_nal_with_retry :
      ℕ → Bytes → f.State × ClipWriter → (f.State × ClipWriter) × Bool
  write_active_clip_nal_with_retry retry_count nal sw = attempts retry_count nal sw

  write_pending_lem :
      (s : f.State) (w : ClipWriter) → total_bytes (write_pending f (s, w)).0.1 ≡ total_bytes w
  unfolding write_pending total_bytes
  write_pending_lem s w = ground arith

  flush_pending_lem :
      (do_flush : Bool) (s : f.State) (w : ClipWriter)
      → total_bytes (flush_pending f do_flush (s, w)).0.1 ≡ total_bytes w
  unfolding flush_pending
  flush_pending_lem do_flush s w = ground (arith, write_pending_lem s w)

  write_nal_lem :
      (nal : Bytes) (s : f.State) (w : ClipWriter)
      → total_bytes (write_nal f nal (s, w)).0.1 ≡ total_bytes w + length nal
  unfolding write_nal total_bytes
  write_nal_lem nal s w = ground (
    arith,
    flush_pending_lem false s (record w { pending = w.pending ++ nal }),
    length-append w.pending nal,
  )

-- When the first attempt at a NAL fails and the second does not, the call reports success, and the
-- writer counts the bytes of the NAL twice: the failed attempt has kept them as pending.
pub total_bytes-retry :
    (f : ClipFiles) (retries : ℕ) (nal : Bytes) (s : f.State) (w : ClipWriter) (e : f.Error)
    → (write_nal f nal (s, w)).1 ≡ some e
    → (write_nal f nal (write_nal f nal (s, w)).0).1 ≡ none
    → let ((s', w'), done) = write_active_clip_nal_with_retry f (suc retries) nal (s, w) in
      (done ≡ true) × (total_bytes w' ≡ total_bytes w + 2 * length nal)
unfolding write_active_clip_nal_with_retry attempts
total_bytes-retry f zero nal s w e h k =
    let (s', w') = (write_nal f nal (s, w)).0 in
    ground (arith, h, k, write_nal_lem f nal s w, write_nal_lem f nal s' w')
total_bytes-retry f (suc retries) nal s w e h k =
    let (s', w') = (write_nal f nal (s, w)).0 in
    ground (arith, h, k, write_nal_lem f nal s w, write_nal_lem f nal s' w')
