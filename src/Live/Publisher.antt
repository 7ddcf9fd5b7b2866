-- ===== src/Live/Publisher.antt =====
-- `AtomicPublisher` and `MpegTsSegmentWriter` of sentinel_rtp_cam/src/live/v2.rs.
pub mod Content
use sentinel_video_receiver.Prelude.{
  ℕ, Bool, true, false, Option, none, some, List, [], ◌∷◌, ◌++◌, Bytes, Text,
}
use sentinel_video_receiver.Clip.Files.{ClipFiles, and_then}
use sentinel_video_receiver.Clip.Paths.{file_name, parent, with_file_name}
use sentinel_video_receiver.Live.Ts.{
  video_pid, packetize_ts, build_pes_video, build_pat_packet, build_pmt_packet,
}

pub record AccessUnit : Type 0 where
  pub rtp_timestamp : ℕ
  pub nals : List Bytes
  pub has_idr : Bool

pub record AtomicPublisher : Type 0 where
  pub final_path : Text
  pub temp_path : Text

-- The file name with ".tmp" behind it.
unfoldable pub temp_path_for : Text → Text
temp_path_for final_path =
    with_file_name final_path (file_name final_path ++ (b'.' ∷ b't' ∷ b'm' ∷ b'p' ∷ []))

abbrev pub concat : List Bytes → Bytes
concat [] = []
concat (b ∷ bs) = b ++ concat bs

module _ (f : ClipFiles) where
  abbrev pub create_parent : f.State → Option Text → f.State × Option f.Error
  create_parent s none = (s, none)
  create_parent s (some dir) = f.create_dir_all s dir

  unfoldable pub create : f.State → Text → (f.State × AtomicPublisher) × Option f.Error
  create s final_path =
      let temp_path = temp_path_for final_path in
      let (s', e) = and_then (create_parent s (parent final_path)) λ s. f.create s temp_path in
      ((s', record { final_path = final_path; temp_path = temp_path }), e)

  unfoldable pub write_all :
      Bytes → f.State × AtomicPublisher → (f.State × AtomicPublisher) × Option f.Error
  write_all bytes (s, p) = let (s', e) = f.write_all s p.temp_path bytes in ((s', p), e)

  unfoldable pub publish : f.State × AtomicPublisher → f.State × Option f.Error
  publish (s, p) = and_then (f.flush s p.temp_path) λ s. f.rename s p.temp_path p.final_path

  abbrev remove_known : f.State → Text → Option (ℕ × ℕ) → f.State × Option f.Error
  remove_known s path none = (s, none)
  remove_known s path (some meta) = f.remove_file s path

  unfoldable pub discard : f.State × AtomicPublisher → f.State × Option f.Error
  discard (s, p) = remove_known s p.temp_path (f.metadata s p.temp_path)

  unfoldable pub publish_bytes : f.State → Text → Bytes → f.State × Option f.Error
  publish_bytes s final_path bytes =
      let ((s', p), e) = and_then (create s final_path) (write_all bytes) in
      and_then (s', e) λ s. publish (s, p)

-- A segment's publisher, with the continuity counters of its three streams.
pub record MpegTsSegmentWriter : Type 0 where
  pub publisher : AtomicPublisher
  pub pat_cc : ℕ
  pub pmt_cc : ℕ
  pub video_cc : ℕ

module _ (f : ClipFiles) where
  unfoldable pub create_segment : f.State → Text → (f.State × MpegTsSegmentWriter) × Option f.Error
  create_segment s path =
      let (pat, pat_cc) = build_pat_packet 0 in
      let (pmt, pmt_cc) = build_pmt_packet 0 in
      let ((s', p), e) =
        and_then (and_then (create f s path) (write_all f (concat pat)))
          (write_all f (concat pmt)) in
      ((s', record { publisher = p; pat_cc = pat_cc; pmt_cc = pmt_cc; video_cc = 0 }), e)

  unfoldable pub write_access_unit :
      AccessUnit → f.State × MpegTsSegmentWriter → (f.State × MpegTsSegmentWriter) × Option f.Error
  write_access_unit au (s, w) =
      let pes = build_pes_video au.rtp_timestamp (concat au.nals) in
      let (ts, video_cc) = packetize_ts video_pid pes w.video_cc true in
      let ((s', p), e) = write_all f (concat ts) (s, w.publisher) in
      ((s', record w { publisher = p; video_cc = video_cc }), e)
