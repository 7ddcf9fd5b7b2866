-- ===== src/Live/Publisher/Content.antt =====
-- What a published segment holds.
use sentinel_video_receiver.Prelude.{
  ℕ, true, ◌≡◌, arith, Option, none, some, List, [], ◌∷◌, ◌++◌, append_assoc, append-nil, Bytes,
  Text,
}
use sentinel_video_receiver.Clip.Files.{ClipFiles, and_then}
use sentinel_video_receiver.Clip.Paths.{parent}
use sentinel_video_receiver.Live.Ts.{
  video_pid, packetize_ts, build_pes_video, build_pat_packet, build_pmt_packet,
}
use sentinel_video_receiver.Live.Publisher.{
  AccessUnit, AtomicPublisher, MpegTsSegmentWriter, concat, create_parent, create, write_all,
  publish, create_segment, write_access_unit, temp_path_for,
}

-- The bytes that an access unit adds, from a counter on, and the counter after it.
abbrev pub au_bytes : AccessUnit → ℕ → Bytes × ℕ
au_bytes au video_cc =
    let (ts, cc) =
      packetize_ts video_pid (build_pes_video au.rtp_timestamp (concat au.nals)) video_cc true in
    (concat ts, cc)

abbrev pub aus_bytes : List AccessUnit → ℕ → Bytes
aus_bytes [] video_cc = []
aus_bytes (au ∷ aus) video_cc = let (bytes, cc) = au_bytes au video_cc in bytes ++ aus_bytes aus cc

abbrev pub tables : Bytes
tables = concat (build_pat_packet 0).0 ++ concat (build_pmt_packet 0).0

module _ (f : ClipFiles) where
  -- `write_access_unit` for each, up to the first error.
  unfoldable pub write_units :
      List AccessUnit
      → f.State × MpegTsSegmentWriter
      → (f.State × MpegTsSegmentWriter) × Option f.Error
  write_units [] sw = (sw, none)
  write_units (au ∷ aus) sw = and_then (write_access_unit f au sw) (write_units aus)

  -- A whole segment: created, filled and published, up to the first error.
  unfoldable pub write_segment : f.State → Text → List AccessUnit → f.State × Option f.Error
  write_segment s path aus =
      let ((s', w), e) = and_then (create_segment f s path) (write_units aus) in
      and_then (s', e) λ s. publish f (s, w.publisher)

  -- What the publisher has taken, and for which path.
  pub record Taken (given : Bytes) (path : Text) (s : f.State) (p : AtomicPublisher) : Type 0 where
    pub bytes_lem : f.taken s p.temp_path ≡ given
    pub path_lem : p.final_path ≡ path

  create-Taken :
      (s : f.State) (path : Text)
      → (create f s path).1 ≡ none
      → Taken [] path (create f s path).0.0 (create f s path).0.1
  unfolding create
  create-Taken s path e =
      let s' = (create_parent f s (parent path)).0 in
      ground (arith, e, f.create-taken s' (temp_path_for path))

  write_all-Taken :
      (given bytes : Bytes) (path : Text) (s : f.State) (p : AtomicPublisher)
      → Taken given path s p
      → (write_all f bytes (s, p)).1 ≡ none
      → Taken (given ++ bytes) path (write_all f bytes (s, p)).0.0 (write_all f bytes (s, p)).0.1
  unfolding write_all
  write_all-Taken given bytes path s p h e =
      ground (arith, h, e, f.write_all-taken s p.temp_path bytes)

  publish-Taken :
      (given : Bytes) (path : Text) (s : f.State) (p : AtomicPublisher)
      → Taken given path s p
      → (publish f (s, p)).1 ≡ none
      → f.content (publish f (s, p)).0 path ≡ some given
  unfolding publish
  publish-Taken given path s p h e =
      let s' = (f.flush s p.temp_path).0 in
      ground
        (arith, h, e, f.flush-content s p.temp_path, f.rename-content s' p.temp_path p.final_path)

  create_segment-Taken :
      (s : f.State) (path : Text)
      → (create_segment f s path).1 ≡ none
      → let (s', w) = (create_segment f s path).0 in
        Taken tables path s' w.publisher × (w.video_cc ≡ 0)
  unfolding create_segment
  create_segment-Taken s path e =
      let (s₁, p₁) = (create f s path).0 in
      let pat = concat (build_pat_packet 0).0 in
      let (s₂, p₂) = (write_all f pat (s₁, p₁)).0 in
      ground (
        arith,
        e,
        create-Taken s path,
        write_all-Taken [] pat path s₁ p₁,
        write_all-Taken pat (concat (build_pmt_packet 0).0) path s₂ p₂,
      )

  write_units-Taken :
      (aus : List AccessUnit) (given : Bytes) (path : Text) (s : f.State) (w : MpegTsSegmentWriter)
      → Taken given path s w.publisher
      → (write_units aus (s, w)).1 ≡ none
      → let (s', w') = (write_units aus (s, w)).0 in
        Taken (given ++ aus_bytes aus w.video_cc) path s' w'.publisher
  unfolding write_units write_access_unit
  write_units-Taken [] given path s w h e = rw append-nil h
  write_units-Taken (au ∷ aus) given path s w h e =
      let (s', w') = (write_access_unit f au (s, w)).0 in
      let (bytes, cc) = au_bytes au w.video_cc in
      ground (
        arith,
        h,
        e,
        write_all-Taken given bytes path s w.publisher h,
        write_units-Taken aus (given ++ bytes) path s' w',
        append_assoc given bytes (aus_bytes aus cc),
      )

-- A segment that is created, given any access units and published with no error of the files on the
-- way is, under its final name, exactly the program tables and then the packets of the access units
-- one after the other, with continuity counters that go on from one unit to the next.
pub content-write_segment :
    (f : ClipFiles) (s : f.State) (path : Text) (aus : List AccessUnit)
    → (write_segment f s path aus).1 ≡ none
    → f.content (write_segment f s path aus).0 path ≡ some (tables ++ aus_bytes aus 0)
unfolding write_segment
content-write_segment f s path aus e =
    let (s₁, w₁) = (create_segment f s path).0 in
    let (s₂, w₂) = (write_units f aus (s₁, w₁)).0 in
    ground (
      arith,
      e,
      create_segment-Taken f s path,
      write_units-Taken f aus tables path s₁ w₁,
      publish-Taken f (tables ++ aus_bytes aus 0) path s₂ w₂.publisher,
    )
