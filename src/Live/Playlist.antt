-- ===== src/Live/Playlist.antt =====
-- `PlaylistState` of sentinel_rtp_cam/src/live/v2.rs. Durations are nanoseconds; `print_secs` is the
-- `{:.3}` of a duration in seconds.
pub mod Window
use sentinel_video_receiver.Prelude.{
  ℕ, zero, suc, ◌+◌, ◌-◌, ◌*◌, ◌/◌, ◌%◌, max, Bool, true, false, Option, none, some, List, [], ◌∷◌,
  ◌++◌, ltb, if◌then◌else◌, length, replicate, Bytes, Text,
}
use sentinel_video_receiver.Clip.Files.{ClipFiles, and_then}
use sentinel_video_receiver.Clip.Paths.{join}
use sentinel_video_receiver.Live.Publisher.{publish_bytes}

pub record SegmentEntry : Type 0 where
  pub seq : ℕ
  pub duration_secs : ℕ
  pub filename : Text
  pub discontinuity : Bool

pub record PlaylistState : Type 0 where
  pub target_duration_secs : ℕ
  pub max_segments : ℕ
  pub next_segment_seq : ℕ
  pub entries : List SegmentEntry

unfoldable pub new : ℕ → ℕ → PlaylistState
new segment_secs window_secs =
    let target_duration_secs = max segment_secs 1 in
    let max_segments =
      (max window_secs target_duration_secs + target_duration_secs - 1) / target_duration_secs
      + 1 in
    record {
      target_duration_secs = target_duration_secs;
      max_segments = max max_segments 3;
      next_segment_seq = 1;
      entries = [];
    }

-- A number in decimal; there are no more digits than the number says, and one.
unfoldable pub digits : ℕ → ℕ → Text
digits zero n = []
digits (suc fuel) n =
    let front = digits fuel (n / 10) in
    if ltb n 10 then (48 + n) ∷ [] else front ++ ((48 + n % 10) ∷ [])

abbrev pub decimal : ℕ → Text
decimal n = digits (suc n) n

-- "seg_{seq:06}.ts"
unfoldable pub segment_name : ℕ → Text
segment_name seq =
    let d = decimal seq in
    b's' ∷ b'e' ∷ b'g' ∷ b'_' ∷ (replicate (6 - length d) 48 ++ (d ++ (b'.' ∷ b't' ∷ b's' ∷ [])))

unfoldable pub next_segment_path : Text → PlaylistState → PlaylistState × (ℕ × Text)
next_segment_path output_root p = (
  record p { next_segment_seq = p.next_segment_seq + 1 },
  (p.next_segment_seq, join output_root (segment_name p.next_segment_seq)),
)

-- The `while` that evicts: the entries that stay, and the file names of the others.
unfoldable pub evict : ℕ → List SegmentEntry → List SegmentEntry × List Text
evict max_segments [] = ([], [])
evict max_segments (oldest ∷ entries) =
    let (kept, evicted) = evict max_segments entries in
    if ltb max_segments (length (oldest ∷ entries))
    then (kept, oldest.filename ∷ evicted)
    else (oldest ∷ entries, [])

abbrev pub media_sequence : List SegmentEntry → ℕ
media_sequence [] = 0
media_sequence (entry ∷ entries) = entry.seq

-- "#EXTM3U", "#EXT-X-VERSION:3" and "#EXT-X-INDEPENDENT-SEGMENTS", each a line.
abbrev header_tags : Text
header_tags =
    b'#' ∷ b'E' ∷ b'X' ∷ b'T' ∷ b'M' ∷ b'3' ∷ b'U' ∷ 10 ∷ b'#' ∷ b'E' ∷ b'X' ∷ b'T' ∷ b'-' ∷ b'X'
    ∷ b'-' ∷ b'V' ∷ b'E' ∷ b'R' ∷ b'S' ∷ b'I' ∷ b'O' ∷ b'N' ∷ b':' ∷ b'3' ∷ 10 ∷ b'#' ∷ b'E' ∷ b'X'
    ∷ b'T' ∷ b'-' ∷ b'X' ∷ b'-' ∷ b'I' ∷ b'N' ∷ b'D' ∷ b'E' ∷ b'P' ∷ b'E' ∷ b'N' ∷ b'D' ∷ b'E'
    ∷ b'N' ∷ b'T' ∷ b'-' ∷ b'S' ∷ b'E' ∷ b'G' ∷ b'M' ∷ b'E' ∷ b'N' ∷ b'T' ∷ b'S' ∷ 10 ∷ []

-- "#EXT-X-TARGETDURATION:"
abbrev target_tag : Text
target_tag =
    b'#' ∷ b'E' ∷ b'X' ∷ b'T' ∷ b'-' ∷ b'X' ∷ b'-' ∷ b'T' ∷ b'A' ∷ b'R' ∷ b'G' ∷ b'E' ∷ b'T' ∷ b'D'
    ∷ b'U' ∷ b'R' ∷ b'A' ∷ b'T' ∷ b'I' ∷ b'O' ∷ b'N' ∷ b':' ∷ []

-- "#EXT-X-MEDIA-SEQUENCE:"
abbrev sequence_tag : Text
sequence_tag =
    b'#' ∷ b'E' ∷ b'X' ∷ b'T' ∷ b'-' ∷ b'X' ∷ b'-' ∷ b'M' ∷ b'E' ∷ b'D' ∷ b'I' ∷ b'A' ∷ b'-' ∷ b'S'
    ∷ b'E' ∷ b'Q' ∷ b'U' ∷ b'E' ∷ b'N' ∷ b'C' ∷ b'E' ∷ b':' ∷ []

-- "#EXT-X-DISCONTINUITY", as a line.
abbrev discontinuity_tag : Text
discontinuity_tag =
    b'#' ∷ b'E' ∷ b'X' ∷ b'T' ∷ b'-' ∷ b'X' ∷ b'-' ∷ b'D' ∷ b'I' ∷ b'S' ∷ b'C' ∷ b'O' ∷ b'N' ∷ b'T'
    ∷ b'I' ∷ b'N' ∷ b'U' ∷ b'I' ∷ b'T' ∷ b'Y' ∷ 10 ∷ []

-- "#EXTINF:"
abbrev extinf_tag : Text
extinf_tag = b'#' ∷ b'E' ∷ b'X' ∷ b'T' ∷ b'I' ∷ b'N' ∷ b'F' ∷ b':' ∷ []

-- "index.m3u8"
abbrev index_name : Text
index_name = b'i' ∷ b'n' ∷ b'd' ∷ b'e' ∷ b'x' ∷ b'.' ∷ b'm' ∷ b'3' ∷ b'u' ∷ b'8' ∷ []

-- `entry` as lines: "#EXT-X-DISCONTINUITY", if it is one, "#EXTINF:{},", and the file name.
unfoldable pub entry_lines : (ℕ → Text) → SegmentEntry → Text
entry_lines print_secs entry =
    (if entry.discontinuity then discontinuity_tag else [])
    ++ (extinf_tag
        ++ (print_secs entry.duration_secs ++ (b',' ∷ 10 ∷ (entry.filename ++ (10 ∷ [])))))

abbrev all_lines : (ℕ → Text) → List SegmentEntry → Text
all_lines print_secs [] = []
all_lines print_secs (entry ∷ entries) =
    entry_lines print_secs entry ++ all_lines print_secs entries

unfoldable pub playlist_text : (ℕ → Text) → PlaylistState → List SegmentEntry → Text
playlist_text print_secs p entries =
    header_tags
    ++ (target_tag
        ++ (decimal p.target_duration_secs
            ++ (10
                ∷ (sequence_tag
                    ++ (decimal (media_sequence entries) ++ (10 ∷ all_lines print_secs entries))))))

module _ (f : ClipFiles) (print_secs : ℕ → Text) where
  unfoldable pub publish_entries :
      PlaylistState → Text → List SegmentEntry → f.State → f.State × Option f.Error
  publish_entries p output_root entries s =
      publish_bytes f s (join output_root index_name) (playlist_text print_secs p entries)

  abbrev remove_known : f.State → Text → Option (ℕ × ℕ) → f.State × Option f.Error
  remove_known s path none = (s, none)
  remove_known s path (some meta) = f.remove_file s path

  -- The `for` over the evicted names, up to the first error.
  unfoldable pub remove_evicted : Text → List Text → f.State → f.State × Option f.Error
  remove_evicted output_root [] s = (s, none)
  remove_evicted output_root (filename ∷ filenames) s =
      let old_path = join output_root filename in
      and_then (remove_known s old_path (f.metadata s old_path))
        (remove_evicted output_root filenames)

  -- `duration_secs.max(0.001)` is a millisecond at least.
  unfoldable pub push_segment :
      Text → ℕ → ℕ → Bool → f.State × PlaylistState → (f.State × PlaylistState) × Option f.Error
  push_segment output_root seq duration_secs discontinuity (s, p) =
      let entry : SegmentEntry = record {
        seq = seq;
        duration_secs = max duration_secs 1000000;
        filename = segment_name seq;
        discontinuity = discontinuity;
      } in
      let (next_entries, evicted) = evict p.max_segments (p.entries ++ (entry ∷ [])) in
      let (s', e) = publish_entries p output_root next_entries s in
      elim e [
        | some e ↦ ((s', p), some e)
        | none ↦
            let (s'', e) = remove_evicted output_root evicted s' in
            ((s'', record p { entries = next_entries }), e)
      ]
