-- ===== src/Live/Playlist/Window.antt =====
-- Which segments a playlist lists.
use sentinel_video_receiver.Prelude.{
  ℕ, suc, max, ◌≤◌, ◌<◌, arith, Bool, List, [], ◌∷◌, ◌++◌, length, Text,
}
use sentinel_video_receiver.Clip.Files.{ClipFiles}
use sentinel_video_receiver.Live.Playlist.{
  SegmentEntry, PlaylistState, new, segment_name, evict, push_segment,
}

-- Sequence numbers that go up, from a bound on and below another.
abbrev pub Between : ℕ → ℕ → List SegmentEntry → Type 0
Between low high [] = low ≤ high
Between low high (e ∷ es) = (low ≤ e.seq) × Between (suc e.seq) high es

-- A playlist lists its segments in order and each once, none from the future, and no more than its
-- window holds.
pub record WellFormed (p : PlaylistState) : Type 0 where
  pub order_lem : Between 1 p.next_segment_seq p.entries
  pub window_lem : length p.entries ≤ p.max_segments

Between-append :
    (low high : ℕ) (es : List SegmentEntry) (e : SegmentEntry)
    → Between low e.seq es
    → e.seq < high
    → Between low high (es ++ (e ∷ []))
Between-append low high [] e h k = (h, omega (arith, k))
Between-append low high (d ∷ es) e (h, hs) k = (h, Between-append (suc d.seq) high es e hs k)

pub Between-higher :
    (low high high' : ℕ) (es : List SegmentEntry)
    → high ≤ high'
    → Between low high es
    → Between low high' es
Between-higher low high high' [] k h = omega (arith, h, k)
Between-higher low high high' (e ∷ es) k (h, hs) =
    (h, Between-higher (suc e.seq) high high' es k hs)

Between-lower :
    (low low' high : ℕ) (es : List SegmentEntry)
    → low' ≤ low
    → Between low high es
    → Between low' high es
Between-lower low low' high [] k h = omega (arith, h, k)
Between-lower low low' high (e ∷ es) k (h, hs) = (omega (arith, h, k), hs)

evict_lem :
    (n low high : ℕ) (es : List SegmentEntry)
    → Between low high es
    → Between low high (evict n es).0 × (length (evict n es).0 ≤ n)
unfolding evict
evict_lem n low high [] h = (h, omega arith)
evict_lem n low high (e ∷ es) (h, hs) = ground (
  arith,
  evict_lem n (suc e.seq) high es hs,
  Between-lower (suc e.seq) low high (evict n es).0,
  h,
  hs,
)

pub new-WellFormed : (segment_secs window_secs : ℕ) → WellFormed (new segment_secs window_secs)
unfolding new
new-WellFormed a b = record { order_lem = omega arith; window_lem = omega arith }

module _ (f : ClipFiles) (print_secs : ℕ → Text) where
  -- Pushing a segment whose number was handed out after those that are listed keeps the playlist well
  -- formed, and when it returns no error the segment is the last one listed.
  pub push_segment-WellFormed :
      (root : Text) (seq duration : ℕ) (discontinuity : Bool) (s : f.State) (p : PlaylistState)
      → WellFormed p
      → Between 1 seq p.entries
      → seq < p.next_segment_seq
      → WellFormed (push_segment f print_secs root seq duration discontinuity (s, p)).0.1
  unfolding push_segment
  push_segment-WellFormed root seq duration discontinuity s p wf h k =
      let entry : SegmentEntry = record {
        seq = seq;
        duration_secs = max duration 1000000;
        filename = segment_name seq;
        discontinuity = discontinuity;
      } in
      let (order, window) =
        evict_lem p.max_segments 1 p.next_segment_seq (p.entries ++ (entry ∷ []))
          (Between-append 1 p.next_segment_seq p.entries entry h k) in
      let listed : WellFormed
          (record p { entries = (evict p.max_segments (p.entries ++ (entry ∷ []))).0 }) =
        record { order_lem = order; window_lem = window } in
      ground (arith, wf, listed)
