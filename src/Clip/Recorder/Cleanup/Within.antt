-- ===== src/Clip/Recorder/Cleanup/Within.antt =====
-- Clips that are within the limits stay.
use sentinel_video_receiver.Prelude.{
  ℕ, ◌-◌, ◌≤◌, ◌≡◌, refl, sym, ap, arith, Option, none, some, List, [], ◌∷◌, length, subst,
}
use sentinel_video_receiver.Clip.Recorder.{ClipRecorderConfig, seconds}
use sentinel_video_receiver.Clip.Recorder.Cleanup.{
  Clip, insert_by_mtime, sort_by_mtime, older_than, contains, retain_unmarked, total_size,
  mark_by_age, excess, mark_by_size, to_delete,
}
use sentinel_video_receiver.Clip.Recorder.Cleanup.Marks.{sort_lem}
use sentinel_video_receiver.Clip.Recorder.Cleanup.Limits.{AtMost, Since, NotOlder, Limits}

retain_none : (cs : List Clip) → retain_unmarked [] cs ≡ cs
unfolding retain_unmarked contains
retain_none [] = refl
retain_none (c ∷ cs) = ap (◌∷◌ c) (retain_none cs)

Since-insert :
    (cutoff : ℕ) (c : Clip) (cs : List Clip)
    → cutoff ≤ c.mtime
    → Since cutoff cs
    → Since cutoff (insert_by_mtime c cs)
unfolding insert_by_mtime
Since-insert cutoff c [] h k = (h, tt)
Since-insert cutoff c (d ∷ ds) h (k, l) = ground (arith, Since-insert cutoff c ds)

Since-sort : (cutoff : ℕ) (cs : List Clip) → Since cutoff cs → Since cutoff (sort_by_mtime cs)
unfolding sort_by_mtime
Since-sort cutoff [] h = tt
Since-sort cutoff (c ∷ cs) (h, k) =
    Since-insert cutoff c (sort_by_mtime cs) h (Since-sort cutoff cs k)

older_than_none : (cutoff : ℕ) (cs : List Clip) → Since cutoff cs → older_than cutoff cs ≡ []
unfolding older_than
older_than_none cutoff [] h = refl
older_than_none cutoff (c ∷ cs) (h, k) = ground (arith, older_than_none cutoff cs k)

mark_by_age_none :
    (limit : Option ℕ) (system : ℕ) (cs : List Clip)
    → NotOlder system limit cs
    → mark_by_age limit system (sort_by_mtime cs) ≡ []
unfolding mark_by_age
mark_by_age_none none system cs h = refl
mark_by_age_none (some m) system cs h =
    let cutoff = system - seconds m in
    older_than_none cutoff (sort_by_mtime cs) (Since-sort cutoff cs h)

excess_none : (limit : Option ℕ) (cs : List Clip) → AtMost (length cs) limit → excess limit cs ≡ 0
unfolding excess
excess_none none cs h = refl
excess_none (some m) cs h = omega (arith, h)

mark_by_size_none :
    (limit : Option ℕ) (cs : List Clip) → AtMost (total_size cs) limit → mark_by_size limit cs ≡ []
unfolding mark_by_size
mark_by_size_none none cs h = refl
mark_by_size_none (some b) cs h = ground (arith, h)

-- When the clips found are within the limits that are configured, none is deleted.
pub to_delete_none :
    (cfg : ClipRecorderConfig) (system : ℕ) (found : List Clip)
    → Limits cfg system found
    → to_delete cfg system found ≡ []
unfolding to_delete
to_delete_none cfg system found limits =
    let clips = sort_by_mtime found in
    let (count, size) = sort_lem [] found in
    let count' : length clips ≡ length found =
      ground (arith, count, retain_none clips, retain_none found) in
    let size' : total_size clips ≡ total_size found =
      ground (arith, size, retain_none clips, retain_none found) in
    rw (
      mark_by_age_none cfg.max_age_secs system found limits.age_lem,
      retain_none clips,
      excess_none cfg.max_files clips
          (subst (λ (n : ℕ). AtMost n cfg.max_files) (sym count') limits.files_lem),
      mark_by_size_none cfg.max_total_bytes clips
          (subst (λ (n : ℕ). AtMost n cfg.max_total_bytes) (sym size') limits.bytes_lem),
    )
