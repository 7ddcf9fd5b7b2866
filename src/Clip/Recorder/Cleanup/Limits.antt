-- ===== src/Clip/Recorder/Cleanup/Limits.antt =====
-- What `cleanup_old_clips` leaves of the clips that it found.
use sentinel_video_receiver.Prelude.{
  ℕ, ◌-◌, ◌≤◌, ◌<◌, ◌≡◌, refl, sym, ap, ◌∙◌, arith, true, Option, none, some, List, [], ◌∷◌, ◌++◌,
  ltb, if◌then◌else◌, length, take, drop, subst, length-drop, Text,
}
use sentinel_video_receiver.Clip.Recorder.{ClipRecorderConfig, seconds}
use sentinel_video_receiver.Clip.Recorder.Cleanup.{
  Clip, sort_by_mtime, older_than, contains, retain_unmarked, total_size, paths, oldest_over,
  mark_by_age, excess, mark_by_size, to_delete,
}
use sentinel_video_receiver.Clip.Recorder.Cleanup.Marks.{
  retain-append, retain_mono, retain_le, contains_self, retain-take,
}

-- The loop of step 3 marks enough.
oldest_over_lem :
    (max_bytes current_size : ℕ) (cs : List Clip)
    → current_size ≡ total_size cs
    → total_size (retain_unmarked (oldest_over max_bytes current_size cs) cs) ≤ max_bytes
unfolding oldest_over retain_unmarked
oldest_over_lem max_bytes current_size [] h = omega arith
oldest_over_lem max_bytes current_size (c ∷ cs) h =
    let marked = oldest_over max_bytes (current_size - c.size) cs in
    ground (
      arith,
      h,
      oldest_over_lem max_bytes (current_size - c.size) cs (omega (arith, h)),
      contains_self c.path marked,
      retain_le [] cs,
      retain-append (c.path ∷ []) marked cs,
      retain_mono marked (c.path ∷ []) cs,
    )

-- At most as much as a limit says, if there is one.
abbrev pub AtMost : ℕ → Option ℕ → Type 0
AtMost n none = Unit
AtMost n (some limit) = n ≤ limit

AtMost-le : (m n : ℕ) (limit : Option ℕ) → m ≤ n → AtMost n limit → AtMost m limit
AtMost-le m n none h k = tt
AtMost-le m n (some limit) h k = omega (arith, h, k)

mark_by_size_lem :
    (limit : Option ℕ) (cs : List Clip)
    → AtMost (total_size (retain_unmarked (mark_by_size limit cs) cs)) limit
unfolding mark_by_size
mark_by_size_lem none cs = tt
mark_by_size_lem (some b) cs =
    ground (arith, oldest_over_lem b (total_size cs) cs refl, retain_le [] cs)

excess_lem : (limit : Option ℕ) (cs : List Clip) → AtMost (length (drop (excess limit cs) cs)) limit
unfolding excess
excess_lem none cs = tt
excess_lem (some m) cs = ground (arith, length-drop (length cs - m) cs)

-- Every clip is at least as new as the cutoff.
abbrev pub Since : ℕ → List Clip → Type 0
Since cutoff [] = Unit
Since cutoff (c ∷ cs) = (cutoff ≤ c.mtime) × Since cutoff cs

-- Every clip older than the cutoff is marked.
abbrev OldMarked : ℕ → List Text → List Clip → Type 0
OldMarked cutoff marked [] = Unit
OldMarked cutoff marked (c ∷ cs) =
    (c.mtime < cutoff → contains c.path marked ≡ true) × OldMarked cutoff marked cs

OldMarked-cons :
    (cutoff : ℕ) (p : Text) (marked : List Text) (cs : List Clip)
    → OldMarked cutoff marked cs
    → OldMarked cutoff (p ∷ marked) cs
unfolding contains
OldMarked-cons cutoff p marked [] h = tt
OldMarked-cons cutoff p marked (c ∷ cs) (h, k) =
    ((λ old. ground (arith, h old)), OldMarked-cons cutoff p marked cs k)

older_than-OldMarked : (cutoff : ℕ) (cs : List Clip) → OldMarked cutoff (older_than cutoff cs) cs
unfolding older_than
older_than-OldMarked cutoff [] = tt
older_than-OldMarked cutoff (c ∷ cs) =
    let rest = older_than cutoff cs in
    let marked = if ltb c.mtime cutoff then c.path ∷ rest else rest in
    (
      (λ old. ground (arith, old, contains_self c.path rest)),
      ground (arith, older_than-OldMarked cutoff cs, OldMarked-cons cutoff c.path rest cs),
    )

retain-Since :
    (cutoff : ℕ) (marked : List Text) (cs : List Clip)
    → OldMarked cutoff marked cs
    → Since cutoff (retain_unmarked marked cs)
unfolding retain_unmarked
retain-Since cutoff marked [] h = tt
retain-Since cutoff marked (c ∷ cs) (h, k) = ground (arith, retain-Since cutoff marked cs k)

Since-retain :
    (cutoff : ℕ) (marked : List Text) (cs : List Clip)
    → Since cutoff cs
    → Since cutoff (retain_unmarked marked cs)
unfolding retain_unmarked
Since-retain cutoff marked [] h = tt
Since-retain cutoff marked (c ∷ cs) (h, k) = ground (arith, Since-retain cutoff marked cs k)

-- At most as old as a limit says, if there is one.
abbrev pub NotOlder : ℕ → Option ℕ → List Clip → Type 0
NotOlder system none cs = Unit
NotOlder system (some max_age) cs = Since (system - seconds max_age) cs

-- What the configuration asks of the clips that stay.
pub record Limits (cfg : ClipRecorderConfig) (system : ℕ) (kept : List Clip) : Type 0 where
  pub files_lem : AtMost (length kept) cfg.max_files
  pub bytes_lem : AtMost (total_size kept) cfg.max_total_bytes
  pub age_lem : NotOlder system cfg.max_age_secs kept

-- The marked clips, step by step.
retain-to_delete :
    (cfg : ClipRecorderConfig) (system : ℕ) (found : List Clip)
    → let clips = sort_by_mtime found in
      let young = retain_unmarked (mark_by_age cfg.max_age_secs system clips) clips in
      let n = excess cfg.max_files young in
      retain_unmarked (to_delete cfg system found) clips
      ≡ retain_unmarked
          (mark_by_size cfg.max_total_bytes (drop n young))
          (retain_unmarked (paths (take n young)) (drop n young))
unfolding to_delete
retain-to_delete cfg system found =
    let clips = sort_by_mtime found in
    let aged = mark_by_age cfg.max_age_secs system clips in
    let young = retain_unmarked aged clips in
    let n = excess cfg.max_files young in
    let big = mark_by_size cfg.max_total_bytes (drop n young) in
    retain-append aged (paths (take n young) ++ big) clips
    ∙ retain-append (paths (take n young)) big young
    ∙ ap (retain_unmarked big) (retain-take n young)

mark_by_age-NotOlder :
    (limit : Option ℕ) (system : ℕ) (cs : List Clip) (marked : List Text)
    → NotOlder system limit
        (retain_unmarked marked (retain_unmarked (mark_by_age limit system cs) cs))
unfolding mark_by_age
mark_by_age-NotOlder none system cs marked = tt
mark_by_age-NotOlder (some m) system cs marked =
    let cutoff = system - seconds m in
    let aged = older_than cutoff cs in
    Since-retain cutoff marked (retain_unmarked aged cs)
      (retain-Since cutoff aged cs (older_than-OldMarked cutoff cs))

to_delete-NotOlder :
    (cfg : ClipRecorderConfig) (system : ℕ) (found : List Clip)
    → NotOlder system cfg.max_age_secs
        (retain_unmarked (to_delete cfg system found) (sort_by_mtime found))
unfolding to_delete
to_delete-NotOlder cfg system found =
    let clips = sort_by_mtime found in
    let aged = mark_by_age cfg.max_age_secs system clips in
    let young = retain_unmarked aged clips in
    let n = excess cfg.max_files young in
    let rest = paths (take n young) ++ mark_by_size cfg.max_total_bytes (drop n young) in
    subst (NotOlder system cfg.max_age_secs) (sym (retain-append aged rest clips))
      (mark_by_age-NotOlder cfg.max_age_secs system clips rest)

-- Of the clips found in the directory, those not marked for deletion are at most `max_files`, have
-- together at most `max_total_bytes` bytes, and none is older than `max_age_secs`, as far as each
-- limit is configured.
pub to_delete-Limits :
    (cfg : ClipRecorderConfig) (system : ℕ) (found : List Clip)
    → Limits cfg system (retain_unmarked (to_delete cfg system found) (sort_by_mtime found))
to_delete-Limits cfg system found =
    let clips = sort_by_mtime found in
    let young = retain_unmarked (mark_by_age cfg.max_age_secs system clips) clips in
    let n = excess cfg.max_files young in
    let old = paths (take n young) in
    let big = mark_by_size cfg.max_total_bytes (drop n young) in
    let kept = retain_unmarked (to_delete cfg system found) clips in
    let kept_lem = retain-to_delete cfg system found in
    record {
      files_lem =
          AtMost-le (length kept) (length (drop n young)) cfg.max_files
            (omega (
              arith,
              ap (λ (cs : List Clip). length cs) kept_lem,
              (retain_le big (retain_unmarked old (drop n young))).0,
              (retain_le old (drop n young)).0,
            ))
            (excess_lem cfg.max_files young);
      bytes_lem =
          AtMost-le (total_size kept) (total_size (retain_unmarked big (drop n young)))
            cfg.max_total_bytes
            (omega (
              arith,
              ap (λ (cs : List Clip). total_size cs) kept_lem,
              (retain_mono big old (drop n young)).1,
            ))
            (mark_by_size_lem cfg.max_total_bytes (drop n young));
      age_lem = to_delete-NotOlder cfg system found;
    }
