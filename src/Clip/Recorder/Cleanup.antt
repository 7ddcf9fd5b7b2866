-- ===== src/Clip/Recorder/Cleanup.antt =====
-- `cleanup_old_clips` and `cleanup_stale_parts` of core/clip_recorder.rs: which files are deleted, and
-- the loops around it.
pub mod Marks
pub mod Limits
pub mod Within
use sentinel_video_receiver.Prelude.{
  ℕ, ◌+◌, ◌-◌, Bool, true, false, not, ◌&&◌, Option, none, some, List, [], ◌∷◌, ◌++◌, ltb, leb,
  if◌then◌else◌, length, take, drop, map, is_empty, Text, text_same,
}
use sentinel_video_receiver.Clip.Files.{ClipFiles}
use sentinel_video_receiver.Clip.Paths.{has_extension, with_extension, file_name, h264, part, json}
use sentinel_video_receiver.Clip.Recorder.{ClipRecorderConfig, seconds}

pub record Clip : Type 0 where
  pub path : Text
  pub mtime : ℕ
  pub size : ℕ

-- `sort_by_key(|(_, mtime, _)| *mtime)`, which is stable.
unfoldable pub insert_by_mtime : Clip → List Clip → List Clip
insert_by_mtime c [] = c ∷ []
insert_by_mtime c (d ∷ ds) =
    let rest = insert_by_mtime c ds in if leb c.mtime d.mtime then c ∷ d ∷ ds else d ∷ rest

unfoldable pub sort_by_mtime : List Clip → List Clip
sort_by_mtime [] = []
sort_by_mtime (c ∷ cs) = insert_by_mtime c (sort_by_mtime cs)

-- The paths older than the cutoff.
unfoldable pub older_than : ℕ → List Clip → List Text
older_than cutoff [] = []
older_than cutoff (c ∷ cs) =
    let rest = older_than cutoff cs in if ltb c.mtime cutoff then c.path ∷ rest else rest

unfoldable pub contains : Text → List Text → Bool
contains p [] = false
contains p (q ∷ qs) = let rest = contains p qs in if text_same p q then true else rest

unfoldable pub retain_unmarked : List Text → List Clip → List Clip
retain_unmarked marked [] = []
retain_unmarked marked (c ∷ cs) =
    let rest = retain_unmarked marked cs in if contains c.path marked then rest else c ∷ rest

abbrev pub total_size : List Clip → ℕ
total_size [] = 0
total_size (c ∷ cs) = c.size + total_size cs

abbrev pub paths : List Clip → List Text
paths [] = []
paths (c ∷ cs) = c.path ∷ paths cs

-- The `for` of step 3, with its `break`.
unfoldable pub oldest_over : ℕ → ℕ → List Clip → List Text
oldest_over max_bytes current_size [] = []
oldest_over max_bytes current_size (c ∷ cs) =
    let rest = oldest_over max_bytes (current_size - c.size) cs in
    if leb current_size max_bytes then [] else c.path ∷ rest

-- Step 1: the marked paths.
unfoldable pub mark_by_age : Option ℕ → ℕ → List Clip → List Text
mark_by_age none system clips = []
mark_by_age (some max_age) system clips = older_than (system - seconds max_age) clips

-- Step 2: how many of the oldest are in excess.
unfoldable pub excess : Option ℕ → List Clip → ℕ
excess none clips = 0
excess (some max_files) clips = length clips - max_files

-- Step 3. `total_size > max_bytes` is also the first test of the loop.
unfoldable pub mark_by_size : Option ℕ → List Clip → List Text
mark_by_size none clips = []
mark_by_size (some max_bytes) clips =
    if ltb max_bytes (total_size clips) then oldest_over max_bytes (total_size clips) clips else []

-- `to_delete`, in order, for the clips that were found; `system` is `SystemTime::now()`.
unfoldable pub to_delete : ClipRecorderConfig → ℕ → List Clip → List Text
to_delete cfg system found =
    let clips = sort_by_mtime found in
    let aged = mark_by_age cfg.max_age_secs system clips in
    let young = retain_unmarked aged clips in
    let n = excess cfg.max_files young in
    aged ++ (paths (take n young) ++ mark_by_size cfg.max_total_bytes (drop n young))

-- `ends_with(".h264.part")`
unfoldable pub is_part_name : Text → Bool
is_part_name name =
    let suffix = b'.' ∷ (h264 ++ (b'.' ∷ part)) in
    leb (length suffix) (length name) && text_same (drop (length name - length suffix) name) suffix

abbrev is_stale : ℕ → Text → Option (ℕ × ℕ) → Bool
is_stale cutoff name none = false
is_stale cutoff name (some (mtime, size)) = is_part_name name && ltb mtime cutoff

module _ (f : ClipFiles) where
  -- The `while` over the entries of the directory.
  unfoldable pub collect : f.State → List Text → List Clip
  collect s [] = []
  collect s (p ∷ ps) =
      let rest = collect s ps in
      if not (has_extension p h264) then rest else elim (f.metadata s p) [
        | none ↦ rest
        | some (mtime, size) ↦ record { path = p; mtime = mtime; size = size } ∷ rest
      ]

  -- The `for` over `to_delete`; its errors are logged.
  unfoldable pub delete_all : f.State → List Text → f.State
  delete_all s [] = s
  delete_all s (p ∷ ps) =
      delete_all (f.remove_file (f.remove_file s p).0 (with_extension p json)).0 ps

  -- Its error value is dropped by every caller.
  unfoldable pub cleanup_old_clips : ClipRecorderConfig → ℕ → f.State → f.State
  cleanup_old_clips cfg system s = elim (f.read_dir s cfg.output_dir) [
    | none ↦ s
    | some entries ↦ delete_all s (to_delete cfg system (collect s entries))
  ]

  -- The `while` of `cleanup_stale_parts`, over the entries of the directory.
  unfoldable pub delete_stale : ℕ → f.State → List Text → f.State
  delete_stale cutoff s [] = s
  delete_stale cutoff s (p ∷ ps) =
      let s' =
        if is_stale cutoff (file_name p) (f.metadata s p) then (f.remove_file s p).0 else s in
      delete_stale cutoff s' ps

  -- `cleanup_stale_parts`; an error while listing the directory is dropped by `run`.
  unfoldable pub cleanup_stale_parts : ClipRecorderConfig → ℕ → f.State → f.State
  cleanup_stale_parts cfg system s = elim (f.read_dir s cfg.output_dir) [
    | none ↦ s
    | some entries ↦ delete_stale (system - cfg.stale_part_max_age) s entries
  ]
