-- ===== src/Clip/Disk.antt =====
-- sentinel_rtp_cam/src/utils/disk_cleanup.rs: clips deleted, oldest first, until there is space. `statvfs`
-- is the call of libc on the clips' directory; `none` is its error. A number of bytes is unbounded.
pub mod Oldest
pub mod Ends
mod Tests
use sentinel_video_receiver.Prelude.{
  ℕ, zero, suc, ◌+◌, ◌*◌, Bool, true, false, not, Option, none, some, List, [], ◌∷◌, ltb, leb,
  if◌then◌else◌, Text,
}
use sentinel_video_receiver.Clip.Files.{ClipFiles}
use sentinel_video_receiver.Clip.Paths.{has_extension, with_extension, h264, json}

pub record DiskCleanupConfig : Type 0 where
  pub clips_dir : Text
  pub min_free_bytes : ℕ

-- The fields of `libc::statvfs` that are read.
pub record Statvfs : Type 0 where
  pub f_bavail : ℕ
  pub f_frsize : ℕ
  pub f_bsize : ℕ

unfoldable pub free_bytes : Statvfs → ℕ
free_bytes stat = stat.f_bavail * (if ltb 0 stat.f_frsize then stat.f_frsize else stat.f_bsize)

abbrev space_of : Option Statvfs → Option ℕ
space_of none = none
space_of (some stat) = some (free_bytes stat)

-- What `cleanup_until_space_available` returns; `running` is the loop without fuel.
pub data Cleaned : Type 0 where
  deleted : ℕ → Cleaned
  failed running : Cleaned

-- How a round of its loop goes on: with a return, or with the next round.
pub data Next (S : Type 0) : Type 0 where
  stop : Cleaned → S → Next S
  again : S → Next S

-- The `match` on the oldest file so far.
abbrev pub older : Text → Option (ℕ × ℕ) → Option (Text × ℕ) → Option (Text × ℕ)
older path none oldest = oldest
older path (some (modified, size)) none = some (path, modified)
older path (some (modified, size)) (some (old_path, old_time)) =
    if ltb modified old_time then some (path, modified) else some (old_path, old_time)

module _ (f : ClipFiles) where
  -- The `while` over the entries of the directory.
  unfoldable pub find_oldest : f.State → List Text → Option (Text × ℕ) → Option (Text × ℕ)
  find_oldest s [] oldest = oldest
  find_oldest s (path ∷ paths) oldest =
      find_oldest s paths
        (if not (has_extension path h264) then oldest else older path (f.metadata s path) oldest)

  -- The `match` on `remove_file`, and the sidecar.
  abbrev pub on_removed : ℕ → Text → f.State × Option f.Error → Next f.State
  on_removed n oldest_path (s, some e) = stop (deleted n) s
  on_removed n oldest_path (s, none) = again (f.remove_file s (with_extension oldest_path json)).0

  abbrev pub on_oldest : ℕ → f.State → Option (Text × ℕ) → Next f.State
  on_oldest n s none = stop (deleted n) s
  on_oldest n s (some (oldest_path, modified)) =
      on_removed n oldest_path (f.remove_file s oldest_path)

  abbrev pub on_listing : ℕ → f.State → Option (List Text) → Next f.State
  on_listing n s none = stop failed s
  on_listing n s (some entries) = on_oldest n s (find_oldest s entries none)

  abbrev pub on_available : Text → ℕ → ℕ → f.State → Option ℕ → Next f.State
  on_available clips_dir min_free_bytes n s none = stop failed s
  on_available clips_dir min_free_bytes n s (some available) =
      if leb min_free_bytes available
      then stop (deleted n) s
      else on_listing n s (f.read_dir s clips_dir)

module _ (f : ClipFiles) (statvfs : f.State → Option Statvfs) where
  unfoldable pub get_available_space : f.State → Option ℕ
  get_available_space s = space_of (statvfs s)

  -- The `loop`, with the number deleted so far.
  unfoldable pub cleanup_loop : ℕ → Text → ℕ → ℕ → f.State → f.State × Cleaned
  cleanup_loop zero clips_dir min_free_bytes n s = (s, running)
  cleanup_loop (suc fuel) clips_dir min_free_bytes n s =
      elim (on_available f clips_dir min_free_bytes n s (get_available_space s)) [
        | stop result s' ↦ (s', result)
        | again s' ↦ cleanup_loop fuel clips_dir min_free_bytes (n + 1) s'
      ]

  unfoldable pub cleanup_until_space_available : ℕ → Text → ℕ → f.State → f.State × Cleaned
  cleanup_until_space_available fuel clips_dir min_free_bytes s =
      cleanup_loop fuel clips_dir min_free_bytes 0 s

  -- A round of the loop of `run_disk_cleanup`; errors are logged.
  unfoldable pub check : ℕ → DiskCleanupConfig → f.State → f.State
  check fuel cfg s = elim (get_available_space s) [
    | none ↦ s
    | some available ↦
        if ltb available cfg.min_free_bytes
        then (cleanup_until_space_available fuel cfg.clips_dir cfg.min_free_bytes s).0
        else s
  ]
