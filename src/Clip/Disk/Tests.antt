-- ===== src/Clip/Disk/Tests.antt =====
-- A run of the disk clean-up on a directory in memory.
use mathlib.Core.List.{Memᴰ}
use sentinel_video_receiver.Prelude.{
  ℕ, ◌-◌, ◌≤◌, ◌<◌, ◌≡◌, refl, sym, subst, arith, Option, none, some, List, [], ◌∷◌, length, Text,
  get, remove, text_same, text_same_iff, text_key,
}
use sentinel_video_receiver.Clip.Files.{ClipFiles}
use sentinel_video_receiver.Clip.Paths.{file_name, split_last, has_extension, with_extension}
use sentinel_video_receiver.Clip.Disk.{
  Statvfs, deleted, free_bytes, get_available_space, find_oldest, cleanup_loop,
  cleanup_until_space_available,
}
use sentinel_video_receiver.Clip.Disk.Ends.{Shrinks, CleansFrom, cleanup-Cleans}

-- The files of one directory, with their times.
abbrev Directory : Type 0
Directory = List (Text × ℕ)

abbrev names : Directory → List Text
names [] = []
names ((p, t) ∷ d) = p ∷ names d

abbrev meta_of : Option ℕ → Option (ℕ × ℕ)
meta_of none = none
meta_of (some t) = some (t, 1)

abbrev failure : Option (Unit {0})
failure = some tt

abbrev removed_at : Text → Directory → Option ℕ → Directory × Option (Unit {0})
removed_at p d none = (d, failure)
removed_at p d (some t) = (remove p d, none)

fails : failure ≡ none → ⊥
fails h = ground (arith, h)

-- Files that are there from the start and can only be removed.
abbrev directory_files : ClipFiles
directory_files = record {
  State = Directory;
  Error = Unit;
  taken = λ d p. [];
  content = λ d p. none;
  create_dir_all = λ d p. (d, none);
  create = λ d p. (d, failure);
  write_all = λ d p bytes. (d, failure);
  flush = λ d p. (d, failure);
  rename = λ d p q. (d, failure);
  remove_file = λ d p. removed_at p d (get p d);
  write = λ d p bytes. (d, failure);
  read_dir = λ d p. some (names d);
  metadata = λ d p. meta_of (get p d);
  create-taken = λ d p h. refl;
  write_all-taken = λ d p bytes h. absurd (fails h);
  flush-content = λ d p h. absurd (fails h);
  rename-content = λ d p q h. refl;
}

length-remove : (p : Text) (d : Directory) → length (remove p d) ≤ length d
unfolding remove
length-remove p [] = omega arith
length-remove p ((q, t) ∷ d) = ground (arith, length-remove p d)

length-remove_listed :
    (p : Text) (d : Directory) → Memᴰ p (names d) → length (remove p d) < length d
unfolding remove
length-remove_listed p [] m = elim m [ ]
length-remove_listed p ((q, t) ∷ d) (Memᴰ.head e) =
    ground (arith, e, text_same_iff q p, length-remove p d)
length-remove_listed p ((q, t) ∷ d) (Memᴰ.tail m) = ground (arith, length-remove_listed p d m)

removed_at-le :
    (p : Text) (d : Directory) (found : Option ℕ) → length (removed_at p d found).0 ≤ length d
removed_at-le p d none = omega arith
removed_at-le p d (some t) = length-remove p d

removed_at-lt :
    (p : Text) (d : Directory) (found : Option ℕ)
    → Memᴰ p (names d)
    → (removed_at p d found).1 ≡ none
    → length (removed_at p d found).0 < length d
removed_at-lt p d none m h = absurd (ground (arith, h))
removed_at-lt p d (some t) m h = length-remove_listed p d m

names-injective :
    (d : Directory) (listed : List Text) → some (names d) ≡ some listed → names d ≡ listed
names-injective d listed h = ground (arith, h)

abbrev directory-Shrinks : (dir : Text) → Shrinks directory_files dir
directory-Shrinks dir = record {
  entries = length;
  removed = λ d path listed h m e.
      removed_at-lt path d (get path d) (subst (Memᴰ path) (sym (names-injective d listed h)) m) e;
  kept = λ d path. removed_at-le path d (get path d);
}

-- "a.h264", "b.h264" and "a.json"; the disk has three blocks, and each file takes one.
abbrev clips : Directory
clips =
    ((b'a' ∷ b'.' ∷ b'h' ∷ b'2' ∷ b'6' ∷ b'4' ∷ []), 9)
    ∷ ((b'b' ∷ b'.' ∷ b'h' ∷ b'2' ∷ b'6' ∷ b'4' ∷ []), 4)
    ∷ ((b'a' ∷ b'.' ∷ b'j' ∷ b's' ∷ b'o' ∷ b'n' ∷ []), 1)
    ∷ []

abbrev blocks : Directory → Option Statvfs
blocks d = some (record { f_bavail = 3 - length d; f_frsize = 0; f_bsize = 512 })

program : Unit {0}
unfolding text_same get remove file_name split_last has_extension with_extension free_bytes
    get_available_space find_oldest cleanup_loop cleanup_until_space_available
program = tt

-- The older clip is enough for one block.
deletes_oldest :
    cleanup_until_space_available directory_files blocks 4 [] 512 clips
    ≡ (remove (b'b' ∷ b'.' ∷ b'h' ∷ b'2' ∷ b'6' ∷ b'4' ∷ []) clips, deleted 1)
unfolding program
deletes_oldest = refl

cleanup-Cleans_example :
    CleansFrom directory_files blocks [] 512 0 clips
      (cleanup_until_space_available directory_files blocks 4 [] 512 clips)
cleanup-Cleans_example =
    cleanup-Cleans directory_files blocks [] 512 (directory-Shrinks []) 4 clips (omega arith)
