-- ===== src/Clip/Disk/Ends.antt =====
-- How the loop of sentinel_rtp_cam/src/utils/disk_cleanup.rs ends, and what it has deleted then.
use mathlib.Core.List.{Memᴰ}
use sentinel_video_receiver.Prelude.{
  ℕ, zero, suc, ◌+◌, ◌≤◌, ◌<◌, ◌≡◌, ◌⊎◌, inl, inr, refl, arith, Option, none, some, List, Text,
}
use sentinel_video_receiver.Clip.Files.{ClipFiles}
use sentinel_video_receiver.Clip.Paths.{with_extension, json}
use sentinel_video_receiver.Clip.Disk.{
  Statvfs, Cleaned, deleted, failed, running, Next, stop, again, on_removed, on_oldest, on_listing,
  on_available, get_available_space, find_oldest, cleanup_loop, cleanup_until_space_available,
}
use sentinel_video_receiver.Clip.Disk.Oldest.{
  Candidate, NoneOlder, NoClips, find_oldest-none, find_oldest-some,
}

-- What removing files does to a directory, with the number of its entries: one that was listed and is
-- removed is gone, and none is added.
pub record Shrinks (f : ClipFiles) (dir : Text) : Type 0 where
  pub entries : f.State → ℕ
  pub removed :
      (s : f.State) (path : Text) (listed : List Text)
      → f.read_dir s dir ≡ some listed
      → Memᴰ path listed
      → (f.remove_file s path).1 ≡ none
      → entries (f.remove_file s path).0 < entries s
  pub kept : (s : f.State) (path : Text) → entries (f.remove_file s path).0 ≤ entries s

module _ (f : ClipFiles) (statvfs : f.State → Option Statvfs) (dir : Text) (min_free : ℕ) where
  -- A round that deletes: there is too little space, and the clip and its sidecar go, where no clip of
  -- the directory is older.
  pub record DeletesOldest (s s' : f.State) : Type 0 where
    pub available : ℕ
    pub listed : List Text
    pub path : Text
    pub time : ℕ
    pub available_lem : get_available_space f statvfs s ≡ some available
    pub low_lem : available < min_free
    pub listed_lem : f.read_dir s dir ≡ some listed
    pub clip_lem : Candidate f s listed path time
    pub oldest_lem : NoneOlder f time s listed
    pub removed_lem : (f.remove_file s path).1 ≡ none
    pub state_lem : s' ≡ (f.remove_file (f.remove_file s path).0 (with_extension path json)).0

  -- A number of such rounds.
  pub data Deletes : f.State → ℕ → f.State → Type 0 where
    start : {s : f.State} → Deletes s 0 s
    more :
        {n : ℕ} {s s₂ : f.State} (s₁ : f.State)
        → DeletesOldest s s₁
        → Deletes s₁ n s₂
        → Deletes s (suc n) s₂

  -- Why the loop stops with a count: there is space, there is no clip, or the oldest clip cannot be
  -- removed.
  pub data Stops : f.State → f.State → Type 0 where
    enough :
        {s : f.State} (available : ℕ)
        → get_available_space f statvfs s ≡ some available
        → min_free ≤ available
        → Stops s s
    no_clips :
        {s : f.State} (listed : List Text)
        → f.read_dir s dir ≡ some listed
        → NoClips f s listed
        → Stops s s
    undeletable :
        {s s' : f.State} (listed : List Text) (path : Text) (time : ℕ) (error : f.Error)
        → f.read_dir s dir ≡ some listed
        → Candidate f s listed path time
        → NoneOlder f time s listed
        → f.remove_file s path ≡ (s', some error)
        → Stops s s'

  -- What one round comes to.
  abbrev RoundOk : ℕ → f.State → Next f.State → Type 0
  RoundOk n s (stop (deleted m) s') = (m ≡ n) × Stops s s'
  RoundOk n s (stop failed s') =
      (s' ≡ s) × ((get_available_space f statvfs s ≡ none) ⊎ (f.read_dir s dir ≡ none))
  RoundOk n s (stop running s') = ⊥
  RoundOk n s (again s') = DeletesOldest s s'

  on_removed-Ok :
      (n : ℕ) (s : f.State) (listed : List Text) (path : Text) (time available : ℕ)
      (removed : f.State × Option f.Error)
      → get_available_space f statvfs s ≡ some available
      → available < min_free
      → f.read_dir s dir ≡ some listed
      → Candidate f s listed path time
      → NoneOlder f time s listed
      → f.remove_file s path ≡ removed
      → RoundOk n s (on_removed f n path removed)
  on_removed-Ok n s listed path time available (s', some error) a low l c o e =
      (refl, undeletable listed path time error l c o e)
  on_removed-Ok n s listed path time available (s', none) a low l c o e = record {
    available = available;
    listed = listed;
    path = path;
    time = time;
    available_lem = a;
    low_lem = low;
    listed_lem = l;
    clip_lem = c;
    oldest_lem = o;
    removed_lem = rw e refl;
    state_lem = rw e refl;
  }

  on_oldest-Ok :
      (n : ℕ) (s : f.State) (listed : List Text) (available : ℕ) (oldest : Option (Text × ℕ))
      → get_available_space f statvfs s ≡ some available
      → available < min_free
      → f.read_dir s dir ≡ some listed
      → find_oldest f s listed none ≡ oldest
      → RoundOk n s (on_oldest f n s oldest)
  on_oldest-Ok n s listed available none a low l e =
      (refl, no_clips listed l (find_oldest-none f s listed e))
  on_oldest-Ok n s listed available (some (path, time)) a low l e =
      let (c, o) = find_oldest-some f s listed e in
      on_removed-Ok n s listed path time available (f.remove_file s path) a low l c o refl

  on_listing-Ok :
      (n : ℕ) (s : f.State) (available : ℕ) (listing : Option (List Text))
      → get_available_space f statvfs s ≡ some available
      → available < min_free
      → f.read_dir s dir ≡ listing
      → RoundOk n s (on_listing f n s listing)
  on_listing-Ok n s available none a low l = (refl, inr l)
  on_listing-Ok n s available (some listed) a low l =
      on_oldest-Ok n s listed available (find_oldest f s listed none) a low l refl

  on_available-Ok :
      (n : ℕ) (s : f.State) (space : Option ℕ)
      → get_available_space f statvfs s ≡ space
      → RoundOk n s (on_available f dir min_free n s space)
  on_available-Ok n s none a = (refl, inl a)
  on_available-Ok n s (some available) a =
      ground (arith, enough available a, on_listing-Ok n s available (f.read_dir s dir) a)

  -- What the loop comes to from a count on: so many clips were deleted, and it stopped.
  abbrev pub CleansFrom : ℕ → f.State → f.State × Cleaned → Type 0
  CleansFrom n s (s', deleted m) =
      (k : ℕ) × (s₁ : f.State) × (m ≡ n + k) × Deletes s k s₁ × Stops s₁ s'
  CleansFrom n s (s', failed) =
      (k : ℕ) × Deletes s k s'
      × ((get_available_space f statvfs s' ≡ none) ⊎ (f.read_dir s' dir ≡ none))
  CleansFrom n s (s', running) = ⊥

  CleansFrom-more :
      (n : ℕ) (s s₁ : f.State) (result : f.State × Cleaned)
      → DeletesOldest s s₁
      → CleansFrom (n + 1) s₁ result
      → CleansFrom n s result
  CleansFrom-more n s s₁ (s', deleted m) d (k, s₂, e, ds, stops) =
      (suc k, s₂, omega arith, more s₁ d ds, stops)
  CleansFrom-more n s s₁ (s', failed) d (k, ds, why) = (suc k, more s₁ d ds, why)
  CleansFrom-more n s s₁ (s', running) d h = h

  module _ (shrinks : Shrinks f dir) where
    DeletesOldest-fewer :
        (s s' : f.State) → DeletesOldest s s' → shrinks.entries s' < shrinks.entries s
    DeletesOldest-fewer s s' d =
        let s₁ = (f.remove_file s d.path).0 in
        rw d.state_lem (
          omega (
            arith,
            shrinks.removed s d.path d.listed d.listed_lem d.clip_lem.listed_lem d.removed_lem,
            shrinks.kept s₁ (with_extension d.path json),
          ))

    loop_next :
        (fuel n : ℕ) (s : f.State) (next : Next f.State)
        → RoundOk n s next
        → ((s₁ : f.State)
            → DeletesOldest s s₁
            → CleansFrom (n + 1) s₁ (cleanup_loop f statvfs fuel dir min_free (n + 1) s₁))
        → CleansFrom n s (elim next [
          | stop result s' ↦ (s', result)
          | again s' ↦ cleanup_loop f statvfs fuel dir min_free (n + 1) s'
        ])
    loop_next fuel n s (stop (deleted m) s') (e, stops) rest = (0, s, omega arith, start, stops)
    loop_next fuel n s (stop failed s') (e, why) rest = (0, rw e start, rw e why)
    loop_next fuel n s (stop running s') h rest = h
    loop_next fuel n s (again s') d rest = CleansFrom-more n s s' _ d (rest s' d)

    loop_lem :
        (fuel n : ℕ) (s : f.State)
        → shrinks.entries s < fuel
        → CleansFrom n s (cleanup_loop f statvfs fuel dir min_free n s)
    unfolding cleanup_loop
    loop_lem zero n s h = absurd (omega arith)
    loop_lem (suc fuel) n s h =
        loop_next fuel n s (on_available f dir min_free n s (get_available_space f statvfs s))
          (on_available-Ok n s (get_available_space f statvfs s) refl)
          (λ s₁ d. loop_lem fuel (n + 1) s₁ (omega (arith, DeletesOldest-fewer s s₁ d)))

  -- When removing a listed file takes it out of the directory and no removal adds a file to it, one
  -- round more than the directory has entries is enough for the loop to end. Each clip that it deletes
  -- is then one than which no other clip in the directory is older, with too little space just before;
  -- and it ends with the number of clips deleted because there is space, or because no clip is left
  -- that can be dated, or because the oldest clip cannot be removed; or with an error, because the
  -- space or the directory cannot be read.
  pub cleanup-Cleans :
      (shrinks : Shrinks f dir) (fuel : ℕ) (s : f.State)
      → shrinks.entries s < fuel
      → CleansFrom 0 s (cleanup_until_space_available f statvfs fuel dir min_free s)
  unfolding cleanup_until_space_available
  cleanup-Cleans shrinks fuel s h = loop_lem shrinks fuel 0 s h
