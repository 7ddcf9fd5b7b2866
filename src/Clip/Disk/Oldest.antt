-- ===== src/Clip/Disk/Oldest.antt =====
-- The file that sentinel_rtp_cam/src/utils/disk_cleanup.rs deletes next.
use sentinel_video_receiver.Prelude.{
  ℕ, ◌≤◌, ◌≡◌, ◌⊎◌, inl, inr, refl, sym, subst, arith, Bool, Bool-cases, not, true, false, Option,
  none, some, List, [], ◌∷◌, ltb, if◌then◌else◌, Text,
}
use sentinel_video_receiver.Clip.Files.{ClipFiles}
use sentinel_video_receiver.Clip.Paths.{has_extension, h264}
use sentinel_video_receiver.Clip.Disk.{older, find_oldest}
use mathlib.Core.List.{Memᴰ}

-- The entry is a clip that can be dated.
abbrev is_dated : Bool → Option (ℕ × ℕ) → Bool
is_dated false metadata = false
is_dated true none = false
is_dated true (some m) = true

module _ (f : ClipFiles) where
  -- No entry of a listing is a clip that can be dated.
  abbrev pub NoClips : f.State → List Text → Type 0
  NoClips s [] = Unit
  NoClips s (p ∷ ps) = (is_dated (has_extension p h264) (f.metadata s p) ≡ false) × NoClips s ps

  -- No entry of a listing is a clip that was modified before an instant.
  abbrev NotOlder : ℕ → Bool → Option (ℕ × ℕ) → Type 0
  NotOlder t false metadata = Unit
  NotOlder t true none = Unit
  NotOlder t true (some (modified, size)) = t ≤ modified

  abbrev pub NoneOlder : ℕ → f.State → List Text → Type 0
  NoneOlder t s [] = Unit
  NoneOlder t s (p ∷ ps) = NotOlder t (has_extension p h264) (f.metadata s p) × NoneOlder t s ps

  abbrev NotAfter : ℕ → Option (Text × ℕ) → Type 0
  NotAfter t none = Unit
  NotAfter t (some (path, old_time)) = t ≤ old_time

  -- A clip of a listing, with its time.
  pub record Candidate (s : f.State) (entries : List Text) (path : Text) (t : ℕ) : Type 0 where
    pub listed_lem : Memᴰ path entries
    pub clip_lem : has_extension path h264 ≡ true
    pub time_lem : (size : ℕ) × (f.metadata s path ≡ some (t, size))

  -- What the `while` comes to from the oldest clip so far.
  abbrev Found : f.State → List Text → Option (Text × ℕ) → Option (Text × ℕ) → Type 0
  Found s entries oldest none = (oldest ≡ none) × NoClips s entries
  Found s entries oldest (some (path, t)) =
      ((oldest ≡ some (path, t)) ⊎ Candidate s entries path t)
      × NoneOlder t s entries
      × NotAfter t oldest

  Candidate-tail :
      (s : f.State) (p : Text) (ps : List Text) (path : Text) (t : ℕ)
      → Candidate s ps path t
      → Candidate s (p ∷ ps) path t
  Candidate-tail s p ps path t c = record {
    listed_lem = Memᴰ.tail c.listed_lem;
    clip_lem = c.clip_lem;
    time_lem = c.time_lem;
  }

  Candidate-head :
      (s : f.State) (p : Text) (ps : List Text) (path : Text) (t u size : ℕ)
      → has_extension p h264 ≡ true
      → f.metadata s p ≡ some (t, size)
      → (p ≡ path) × (t ≡ u)
      → Candidate s (p ∷ ps) path u
  Candidate-head s p ps path t u size e m (q, r) = record {
    listed_lem = Memᴰ.head (sym q);
    clip_lem = rw (← q) e;
    time_lem = (size, rw (← q, ← r) m);
  }

  NotOlder-dated :
      (t u size : ℕ) (clip : Bool) (metadata : Option (ℕ × ℕ))
      → clip ≡ true
      → metadata ≡ some (t, size)
      → u ≤ t
      → NotOlder u clip metadata
  NotOlder-dated t u size clip metadata e m le = rw (e, m) le

  NotOlder-undated :
      (t : ℕ) (clip : Bool) (metadata : Option (ℕ × ℕ))
      → is_dated clip metadata ≡ false
      → NotOlder t clip metadata
  NotOlder-undated t false metadata e = tt
  NotOlder-undated t true none e = tt
  NotOlder-undated t true (some m) e = cc

  -- One entry that does not change the oldest clip so far.
  Found-skip :
      (s : f.State) (p : Text) (ps : List Text) (oldest r : Option (Text × ℕ))
      → is_dated (has_extension p h264) (f.metadata s p) ≡ false
      → Found s ps oldest r
      → Found s (p ∷ ps) oldest r
  Found-skip s p ps oldest none undated (e, none_left) = (e, (undated, none_left))
  Found-skip s p ps oldest (some (path, t)) undated (inl e, rest, le) =
      (inl e, (NotOlder-undated t (has_extension p h264) (f.metadata s p) undated, rest), le)
  Found-skip s p ps oldest (some (path, t)) undated (inr c, rest, le) = (
    inr (Candidate-tail s p ps path t c),
    (NotOlder-undated t (has_extension p h264) (f.metadata s p) undated, rest),
    le,
  )

  NotAfter-before :
      (u t : ℕ) (oldest : Option (Text × ℕ)) → u ≤ t → NotAfter t oldest → NotAfter u oldest
  NotAfter-before u t none le h = tt
  NotAfter-before u t (some (old, old_time)) le h = omega arith

  -- An entry that is the oldest clip so far.
  Found-newer :
      (s : f.State) (p : Text) (ps : List Text) (oldest r : Option (Text × ℕ)) (t size : ℕ)
      → has_extension p h264 ≡ true
      → f.metadata s p ≡ some (t, size)
      → NotAfter t oldest
      → Found s ps (some (p, t)) r
      → Found s (p ∷ ps) oldest r
  Found-newer s p ps oldest none t size e m h (empty, rest) = absurd (ground (arith, empty))
  Found-newer s p ps oldest (some (path, u)) t size e m h (inl q, rest, le) = (
    inr (Candidate-head s p ps path t u size e m (ground (arith, q), ground (arith, q))),
    (NotOlder-dated t u size (has_extension p h264) (f.metadata s p) e m le, rest),
    NotAfter-before u t oldest le h,
  )
  Found-newer s p ps oldest (some (path, u)) t size e m h (inr c, rest, le) = (
    inr (Candidate-tail s p ps path u c),
    (NotOlder-dated t u size (has_extension p h264) (f.metadata s p) e m le, rest),
    NotAfter-before u t oldest le h,
  )

  -- An entry that is not older than the oldest clip so far.
  Found-kept :
      (s : f.State) (p : Text) (ps : List Text) (old : Text) (old_time : ℕ) (r : Option (Text × ℕ))
      (t size : ℕ)
      → has_extension p h264 ≡ true
      → f.metadata s p ≡ some (t, size)
      → old_time ≤ t
      → Found s ps (some (old, old_time)) r
      → Found s (p ∷ ps) (some (old, old_time)) r
  Found-kept s p ps old old_time none t size e m h (empty, rest) = absurd (ground (arith, empty))
  Found-kept s p ps old old_time (some (path, u)) t size e m h (inl q, rest, le) = (
    inl q,
    (NotOlder-dated t u size (has_extension p h264) (f.metadata s p) e m (omega arith), rest),
    le,
  )
  Found-kept s p ps old old_time (some (path, u)) t size e m h (inr c, rest, le) = (
    inr (Candidate-tail s p ps path u c),
    (NotOlder-dated t u size (has_extension p h264) (f.metadata s p) e m (omega arith), rest),
    le,
  )

  Found-dated :
      (s : f.State) (p : Text) (ps : List Text) (oldest r : Option (Text × ℕ)) (t size : ℕ)
      → has_extension p h264 ≡ true
      → f.metadata s p ≡ some (t, size)
      → Found s ps (older p (some (t, size)) oldest) r
      → Found s (p ∷ ps) oldest r
  Found-dated s p ps none r t size e m found = Found-newer s p ps none r t size e m tt found
  Found-dated s p ps (some (old, old_time)) r t size e m found =
      let chosen : Bool → Option (Text × ℕ) =
        λ b. if b then some (p, t) else some (old, old_time) in
      elim (Bool-cases (ltb t old_time)) [
        | inl h ↦
            Found-newer s p ps (some (old, old_time)) r t size e m (ground (arith, h))
              (subst (λ b. Found s ps (chosen b) r) h found)
        | inr h ↦
            Found-kept s p ps old old_time r t size e m (ground (arith, h))
              (subst (λ b. Found s ps (chosen b) r) h found)
      ]

  Found-entry :
      (s : f.State) (p : Text) (ps : List Text) (oldest r : Option (Text × ℕ)) (clip : Bool)
      (metadata : Option (ℕ × ℕ))
      → has_extension p h264 ≡ clip
      → f.metadata s p ≡ metadata
      → Found s ps (if not clip then oldest else older p metadata oldest) r
      → Found s (p ∷ ps) oldest r
  Found-entry s p ps oldest r false metadata e m found =
      Found-skip s p ps oldest r (rw e refl) found
  Found-entry s p ps oldest r true none e m found =
      Found-skip s p ps oldest r (rw (e, m) refl) found
  Found-entry s p ps oldest r true (some (t, size)) e m found =
      Found-dated s p ps oldest r t size e m found

  find_oldest-Found :
      (s : f.State) (ps : List Text) (oldest : Option (Text × ℕ))
      → Found s ps oldest (find_oldest f s ps oldest)
  unfolding find_oldest
  find_oldest-Found s [] none = (refl, tt)
  find_oldest-Found s [] (some (path, t)) = (inl refl, tt, omega arith)
  find_oldest-Found s (p ∷ ps) oldest =
      Found-entry s p ps oldest _ (has_extension p h264) (f.metadata s p) refl refl
        (find_oldest-Found s ps _)

  -- With nothing found at first: no clip, or the oldest one.
  pub find_oldest-none :
      (s : f.State) (ps : List Text) → find_oldest f s ps none ≡ none → NoClips s ps
  find_oldest-none s ps e = (subst (Found s ps none) e (find_oldest-Found s ps none)).1

  pub find_oldest-some :
      (s : f.State) (ps : List Text) {path : Text} {t : ℕ}
      → find_oldest f s ps none ≡ some (path, t)
      → Candidate s ps path t × NoneOlder t s ps
  find_oldest-some s ps e =
      let (found, rest, _) = subst (Found s ps none) e (find_oldest-Found s ps none) in
      elim found [ inl q ↦ absurd (ground (arith, q)) | inr c ↦ (c, rest) ]
