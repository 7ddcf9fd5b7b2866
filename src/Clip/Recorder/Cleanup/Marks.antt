-- ===== src/Clip/Recorder/Cleanup/Marks.antt =====
-- Clips that are kept under marks.
use sentinel_video_receiver.Prelude.{
  ℕ, ◌≤◌, ◌≡◌, refl, sym, ap, ◌∙◌, arith, true, List, [], ◌∷◌, ◌++◌, if◌then◌else◌, length, take,
  drop, take-append-drop, Text, text_same_iff,
}
use sentinel_video_receiver.Clip.Recorder.Cleanup.{
  Clip, insert_by_mtime, sort_by_mtime, contains, retain_unmarked, total_size, paths,
}

-- Number and size of the clips that are kept under marks do not depend on the order of the clips.
abbrev pub kept_count : List Text → List Clip → ℕ
kept_count marked cs = length (retain_unmarked marked cs)

abbrev pub kept_size : List Text → List Clip → ℕ
kept_size marked cs = total_size (retain_unmarked marked cs)

insert_lem :
    (marked : List Text) (c : Clip) (cs : List Clip)
    → (kept_count marked (insert_by_mtime c cs) ≡ kept_count marked (c ∷ cs))
      × (kept_size marked (insert_by_mtime c cs) ≡ kept_size marked (c ∷ cs))
unfolding insert_by_mtime retain_unmarked
insert_lem marked c [] = (refl, refl)
insert_lem marked c (d ∷ ds) = ground (arith, insert_lem marked c ds)

pub sort_lem :
    (marked : List Text) (cs : List Clip)
    → (kept_count marked (sort_by_mtime cs) ≡ kept_count marked cs)
      × (kept_size marked (sort_by_mtime cs) ≡ kept_size marked cs)
unfolding sort_by_mtime retain_unmarked
sort_lem marked [] = (refl, refl)
sort_lem marked (c ∷ cs) =
    ground (arith, insert_lem marked c (sort_by_mtime cs), sort_lem marked cs)

contains-append :
    (p : Text) (xs ys : List Text)
    → contains p (xs ++ ys) ≡ (if contains p xs then true else contains p ys)
unfolding contains
contains-append p [] ys = refl
contains-append p (x ∷ xs) ys = ground (arith, contains-append p xs ys)

-- Marks one after the other.
pub retain-append :
    (xs ys : List Text) (cs : List Clip)
    → retain_unmarked (xs ++ ys) cs ≡ retain_unmarked ys (retain_unmarked xs cs)
unfolding retain_unmarked
retain-append xs ys [] = refl
retain-append xs ys (c ∷ cs) = ground (arith, contains-append c.path xs ys, retain-append xs ys cs)

-- Marking less keeps more.
pub retain_mono :
    (xs ys : List Text) (cs : List Clip)
    → (length (retain_unmarked xs (retain_unmarked ys cs)) ≤ length (retain_unmarked xs cs))
      × (total_size (retain_unmarked xs (retain_unmarked ys cs))
          ≤ total_size (retain_unmarked xs cs))
unfolding retain_unmarked
retain_mono xs ys [] = (omega arith, omega arith)
retain_mono xs ys (c ∷ cs) = ground (arith, retain_mono xs ys cs)

pub retain_le :
    (xs : List Text) (cs : List Clip)
    → (length (retain_unmarked xs cs) ≤ length cs)
      × (total_size (retain_unmarked xs cs) ≤ total_size cs)
unfolding retain_unmarked
retain_le xs [] = (omega arith, omega arith)
retain_le xs (c ∷ cs) = ground (arith, retain_le xs cs)

-- Every clip of a list is marked.
abbrev pub Covered : List Text → List Clip → Type 0
Covered marked [] = Unit
Covered marked (c ∷ cs) = (contains c.path marked ≡ true) × Covered marked cs

Covered-cons :
    (p : Text) (marked : List Text) (cs : List Clip) → Covered marked cs → Covered (p ∷ marked) cs
unfolding contains
Covered-cons p marked [] h = tt
Covered-cons p marked (c ∷ cs) (h, k) = (ground (arith, h), Covered-cons p marked cs k)

pub contains_self : (p : Text) (marked : List Text) → contains p (p ∷ marked) ≡ true
unfolding contains
contains_self p marked = ground (arith, text_same_iff p p)

Covered-paths : (cs : List Clip) → Covered (paths cs) cs
Covered-paths [] = tt
Covered-paths (c ∷ cs) =
    (contains_self c.path (paths cs), Covered-cons c.path (paths cs) cs (Covered-paths cs))

pub retain-Covered :
    (marked : List Text) (cs ds : List Clip)
    → Covered marked cs
    → retain_unmarked marked (cs ++ ds) ≡ retain_unmarked marked ds
unfolding retain_unmarked
retain-Covered marked [] ds h = refl
retain-Covered marked (c ∷ cs) ds (h, k) = ground (arith, h, retain-Covered marked cs ds k)

-- The clips left by marking the first `n` are among the others.
pub retain-take :
    (n : ℕ) (cs : List Clip)
    → retain_unmarked (paths (take n cs)) cs ≡ retain_unmarked (paths (take n cs)) (drop n cs)
retain-take n cs =
    ap (retain_unmarked (paths (take n cs))) (sym (take-append-drop n cs))
    ∙ retain-Covered (paths (take n cs)) (take n cs) (drop n cs) (Covered-paths (take n cs))
