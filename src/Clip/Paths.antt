-- ===== src/Clip/Paths.antt =====
-- The path functions of std::path that the clip code uses, on texts.
use sentinel_video_receiver.Prelude.{
  ℕ, Bool, not, ◌&&◌, is_empty, false, Option, none, some, [], ◌∷◌, ◌++◌, ◌==◌, ◌||◌, if◌then◌else◌,
  map, Text, text_same,
}

unfoldable pub join : Text → Text → Text
join dir name = dir ++ (b'/' ∷ name)

-- The parts in front of and behind the last `mark`.
unfoldable pub split_last : ℕ → Text → Option (Text × Text)
split_last mark [] = none
split_last mark (c ∷ cs) = elim (split_last mark cs) [
  | some (before, behind) ↦ some (c ∷ before, behind)
  | none ↦ if c == mark then some ([], cs) else none
]

abbrev behind_or : Text → Option (Text × Text) → Text
behind_or whole (some (before, behind)) = behind
behind_or whole none = whole

unfoldable pub file_name : Text → Text
file_name path = behind_or path (split_last b'/' path)

-- `path.extension() == Some(ext)`: a file name that begins with its only dot has none.
unfoldable pub has_extension : Text → Text → Bool
has_extension path ext = elim (split_last b'.' (file_name path)) [
  | some (before, behind) ↦ not (is_empty before) && text_same behind ext
  | none ↦ false
]

unfoldable pub with_extension : Text → Text → Text
with_extension path ext = elim (split_last b'.' path) [
  | some (before, behind) ↦ before ++ (b'.' ∷ ext)
  | none ↦ path ++ (b'.' ∷ ext)
]

-- "h264", "part" and "json".
abbrev pub h264 : Text
h264 = b'h' ∷ b'2' ∷ b'6' ∷ b'4' ∷ []

abbrev pub part : Text
part = b'p' ∷ b'a' ∷ b'r' ∷ b't' ∷ []

abbrev pub json : Text
json = b'j' ∷ b's' ∷ b'o' ∷ b'n' ∷ []

-- `replace(['/', '\\', ' '], "_")`
unfoldable pub safe_name : Text → Text
safe_name = map (λ c. if (c == b'/') || ((c == b'\\') || (c == b' ')) then b'_' else c)

abbrev before_of : Option (Text × Text) → Option Text
before_of none = none
before_of (some (before, behind)) = some before

-- `path.parent()`, of a path that has a directory in front.
unfoldable pub parent : Text → Option Text
parent path = before_of (split_last b'/' path)

-- `path.with_file_name(name)`
unfoldable pub with_file_name : Text → Text → Text
with_file_name path name = elim (split_last b'/' path) [
  | some (before, behind) ↦ join before name
  | none ↦ name
]
