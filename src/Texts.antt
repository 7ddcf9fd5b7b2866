-- ===== src/Texts.antt =====
-- The functions of Rust's `str` that the code uses, on texts. A character is its code point.
mod Tests
use sentinel_video_receiver.Prelude.{
  ℕ, zero, suc, ◌+◌, ◌-◌, ◌*◌, Bool, true, false, not, ◌&&◌, ◌||◌, Option, none, some, List, [],
  ◌∷◌, ◌++◌, ltb, leb, ◌==◌, if◌then◌else◌, is_empty, Text,
}

-- `char::is_whitespace`
unfoldable pub is_whitespace : ℕ → Bool
is_whitespace c =
    (leb 9 c && leb c 13)
    || ((c == 32)
        || ((c == 133)
            || ((c == 160)
                || ((c == 5760)
                    || ((leb 8192 c && leb c 8202)
                        || ((c == 8232)
                            || ((c == 8233) || ((c == 8239) || ((c == 8287) || (c == 12288))))))))))

unfoldable pub trim_start : Text → Text
trim_start [] = []
trim_start (c ∷ cs) = let rest = trim_start cs in if is_whitespace c then rest else c ∷ cs

unfoldable pub trim_end : Text → Text
trim_end [] = []
trim_end (c ∷ cs) =
    let rest = trim_end cs in if is_empty rest && is_whitespace c then [] else c ∷ rest

unfoldable pub trim : Text → Text
trim s = trim_end (trim_start s)

-- `strip_prefix`, and `starts_with`.
unfoldable pub strip_prefix : Text → Text → Option Text
strip_prefix [] s = some s
strip_prefix (c ∷ cs) [] = none
strip_prefix (c ∷ cs) (d ∷ ds) = let rest = strip_prefix cs ds in if c == d then rest else none

abbrev in_front : ℕ → Option (Text × Text) → Option (Text × Text)
in_front c none = none
in_front c (some (before, behind)) = some (c ∷ before, behind)

-- `split_once` of a character: at the first one.
unfoldable pub split_once : ℕ → Text → Option (Text × Text)
split_once mark [] = none
split_once mark (c ∷ cs) =
    let rest = split_once mark cs in if c == mark then some ([], cs) else in_front c rest

abbrev onto_first : ℕ → List Text → List Text
onto_first c [] = (c ∷ []) ∷ []
onto_first c (part ∷ parts) = (c ∷ part) ∷ parts

-- `split` at a character.
unfoldable pub split : ℕ → Text → List Text
split mark [] = [] ∷ []
split mark (c ∷ cs) =
    let parts = split mark cs in if c == mark then [] ∷ parts else onto_first c parts

-- The words of `split_whitespace`: the parts between whitespace that are not empty.
unfoldable pub words_from : Text → Text → List Text
words_from word [] = if is_empty word then [] else word ∷ []
words_from word (c ∷ cs) =
    let behind = words_from [] cs in
    let on = words_from (word ++ (c ∷ [])) cs in
    if is_whitespace c then (if is_empty word then behind else word ∷ behind) else on

unfoldable pub split_whitespace : Text → List Text
split_whitespace s = words_from [] s

-- Digits behind a number; `none` is a character that is no digit.
unfoldable pub digits_from : ℕ → Text → Option ℕ
digits_from n [] = some n
digits_from n (c ∷ cs) =
    let rest = digits_from (n * 10 + (c - 48)) cs in if leb 48 c && leb c 57 then rest else none

abbrev at_most : ℕ → Option ℕ → Option ℕ
at_most max none = none
at_most max (some n) = if leb n max then some n else none

-- `parse` of an unsigned integer with a greatest value; `none` is its error.
unfoldable pub parse_unsigned : ℕ → Text → Option ℕ
parse_unsigned max [] = none
parse_unsigned max (c ∷ cs) =
    if c == b'+'
    then (if is_empty cs then none else at_most max (digits_from 0 cs))
    else at_most max (digits_from 0 (c ∷ cs))

-- `eq_ignore_ascii_case`
unfoldable pub lower : ℕ → ℕ
lower c = if leb 65 c && leb c 90 then c + 32 else c

unfoldable pub same_ignoring_case : Text → Text → Bool
same_ignoring_case [] [] = true
same_ignoring_case (c ∷ cs) (d ∷ ds) =
    let rest = same_ignoring_case cs ds in (lower c == lower d) && rest
same_ignoring_case _ _ = false

-- `split("\r\n")`
unfoldable pub split_crlf : Text → List Text
split_crlf [] = [] ∷ []
split_crlf (c ∷ []) = (c ∷ []) ∷ []
split_crlf (c ∷ (d ∷ cs)) =
    let behind = split_crlf cs in
    let on = split_crlf (d ∷ cs) in if (c == 13) && (d == 10) then [] ∷ behind else onto_first c on

-- The greatest `u16` and `usize`.
abbrev pub u16_max : ℕ
u16_max = 65535

abbrev pub usize_max : ℕ
usize_max = 18446744073709551615
