-- ===== src/Texts/Tests.antt =====
-- The functions on texts, on examples.
use sentinel_video_receiver.Prelude.{◌≡◌, refl, none, some, [], ◌∷◌}
use sentinel_video_receiver.Texts.{
  is_whitespace, trim_start, trim_end, trim, split, words_from, split_whitespace, digits_from,
  parse_unsigned,
}

program : Unit {0}
unfolding is_whitespace trim_start trim_end trim split words_from split_whitespace digits_from
    parse_unsigned
program = tt

trim_runs : trim (32 ∷ b'a' ∷ 32 ∷ b'b' ∷ 13 ∷ 10 ∷ []) ≡ b'a' ∷ 32 ∷ b'b' ∷ []
unfolding program
trim_runs = refl

split_runs : split b';' (b'a' ∷ b';' ∷ b';' ∷ b'b' ∷ []) ≡ (b'a' ∷ []) ∷ [] ∷ (b'b' ∷ []) ∷ []
unfolding program
split_runs = refl

split_whitespace_runs :
    split_whitespace (32 ∷ b'a' ∷ 32 ∷ 9 ∷ b'b' ∷ []) ≡ (b'a' ∷ []) ∷ (b'b' ∷ []) ∷ []
unfolding program
split_whitespace_runs = refl

parse_unsigned_runs :
    (parse_unsigned 65535 (b'6' ∷ b'0' ∷ []) ≡ some 60)
    × (parse_unsigned 255 (b'2' ∷ b'5' ∷ b'6' ∷ []) ≡ none)
unfolding program
parse_unsigned_runs = (refl, refl)
