-- ===== src/Tests/Texts.antt =====
-- Strings: trimming, splitting and prefixes.
use they_chat.Base.{ℕ, ◌≡◌, Bool, some, List, [], ◌∷◌, ◌++◌, ◌==◌}
use they_chat.StringUtils.{trim, split_string_inplace}
use they_chat.StringUtils.Laws.{
  IsSpace, StartsBare, EndsBare, trim_lem, SplitsAt, split_string_inplace-SplitsAt,
}

abbrev is_blank : ℕ → Bool
is_blank b = b == 32

abbrev padded : List ℕ
padded = 32 ∷ 65 ∷ 32 ∷ 66 ∷ 32 ∷ []

trim_lem_example :
    (front back : List ℕ) × (padded ≡ front ++ (trim is_blank padded ++ back))
    × IsSpace is_blank front
    × IsSpace is_blank back
    × StartsBare is_blank (trim is_blank padded)
    × EndsBare is_blank (trim is_blank padded)
trim_lem_example = trim_lem is_blank padded

split_string_inplace-SplitsAt_example : SplitsAt padded 66 (split_string_inplace (some padded) 66)
split_string_inplace-SplitsAt_example = split_string_inplace-SplitsAt padded 66
