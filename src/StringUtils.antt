-- ===== src/StringUtils.antt =====
-- common/utils/string_utils.c on C strings, the lists of their bytes before the NUL. isspace() of
-- the C library is an argument.
pub mod Laws
use they_chat.Base.{
  ℕ, zero, suc, Bool, true, false, Option, none, some, List, [], ◌∷◌, ltb, ◌==◌, if◌then◌else◌,
  length, take,
}
use they_chat.CString.{str_eq}

module _ (isspace : ℕ → Bool) where
  -- The loop over the leading space.
  unfoldable pub skip_space : List ℕ → List ℕ
  skip_space [] = []
  skip_space (b ∷ bs) = if isspace b then skip_space bs else b ∷ bs

  abbrev pub keep_end : ℕ → List ℕ → List ℕ
  keep_end b [] = if isspace b then [] else b ∷ []
  keep_end b (c ∷ bs) = b ∷ (c ∷ bs)

  -- The string up to its last byte that is no space.
  unfoldable pub trim_end : List ℕ → List ℕ
  trim_end [] = []
  trim_end (b ∷ bs) = keep_end b (trim_end bs)

  -- The loop from the end stops at the first byte, space or not.
  unfoldable pub trim_rest : List ℕ → List ℕ
  trim_rest [] = []
  trim_rest (b ∷ bs) = b ∷ trim_end bs

  unfoldable pub trim : List ℕ → List ℕ
  trim str = trim_rest (skip_space str)

-- `past_end`: strchr() finds the NUL itself, and the pointer after it is returned.
pub data Split : Type 0 where
  not_found : Split
  parts : List ℕ → List ℕ → Split
  past_end : List ℕ → Split

abbrev pub in_first : ℕ → Split → Split
in_first b not_found = not_found
in_first b (parts first second) = parts (b ∷ first) second
in_first b (past_end first) = past_end (b ∷ first)

-- The string that is left, and the one behind the delimiter.
unfoldable pub split_at : List ℕ → ℕ → Split
split_at [] delimiter = if delimiter == 0 then past_end [] else not_found
split_at (b ∷ bs) delimiter =
    let rest = split_at bs delimiter in if b == delimiter then parts [] bs else in_first b rest

unfoldable pub split_string_inplace : Option (List ℕ) → ℕ → Split
split_string_inplace none delimiter = not_found
split_string_inplace (some str) delimiter = split_at str delimiter

-- strncmp() on the first bytes of both strings
abbrev pub begins : List ℕ → List ℕ → Bool
begins str prefix =
    if ltb (length str) (length prefix)
    then false
    else str_eq (take (length prefix) str) (take (length prefix) prefix)

unfoldable pub starts_with : Option (List ℕ) → Option (List ℕ) → Bool
starts_with none prefix = false
starts_with (some str) none = false
starts_with (some str) (some prefix) = begins str prefix
