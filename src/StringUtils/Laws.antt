-- ===== src/StringUtils/Laws.antt =====
-- Statements on common/utils/string_utils.c.
use they_chat.Base.{
  ℕ, ◌≡◌, ◌≢◌, ◌↔◌, inl, inr, refl, sym, ap, subst, ◌∙◌, Bool, true, false, Bool-cases, some, List,
  [], ◌∷◌, ◌++◌, All, ltb, le→ltb, ◌==◌, ==_iff, length, length-append, take, drop,
  take-append-drop, take-append, take_all, arith,
}
use they_chat.CString.Laws.{str_eq_iff, str_eq_refl}
use they_chat.StringUtils.{
  skip_space, keep_end, trim_end, trim_rest, trim, Split, not_found, parts, past_end, in_first,
  split_at, split_string_inplace, begins, starts_with,
}

module _ (isspace : ℕ → Bool) where
  abbrev pub IsSpace : List ℕ → Type 0
  IsSpace = All (λ b. isspace b ≡ true)

  -- The first byte is no space.
  abbrev pub StartsBare : List ℕ → Type 0
  StartsBare [] = Unit
  StartsBare (b ∷ bs) = isspace b ≡ false

  abbrev pub EndsBare : List ℕ → Type 0
  EndsBare [] = Unit
  EndsBare (b ∷ []) = isspace b ≡ false
  EndsBare (b ∷ (c ∷ bs)) = EndsBare (c ∷ bs)

  skip_space_lem :
      (s : List ℕ)
      → (front : List ℕ) × (s ≡ front ++ skip_space isspace s)
        × IsSpace front
        × StartsBare (skip_space isspace s)
  unfolding skip_space
  skip_space_lem [] = ([], refl, tt, tt)
  skip_space_lem (b ∷ bs) = elim (Bool-cases (isspace b)) [
    | inl space ↦
        let (front, e, all, bare) = skip_space_lem bs in
        rw space (b ∷ front, ap (λ t. b ∷ t) e, (space, all), bare)
    | inr other ↦ rw other ([], refl, tt, other)
  ]

  -- What is cut off at the end.
  abbrev Cuts : List ℕ → List ℕ → Type 0
  Cuts s kept = (back : List ℕ) × (s ≡ kept ++ back) × IsSpace back × EndsBare kept

  keep_end_lem : (b : ℕ) (bs kept : List ℕ) → Cuts bs kept → Cuts (b ∷ bs) (keep_end isspace b kept)
  keep_end_lem b bs [] (back, e, all, bare) = elim (Bool-cases (isspace b)) [
    | inl space ↦ rw space (b ∷ back, ap (λ t. b ∷ t) e, (space, all), tt)
    | inr other ↦ rw other (back, ap (λ t. b ∷ t) e, all, other)
  ]
  keep_end_lem b bs (c ∷ kept) (back, e, all, bare) = (back, ap (λ t. b ∷ t) e, all, bare)

  trim_end_lem : (s : List ℕ) → Cuts s (trim_end isspace s)
  unfolding trim_end
  trim_end_lem [] = ([], refl, tt, tt)
  trim_end_lem (b ∷ bs) = keep_end_lem b bs (trim_end isspace bs) (trim_end_lem bs)

  after_bare : (b : ℕ) (kept : List ℕ) → isspace b ≡ false → EndsBare kept → EndsBare (b ∷ kept)
  after_bare b [] h k = h
  after_bare b (c ∷ kept) h k = k

  trim_rest_lem :
      (s : List ℕ) → StartsBare s → Cuts s (trim_rest isspace s) × StartsBare (trim_rest isspace s)
  unfolding trim_rest
  trim_rest_lem [] h = (([], refl, tt, tt), tt)
  trim_rest_lem (b ∷ bs) h =
      let (back, e, all, bare) = trim_end_lem bs in
      ((back, ap (λ t. b ∷ t) e, all, after_bare b (trim_end isspace bs) h bare), h)

  -- `trim` takes away space at the front and at the back and nothing else, and what is left neither
  -- begins nor ends with a space.
  pub trim_lem :
      (s : List ℕ)
      → (front back : List ℕ) × (s ≡ front ++ (trim isspace s ++ back))
        × IsSpace front
        × IsSpace back
        × StartsBare (trim isspace s)
        × EndsBare (trim isspace s)
  unfolding trim
  trim_lem s =
      let (front, e, all_front, bare) = skip_space_lem s in
      let ((back, e', all_back, ends), starts) = trim_rest_lem (skip_space isspace s) bare in
      (front, back, e ∙ ap (λ t. front ++ t) e', all_front, all_back, starts, ends)

-- What a split comes to: the first delimiter is between the parts, or there is none.
abbrev pub SplitsAt : List ℕ → ℕ → Split → Type 0
SplitsAt s d not_found = All (λ b. b ≢ d) s
SplitsAt s d (parts first second) = (s ≡ first ++ (d ∷ second)) × All (λ b. b ≢ d) first
SplitsAt s d (past_end first) = d ≡ 0

SplitsAt-in_first :
    (b : ℕ) (s : List ℕ) (d : ℕ) (r : Split)
    → b ≢ d
    → SplitsAt s d r
    → SplitsAt (b ∷ s) d (in_first b r)
SplitsAt-in_first b s d not_found n h = (n, h)
SplitsAt-in_first b s d (parts first second) n h = (ap (λ t. b ∷ t) h.0, (n, h.1))
SplitsAt-in_first b s d (past_end first) n h = h

split_at-SplitsAt : (s : List ℕ) (d : ℕ) → SplitsAt s d (split_at s d)
unfolding split_at
split_at-SplitsAt [] d = elim (Bool-cases (d == 0)) [
  | inl nul ↦ rw nul ((==_iff d 0).0 nul)
  | inr other ↦ rw other tt
]
split_at-SplitsAt (b ∷ bs) d = elim (Bool-cases (b == d)) [
  | inl here ↦ rw here (ap (λ c. c ∷ bs) ((==_iff b d).0 here), tt)
  | inr other ↦ rw other (
      SplitsAt-in_first b bs d (split_at bs d) (λ e. let t = (==_iff b d).1 e in cc)
        (split_at-SplitsAt bs d))
]

-- The string is split at the first delimiter, which neither part keeps, and not at all if there is
-- none; only the NUL as a delimiter leads past the string.
pub split_string_inplace-SplitsAt :
    (s : List ℕ) (d : ℕ) → SplitsAt s d (split_string_inplace (some s) d)
unfolding split_string_inplace
split_string_inplace-SplitsAt s d = split_at-SplitsAt s d

begins-prefix :
    (s prefix : List ℕ) → begins s prefix ≡ true → (rest : List ℕ) × (s ≡ prefix ++ rest)
begins-prefix s prefix h = elim (Bool-cases (ltb (length s) (length prefix))) [
  | inl short ↦ cc (rw short at h)
  | inr long ↦
      let n = length prefix in
      let same : take n s ≡ take n prefix =
        (str_eq_iff (take n s) (take n prefix)).0 (rw long at h) in
      (
        drop n s,
        sym (take-append-drop n s)
            ∙ ap (λ t. t ++ drop n s) (same ∙ take_all n prefix (omega arith)),
      )
]

begins-append : (prefix rest : List ℕ) → begins (prefix ++ rest) prefix ≡ true
begins-append prefix rest =
    let n = length prefix in
    rw
      (
        le→ltb (length (prefix ++ rest)) n (omega (arith, length-append prefix rest)),
        take-append n prefix rest refl,
        take_all n prefix (omega arith),
      )
      (str_eq_refl prefix)

-- The test holds exactly if the string is the prefix and something behind it.
pub starts_with_lem :
    (s prefix : List ℕ)
    → (starts_with (some s) (some prefix) ≡ true) ↔ ((rest : List ℕ) × (s ≡ prefix ++ rest))
unfolding starts_with
starts_with_lem s prefix = (
  begins-prefix s prefix,
  λ r. subst (λ t. begins t prefix ≡ true) (sym r.1) (begins-append prefix r.0),
)
