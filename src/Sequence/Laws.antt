-- ===== src/Sequence/Laws.antt =====
-- Search and removal by a number that each element carries.
use they_chat.Base.{
  ℕ, suc, ◌+◌, ◌<◌, ◌≡◌, ◌≢◌, refl, sym, ap, subst, ◌∙◌, Bool, true, false, Option, none, some,
  List, [], ◌∷◌, ◌++◌, All, All-append, ◌==◌, ==_iff, ne→==, ==_refl, if◌then◌else◌, Bool-cases,
  inl, inr, arith,
}
use they_chat.Sequence.{remove_at, find_index, find}

abbrev pub is_some : {B : Type 0} → Option B → Bool
is_some none = false
is_some (some b) = true

abbrev bump : Option ℕ → Option ℕ
bump none = none
bump (some j) = some (suc j)

module _ {A : Type 0} where
  -- The list without its first element that passes.
  unfoldable pub erase : (A → Bool) → List A → List A
  erase p [] = []
  erase p (x ∷ xs) = if p x then xs else x ∷ erase p xs

  abbrev pub remove_found : Option ℕ → List A → Bool × List A
  remove_found none xs = (false, xs)
  remove_found (some i) xs = remove_at i xs

  find_index-suc :
      (p : A → Bool) (i : ℕ) (xs : List A) → find_index p (i + 1) xs ≡ bump (find_index p i xs)
  unfolding find_index
  find_index-suc p i [] = refl
  find_index-suc p i (x ∷ xs) = elim (Bool-cases (p x)) [
    | inl hit ↦ rw hit (let e : i + 1 ≡ suc i = omega arith in ap (λ j. some j) e)
    | inr miss ↦ rw miss (find_index-suc p (i + 1) xs)
  ]

  remove-bump :
      (o : Option ℕ) (x : A) (xs : List A)
      → remove_found (bump o) (x ∷ xs) ≡ ((remove_found o xs).0, x ∷ (remove_found o xs).1)
  unfolding remove_at
  remove-bump none x xs = refl
  remove-bump (some j) x xs = refl

  -- A search for the index and a removal at it take out the first element that passes.
  pub remove-erase :
      (p : A → Bool) (xs : List A)
      → remove_found (find_index p 0 xs) xs ≡ (is_some (find p xs), erase p xs)
  unfolding find_index find erase remove_at
  remove-erase p [] = refl
  remove-erase p (x ∷ xs) = elim (Bool-cases (p x)) [
    | inl hit ↦ rw hit
    | inr miss ↦ rw miss (
        ap (λ o. remove_found o (x ∷ xs)) (find_index-suc p 0 xs)
        ∙ remove-bump (find_index p 0 xs) x xs
        ∙ ap (λ (r : Bool × List A). (r.0, x ∷ r.1)) (remove-erase p xs))
  ]

  pub find-append :
      (p : A → Bool) (xs : List A) (x : A)
      → p x ≡ true
      → find p xs ≡ none
      → find p (xs ++ x ∷ []) ≡ some x
  unfolding find
  find-append p [] x h k = rw h
  find-append p (y ∷ xs) x h k = elim (Bool-cases (p y)) [
    | inl hit ↦ cc (rw hit at k)
    | inr miss ↦ rw miss (find-append p xs x h (rw miss at k))
  ]

  pub find-append_miss :
      (p : A → Bool) (xs : List A) (x : A) → p x ≡ false → find p (xs ++ x ∷ []) ≡ find p xs
  unfolding find
  find-append_miss p [] x h = rw h
  find-append_miss p (y ∷ xs) x h = elim (Bool-cases (p y)) [
    | inl hit ↦ rw hit
    | inr miss ↦ rw miss (find-append_miss p xs x h)
  ]

-- Elements with a number.
module _ {A : Type 0} (key : A → ℕ) where
  abbrev pub Distinct : List A → Type 0
  Distinct [] = Unit
  Distinct (x ∷ xs) = All (λ y. key x ≢ key y) xs × Distinct xs

  abbrev pub has_key : ℕ → A → Bool
  has_key k x = key x == k

  pub find_above : (n : ℕ) (xs : List A) → All (λ x. key x < n) xs → find (has_key n) xs ≡ none
  unfolding find
  find_above n [] h = refl
  find_above n (x ∷ xs) h =
      rw (ne→== (key x) n (λ e. absurd (omega (arith, h.0)))) (find_above n xs h.1)

  pub find_absent : (n : ℕ) (xs : List A) → All (λ x. n ≢ key x) xs → find (has_key n) xs ≡ none
  unfolding find
  find_absent n [] h = refl
  find_absent n (x ∷ xs) h = rw (ne→== (key x) n (λ e. h.0 (sym e))) (find_absent n xs h.1)

  -- An element that is added is found under its number, and hides no other.
  pub find-append_key :
      (j : ℕ) (xs : List A) (x : A)
      → find (has_key (key x)) xs ≡ none
      → find (has_key j) (xs ++ x ∷ []) ≡ (if key x == j then some x else find (has_key j) xs)
  find-append_key j xs x h = elim (Bool-cases (key x == j)) [
    | inl same ↦
        let q : key x ≡ j = (==_iff (key x) j).0 same in
        rw same (find-append (has_key j) xs x same (subst (λ n. find (has_key n) xs ≡ none) q h))
    | inr other ↦ rw other (find-append_miss (has_key j) xs x other)
  ]

  -- After the removal of a number, a search finds no element with it, and finds with every other
  -- number what it found before.
  pub find-erase :
      (k j : ℕ) (xs : List A)
      → Distinct xs
      → find (has_key j) (erase (has_key k) xs) ≡ (if k == j then none else find (has_key j) xs)
  unfolding find erase
  find-erase k j [] h = ground arith
  find-erase k j (x ∷ xs) h = elim (Bool-cases (key x == k)) [
    | inl hit ↦ rw hit (elim (Bool-cases (k == j)) [
      | inl same ↦
          let q : key x ≡ j = (==_iff (key x) k).0 hit ∙ (==_iff k j).0 same in
          rw same (find_absent j xs (subst (λ n. All (λ y. n ≢ key y) xs) q h.0))
      | inr other ↦ ground arith
    ])
    | inr miss ↦ rw miss (ground (arith, find-erase k j xs h.1))
  ]

  pub All-erase {ℓ} : (P : A → Type ℓ) (p : A → Bool) (xs : List A) → All P xs → All P (erase p xs)
  unfolding erase
  All-erase P p [] h = tt
  All-erase P p (x ∷ xs) h = elim (Bool-cases (p x)) [
    | inl hit ↦ rw hit h.1
    | inr miss ↦ rw miss (h.0, All-erase P p xs h.1)
  ]

  pub Distinct-erase : (p : A → Bool) (xs : List A) → Distinct xs → Distinct (erase p xs)
  unfolding erase
  Distinct-erase p [] h = tt
  Distinct-erase p (x ∷ xs) h = elim (Bool-cases (p x)) [
    | inl hit ↦ rw hit h.1
    | inr miss ↦ rw miss (All-erase _ p xs h.0, Distinct-erase p xs h.1)
  ]

  -- An element with a number above all others comes last.
  pub Distinct-append :
      (xs : List A) (x : A) → Distinct xs → All (λ y. key y < key x) xs → Distinct (xs ++ x ∷ [])
  Distinct-append [] x h k = (tt, tt)
  Distinct-append (y ∷ xs) x h k = (
    All-append _ xs (x ∷ []) h.0 ((λ e. absurd (omega (arith, k.0, e))), tt),
    Distinct-append xs x h.1 k.1,
  )

  before_ne :
      (xs : List A) (x : A) (ys : List A) → Distinct (xs ++ (x ∷ ys)) → All (λ y. key y ≢ key x) xs
  before_ne [] x ys h = tt
  before_ne (y ∷ xs) x ys h = (head xs h.0, before_ne xs x ys h.1)
    where
      head : (zs : List A) → All (λ z. key y ≢ key z) (zs ++ (x ∷ ys)) → key y ≢ key x
      head [] k = k.0
      head (z ∷ zs) k = head zs k.1

  miss_front :
      (p : A → Bool) (xs : List A) (x : A) (ys : List A)
      → All (λ y. p y ≡ false) xs
      → p x ≡ true
      → (find p (xs ++ (x ∷ ys)) ≡ some x) × (erase p (xs ++ (x ∷ ys)) ≡ xs ++ ys)
  unfolding find erase
  miss_front p [] x ys h k = (rw k, rw k)
  miss_front p (y ∷ xs) x ys h k =
      let (found, erased) = miss_front p xs x ys h.1 k in
      (rw h.0 found, rw h.0 (ap (λ t. y ∷ t) erased))

  misses : (n : ℕ) (xs : List A) → All (λ y. key y ≢ n) xs → All (λ y. has_key n y ≡ false) xs
  misses n [] h = tt
  misses n (x ∷ xs) h = (ne→== (key x) n h.0, misses n xs h.1)

  -- In a list with unique numbers, the element in the middle is found and erased by its number.
  pub find-middle :
      (xs : List A) (x : A) (ys : List A)
      → Distinct (xs ++ (x ∷ ys))
      → (find (has_key (key x)) (xs ++ (x ∷ ys)) ≡ some x)
        × (erase (has_key (key x)) (xs ++ (x ∷ ys)) ≡ xs ++ ys)
  find-middle xs x ys h =
      miss_front (has_key (key x)) xs x ys (misses (key x) xs (before_ne xs x ys h))
        (==_refl (key x))

-- What a search finds is an element of the list that passes.
pub find-split :
    {A : Type 0} (p : A → Bool) (xs : List A) (x : A)
    → find p xs ≡ some x
    → (before : List A) × (behind : List A) × (xs ≡ before ++ (x ∷ behind)) × (p x ≡ true)
unfolding find
find-split p [] x h = cc
find-split p (y ∷ xs) x h = elim (Bool-cases (p y)) [
  | inl hit ↦
      let same : y ≡ x = cc (rw hit at h) in
      ([], xs, ap (λ z. z ∷ xs) same, subst (λ z. p z ≡ true) same hit)
  | inr miss ↦
      let (before, behind, parts, passes) = find-split p xs x (rw miss at h) in
      (y ∷ before, behind, ap (λ t. y ∷ t) parts, passes)
]

-- What is found is one of the list.
pub find-All :
    {A : Type 0} (P : A → Type 0) (p : A → Bool) (x : A) (xs : List A)
    → All P xs
    → find p xs ≡ some x
    → P x
unfolding find
find-All P p x [] h e = cc
find-All P p x (y ∷ ys) h e = elim (Bool-cases (p y)) [
  | inl hit ↦ let same : y ≡ x = cc (rw hit at e) in subst P same h.0
  | inr miss ↦ find-All P p x ys h.1 (rw miss at e)
]
