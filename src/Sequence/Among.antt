-- ===== src/Sequence/Among.antt =====
-- Lemmas on the elements of a list that is written to, extended or cut.
use they_chat.Base.{
  ◌≡◌, ◌⊎◌, inl, inr, refl, sym, ap, subst, ◌∙◌, All, Bool, false, Bool-cases, none, List, [], ◌∷◌,
  ◌++◌, map,
}
use they_chat.Sequence.{find}
use they_chat.Sequence.Laws.{erase}

-- An element stands in a list.
abbrev pub Among : {A : Type 0} → A → List A → Type 0
Among x [] = ⊥
Among x (y ∷ ys) = (x ≡ y) ⊎ Among x ys

pub Among-map :
    {A B : Type 0} (g : A → B) (y : B) (xs : List A)
    → Among y (map g xs)
    → (x : A) × Among x xs × (y ≡ g x)
Among-map g y [] h = absurd h
Among-map g y (x ∷ xs) (inl e) = (x, inl refl, e)
Among-map g y (x ∷ xs) (inr h) = let (z, at, e) = Among-map g y xs h in (z, inr at, e)

pub Among-append :
    {A : Type 0} (x : A) (xs : List A) (y : A) → Among x (xs ++ y ∷ []) → Among x xs ⊎ (x ≡ y)
Among-append x [] y (inl e) = inr e
Among-append x (z ∷ xs) y (inl e) = inl (inl e)
Among-append x (z ∷ xs) y (inr h) = elim (Among-append x xs y h) [
  | inl at ↦ inl (inr at)
  | inr e ↦ inr e
]
Among-append x [] y (inr h) = absurd h

Among-either :
    {A : Type 0} (x y : A) (ys zs : List A)
    → (Among x zs → Among x ys)
    → Among x (y ∷ zs)
    → Among x (y ∷ ys)
Among-either x y ys zs k (inl e) = inl e
Among-either x y ys zs k (inr at) = inr (k at)

pub Among-erase :
    {A : Type 0} (p : A → Bool) (x : A) (xs : List A) → Among x (erase p xs) → Among x xs
unfolding erase
Among-erase p x [] h = h
Among-erase p x (y ∷ ys) h = elim (Bool-cases (p y)) [
  | inl hit ↦ inr (rw hit at h)
  | inr miss ↦ Among-either x y ys (erase p ys) (Among-erase p x ys) (rw miss at h)
]

pub find-misses :
    {A : Type 0} (p : A → Bool) (x : A) (xs : List A) → find p xs ≡ none → Among x xs → p x ≡ false
unfolding find
find-misses p x [] h at = absurd at
find-misses p x (y ∷ ys) h (inl e) = elim (Bool-cases (p y)) [
  | inl hit ↦ cc (rw hit at h)
  | inr miss ↦ ap p e ∙ miss
]
find-misses p x (y ∷ ys) h (inr at) = elim (Bool-cases (p y)) [
  | inl hit ↦ cc (rw hit at h)
  | inr miss ↦ find-misses p x ys (rw miss at h) at
]

pub Among-All : {A : Type 0} (P : A → Type 0) (x : A) (xs : List A) → All P xs → Among x xs → P x
Among-All P x [] h at = absurd at
Among-All P x (y ∷ ys) h (inl e) = subst P (sym e) h.0
Among-All P x (y ∷ ys) h (inr at) = Among-All P x ys h.1 at
