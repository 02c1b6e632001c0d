-- ===== src/CString/Laws.antt =====
-- What a copy leaves in the array.
use they_chat.Base.{
  ℕ, zero, suc, ◌≤◌, ◌<◌, ◌≡◌, ◌≢◌, ◌↔◌, refl, ap, ◌∙◌, true, none, some, List, [], ◌∷◌, ◌++◌, ltb,
  ltb→lt, lt→ltb, le→ltb, ne→==, length, take, drop, replicate, All, length-append, length-take,
  length-drop, length-replicate, take-append, subst, Bool-cases, inl, inr, arith,
}
use they_chat.CString.{c_string, terminated, str_eq, strcpy, strncpy, memcpy}

-- A string holds no NUL.
abbrev pub IsString : List ℕ → Type 0
IsString = All (λ b. b ≢ 0)

pub c_string_terminated : (s rest : List ℕ) → IsString s → c_string (s ++ (0 ∷ rest)) ≡ s
unfolding c_string
c_string_terminated [] rest h = refl
c_string_terminated (b ∷ s) rest h =
    rw (ne→== b 0 h.0) (ap (λ t. b ∷ t) (c_string_terminated s rest h.1))

pub c_string-IsString : (bs : List ℕ) → IsString (c_string bs)
unfolding c_string
c_string-IsString [] = tt
c_string-IsString (b ∷ bs) = ground (arith, c_string-IsString bs)

pub str_eq_iff : (a b : List ℕ) → (str_eq a b ≡ true) ↔ (a ≡ b)
unfolding str_eq
str_eq_iff [] [] = (λ h. refl, λ h. refl)
str_eq_iff [] (b ∷ bs) = (λ h. cc, λ h. cc)
str_eq_iff (a ∷ xs) [] = (λ h. cc, λ h. cc)
str_eq_iff (a ∷ xs) (b ∷ bs) = ground (arith, str_eq_iff xs bs)

pub str_eq_refl : (a : List ℕ) → str_eq a a ≡ true
str_eq_refl a = (str_eq_iff a a).1 refl

-- A copy that fits: the array keeps its size and holds the string.
pub strcpy_fits :
    (dest src : List ℕ) (n : ℕ)
    → length dest ≡ n
    → length src < n
    → IsString src
    → (out : List ℕ) × (strcpy dest src ≡ some out) × (length out ≡ n) × (c_string out ≡ src)
unfolding strcpy
strcpy_fits dest src n d s h = (
  src ++ (0 ∷ drop (suc (length src)) dest),
  rw (lt→ltb (length src) (length dest) (omega arith)),
  omega (
    arith,
    length-append src (0 ∷ drop (suc (length src)) dest),
    length-drop (suc (length src)) dest,
  ),
  c_string_terminated src _ h,
)

-- A copy that does not fit writes past the end of the array.
pub strcpy_overruns : (dest src : List ℕ) → length dest ≤ length src → strcpy dest src ≡ none
unfolding strcpy
strcpy_overruns dest src h = rw (le→ltb (length src) (length dest) h)

pub length-strncpy : (src : List ℕ) (n : ℕ) → length (strncpy src n) ≡ n
unfolding strncpy
length-strncpy src n =
    let pad : length (replicate n (zero)) ≡ n = length-replicate n zero in
    length-take n (src ++ replicate n 0) ∙ omega (arith, length-append src (replicate n 0), pad)

c_string-padded :
    (n k : ℕ) (src : List ℕ) → IsString src → c_string (take n (src ++ replicate k 0)) ≡ take n src
unfolding c_string
c_string-padded zero k src h = refl
c_string-padded (suc n) zero [] h = refl
c_string-padded (suc n) (suc k) [] h = refl
c_string-padded (suc n) k (b ∷ src) h =
    rw (ne→== b 0 h.0) (ap (λ t. b ∷ t) (c_string-padded n k src h.1))

-- What is read back is the string, cut off at the array's length.
pub c_string-strncpy : (src : List ℕ) (n : ℕ) → IsString src → c_string (strncpy src n) ≡ take n src
unfolding strncpy
c_string-strncpy src n h = c_string-padded n n src h

terminated-padded :
    (n k : ℕ) (src : List ℕ)
    → IsString src
    → n ≤ k
    → terminated (take n (src ++ replicate k 0)) ≡ ltb (length src) n
unfolding terminated
terminated-padded zero k src h le = ground arith
terminated-padded (suc n) zero src h le = absurd (omega arith)
terminated-padded (suc n) (suc k) [] h le = ground arith
terminated-padded (suc n) (suc k) (b ∷ src) h le =
    rw (ne→== b 0 h.0) (terminated-padded n (suc k) src h.1 (omega arith) ∙ ground arith)

-- The array holds a NUL exactly if the string is shorter than it.
pub terminated-strncpy :
    (src : List ℕ) (n : ℕ) → IsString src → terminated (strncpy src n) ≡ ltb (length src) n
unfolding strncpy
terminated-strncpy src n h = terminated-padded n n src h (omega arith)

pub memcpy_fits :
    (dest src : List ℕ) (n : ℕ)
    → n ≤ length dest
    → n ≤ length src
    → (out : List ℕ) × (memcpy dest src n ≡ some out)
      × (length out ≡ length dest)
      × (take n out ≡ take n src)
unfolding memcpy
memcpy_fits dest src n d s =
    let size : length (take n src) ≡ n = omega (arith, length-take n src) in
    (
      take n src ++ drop n dest,
      rw (le→ltb (length dest) n d),
      omega (arith, length-append (take n src) (drop n dest), size, length-drop n dest),
      take-append n (take n src) (drop n dest) size,
    )

terminated_here : (src rest : List ℕ) → terminated (src ++ (0 ∷ rest)) ≡ true
unfolding terminated
terminated_here [] rest = refl
terminated_here (b ∷ src) rest = rw (terminated_here src rest) (ground arith)

-- A copied string keeps its NUL.
pub strcpy-terminated : (dest src out : List ℕ) → strcpy dest src ≡ some out → terminated out ≡ true
unfolding strcpy
strcpy-terminated dest src out h = elim (Bool-cases (ltb (length src) (length dest))) [
  | inl fits ↦
      let e : src ++ (0 ∷ drop (suc (length src)) dest) ≡ out = cc (rw fits at h) in
      subst (λ o. terminated o ≡ true) e (terminated_here src _)
  | inr over ↦ cc (rw over at h)
]

pub length-c_string : (bs : List ℕ) → length (c_string bs) ≤ length bs
unfolding c_string
length-c_string [] = omega arith
length-c_string (b ∷ bs) = ground (arith, length-c_string bs)

-- An array keeps its size.
pub length-strcpy : (dest src out : List ℕ) → strcpy dest src ≡ some out → length out ≡ length dest
unfolding strcpy
length-strcpy dest src out h = elim (Bool-cases (ltb (length src) (length dest))) [
  | inl fits ↦
      let same : src ++ (0 ∷ drop (suc (length src)) dest) ≡ out = cc (rw fits at h) in
      let short = ltb→lt _ _ fits in
      subst (λ a. length a ≡ length dest) same
        (omega (
          arith,
          length-append src (0 ∷ drop (suc (length src)) dest),
          length-drop (suc (length src)) dest,
          short,
        ))
  | inr long ↦ cc (rw long at h)
]
