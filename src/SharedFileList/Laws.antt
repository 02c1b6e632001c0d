-- ===== src/SharedFileList/Laws.antt =====
-- Statements on server/shared_file_list.c: numbers and names of files.
use they_chat.Base.{
  ℕ, ◌+◌, ◌%◌, ◌^◌, ◌≤◌, ◌<◌, ◌≡◌, refl, ap, ◌∙◌, ◌==◌, Bool, true, false, Bool-cases, inl, inr,
  Option, none, some, List, [], ◌∷◌, ◌++◌, All, All-append, if◌then◌else◌, arith,
}
use they_chat.Sequence.{remove_at, find_index, find, count}
use they_chat.Sequence.Laws.{
  erase, remove_found, is_some, remove-erase, find-append_key, Distinct, find_above, find-erase,
  All-erase, Distinct-erase, Distinct-append,
}
use they_chat.SharedFileList.{
  SharedFile, SharedFileList, has_id, has_name, shared_file_list_add, shared_file_list_remove,
  shared_file_list_find_by_id, shared_file_list_find_by_name, shared_file_list_count_name,
}

abbrev pub file_key : SharedFile → ℕ
file_key f = f.id

pub record IsFileList (fl : SharedFileList) : Type 0 where
  pub distinct : Distinct file_key fl.list
  pub below : All (λ f. file_key f < fl.next_file_id) fl.list

below_more :
    (n : ℕ) (xs : List SharedFile) → All (λ f. file_key f < n) xs → All (λ f. file_key f < n + 1) xs
below_more n [] h = tt
below_more n (f ∷ fs) h = (omega (arith, h.0), below_more n fs h.1)

-- A file that is added has a number that no file had, is found under it, and hides no other; the
-- numbers stay unique as long as the counter does not wrap.
pub shared_file_list_add_lem :
    (fl : SharedFileList) (old : SharedFile) (j : ℕ)
    → IsFileList fl
    → fl.next_file_id + 1 < 2 ^ 32
    → let (fl', file) = shared_file_list_add old fl in
      IsFileList fl'
      × (shared_file_list_find_by_id fl file.id ≡ none)
      × (shared_file_list_find_by_id fl' j
          ≡ (if file.id == j then some file else shared_file_list_find_by_id fl j))
unfolding shared_file_list_add shared_file_list_find_by_id
shared_file_list_add_lem fl old j h small =
    let file : SharedFile = record old { id = fl.next_file_id } in
    let fresh = find_above file_key fl.next_file_id fl.list h.below in
    let next : (fl.next_file_id + 1) % 2 ^ 32 ≡ fl.next_file_id + 1 = omega (arith, small) in
    (
      record {
        distinct = Distinct-append file_key fl.list file h.distinct h.below;
        below = rw next (
            All-append _ fl.list (file ∷ []) (below_more fl.next_file_id fl.list h.below)
              (omega arith, tt));
      },
      fresh,
      find-append_key file_key j fl.list file fresh,
    )

pub remove_lem :
    (fl : SharedFileList) (k : ℕ)
    → shared_file_list_remove fl k
      ≡ (record fl { list = erase (has_id k) fl.list }, is_some (shared_file_list_find_by_id fl k))
unfolding shared_file_list_remove shared_file_list_find_by_id
remove_lem fl k =
    pick (find_index (has_id k) 0 fl.list)
    ∙ ap (λ (r : Bool × List SharedFile). (record fl { list = r.1 }, r.0))
        (remove-erase (has_id k) fl.list)
  where
    pick :
        (o : Option ℕ)
        → elim o as (λ _. SharedFileList × Bool) [
          | none ↦ (fl, false)
          | some i ↦
              let (removed, rest) = remove_at i fl.list in (record fl { list = rest }, removed)
        ]
          ≡ (record fl { list = (remove_found o fl.list).1 }, (remove_found o fl.list).0)
    pick none = refl
    pick (some i) = refl

-- `shared_file_list_remove` says whether there was a file with the number. Afterwards none is found
-- under it, every other number finds what it found before, and the numbers stay unique.
pub shared_file_list_remove_lem :
    (fl : SharedFileList) (k j : ℕ)
    → IsFileList fl
    → let (fl', removed) = shared_file_list_remove fl k in
      IsFileList fl'
      × (removed ≡ is_some (shared_file_list_find_by_id fl k))
      × (shared_file_list_find_by_id fl' j
          ≡ (if k == j then none else shared_file_list_find_by_id fl j))
unfolding shared_file_list_find_by_id
shared_file_list_remove_lem fl k j h = rw (remove_lem fl k) (
  record {
    distinct = Distinct-erase file_key (has_id k) fl.list h.distinct;
    below = All-erase file_key _ (has_id k) fl.list h.below;
  },
  refl,
  find-erase file_key k j fl.list h.distinct,
)

count-le : (p : SharedFile → Bool) (n : ℕ) (xs : List SharedFile) → n ≤ count p n xs
unfolding count
count-le p n [] = omega arith
count-le p n (x ∷ xs) = elim (Bool-cases (p x)) [
  | inl hit ↦ rw hit (omega (arith, count-le p (n + 1) xs))
  | inr miss ↦ rw miss (count-le p n xs)
]

count-zero :
    (p : SharedFile → Bool) (n : ℕ) (xs : List SharedFile)
    → count p n xs ≡ n
    → All (λ x. p x ≡ false) xs
unfolding count
count-zero p n [] h = tt
count-zero p n (x ∷ xs) h = elim (Bool-cases (p x)) [
  | inl hit ↦ absurd (omega (arith, rw hit at h, count-le p (n + 1) xs))
  | inr miss ↦ (miss, count-zero p n xs (rw miss at h))
]

-- The search finds an element that passes, and no other one does.
abbrev pub FindsOnly : (SharedFile → Bool) → List SharedFile → Type 0
FindsOnly p xs =
    (before : List SharedFile) × (file : SharedFile) × (behind : List SharedFile) × (find p xs
      ≡ some file)
    × (xs ≡ before ++ file ∷ behind)
    × (p file ≡ true)
    × All (λ f. p f ≡ false) (before ++ behind)

count-one : (p : SharedFile → Bool) (xs : List SharedFile) → count p 0 xs ≡ 1 → FindsOnly p xs
unfolding count find
count-one p [] h = absurd (omega (arith, h))
count-one p (x ∷ xs) h = elim (Bool-cases (p x)) [
  | inl hit ↦ ([], x, xs, rw hit, refl, hit, count-zero p 1 xs (rw hit at h))
  | inr miss ↦
      let (before, file, behind, found, parts, passes, others) = count-one p xs (rw miss at h) in
      (x ∷ before, file, behind, rw miss found, ap (λ t. x ∷ t) parts, passes, (miss, others))
]

-- What the download task relies on: a name that counts once belongs to a file of the list, which
-- the search finds, and no other file of the list has the name.
pub count_name-one :
    (fl : SharedFileList) (name : List ℕ)
    → shared_file_list_count_name fl name ≡ 1
    → (before : List SharedFile) × (file : SharedFile) × (behind : List SharedFile)
      × (shared_file_list_find_by_name fl name ≡ some file)
      × (fl.list ≡ before ++ file ∷ behind)
      × (has_name name file ≡ true)
      × All (λ f. has_name name f ≡ false) (before ++ behind)
unfolding shared_file_list_count_name shared_file_list_find_by_name
count_name-one fl name h = count-one (has_name name) fl.list h
