-- ===== src/ThreadNames/Laws.antt =====
-- Statements on the names of threads in common/they_chat_error.c.
use they_chat.Base.{
  ℕ, ◌<◌, ◌≡◌, refl, sym, ap, ◌∙◌, ◌==◌, Bool, true, false, Option, none, some, List, [], ◌∷◌, ◌++◌,
  length, if◌then◌else◌,
}
use they_chat.CString.{codes}
use they_chat.CString.Laws.{IsString, strcpy_fits}
use they_chat.Sequence.{find_index, find}
use they_chat.Sequence.Laws.{
  erase, remove_found, remove-erase, find-append_key, find-erase, Distinct,
}
use they_chat.ThreadNames.{
  ThreadInfo, has_tid, created, add_named, set_thread_name, name_of, get_thread_name,
  remove_found_at, unregister_thread,
}

abbrev pub thread_key : ThreadInfo → ℕ
thread_key info = info.tid

name_of-if :
    (b : Bool) (x y : Option ThreadInfo)
    → name_of (if b then x else y) ≡ (if b then name_of x else name_of y)
name_of-if true x y = refl
name_of-if false x y = refl

get-created :
    (infos : Option (List ThreadInfo)) (tid : ℕ)
    → get_thread_name infos tid ≡ name_of (find (has_tid tid) (created infos))
unfolding get_thread_name find
get-created none tid = refl
get-created (some infos) tid = refl

-- A thread that has no name yet gets the name that is set, and every other thread keeps its own.
-- The name holds no NUL and is shorter than its array of 64 bytes.
pub get_thread_name-set_thread_name :
    (old : List ℕ) (infos : Option (List ThreadInfo)) (tid : ℕ) (name : List ℕ) (j : ℕ)
    → length old ≡ 64
    → IsString name
    → length name < 64
    → find (has_tid tid) (created infos) ≡ none
    → (infos' : List ThreadInfo) × (set_thread_name old infos tid name ≡ some infos')
      × (get_thread_name (some infos') j ≡ (if tid == j then name else get_thread_name infos j))
unfolding set_thread_name get_thread_name
get_thread_name-set_thread_name old infos tid name j o s l fresh =
    let (out, p, n, c) = strcpy_fits old name 64 o l s in
    let info : ThreadInfo = record { tid = tid; name = out } in
    (
      created infos ++ info ∷ [],
      ap (add_named infos tid) p,
      ap name_of (find-append_key thread_key j (created infos) info fresh)
          ∙ name_of-if (tid == j) (some info) (find (has_tid j) (created infos))
          ∙ ap (λ t. if tid == j then t else name_of (find (has_tid j) (created infos))) c
          ∙ ap (λ t. if tid == j then name else t) (sym (get-created infos j)),
    )

remove_found_at-erase :
    (tid : ℕ) (infos : List ThreadInfo)
    → remove_found_at (find_index (has_tid tid) 0 infos) infos ≡ erase (has_tid tid) infos
remove_found_at-erase tid infos =
    pick (find_index (has_tid tid) 0 infos) ∙ ap (λ r. r.1) (remove-erase (has_tid tid) infos)
  where
    pick : (o : Option ℕ) → remove_found_at o infos ≡ (remove_found o infos).1
    pick none = refl
    pick (some i) = refl

-- A thread that is taken off the list has no name any more, and every other thread keeps its own.
-- No thread is on the list twice.
pub get_thread_name-unregister_thread :
    (infos : List ThreadInfo) (tid j : ℕ)
    → Distinct thread_key infos
    → get_thread_name (unregister_thread (some infos) tid) j
      ≡ (if tid == j then codes "Unnamed" else get_thread_name (some infos) j)
unfolding unregister_thread get_thread_name
get_thread_name-unregister_thread infos tid j d =
    ap (λ xs. name_of (find (has_tid j) xs)) (remove_found_at-erase tid infos)
    ∙ ap name_of (find-erase thread_key tid j infos d)
    ∙ name_of-if (tid == j) none (find (has_tid j) infos)
