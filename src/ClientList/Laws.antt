-- ===== src/ClientList/Laws.antt =====
-- Statements on server/client_list.c: the list as a map from numbers to clients.
use they_chat.Base.{
  ℕ, ◌+◌, ◌%◌, ◌^◌, ◌<◌, ◌≡◌, refl, ap, ◌∙◌, ◌==◌, Bool, false, Option, none, some, List, [], ◌∷◌,
  All, All-append, if◌then◌else◌, arith,
}
use they_chat.Sequence.{remove_at, find_index}
use they_chat.Sequence.Laws.{
  erase, remove_found, is_some, remove-erase, find-append_key, Distinct, find_above, find-erase,
  All-erase, Distinct-erase, Distinct-append,
}
use they_chat.ClientList.{
  Client, ClientList, has_id, client_list_add, client_list_remove, client_list_find_by_id,
}

abbrev pub client_key : Client → ℕ
client_key c = c.id

pub record IsClientList (cl : ClientList) : Type 0 where
  pub distinct : Distinct client_key cl.list
  pub below : All (λ c. client_key c < cl.next_client_id) cl.list

below_more :
    (n : ℕ) (xs : List Client) → All (λ c. client_key c < n) xs → All (λ c. client_key c < n + 1) xs
below_more n [] h = tt
below_more n (c ∷ cs) h = (omega (arith, h.0), below_more n cs h.1)

-- A client that is added has a number that no client had, is found under it, and hides no other;
-- the numbers stay unique as long as the counter does not wrap.
pub client_list_add_lem :
    (cl : ClientList) (old : Client) (j : ℕ)
    → IsClientList cl
    → cl.next_client_id + 1 < 2 ^ 32
    → let (cl', client) = client_list_add old cl in
      IsClientList cl'
      × (client_list_find_by_id (some cl) client.id ≡ none)
      × (client_list_find_by_id (some cl') j
          ≡ (if client.id == j then some client else client_list_find_by_id (some cl) j))
unfolding client_list_add client_list_find_by_id
client_list_add_lem cl old j h small =
    let client : Client = record old { id = cl.next_client_id } in
    let fresh = find_above client_key cl.next_client_id cl.list h.below in
    let next : (cl.next_client_id + 1) % 2 ^ 32 ≡ cl.next_client_id + 1 = omega (arith, small) in
    (
      record {
        distinct = Distinct-append client_key cl.list client h.distinct h.below;
        below = rw next (
            All-append _ cl.list (client ∷ []) (below_more cl.next_client_id cl.list h.below)
              (omega arith, tt));
      },
      fresh,
      find-append_key client_key j cl.list client fresh,
    )

pub remove_lem :
    (cl : ClientList) (k : ℕ)
    → client_list_remove cl k ≡ (
      record cl { list = erase (has_id k) cl.list },
      is_some (client_list_find_by_id (some cl) k),
    )
unfolding client_list_remove client_list_find_by_id
remove_lem cl k =
    pick (find_index (has_id k) 0 cl.list)
    ∙ ap (λ (r : Bool × List Client). (record cl { list = r.1 }, r.0))
        (remove-erase (has_id k) cl.list)
  where
    pick :
        (o : Option ℕ)
        → elim o as (λ _. ClientList × Bool) [
          | none ↦ (cl, false)
          | some index ↦
              let (removed, rest) = remove_at index cl.list in (record cl { list = rest }, removed)
        ]
          ≡ (record cl { list = (remove_found o cl.list).1 }, (remove_found o cl.list).0)
    pick none = refl
    pick (some index) = refl

-- `client_list_remove` says whether there was a client with the number. Afterwards none is found
-- under it, every other number finds what it found before, and the numbers stay unique.
pub client_list_remove_lem :
    (cl : ClientList) (k j : ℕ)
    → IsClientList cl
    → let (cl', removed) = client_list_remove cl k in
      IsClientList cl'
      × (removed ≡ is_some (client_list_find_by_id (some cl) k))
      × (client_list_find_by_id (some cl') j
          ≡ (if k == j then none else client_list_find_by_id (some cl) j))
unfolding client_list_find_by_id
client_list_remove_lem cl k j h = rw (remove_lem cl k) (
  record {
    distinct = Distinct-erase client_key (has_id k) cl.list h.distinct;
    below = All-erase client_key _ (has_id k) cl.list h.below;
  },
  refl,
  find-erase client_key k j cl.list h.distinct,
)
