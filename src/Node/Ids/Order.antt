-- ===== src/Node/Ids/Order.antt =====
-- What is in the lists.
use ghost_cache.Common.{
  ℕ, suc, ◌≡◌, refl, ap, ◌∙◌, arith, not, ◌&&◌, ◌||◌, List, [], ◌∷◌, Bool-cases, inl, inr, bytes_eq,
  bytes_eq_refl, bytes_eq→eq, length,
}
use ghost_cache.Publication.Packet.{PublicationId}
use ghost_cache.Node.Ids.{
  insert_id, sorted_ids, matches_from, select_prefix, filter_prefix, has_id, missing_ids,
}

has_id-insert_id :
    (x id : PublicationId) (ids : List PublicationId)
    → has_id x (insert_id id ids) ≡ (bytes_eq id x || has_id x ids)
unfolding insert_id has_id
has_id-insert_id x id [] = refl
has_id-insert_id x id (y ∷ ys) = ground (arith, has_id-insert_id x id ys)

pub has_id-sorted_ids :
    (x : PublicationId) (ids : List PublicationId) → has_id x (sorted_ids ids) ≡ has_id x ids
unfolding sorted_ids has_id
has_id-sorted_ids x [] = refl
has_id-sorted_ids x (id ∷ ids) =
    has_id-insert_id x id (sorted_ids ids) ∙ ground (arith, has_id-sorted_ids x ids)

length-insert_id :
    (id : PublicationId) (ids : List PublicationId) → length (insert_id id ids) ≡ suc (length ids)
unfolding insert_id
length-insert_id id [] = refl
length-insert_id id (x ∷ xs) = ground (arith, length-insert_id id xs)

pub length-sorted_ids : (ids : List PublicationId) → length (sorted_ids ids) ≡ length ids
unfolding sorted_ids
length-sorted_ids [] = refl
length-sorted_ids (id ∷ ids) = length-insert_id id (sorted_ids ids) ∙ ap suc (length-sorted_ids ids)

has_id-select_prefix :
    (x : PublicationId) (ids : List PublicationId) (prefix : List ℕ)
    → has_id x (select_prefix ids prefix) ≡ (has_id x ids && matches_from x 0 prefix)
unfolding select_prefix has_id
has_id-select_prefix x [] prefix = refl
has_id-select_prefix x (id ∷ ids) prefix = elim (Bool-cases (bytes_eq id x)) [
  | inl same ↦
      let e : id ≡ x = bytes_eq→eq id x same in
      rw e (ground (arith, has_id-select_prefix x ids prefix, bytes_eq_refl x))
  | inr other ↦ ground (arith, other, has_id-select_prefix x ids prefix)
]

-- An ID is below a prefix of the tree exactly when it is in the list and its nibbles begin with the
-- prefix.
pub has_id-filter_prefix :
    (x : PublicationId) (ids : List PublicationId) (prefix : List ℕ)
    → has_id x (filter_prefix ids prefix) ≡ (has_id x ids && matches_from x 0 prefix)
unfolding filter_prefix
has_id-filter_prefix x ids prefix =
    has_id-sorted_ids x (select_prefix ids prefix) ∙ has_id-select_prefix x ids prefix

-- An ID is missing exactly when the other node has it and this one does not.
pub has_id-missing_ids :
    (x : PublicationId) (local remote : List PublicationId)
    → has_id x (missing_ids local remote) ≡ (has_id x remote && not (has_id x local))
unfolding missing_ids has_id
has_id-missing_ids x local [] = refl
has_id-missing_ids x local (id ∷ remote) = elim (Bool-cases (bytes_eq id x)) [
  | inl same ↦
      let e : id ≡ x = bytes_eq→eq id x same in
      rw e (ground (arith, has_id-missing_ids x local remote, bytes_eq_refl x))
  | inr other ↦ ground (arith, other, has_id-missing_ids x local remote)
]
