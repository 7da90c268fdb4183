-- ===== src/Node/Runtime/Invariant/Ids.antt =====
-- Lists of IDs without repetitions.
use ghost_cache.Common.{
  ℕ, ◌≤◌, ◌≡◌, refl, arith, false, List, [], ◌∷◌, ◌++◌, Bool-cases, inl, inr, length, bytes_eq,
  bytes_eq_refl, bytes_eq→eq,
}
use ghost_cache.Publication.Packet.{PublicationId}
use ghost_cache.Node.Runtime.Table.{remove_id, contains_id}
use ghost_cache.Node.Runtime.Invariant.{Distinct}

-- Nothing is taken out where nothing is.
pub remove_id_absent :
    (id : PublicationId) (xs : List PublicationId)
    → contains_id id xs ≡ false
    → remove_id id xs ≡ xs
unfolding remove_id
remove_id_absent id [] h = refl
remove_id_absent id (x ∷ xs) h = ground (arith, remove_id_absent id xs)

pub contains_id-remove_id :
    (x id : PublicationId) (xs : List PublicationId)
    → contains_id x xs ≡ false
    → contains_id x (remove_id id xs) ≡ false
unfolding remove_id
contains_id-remove_id x id [] h = refl
contains_id-remove_id x id (y ∷ ys) h = ground (arith, contains_id-remove_id x id ys)

pub Distinct-remove_id :
    (id : PublicationId) (xs : List PublicationId) → Distinct xs → Distinct (remove_id id xs)
unfolding remove_id
Distinct-remove_id id [] d = tt
Distinct-remove_id id (x ∷ xs) d = elim (Bool-cases (bytes_eq x id)) [
  | inl here ↦ rw here d.1
  | inr later ↦ rw later (contains_id-remove_id x id xs d.0, Distinct-remove_id id xs d.1)
]

pub length-remove_id :
    (id : PublicationId) (xs : List PublicationId) → length (remove_id id xs) ≤ length xs
unfolding remove_id
length-remove_id id [] = omega arith
length-remove_id id (x ∷ xs) = ground (arith, length-remove_id id xs)

contains_id-append :
    (x id : PublicationId) (xs : List PublicationId)
    → contains_id x xs ≡ false
    → bytes_eq id x ≡ false
    → contains_id x (xs ++ id ∷ []) ≡ false
contains_id-append x id [] h other = rw other refl
contains_id-append x id (y ∷ ys) h other = ground (arith, contains_id-append x id ys)

-- Equality of byte strings is symmetric.
bytes_eq-sym : (x y : List ℕ) → bytes_eq x y ≡ false → bytes_eq y x ≡ false
bytes_eq-sym x y h = elim (Bool-cases (bytes_eq y x)) [
  | inr other ↦ other
  | inl same ↦ absurd (let e = rw (bytes_eq→eq y x same) at h in ground (arith, bytes_eq_refl x))
]

pub Distinct-append :
    (id : PublicationId) (xs : List PublicationId)
    → Distinct xs
    → contains_id id xs ≡ false
    → Distinct (xs ++ id ∷ [])
Distinct-append id [] d h = (refl, tt)
Distinct-append id (x ∷ xs) d h = elim (Bool-cases (bytes_eq x id)) [
  | inl same ↦ cc
  | inr other ↦ (
    contains_id-append x id xs d.0 (bytes_eq-sym x id other),
    Distinct-append id xs d.1 (ground (arith, other)),
  )
]
