-- ===== src/Node/Runtime/Invariant/Acquisitions.antt =====
-- The table of acquisitions: what writing, deleting and adding an entry leaves true.
use ghost_cache.Common.{
  ℕ, suc, ◌+◌, ◌≤◌, ◌≡◌, refl, sym, ap, ap₂, arith, true, false, List, [], ◌∷◌, Option, none, some,
  Bool-cases, inl, inr, length, bytes_eq, bytes_eq_refl, bytes_eq→eq, All,
}
use ghost_cache.Publication.Packet.{PublicationId}
use ghost_cache.Node.Packet.{Packet}
use ghost_cache.Node.Runtime.{Acquisition, Env}
use ghost_cache.Node.Runtime.Table.{
  find_acquisition, put_acquisition, delete_acquisition, remove_id, contains_id, answers,
  find_active,
}
use ghost_cache.Node.Runtime.Invariant.{Distinct, ids_of, waits, count_waiting, HasFewSources}

-- Writing an entry keeps the IDs.
pub ids_of-put :
    (b : Acquisition) (table : List Acquisition) → ids_of (put_acquisition b table) ≡ ids_of table
unfolding put_acquisition
ids_of-put b [] = refl
ids_of-put b (a ∷ rest) = elim (Bool-cases (bytes_eq a.id b.id)) [
  | inl same ↦ rw same (
      ap₂ (λ (x : PublicationId) (xs : List PublicationId). x ∷ xs)
        (sym (bytes_eq→eq a.id b.id same)) (ids_of-put b rest))
  | inr other ↦ rw other (ap (λ (xs : List PublicationId). a.id ∷ xs) (ids_of-put b rest))
]

pub length-put :
    (b : Acquisition) (table : List Acquisition) → length (put_acquisition b table) ≡ length table
unfolding put_acquisition
length-put b [] = refl
length-put b (a ∷ rest) = ap suc (length-put b rest)

pub few_sources-put :
    (b : Acquisition) (table : List Acquisition)
    → All HasFewSources table
    → HasFewSources b
    → All HasFewSources (put_acquisition b table)
unfolding put_acquisition
few_sources-put b [] h few = tt
few_sources-put b (a ∷ rest) h few = elim (Bool-cases (bytes_eq a.id b.id)) [
  | inl same ↦ rw same (few, few_sources-put b rest h.1 few)
  | inr other ↦ rw other (h.0, few_sources-put b rest h.1 few)
]

-- Deleting an entry takes its ID out.
delete_absent :
    (id : PublicationId) (table : List Acquisition)
    → contains_id id (ids_of table) ≡ false
    → delete_acquisition id table ≡ table
unfolding delete_acquisition
delete_absent id [] h = refl
delete_absent id (a ∷ rest) h = ground (arith, delete_absent id rest)

-- No entry has the ID of the head.
absent_of_head :
    (a : Acquisition) (id : PublicationId) (rest : List PublicationId)
    → bytes_eq a.id id ≡ true
    → contains_id a.id rest ≡ false
    → contains_id id rest ≡ false
absent_of_head a id rest same h = rw (← bytes_eq→eq a.id id same) h

pub ids_of-delete :
    (id : PublicationId) (table : List Acquisition)
    → Distinct (ids_of table)
    → ids_of (delete_acquisition id table) ≡ remove_id id (ids_of table)
unfolding delete_acquisition remove_id
ids_of-delete id [] d = refl
ids_of-delete id (a ∷ rest) d = elim (Bool-cases (bytes_eq a.id id)) [
  | inl same ↦
      rw same (ap ids_of (delete_absent id rest (absent_of_head a id (ids_of rest) same d.0)))
  | inr other ↦ rw other (ap (λ (xs : List PublicationId). a.id ∷ xs) (ids_of-delete id rest d.1))
]

pub length-delete :
    (id : PublicationId) (table : List Acquisition)
    → length (delete_acquisition id table) ≤ length table
unfolding delete_acquisition
length-delete id [] = omega arith
length-delete id (a ∷ rest) = ground (arith, length-delete id rest)

pub few_sources-delete :
    (id : PublicationId) (table : List Acquisition)
    → All HasFewSources table
    → All HasFewSources (delete_acquisition id table)
unfolding delete_acquisition
few_sources-delete id [] h = tt
few_sources-delete id (a ∷ rest) h = elim (Bool-cases (bytes_eq a.id id)) [
  | inl same ↦ rw same (few_sources-delete id rest h.1)
  | inr other ↦ rw other (h.0, few_sources-delete id rest h.1)
]

pub count-delete :
    (id : PublicationId) (table : List Acquisition)
    → count_waiting (delete_acquisition id table) ≤ count_waiting table
unfolding delete_acquisition
count-delete id [] = omega arith
count-delete id (a ∷ rest) = elim (Bool-cases (bytes_eq a.id id)) [
  | inl same ↦ rw same (omega (arith, count-delete id rest))
  | inr other ↦ rw other (omega (arith, count-delete id rest))
]

-- What writing an entry does to the number of requests.
pub count-put_idle :
    (b : Acquisition) (table : List Acquisition)
    → b.waiting ≡ 0
    → count_waiting (put_acquisition b table) ≤ count_waiting table
unfolding put_acquisition
count-put_idle b [] h = omega arith
count-put_idle b (a ∷ rest) h = elim (Bool-cases (bytes_eq a.id b.id)) [
  | inl same ↦ rw same (ground (arith, count-put_idle b rest h))
  | inr other ↦ rw other (omega (arith, count-put_idle b rest h))
]

put_absent :
    (b : Acquisition) (table : List Acquisition)
    → contains_id b.id (ids_of table) ≡ false
    → put_acquisition b table ≡ table
unfolding put_acquisition
put_absent b [] h = refl
put_absent b (a ∷ rest) h = ground (arith, put_absent b rest)

-- The entry that the table has under an ID is written over.
pub count-put :
    (b : Acquisition) (table : List Acquisition)
    → Distinct (ids_of table)
    → count_waiting (put_acquisition b table) ≤ count_waiting table + waits b
unfolding put_acquisition
count-put b [] d = omega arith
count-put b (a ∷ rest) d = elim (Bool-cases (bytes_eq a.id b.id)) [
  | inl same ↦
      rw (same, put_absent b rest (absent_of_head a b.id (ids_of rest) same d.0)) (omega arith)
  | inr other ↦ rw other (omega (arith, count-put b rest d.1))
]

pub count-put_same :
    (a b : Acquisition) (table : List Acquisition)
    → Distinct (ids_of table)
    → find_acquisition b.id table ≡ some a
    → b.waiting ≡ a.waiting
    → count_waiting (put_acquisition b table) ≤ count_waiting table
unfolding put_acquisition find_acquisition
count-put_same a b [] d h e = omega arith
count-put_same a b (x ∷ rest) d h e = elim (Bool-cases (bytes_eq x.id b.id)) [
  | inl same ↦
      let found : some x ≡ some a = rw same at h in
      let here : x.waiting ≡ a.waiting = ap (λ (o : Option Acquisition). waiting_of o) found in
      rw (same, put_absent b rest (absent_of_head x b.id (ids_of rest) same d.0), e, here)
        (omega arith)
  | inr other ↦
      let found = rw other at h in rw other (omega (arith, count-put_same a b rest d.1 found e))
]
  where
    waiting_of : Option Acquisition → ℕ
    waiting_of none = 0
    waiting_of (some y) = y.waiting

-- What is found is in the table, under its ID.
pub find_active-few :
    (env : Env) (p : Packet) (table : List Acquisition) (a : Acquisition)
    → All HasFewSources table
    → find_active env p table ≡ some a
    → HasFewSources a
unfolding find_active
find_active-few env p [] a h e = cc
find_active-few env p (x ∷ rest) a h e = elim (Bool-cases (answers env p x)) [
  | inl here ↦
      let same : some x ≡ some a = rw here at e in
      let same_entry : x ≡ a = cc in rw (← same_entry) h.0
  | inr later ↦ find_active-few env p rest a h.1 (rw later at e)
]

pub find_active-contains :
    (env : Env) (p : Packet) (table : List Acquisition) (a : Acquisition)
    → find_active env p table ≡ some a
    → contains_id a.id (ids_of table) ≡ true
unfolding find_active
find_active-contains env p [] a e = cc
find_active-contains env p (x ∷ rest) a e = elim (Bool-cases (answers env p x)) [
  | inl here ↦
      let same : some x ≡ some a = rw here at e in
      let same_id : x ≡ a = cc in rw same_id (ground (arith, bytes_eq_refl a.id))
  | inr later ↦
      ground
        (arith, find_active-contains env p rest a (rw later at e), Bool-cases (bytes_eq x.id a.id))
]

pub find_active-find :
    (env : Env) (p : Packet) (table : List Acquisition) (a : Acquisition)
    → Distinct (ids_of table)
    → find_active env p table ≡ some a
    → find_acquisition a.id table ≡ some a
unfolding find_active find_acquisition
find_active-find env p [] a d e = cc
find_active-find env p (x ∷ rest) a d e = elim (Bool-cases (answers env p x)) [
  | inl here ↦
      let same : some x ≡ some a = rw here at e in
      let same_entry : x ≡ a = cc in rw (same_entry, bytes_eq_refl a.id) refl
  | inr later ↦
      let found = rw later at e in
      elim (Bool-cases (bytes_eq x.id a.id)) [
        | inr other ↦ rw other (find_active-find env p rest a d.1 found)
        | inl same ↦ absurd (
            let there = find_active-contains env p rest a found in
            let gone = absent_of_head x a.id (ids_of rest) same d.0 in cc)
      ]
]
