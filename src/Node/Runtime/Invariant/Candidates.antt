-- ===== src/Node/Runtime/Invariant/Candidates.antt =====
-- `addCandidate` keeps the invariant of the runtime.
use ghost_cache.Common.{
  ℕ, ◌≤◌, ◌<◌, ◌≡◌, ◌≢◌, refl, sym, ap, ◌∙◌, arith, true, false, not, ◌&&◌, List, [], ◌∷◌, ◌++◌,
  Option, none, some, Bool-cases, Option-cases, inl, inr, ltb, leb, ◌==◌, length, length-append,
  bytes_eq, bytes_eq_refl, bytes_eq→eq, All, All-append, elem,
}
use ghost_cache.Publication.Packet.{PublicationId}
use ghost_cache.Node.Packet.{NodeId}
use ghost_cache.Node.Runtime.{Acquisition, Runtime, max_acquisitions}
use ghost_cache.Node.Runtime.Table.{
  find_acquisition, put_acquisition, update, add_source, new_acquisition, add_candidate_to,
  add_candidate, contains_id,
}
use ghost_cache.Node.Runtime.Invariant.{ids_of, count_waiting, HasFewSources, IsRuntime}
use ghost_cache.Node.Runtime.Invariant.Ids.{Distinct-append}
use ghost_cache.Node.Runtime.Invariant.Table.{IsEntry, update_same}

-- The source is the only thing that is added.
pub add_source_keeps :
    (source : NodeId) (a : Acquisition)
    → ((add_source source a).id ≡ a.id)
      × ((add_source source a).waiting ≡ a.waiting)
      × ((add_source source a).next_attempt ≡ a.next_attempt)
unfolding add_source
add_source_keeps source a = ground arith

pub add_source-few :
    (source : NodeId) (a : Acquisition) → HasFewSources a → HasFewSources (add_source source a)
unfolding add_source
add_source-few source a h =
    elim (Bool-cases
      (not (source == 0) && (not (elem source a.sources) && ltb (length a.sources) 8))) [
        | inl added ↦ rw added (ground (arith, added, length-append a.sources (source ∷ [])))
        | inr full ↦ rw full h
      ]

ids_of-append :
    (a : Acquisition) (table : List Acquisition)
    → ids_of (table ++ a ∷ []) ≡ ids_of table ++ a.id ∷ []
ids_of-append a [] = refl
ids_of-append a (x ∷ rest) = ap (λ (xs : List PublicationId). x.id ∷ xs) (ids_of-append a rest)

count-append :
    (a : Acquisition) (table : List Acquisition)
    → a.waiting ≡ 0
    → count_waiting (table ++ a ∷ []) ≡ count_waiting table
count-append a [] h = rw h refl
count-append a (x ∷ rest) h = omega (arith, count-append a rest h)

pub find-none :
    (id : PublicationId) (table : List Acquisition)
    → find_acquisition id table ≡ none
    → contains_id id (ids_of table) ≡ false
unfolding find_acquisition
find-none id [] h = refl
find-none id (a ∷ rest) h = ground (arith, find-none id rest)

pub find-append :
    (a : Acquisition) (table : List Acquisition)
    → find_acquisition a.id table ≡ none
    → find_acquisition a.id (table ++ a ∷ []) ≡ some a
unfolding find_acquisition
find-append a [] h = rw (bytes_eq_refl a.id) refl
find-append a (x ∷ rest) h = ground (arith, find-append a rest)

pub find-put :
    (a b : Acquisition) (table : List Acquisition)
    → find_acquisition b.id table ≡ some a
    → find_acquisition b.id (put_acquisition b table) ≡ some b
unfolding find_acquisition put_acquisition
find-put a b [] h = cc
find-put a b (x ∷ rest) h = elim (Bool-cases (bytes_eq x.id b.id)) [
  | inl same ↦ rw (same, bytes_eq_refl b.id) refl
  | inr other ↦ rw (other, other) (find-put a b rest (rw other at h))
]

find-id :
    (id : PublicationId) (table : List Acquisition) (a : Acquisition)
    → find_acquisition id table ≡ some a
    → bytes_eq a.id id ≡ true
unfolding find_acquisition
find-id id [] a h = cc
find-id id (x ∷ rest) a h = elim (Bool-cases (bytes_eq x.id id)) [
  | inl same ↦ let found : some x ≡ some a = rw same at h in let e : x ≡ a = cc in rw (← e) same
  | inr other ↦ find-id id rest a (rw other at h)
]

pub find-few :
    (id : PublicationId) (table : List Acquisition) (a : Acquisition)
    → All HasFewSources table
    → find_acquisition id table ≡ some a
    → HasFewSources a
unfolding find_acquisition
find-few id [] a h e = cc
find-few id (x ∷ rest) a h e = elim (Bool-cases (bytes_eq x.id id)) [
  | inl same ↦
      let found : some x ≡ some a = rw same at e in
      let same_entry : x ≡ a = cc in rw (← same_entry) h.0
  | inr other ↦ find-few id rest a h.1 (rw other at e)
]

-- What is found under an ID is an entry with this ID.
pub find-IsEntry :
    (limit : ℕ) (id : PublicationId) (r : Runtime) (a : Acquisition)
    → IsRuntime limit r
    → find_acquisition id r.acquisitions ≡ some a
    → (a.id ≡ id) × IsEntry a r
find-IsEntry limit id r a h e =
    let same = bytes_eq→eq a.id id (find-id id r.acquisitions a e) in
    (
      same,
      (
        find-few id r.acquisitions a h.0.2 e,
        ap (λ (x : PublicationId). find_acquisition x r.acquisitions) same ∙ e,
      ),
    )

-- What `addCandidate` may return.
abbrev pub IsAdded : ℕ → Runtime × Option Acquisition → Type 0
IsAdded limit (r, none) = IsRuntime limit r
IsAdded limit (r, some a) = IsRuntime limit r × IsEntry a r

module _ (limit : ℕ) (id : PublicationId) (source : NodeId) (r : Runtime)
    (h : IsRuntime limit r) where
  known_candidate-IsAdded :
      (a : Acquisition)
      → find_acquisition id r.acquisitions ≡ some a
      → IsAdded limit (add_candidate_to id source (some a) r)
  unfolding add_candidate_to update
  known_candidate-IsAdded a e =
      let (same_id, entry) = find-IsEntry limit id r a h e in
      let b = add_source source a in
      let (keeps_id, keeps_waiting, _) = add_source_keeps source a in
      let few = add_source-few source a entry.0 in
      let under : find_acquisition b.id r.acquisitions ≡ some a = rw keeps_id entry.1 in
      (
        unfold update in update_same limit a b r h entry few keeps_id keeps_waiting,
        (few, find-put a b r.acquisitions under),
      )

  appended-IsRuntime :
      (a : Acquisition)
      → find_acquisition id r.acquisitions ≡ none
      → a.id ≡ id
      → a.waiting ≡ 0
      → HasFewSources a
      → length r.acquisitions < limit
      → IsRuntime limit
          (record r { acquisitions = r.acquisitions ++ a ∷ []; order = r.order ++ id ∷ [] })
  appended-IsRuntime a absent same idle few room =
      let ((order, distinct, few', size), single, queue, peers, inspected) = h in
      let gone : contains_id id r.order ≡ false = rw order (find-none id r.acquisitions absent) in
      (
        (
          ap (λ (xs : List PublicationId). xs ++ id ∷ []) order
              ∙ ap (λ (x : PublicationId). ids_of r.acquisitions ++ x ∷ []) (sym same)
              ∙ sym (ids_of-append a r.acquisitions),
          Distinct-append id r.order distinct gone,
          All-append HasFewSources r.acquisitions (a ∷ []) few' (few, tt),
          omega (arith, length-append r.acquisitions (a ∷ [])),
        ),
        omega (arith, count-append a r.acquisitions idle),
        queue,
        peers,
        inspected,
      )

  new_candidate-IsAdded :
      find_acquisition id r.acquisitions ≡ none
      → (leb max_acquisitions (length r.acquisitions) ≡ false → length r.acquisitions < limit)
      → (source ≡ 0 → length r.acquisitions < limit)
      → IsAdded limit (add_candidate_to id source none r)
  unfolding add_candidate_to
  new_candidate-IsAdded absent room listed =
      let a = add_source source (new_acquisition id) in
      let (same, idle, _) = add_source_keeps source (new_acquisition id) in
      let few = add_source-few source (new_acquisition id) (omega arith) in
      elim (Bool-cases (not (source == 0) && leb max_acquisitions (length r.acquisitions))) [
        | inl full ↦ rw full h
        | inr free ↦ rw free (
          appended-IsRuntime a absent same idle few (ground (arith, free, room, listed)),
          (few, find-append a r.acquisitions (rw same absent)),
        )
      ]

  candidate-IsAdded :
      (leb max_acquisitions (length r.acquisitions) ≡ false → length r.acquisitions < limit)
      → (source ≡ 0 → length r.acquisitions < limit)
      → IsAdded limit (add_candidate id source r)
  unfolding add_candidate
  candidate-IsAdded room listed = elim (Option-cases (find_acquisition id r.acquisitions)) [
    | inl absent ↦ rw absent (new_candidate-IsAdded absent room listed)
    | inr (a, there) ↦ rw there (known_candidate-IsAdded a there)
  ]

  -- From a source other than node 0.
  pub add_candidate-IsAdded :
      max_acquisitions ≤ limit → source ≢ 0 → IsAdded limit (add_candidate id source r)
  add_candidate-IsAdded room real =
      candidate-IsAdded (λ free. ground (arith, free)) (λ zero_source. absurd (real zero_source))

  -- From the store.
  pub add_candidate-IsAdded_room :
      length r.acquisitions < limit → IsAdded limit (add_candidate id source r)
  add_candidate-IsAdded_room room = candidate-IsAdded (λ free. room) (λ zero_source. room)
