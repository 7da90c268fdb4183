-- ===== src/Node/Runtime/Turn/Fair.antt =====
-- `nextWork` overlooks nothing that is ready.
use ghost_cache.Common.{
  ℕ, zero, suc, ◌+◌, ◌%◌, ◌≤◌, ◌<◌, ◌≡◌, refl, sym, ap, ◌∙◌, arith, true, false, List, [], ◌∷◌,
  Option, none, some, Bool-cases, Option-cases, inl, inr, ◌==◌, ==_iff, length, get_or, bytes_eq,
  bytes_eq→eq,
}
use ghost_cache.Publication.Packet.{PublicationId}
use ghost_cache.Node.Scheduler.Batch.{offset_of}
use ghost_cache.Node.Runtime.{Acquisition, Runtime}
use ghost_cache.Node.Runtime.Table.{find_acquisition}
use ghost_cache.Node.Runtime.Turn.{is_ready, pick_ready, first_of, work_loop, next_work}
use ghost_cache.Node.Runtime.Invariant.{ids_of, IsTable}
use ghost_cache.Node.Runtime.Invariant.Turn.{work_loop_sound}

-- The acquisition that the loop looks at.
abbrev looked_at : Runtime → ℕ → Option Acquisition
looked_at r offset =
    find_acquisition (get_or r.order ((r.work_cursor + offset) % length r.order) []) r.acquisitions

first_of-none :
    (o : Option Acquisition) (cursor : ℕ) (later : Option (Acquisition × ℕ))
    → first_of o cursor later ≡ none
    → (o ≡ none) × (later ≡ none)
unfolding first_of
first_of-none none cursor later h = (refl, h)
first_of-none (some a) cursor later h = cc

-- A loop that finds nothing has passed every place.
work_loop-none :
    (n now offset : ℕ) (r : Runtime) (o : ℕ)
    → work_loop n now offset r ≡ none
    → offset ≤ o
    → o < offset + n
    → pick_ready now (looked_at r o) ≡ none
unfolding work_loop
work_loop-none zero now offset r o h low high = absurd (omega arith)
work_loop-none (suc n) now offset r o h low high =
    let (here, later) =
      first_of-none (pick_ready now (looked_at r offset)) _ (work_loop n now (offset + 1) r) h in
    elim (Bool-cases (offset == o)) [
      | inl same ↦ let e : offset ≡ o = (==_iff offset o).0 same in rw (← e) here
      | inr other ↦
          work_loop-none n now (offset + 1) r o later (ground (arith, other)) (omega arith)
    ]

-- Where an ID stands in the order.
index_of :
    (id : PublicationId) (table : List Acquisition) (a : Acquisition)
    → find_acquisition id table ≡ some a
    → (j : ℕ) × (j < length (ids_of table)) × (get_or (ids_of table) j [] ≡ id)
unfolding find_acquisition
index_of id [] a h = cc
index_of id (x ∷ rest) a h = elim (Bool-cases (bytes_eq x.id id)) [
  | inl same ↦ (0, omega arith, bytes_eq→eq x.id id same)
  | inr other ↦ let (j, inside, at) = index_of id rest a (rw other at h) in (suc j, omega arith, at)
]

not_ready : (now : ℕ) (a : Acquisition) → pick_ready now (some a) ≡ none → is_ready now a ≡ false
not_ready now a h = elim (Bool-cases (is_ready now a)) [
  | inl ready ↦ absurd (let e = rw ready at h in cc)
  | inr later ↦ later
]

-- `nextWork` finds an acquisition whenever one is ready, wherever the cursor stands.
pub next_work_complete :
    (limit now : ℕ) (r : Runtime) (id : PublicationId) (a : Acquisition)
    → IsTable limit r.acquisitions r.order
    → find_acquisition id r.acquisitions ≡ some a
    → is_ready now a ≡ true
    → (found : Acquisition) × (cursor : ℕ) × (next_work now r ≡ some (found, cursor))
      × (is_ready now found ≡ true)
unfolding next_work
next_work_complete limit now r id a table there ready = elim (Option-cases (next_work now r)) [
  | inr ((found, cursor), e) ↦ (
    found,
    cursor,
    unfold next_work in e,
    (work_loop_sound (length r.order) now 0 r found cursor table.2 (unfold next_work in e)).1,
  )
  | inl empty ↦ absurd (
      let (j, inside, at) = index_of id r.acquisitions a there in
      let inside' : j < length r.order = rw table.0 inside in
      let (o, below, hit) = offset_of j r.work_cursor (length r.order) inside' in
      let passed : pick_ready now (looked_at r o) ≡ none =
        work_loop-none (length r.order) now 0 r o (unfold next_work in empty) (omega arith)
          (omega arith) in
      let seen : looked_at r o ≡ some a =
        ap (λ (k : ℕ). find_acquisition (get_or r.order k []) r.acquisitions) hit
        ∙ ap (λ (ids : List PublicationId). find_acquisition (get_or ids j []) r.acquisitions)
            table.0
        ∙ ap (λ (x : PublicationId). find_acquisition x r.acquisitions) at
        ∙ there in
      let late : is_ready now a ≡ false =
        not_ready now a (ap (pick_ready now) (sym seen) ∙ passed) in
      cc)
]
