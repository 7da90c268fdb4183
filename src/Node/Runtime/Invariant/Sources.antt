-- ===== src/Node/Runtime/Invariant/Sources.antt =====
-- The table of inspected sources: marking and clearing keep the invariant of the runtime.
use ghost_cache.Common.{
  ℕ, suc, ◌≤◌, ◌≡◌, refl, sym, ap, subst, ◌∙◌, arith, false, not, ◌&&◌, List, [], ◌∷◌, ◌++◌, Option,
  none, some, Bool-cases, inl, inr, ltb, leb, length, length-append, bytes_eq, bytes_eq_refl,
  bytes_eq→eq, All, All-append, elem,
}
use ghost_cache.Publication.Packet.{PublicationId}
use ghost_cache.Node.Packet.{NodeId}
use ghost_cache.Node.Runtime.{Runtime, max_inspected_ids}
use ghost_cache.Node.Runtime.Table.{
  remove_id, contains_id, Inspected, inspected_of, delete_inspected, put_inspected, evict_inspected,
  enter_inspected, mark_source_inspected, clear_inspected,
}
use ghost_cache.Node.Runtime.Invariant.{Distinct, keys_of, HasFewInspected, IsRuntime}
use ghost_cache.Node.Runtime.Invariant.Ids.{Distinct-remove_id, length-remove_id, Distinct-append}

delete_absent :
    (id : PublicationId) (table : Inspected)
    → contains_id id (keys_of table) ≡ false
    → delete_inspected id table ≡ table
unfolding delete_inspected
delete_absent id [] h = refl
delete_absent id (entry ∷ rest) h = ground (arith, delete_absent id rest)

keys_of-delete :
    (id : PublicationId) (table : Inspected)
    → Distinct (keys_of table)
    → keys_of (delete_inspected id table) ≡ remove_id id (keys_of table)
unfolding delete_inspected remove_id
keys_of-delete id [] d = refl
keys_of-delete id (entry ∷ rest) d = elim (Bool-cases (bytes_eq entry.0 id)) [
  | inl same ↦
      let gone : contains_id id (keys_of rest) ≡ false = rw (← bytes_eq→eq entry.0 id same) d.0 in
      rw same (ap keys_of (delete_absent id rest gone))
  | inr other ↦
      rw other (ap (λ (xs : List PublicationId). entry.0 ∷ xs) (keys_of-delete id rest d.1))
]

few-delete :
    (id : PublicationId) (table : Inspected)
    → All HasFewInspected table
    → All HasFewInspected (delete_inspected id table)
unfolding delete_inspected
few-delete id [] h = tt
few-delete id (entry ∷ rest) h = elim (Bool-cases (bytes_eq entry.0 id)) [
  | inl same ↦ rw same (few-delete id rest h.1)
  | inr other ↦ rw other (h.0, few-delete id rest h.1)
]

keys_of-put :
    (id : PublicationId) (source : NodeId) (table : Inspected)
    → keys_of (put_inspected id source table) ≡ keys_of table
unfolding put_inspected
keys_of-put id source [] = refl
keys_of-put id source (entry ∷ rest) =
    elim (Bool-cases
      (bytes_eq entry.0 id && (ltb (length entry.1) 8 && not (elem source entry.1)))) [
        | inl added ↦
            rw added (ap (λ (xs : List PublicationId). entry.0 ∷ xs) (keys_of-put id source rest))
        | inr kept ↦
            rw kept (ap (λ (xs : List PublicationId). entry.0 ∷ xs) (keys_of-put id source rest))
      ]

few-put :
    (id : PublicationId) (source : NodeId) (table : Inspected)
    → All HasFewInspected table
    → All HasFewInspected (put_inspected id source table)
unfolding put_inspected
few-put id source [] h = tt
few-put id source (entry ∷ rest) h =
    elim (Bool-cases
      (bytes_eq entry.0 id && (ltb (length entry.1) 8 && not (elem source entry.1)))) [
        | inl added ↦ rw added (ground (arith, added), few-put id source rest h.1)
        | inr kept ↦ rw kept (h.0, few-put id source rest h.1)
      ]

keys_of-append :
    (entry : PublicationId × List NodeId) (table : Inspected)
    → keys_of (table ++ entry ∷ []) ≡ keys_of table ++ entry.0 ∷ []
keys_of-append entry [] = refl
keys_of-append entry (x ∷ rest) =
    ap (λ (xs : List PublicationId). x.0 ∷ xs) (keys_of-append entry rest)

inspected_of-none :
    (id : PublicationId) (table : Inspected)
    → inspected_of id table ≡ none
    → contains_id id (keys_of table) ≡ false
unfolding inspected_of
inspected_of-none id [] h = refl
inspected_of-none id (entry ∷ rest) h = ground (arith, inspected_of-none id rest)

remove_head :
    (x : PublicationId) (xs : List PublicationId) → Distinct (x ∷ xs) → remove_id x (x ∷ xs) ≡ xs
unfolding remove_id
remove_head x xs d = ground (arith, bytes_eq_refl x)

module _ (limit : ℕ) where
  -- After the eviction there is room for one more, and the ID is still absent.
  evict-IsRuntime :
      (id : PublicationId) (order : List PublicationId) (r : Runtime)
      → r.inspected_order ≡ order
      → IsRuntime limit r
      → contains_id id order ≡ false
      → let kept = evict_inspected order r in
        IsRuntime limit kept
        × (suc (length kept.inspected_order) ≤ max_inspected_ids)
        × (contains_id id kept.inspected_order ≡ false)
  unfolding evict_inspected
  evict-IsRuntime id [] r e h absent = (h, rw e (omega arith), rw e refl)
  evict-IsRuntime id (oldest ∷ rest) r e h absent =
      let (table, single, queue, peers, (keys, distinct, few, size)) = h in
      elim (Bool-cases (leb 256 (length (oldest ∷ rest)))) [
        | inr room ↦ rw room (h, ground (arith, room, e), rw e absent)
        | inl full ↦
            let all : Distinct (keys_of r.inspected_sources) =
              subst (λ (xs : List PublicationId). Distinct xs) keys distinct in
            let listed : Distinct (oldest ∷ rest) =
              subst (λ (xs : List PublicationId). Distinct xs) e distinct in
            let small : length (oldest ∷ rest) ≤ 256 =
              subst (λ (xs : List PublicationId). length xs ≤ 256) e size in
            let left : keys_of (delete_inspected oldest r.inspected_sources) ≡ rest =
              keys_of-delete oldest r.inspected_sources all
              ∙ ap (remove_id oldest) (sym keys ∙ e)
              ∙ remove_head oldest rest listed in
            rw full (
              (
                table,
                single,
                queue,
                peers,
                (
                  sym left,
                  listed.1,
                  few-delete oldest r.inspected_sources few,
                  omega (arith, small),
                ),
              ),
              omega (arith, small),
              ground (arith, absent),
            )
      ]

  enter-IsRuntime :
      (id : PublicationId) (r : Runtime) (found : Option (List NodeId))
      → inspected_of id r.inspected_sources ≡ found
      → IsRuntime limit r
      → IsRuntime limit (enter_inspected id found r)
  unfolding enter_inspected
  enter-IsRuntime id r (some sources) e h = h
  enter-IsRuntime id r none e h =
      let absent : contains_id id r.inspected_order ≡ false =
        rw h.4.0 (inspected_of-none id r.inspected_sources e) in
      let (kept, room, gone) = evict-IsRuntime id r.inspected_order r refl h absent in
      let left = evict_inspected r.inspected_order r in
      let (table, single, queue, peers, (keys, distinct, few, size)) = kept in
      (
        table,
        single,
        queue,
        peers,
        (
          ap (λ (xs : List PublicationId). xs ++ id ∷ []) keys
              ∙ sym (keys_of-append (id, []) left.inspected_sources),
          Distinct-append id left.inspected_order distinct gone,
          All-append HasFewInspected left.inspected_sources ((id, []) ∷ []) few (omega arith, tt),
          omega (arith, room, length-append left.inspected_order (id ∷ [])),
        ),
      )

  pub mark-IsRuntime :
      (id : PublicationId) (source : NodeId) (r : Runtime)
      → IsRuntime limit r
      → IsRuntime limit (mark_source_inspected id source r)
  unfolding mark_source_inspected
  mark-IsRuntime id source r h =
      let (table, single, queue, peers, (keys, distinct, few, size)) =
        enter-IsRuntime id r (inspected_of id r.inspected_sources) refl h in
      let entered = enter_inspected id (inspected_of id r.inspected_sources) r in
      (
        table,
        single,
        queue,
        peers,
        (
          keys ∙ sym (keys_of-put id source entered.inspected_sources),
          distinct,
          few-put id source entered.inspected_sources few,
          size,
        ),
      )

  pub clear-IsRuntime :
      (id : PublicationId) (r : Runtime)
      → IsRuntime limit r
      → IsRuntime limit (clear_inspected id r)
  unfolding clear_inspected
  clear-IsRuntime id r (table, single, queue, peers, (keys, distinct, few, size)) =
      let all : Distinct (keys_of r.inspected_sources) =
        subst (λ (xs : List PublicationId). Distinct xs) keys distinct in
      (
        table,
        single,
        queue,
        peers,
        (
          ap (remove_id id) keys ∙ sym (keys_of-delete id r.inspected_sources all),
          Distinct-remove_id id r.inspected_order distinct,
          few-delete id r.inspected_sources few,
          omega (arith, length-remove_id id r.inspected_order),
        ),
      )

-- Nothing else changes.
evict_keeps :
    (order : List PublicationId) (r : Runtime)
    → ((evict_inspected order r).acquisitions ≡ r.acquisitions)
      × ((evict_inspected order r).files ≡ r.files)
unfolding evict_inspected
evict_keeps [] r = (refl, refl)
evict_keeps (oldest ∷ rest) r = ground arith

enter_keeps :
    (id : PublicationId) (found : Option (List NodeId)) (r : Runtime)
    → ((enter_inspected id found r).acquisitions ≡ r.acquisitions)
      × ((enter_inspected id found r).files ≡ r.files)
unfolding enter_inspected
enter_keeps id none r = evict_keeps r.inspected_order r
enter_keeps id (some sources) r = (refl, refl)

pub mark_keeps :
    (id : PublicationId) (source : NodeId) (r : Runtime)
    → ((mark_source_inspected id source r).acquisitions ≡ r.acquisitions)
      × ((mark_source_inspected id source r).files ≡ r.files)
unfolding mark_source_inspected
mark_keeps id source r = enter_keeps id (inspected_of id r.inspected_sources) r
