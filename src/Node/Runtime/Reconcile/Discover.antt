-- ===== src/Node/Runtime/Reconcile/Discover.antt =====
-- What a leaf of the tree of another node leads to.
use ghost_cache.Common.{
  ℕ, suc, ◌+◌, ◌*◌, ◌≤◌, ◌<◌, ◌≡◌, refl, ◌∙◌, arith, true, false, not, ◌&&◌, ◌||◌, List, [], ◌∷◌,
  ◌++◌, Option, none, some, Bool-cases, inl, inr, leb, ◌==◌, length, length-append, bytes_eq,
  bytes_eq_refl, bytes_eq→eq, ok,
}
use ghost_cache.Publication.Packet.{PublicationId}
use ghost_cache.Publication.Store.{complete, has_known, has_partial, is_wanted}
use ghost_cache.Node.Packet.{NodeId, Packet}
use ghost_cache.Node.Controller.{millisecond}
use ghost_cache.Node.Ids.{has_id, missing_ids}
use ghost_cache.Node.Ids.Order.{has_id-missing_ids}
use ghost_cache.Node.Radix.{RadixLeaf}
use ghost_cache.Node.Radix.Wire.{decode_leaf}
use ghost_cache.Node.Runtime.{Acquisition, ReconcileJob, Runtime, Env, max_acquisitions}
use ghost_cache.Node.Runtime.Table.{
  find_acquisition, update, add_source, new_acquisition, add_candidate_to, add_candidate,
  contains_id, source_inspected,
}
use ghost_cache.Node.Runtime.Peers.{active_reconciliation}
use ghost_cache.Node.Runtime.Reconcile.{
  end_job, schedule, schedule_new, count_discovered, discover, discover_all, compare_leaf,
  accept_leaf_for, accept_leaf,
}
use ghost_cache.Node.Runtime.Invariant.{ids_of}
use ghost_cache.Node.Runtime.Invariant.Acquisitions.{ids_of-put, length-put}
use ghost_cache.Node.Runtime.Invariant.Candidates.{add_source_keeps}

contains-append :
    (x id : PublicationId) (table : List Acquisition) (a : Acquisition)
    → a.id ≡ id
    → contains_id x (ids_of (table ++ a ∷ [])) ≡ (contains_id x (ids_of table) || bytes_eq id x)
contains-append x id [] a h = rw h (ground (arith, Bool-cases (bytes_eq id x)))
contains-append x id (y ∷ rest) a h =
    ground (arith, contains-append x id rest a h, Bool-cases (bytes_eq y.id x))

find-contains :
    (id : PublicationId) (table : List Acquisition) (a : Acquisition)
    → find_acquisition id table ≡ some a
    → contains_id id (ids_of table) ≡ true
unfolding find_acquisition
find-contains id [] a h = cc
find-contains id (x ∷ rest) a h = ground (arith, find-contains id rest a)

-- What an operation that may add an entry does to the table.
abbrev Grows : Runtime → Runtime → Type 0
Grows r after =
    ((x : PublicationId)
      → contains_id x (ids_of r.acquisitions) ≡ true
      → contains_id x (ids_of after.acquisitions) ≡ true)
    × (length after.acquisitions ≤ suc (length r.acquisitions))
    × (after.files ≡ r.files)

update-Grows : (b : Acquisition) (r : Runtime) → Grows r (update b r)
unfolding update
update-Grows b r =
    (λ x h. rw (ids_of-put b r.acquisitions) h, omega (arith, length-put b r.acquisitions), refl)

add_candidate-Grows :
    (id : PublicationId) (source : NodeId) (r : Runtime) (found : Option Acquisition)
    → Grows r (add_candidate_to id source found r).0
unfolding add_candidate_to
add_candidate-Grows id source r (some a) = update-Grows (add_source source a) r
add_candidate-Grows id source r none =
    let a = add_source source (new_acquisition id) in
    let (same, _, _) = add_source_keeps source (new_acquisition id) in
    elim (Bool-cases (not (source == 0) && leb 256 (length r.acquisitions))) [
      | inl full ↦ rw full (λ x h. h, omega arith, refl)
      | inr free ↦ rw free (
        λ x h. contains-append x id r.acquisitions a same ∙ rw h refl,
        omega (arith, length-append r.acquisitions (a ∷ [])),
        refl,
      )
    ]

-- With room in the table the candidate is there afterwards.
add_candidate_there :
    (id : PublicationId) (source : NodeId) (r : Runtime) (found : Option Acquisition)
    → find_acquisition id r.acquisitions ≡ found
    → length r.acquisitions < max_acquisitions
    → contains_id id (ids_of (add_candidate_to id source found r).0.acquisitions) ≡ true
unfolding add_candidate_to update
add_candidate_there id source r (some a) e room =
    rw (ids_of-put (add_source source a) r.acquisitions) (find-contains id r.acquisitions a e)
add_candidate_there id source r none e room =
    let a = add_source source (new_acquisition id) in
    let (same, _, _) = add_source_keeps source (new_acquisition id) in
    let free : (not (source == 0) && leb 256 (length r.acquisitions)) ≡ false =
      ground (arith, Bool-cases (source == 0)) in
    rw free (
      contains-append id id r.acquisitions a same
      ∙ ground (arith, bytes_eq_refl id, Bool-cases (contains_id id (ids_of r.acquisitions))))

schedule-Grows :
    (now : ℕ) (r : Runtime) (added : Runtime × Option Acquisition)
    → Grows r added.0
    → Grows r (schedule now added)
unfolding schedule update
schedule-Grows now r (s, none) h = h
schedule-Grows now r (s, some a) h = elim (Bool-cases (a.next_attempt == 0)) [
  | inr planned ↦ rw planned h
  | inl fresh ↦
      let b = record a { next_attempt = now } in
      rw fresh (
        λ x e. rw (ids_of-put b s.acquisitions) (h.0 x e),
        omega (arith, h.1, length-put b s.acquisitions),
        h.2,
      )
]

schedule_new-Grows :
    (env : Env) (now : ℕ) (r : Runtime) (added : Runtime × Option Acquisition)
    → Grows r added.0
    → Grows r (schedule_new env now added)
unfolding schedule_new update
schedule_new-Grows env now r (s, none) h = h
schedule_new-Grows env now r (s, some a) h = elim (Bool-cases (a.next_attempt == 0)) [
  | inr planned ↦ rw planned h
  | inl fresh ↦
      let b = record a { next_attempt = now + env.draw s.draws (suc (500 * millisecond)) } in
      rw fresh (
        λ x e. rw (ids_of-put b s.acquisitions) (h.0 x e),
        omega (arith, h.1, length-put b s.acquisitions),
        h.2,
      )
]

discover-Grows :
    (env : Env) (now : ℕ) (source : NodeId) (r : Runtime) (id : PublicationId)
    → Grows r (discover env now source r id)
unfolding discover add_candidate count_discovered
discover-Grows env now source r id =
    let same : Grows r r = (λ x h. h, omega arith, refl) in
    elim (Bool-cases (complete env.world r.files id)) [
      | inl done ↦ rw done same
      | inr missing ↦ elim (Bool-cases (has_known env.world r.files id)) [
        | inr unknown ↦
            rw (missing, unknown)
              (schedule_new-Grows env now r _
                (add_candidate-Grows id source (count_discovered r) _))
        | inl known ↦
            elim (Bool-cases (
              (has_partial r.files id || is_wanted r.files id)
              || not (source_inspected id source r))) [
                | inl again ↦
                    rw (missing, known, again)
                      (schedule-Grows now r _ (add_candidate-Grows id source r _))
                | inr skipped ↦ rw (missing, known, skipped) same
              ]
      ]
    ]

-- A publication that nothing is known about becomes a candidate.
discover_there :
    (env : Env) (now : ℕ) (source : NodeId) (r : Runtime) (id : PublicationId)
    → complete env.world r.files id ≡ false
    → has_known env.world r.files id ≡ false
    → length r.acquisitions < max_acquisitions
    → contains_id id (ids_of (discover env now source r id).acquisitions) ≡ true
unfolding discover add_candidate count_discovered
discover_there env now source r id missing unknown room =
    let counted = count_discovered r in
    let added = add_candidate_to id source (find_acquisition id r.acquisitions) counted in
    let same : Grows added.0 added.0 = (λ x h. h, omega arith, refl) in
    rw (missing, unknown)
      ((schedule_new-Grows env now added.0 added same).0 id
        (add_candidate_there id source counted (find_acquisition id r.acquisitions) refl room))

module _ (env : Env) (now : ℕ) (source : NodeId) (x : PublicationId) where
  discover_all_keeps :
      (ids : List PublicationId) (r : Runtime)
      → contains_id x (ids_of r.acquisitions) ≡ true
      → contains_id x (ids_of (discover_all env now source r ids).acquisitions) ≡ true
  unfolding discover_all
  discover_all_keeps [] r h = h
  discover_all_keeps (id ∷ ids) r h =
      discover_all_keeps ids (discover env now source r id)
        ((discover-Grows env now source r id).0 x h)

  discover_all_there :
      (ids : List PublicationId) (r : Runtime)
      → has_id x ids ≡ true
      → complete env.world r.files x ≡ false
      → has_known env.world r.files x ≡ false
      → length r.acquisitions + length ids ≤ max_acquisitions
      → contains_id x (ids_of (discover_all env now source r ids).acquisitions) ≡ true
  unfolding discover_all has_id
  discover_all_there [] r h missing unknown room = cc
  discover_all_there (id ∷ ids) r h missing unknown room =
      let next = discover env now source r id in
      let (_, size, files) = discover-Grows env now source r id in
      elim (Bool-cases (bytes_eq id x)) [
        | inl same ↦
            let e : id ≡ x = bytes_eq→eq id x same in
            discover_all_keeps ids next
              (rw e (discover_there env now source r x missing unknown (omega arith)))
        | inr other ↦
            discover_all_there ids next (rw other at h) (rw files missing) (rw files unknown)
              (omega (arith, size))
      ]

-- Every ID of an answered leaf that is not complete here, and of which the store knows nothing, is a
-- publication to fetch afterwards, when the table has room for the IDs that are missing.
pub accept_leaf_discovers :
    (env : Env) (now : ℕ) (p : Packet) (r : Runtime) (job : ReconcileJob) (leaf : RadixLeaf)
    (x : PublicationId)
    → active_reconciliation env p r ≡ some job
    → decode_leaf p ≡ ok leaf
    → leaf.generation ≡ job.generation
    → leaf.prefix ≡ job.prefix
    → has_id x leaf.ids ≡ true
    → has_id x r.complete_ids ≡ false
    → complete env.world r.files x ≡ false
    → has_known env.world r.files x ≡ false
    → length r.acquisitions + length (missing_ids r.complete_ids leaf.ids) ≤ max_acquisitions
    → contains_id x (ids_of (accept_leaf env now p r).acquisitions) ≡ true
unfolding accept_leaf accept_leaf_for compare_leaf
accept_leaf_discovers env now p r job leaf x active read same_gen same_prefix there absent missing
      unknown room =
    let found : has_id x (missing_ids r.complete_ids leaf.ids) ≡ true =
      has_id-missing_ids x r.complete_ids leaf.ids ∙ rw (there, absent) refl in
    let valid : (not (leaf.generation == job.generation) || not (bytes_eq leaf.prefix job.prefix))
        ≡ false =
      rw (same_prefix, bytes_eq_refl job.prefix) (ground (arith, same_gen)) in
    rw (active, read, valid)
      (discover_all_there env now p.source x (missing_ids r.complete_ids leaf.ids) (end_job r) found
        missing unknown room)
