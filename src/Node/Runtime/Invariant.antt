-- ===== src/Node/Runtime/Invariant.antt =====
-- What stays true of a running node. The predicates are about the fields, so that a step which leaves
-- the fields alone needs no proof.
pub mod Ids
pub mod Acquisitions
pub mod Table
pub mod Candidates
pub mod Sources
pub mod Peers
pub mod Roots
pub mod Radio
pub mod Accept
pub mod Chunks
pub mod Serve
pub mod Reconcile
pub mod Jobs
pub mod Turn
pub mod Run
use ghost_cache.Common.{
  ℕ, suc, ◌+◌, ◌≤◌, ◌≡◌, Bool, true, false, ◌||◌, List, [], ◌∷◌, Option, none, some, ◌==◌,
  if◌then◌else◌, length, All, elem,
}
use ghost_cache.Publication.Packet.{PublicationId}
use ghost_cache.Node.Packet.{NodeId}
use ghost_cache.Node.Runtime.{
  Acquisition, ReconcileJob, Runtime, max_tracked_peers, max_reconcile_jobs, max_inspected_ids,
  max_sources_per_acquisition, max_inspected_sources,
}
use ghost_cache.Node.Runtime.Table.{contains_id, Inspected}
use ghost_cache.Node.Runtime.Peers.{generation_of}
use ghost_cache.Node.Runtime.Reconcile.{is_busy}

abbrev pub Distinct : List PublicationId → Type 0
Distinct [] = Unit
Distinct (x ∷ xs) = (contains_id x xs ≡ false) × Distinct xs

abbrev pub ids_of : List Acquisition → List PublicationId
ids_of [] = []
ids_of (a ∷ rest) = a.id ∷ ids_of rest

abbrev pub keys_of : Inspected → List PublicationId
keys_of [] = []
keys_of (entry ∷ rest) = entry.0 ∷ keys_of rest

-- Whether a request of the acquisition is outstanding.
abbrev pub waits : Acquisition → ℕ
waits a = if a.waiting == 0 then 0 else 1

abbrev pub count_waiting : List Acquisition → ℕ
count_waiting [] = 0
count_waiting (a ∷ rest) = waits a + count_waiting rest

abbrev pub job_waits : Option ReconcileJob → ℕ
job_waits none = 0
job_waits (some job) = 1

abbrev pub HasFewSources : Acquisition → Type 0
HasFewSources a = length a.sources ≤ max_sources_per_acquisition

-- The order lists the acquisitions, each once; there are at most `limit`, of few sources each.
abbrev pub IsTable : ℕ → List Acquisition → List PublicationId → Type 0
IsTable limit acquisitions order =
    (order ≡ ids_of acquisitions)
    × Distinct order
    × All HasFewSources acquisitions
    × (length acquisitions ≤ limit)

-- At most one answer is waited for.
abbrev pub IsSingle : List Acquisition → Option ReconcileJob → Type 0
IsSingle acquisitions job = count_waiting acquisitions + job_waits job ≤ 1

abbrev pub is_known : Option ℕ → Bool
is_known none = false
is_known (some generation) = true

abbrev pub DistinctPeers : List NodeId → Type 0
DistinctPeers [] = Unit
DistinctPeers (x ∷ xs) = (elem x xs ≡ false) × DistinctPeers xs

-- The order lists the peers whose generation is known, each once, and at most 64 of them.
abbrev pub ArePeers : List (NodeId × ℕ) → List NodeId → Type 0
ArePeers generations order =
    ((peer : NodeId) → is_known (generation_of peer generations) ≡ elem peer order)
    × DistinctPeers order
    × (length order ≤ max_tracked_peers)

abbrev pub HasFewInspected : PublicationId × List NodeId → Type 0
HasFewInspected entry = length entry.1 ≤ max_inspected_sources

-- The order lists the entries, each once; there are at most 256, of few sources each.
abbrev pub AreInspected : Inspected → List PublicationId → Type 0
AreInspected inspected order =
    (order ≡ keys_of inspected)
    × Distinct order
    × All HasFewInspected inspected
    × (length order ≤ max_inspected_ids)

abbrev pub IsRuntime : ℕ → Runtime → Type 0
IsRuntime limit r =
    IsTable limit r.acquisitions r.order
    × IsSingle r.acquisitions r.reconcile_active
    × (length r.reconcile_queue ≤ max_reconcile_jobs)
    × ArePeers r.peer_generations r.peer_order
    × AreInspected r.inspected_sources r.inspected_order
