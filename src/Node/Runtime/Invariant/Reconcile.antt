-- ===== src/Node/Runtime/Invariant/Reconcile.antt =====
-- Reconciling inventories keeps the invariant of the runtime.
use ghost_cache.Common.{
  ℕ, suc, ◌≤◌, ◌≡◌, ◌≢◌, refl, arith, false, not, ◌||◌, List, [], ◌∷◌, Option, none, some,
  Bool-cases, inl, inr, ◌==◌, bytes_eq, Result, ok, err,
}
use ghost_cache.Publication.Packet.{PublicationId}
use ghost_cache.Publication.Store.{complete, has_known, has_partial, is_wanted}
use ghost_cache.Node.Packet.{NodeId, Packet}
use ghost_cache.Node.Radix.{RadixSummary, RadixLeaf, build_summary, differing_children}
use ghost_cache.Node.Runtime.{Acquisition, ReconcileJob, Runtime, Env, max_acquisitions}
use ghost_cache.Node.Runtime.Table.{source_inspected, any_waiting}
use ghost_cache.Node.Runtime.Peers.{queue_all, count_summary_received}
use ghost_cache.Node.Runtime.Reconcile.{
  end_job, compare_summary, accept_summary_for, accept_summary, schedule, schedule_new,
  count_discovered, discover, discover_all, compare_leaf, accept_leaf_for, accept_leaf,
}
use ghost_cache.Node.Runtime.Invariant.{count_waiting, IsRuntime}
use ghost_cache.Node.Runtime.Invariant.Table.{update_same}
use ghost_cache.Node.Runtime.Invariant.Candidates.{IsAdded, add_candidate-IsAdded}
use ghost_cache.Node.Runtime.Invariant.Peers.{queue_all-IsRuntime}

-- No request of an acquisition is outstanding.
pub any_waiting-false :
    (table : List Acquisition) → any_waiting table ≡ false → count_waiting table ≡ 0
unfolding any_waiting
any_waiting-false [] h = refl
any_waiting-false (a ∷ rest) h = ground (arith, any_waiting-false rest)

module _ (limit : ℕ) (env : Env) (now : ℕ) where
  end_job-IsRuntime : (r : Runtime) → IsRuntime limit r → IsRuntime limit (end_job r)
  end_job-IsRuntime r (table, single, queue, peers, inspected) =
      (table, omega arith, queue, peers, inspected)

  compare_summary-IsRuntime :
      (job : ReconcileJob) (decoded : Result RadixSummary) (r : Runtime)
      → IsRuntime limit r
      → IsRuntime limit (compare_summary env now job decoded r)
  unfolding compare_summary count_summary_received
  compare_summary-IsRuntime job (err e) r h = end_job-IsRuntime r h
  compare_summary-IsRuntime job (ok remote) r h =
      elim (Bool-cases
        (not (remote.generation == job.generation) || not (bytes_eq remote.prefix job.prefix))) [
          | inl other ↦ rw other (end_job-IsRuntime r h)
          | inr same ↦
              let counted = count_summary_received r in
              let local = build_summary env.world.sha256 r.complete_ids job.prefix in
              let found = differing_children local remote in
              rw same (
                end_job-IsRuntime (queue_all env now job.peer job.generation counted found)
                  (queue_all-IsRuntime limit env now job.peer job.generation counted found h))
        ]

  accept_summary_for-IsRuntime :
      (p : Packet) (job : Option ReconcileJob) (r : Runtime)
      → IsRuntime limit r
      → IsRuntime limit (accept_summary_for env now p job r)
  unfolding accept_summary_for
  accept_summary_for-IsRuntime p none r h = h
  accept_summary_for-IsRuntime p (some job) r h = compare_summary-IsRuntime job _ r h

  pub accept_summary-IsRuntime :
      (p : Packet) (r : Runtime) → IsRuntime limit r → IsRuntime limit (accept_summary env now p r)
  unfolding accept_summary
  accept_summary-IsRuntime p r h = accept_summary_for-IsRuntime p _ r h

  schedule-IsRuntime :
      (added : Runtime × Option Acquisition)
      → IsAdded limit added
      → IsRuntime limit (schedule now added)
  unfolding schedule
  schedule-IsRuntime (r, none) h = h
  schedule-IsRuntime (r, some a) (h, entry) = elim (Bool-cases (a.next_attempt == 0)) [
    | inl fresh ↦ rw fresh (update_same limit a _ r h entry entry.0 refl refl)
    | inr planned ↦ rw planned h
  ]

  schedule_new-IsRuntime :
      (added : Runtime × Option Acquisition)
      → IsAdded limit added
      → IsRuntime limit (schedule_new env now added)
  unfolding schedule_new
  schedule_new-IsRuntime (r, none) h = h
  schedule_new-IsRuntime (r, some a) (h, entry) = elim (Bool-cases (a.next_attempt == 0)) [
    | inl fresh ↦
        rw fresh
          (update_same limit a _ (record r { draws = suc r.draws }) h entry entry.0 refl refl)
    | inr planned ↦ rw planned h
  ]

  discover-IsRuntime :
      (source : NodeId) (r : Runtime) (id : PublicationId)
      → max_acquisitions ≤ limit
      → source ≢ 0
      → IsRuntime limit r
      → IsRuntime limit (discover env now source r id)
  unfolding discover
  discover-IsRuntime source r id room real h = elim (Bool-cases (complete env.world r.files id)) [
    | inl done ↦ rw done h
    | inr missing ↦ elim (Bool-cases (has_known env.world r.files id)) [
      | inr unknown ↦
          rw (missing, unknown)
            (schedule_new-IsRuntime _ (
              add_candidate-IsAdded limit id source (count_discovered r)
                (unfold count_discovered in h) room real))
      | inl known ↦
          elim (Bool-cases (
            (has_partial r.files id || is_wanted r.files id)
            || not (source_inspected id source r))) [
              | inl again ↦
                  rw (missing, known, again)
                    (schedule-IsRuntime _ (add_candidate-IsAdded limit id source r h room real))
              | inr skipped ↦ rw (missing, known, skipped) h
            ]
    ]
  ]

  discover_all-IsRuntime :
      (source : NodeId) (r : Runtime) (ids : List PublicationId)
      → max_acquisitions ≤ limit
      → source ≢ 0
      → IsRuntime limit r
      → IsRuntime limit (discover_all env now source r ids)
  unfolding discover_all
  discover_all-IsRuntime source r [] room real h = h
  discover_all-IsRuntime source r (id ∷ ids) room real h =
      discover_all-IsRuntime source (discover env now source r id) ids room real
        (discover-IsRuntime source r id room real h)

  compare_leaf-IsRuntime :
      (source : NodeId) (job : ReconcileJob) (decoded : Result RadixLeaf) (r : Runtime)
      → max_acquisitions ≤ limit
      → source ≢ 0
      → IsRuntime limit r
      → IsRuntime limit (compare_leaf env now source job decoded r)
  unfolding compare_leaf
  compare_leaf-IsRuntime source job (err e) r room real h = end_job-IsRuntime r h
  compare_leaf-IsRuntime source job (ok leaf) r room real h =
      elim (Bool-cases
        (not (leaf.generation == job.generation) || not (bytes_eq leaf.prefix job.prefix))) [
          | inl other ↦ rw other (end_job-IsRuntime r h)
          | inr same ↦ rw same (discover_all-IsRuntime source _ _ room real (end_job-IsRuntime r h))
        ]

  accept_leaf_for-IsRuntime :
      (p : Packet) (job : Option ReconcileJob) (r : Runtime)
      → max_acquisitions ≤ limit
      → p.source ≢ 0
      → IsRuntime limit r
      → IsRuntime limit (accept_leaf_for env now p job r)
  unfolding accept_leaf_for
  accept_leaf_for-IsRuntime p none r room real h = h
  accept_leaf_for-IsRuntime p (some job) r room real h =
      compare_leaf-IsRuntime p.source job _ r room real h

  pub accept_leaf-IsRuntime :
      (p : Packet) (r : Runtime)
      → max_acquisitions ≤ limit
      → p.source ≢ 0
      → IsRuntime limit r
      → IsRuntime limit (accept_leaf env now p r)
  unfolding accept_leaf
  accept_leaf-IsRuntime p r room real h = accept_leaf_for-IsRuntime p _ r room real h
