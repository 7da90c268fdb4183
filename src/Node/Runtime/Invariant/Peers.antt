-- ===== src/Node/Runtime/Invariant/Peers.antt =====
-- The peers and the queue of reconciliations: what a root summary changes keeps the invariant of the
-- runtime.
use ghost_cache.Common.{
  ℕ, suc, ◌≤◌, ◌<◌, ◌≡◌, refl, arith, true, false, not, ◌&&◌, ◌||◌, List, [], ◌∷◌, ◌++◌, Option,
  none, some, Bool-cases, inl, inr, leb, ◌==◌, ==_iff, length, length-append, elem,
}
use ghost_cache.Node.Packet.{NodeId}
use ghost_cache.Node.Runtime.{ReconcileJob, Runtime, Env}
use ghost_cache.Node.Runtime.Peers.{
  is_active_job, is_queued, queue_reconciliation, queue_all, jobs_of_others, drop_active,
  drop_reconciliation, generation_of, delete_generation, put_generation, remove_peer,
}
use ghost_cache.Node.Runtime.Invariant.{job_waits, is_known, DistinctPeers, IsRuntime}

length-jobs_of_others :
    (peer : NodeId) (jobs : List ReconcileJob) → length (jobs_of_others peer jobs) ≤ length jobs
unfolding jobs_of_others
length-jobs_of_others peer [] = omega arith
length-jobs_of_others peer (job ∷ jobs) = ground (arith, length-jobs_of_others peer jobs)

drop_active-le :
    (peer : NodeId) (job : Option ReconcileJob) → job_waits (drop_active peer job) ≤ job_waits job
drop_active-le peer none = omega arith
drop_active-le peer (some job) = ground arith

-- The map of generations.
pub generation_of-delete :
    (peer x : NodeId) (table : List (NodeId × ℕ))
    → is_known (generation_of x (delete_generation peer table))
      ≡ (not (peer == x) && is_known (generation_of x table))
unfolding generation_of delete_generation
generation_of-delete peer x [] = ground arith
generation_of-delete peer x (entry ∷ rest) = ground (arith, generation_of-delete peer x rest)

pub generation_of-put :
    (peer generation x : NodeId) (table : List (NodeId × ℕ))
    → is_known (generation_of x (put_generation peer generation table))
      ≡ (peer == x || is_known (generation_of x table))
unfolding put_generation generation_of
generation_of-put peer generation x table = ground (arith, generation_of-delete peer x table)

-- The order of the peers.
pub elem-remove_peer :
    (peer x : NodeId) (order : List NodeId)
    → DistinctPeers order
    → elem x (remove_peer peer order) ≡ (not (peer == x) && elem x order)
unfolding remove_peer elem
elem-remove_peer peer x [] d = ground arith
elem-remove_peer peer x (y ∷ ys) d = elim (Bool-cases (y == peer)) [
  | inl here ↦
      let e : y ≡ peer = (==_iff y peer).0 here in
      elim (Bool-cases (peer == x)) [
        | inl same ↦
            let e' : peer ≡ x = (==_iff peer x).0 same in rw (here, same) (rw (← e', ← e) d.0)
        | inr other ↦ ground (arith, here, other)
      ]
  | inr later ↦ ground (arith, elem-remove_peer peer x ys d.1)
]

pub Distinct-remove_peer :
    (peer : NodeId) (order : List NodeId)
    → DistinctPeers order
    → DistinctPeers (remove_peer peer order)
unfolding remove_peer
Distinct-remove_peer peer [] d = tt
Distinct-remove_peer peer (y ∷ ys) d = elim (Bool-cases (y == peer)) [
  | inl here ↦ rw here d.1
  | inr later ↦
      rw later
        (ground (arith, elem-remove_peer peer y ys d.1, d.0), Distinct-remove_peer peer ys d.1)
]

pub elem-append :
    (x peer : NodeId) (order : List NodeId)
    → elem x (order ++ peer ∷ []) ≡ (elem x order || peer == x)
unfolding elem
elem-append x peer [] = ground arith
elem-append x peer (y ∷ ys) = ground (arith, elem-append x peer ys)

pub Distinct-append :
    (peer : NodeId) (order : List NodeId)
    → DistinctPeers order
    → elem peer order ≡ false
    → DistinctPeers (order ++ peer ∷ [])
unfolding elem
Distinct-append peer [] d h = (refl, tt)
Distinct-append peer (y ∷ ys) d h =
    (ground (arith, elem-append y peer ys, d.0, h), Distinct-append peer ys d.1 (ground (arith, h)))

pub length-remove_peer :
    (peer : NodeId) (order : List NodeId)
    → elem peer order ≡ true
    → suc (length (remove_peer peer order)) ≡ length order
unfolding remove_peer elem
length-remove_peer peer [] h = cc
length-remove_peer peer (y ∷ ys) h = ground (arith, length-remove_peer peer ys)

module _ (limit : ℕ) where
  pub drop-IsRuntime :
      (peer : NodeId) (r : Runtime)
      → IsRuntime limit r
      → IsRuntime limit (drop_reconciliation peer r)
  unfolding drop_reconciliation
  drop-IsRuntime peer r (table, single, queue, peers, inspected) = (
    table,
    omega (arith, drop_active-le peer r.reconcile_active),
    omega (arith, length-jobs_of_others peer r.reconcile_queue),
    peers,
    inspected,
  )

  queue-IsRuntime :
      (env : Env) (now : ℕ) (peer : NodeId) (generation : ℕ) (r : Runtime) (prefix : List ℕ)
      → IsRuntime limit r
      → IsRuntime limit (queue_reconciliation env now peer generation r prefix)
  unfolding queue_reconciliation
  queue-IsRuntime env now peer generation r prefix h =
      let (table, single, queue, peers, inspected) = h in
      elim (Bool-cases (
        leb 256 (length r.reconcile_queue)
        || (is_active_job peer prefix r.reconcile_active
            || is_queued peer generation prefix r.reconcile_queue))) [
              | inl there ↦ rw there h
              | inr new ↦ rw new (
                table,
                single,
                omega
                    (arith, length-append {0} r.reconcile_queue, room r prefix peer generation new),
                peers,
                inspected,
              )
            ]
    where
      room :
          (s : Runtime) (path : List ℕ) (other : NodeId) (gen : ℕ)
          → (leb 256 (length s.reconcile_queue)
              || (is_active_job other path s.reconcile_active
                  || is_queued other gen path s.reconcile_queue))
            ≡ false
          → length s.reconcile_queue < 256
      room s path other gen e = ground (arith, e)

  pub queue_all-IsRuntime :
      (env : Env) (now : ℕ) (peer : NodeId) (generation : ℕ) (r : Runtime)
      (prefixes : List (List ℕ))
      → IsRuntime limit r
      → IsRuntime limit (queue_all env now peer generation r prefixes)
  unfolding queue_all
  queue_all-IsRuntime env now peer generation r [] h = h
  queue_all-IsRuntime env now peer generation r (prefix ∷ prefixes) h =
      queue_all-IsRuntime env now peer generation
        (queue_reconciliation env now peer generation r prefix) prefixes
        (queue-IsRuntime env now peer generation r prefix h)
