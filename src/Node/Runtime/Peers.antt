-- ===== src/Node/Runtime/Peers.antt =====
-- The peers that are known, and the queue of reconciliations with them: `queueReconciliation`,
-- `dropReconciliation`, `activeReconciliation` and `handleRootSummary`.
use ghost_cache.Common.{
  ℕ, suc, ◌+◌, ◌*◌, Bool, false, not, ◌&&◌, ◌||◌, List, [], ◌∷◌, ◌++◌, Option, none, some, leb,
  ◌==◌, if◌then◌else◌, length, bytes_eq, Result, ok, err,
}
use ghost_cache.Node.Packet.{NodeId, Packet}
use ghost_cache.Node.Controller.{millisecond}
use ghost_cache.Node.Radix.{RadixSummary, build_summary, differing_children}
use ghost_cache.Node.Radix.Wire.{decode_summary}
use ghost_cache.Node.Runtime.{ReconcileJob, Runtime, Env, max_tracked_peers, max_reconcile_jobs}

abbrev pub is_active_job : NodeId → List ℕ → Option ReconcileJob → Bool
is_active_job peer prefix none = false
is_active_job peer prefix (some job) = job.peer == peer && bytes_eq job.prefix prefix

unfoldable pub is_queued : NodeId → ℕ → List ℕ → List ReconcileJob → Bool
is_queued peer generation prefix [] = false
is_queued peer generation prefix (job ∷ jobs) =
    (job.peer == peer && (job.generation == generation && bytes_eq job.prefix prefix))
    || is_queued peer generation prefix jobs

abbrev pub new_job : NodeId → ℕ → List ℕ → ℕ → ReconcileJob
new_job peer generation prefix at = record {
  peer = peer;
  generation = generation;
  prefix = prefix;
  failures = 0;
  next_attempt = at;
  transaction = 0;
  deadline = 0;
}

-- `queueReconciliation`. A job is started up to 750 ms later.
unfoldable pub queue_reconciliation : Env → ℕ → NodeId → ℕ → Runtime → List ℕ → Runtime
queue_reconciliation env now peer generation r prefix =
    if leb max_reconcile_jobs (length r.reconcile_queue)
      || (is_active_job peer prefix r.reconcile_active
          || is_queued peer generation prefix r.reconcile_queue)
    then r
    else record r {
      reconcile_queue =
          r.reconcile_queue
          ++ new_job peer generation prefix (now + env.draw r.draws (suc (750 * millisecond))) ∷ [];
      draws = suc r.draws;
    }

-- The loop over the prefixes that differ.
unfoldable pub queue_all : Env → ℕ → NodeId → ℕ → Runtime → List (List ℕ) → Runtime
queue_all env now peer generation r [] = r
queue_all env now peer generation r (prefix ∷ prefixes) =
    queue_all env now peer generation (queue_reconciliation env now peer generation r prefix)
      prefixes

unfoldable pub jobs_of_others : NodeId → List ReconcileJob → List ReconcileJob
jobs_of_others peer [] = []
jobs_of_others peer (job ∷ jobs) =
    let rest = jobs_of_others peer jobs in if job.peer == peer then rest else job ∷ rest

abbrev pub drop_active : NodeId → Option ReconcileJob → Option ReconcileJob
drop_active peer none = none
drop_active peer (some job) = if job.peer == peer then none else some job

-- `dropReconciliation`.
unfoldable pub drop_reconciliation : NodeId → Runtime → Runtime
drop_reconciliation peer r = record r {
  reconcile_active = drop_active peer r.reconcile_active;
  reconcile_queue = jobs_of_others peer r.reconcile_queue;
}

-- The job that a packet answers.
unfoldable pub job_answered : Env → Packet → Option ReconcileJob → Option ReconcileJob
job_answered env p none = none
job_answered env p (some job) =
    if (job.peer == p.source && job.transaction == p.transaction) && p.destination == env.id
    then some job
    else none

-- `activeReconciliation`.
unfoldable pub active_reconciliation : Env → Packet → Runtime → Option ReconcileJob
active_reconciliation env p r = job_answered env p r.reconcile_active

-- `r.peerGenerations`.
unfoldable pub generation_of : NodeId → List (NodeId × ℕ) → Option ℕ
generation_of peer [] = none
generation_of peer (entry ∷ rest) =
    if entry.0 == peer then some entry.1 else generation_of peer rest

unfoldable pub delete_generation : NodeId → List (NodeId × ℕ) → List (NodeId × ℕ)
delete_generation peer [] = []
delete_generation peer (entry ∷ rest) =
    let others = delete_generation peer rest in if entry.0 == peer then others else entry ∷ others

unfoldable pub put_generation : NodeId → ℕ → List (NodeId × ℕ) → List (NodeId × ℕ)
put_generation peer generation table = (peer, generation) ∷ delete_generation peer table

-- The peer that was heard longest ago goes when there are too many.
unfoldable pub evict_peer : List NodeId → Runtime → Runtime
evict_peer [] r = r
evict_peer (oldest ∷ rest) r =
    if leb max_tracked_peers (length (oldest ∷ rest))
    then drop_reconciliation oldest (record r {
      peer_order = rest;
      peer_generations = delete_generation oldest r.peer_generations;
    })
    else r

unfoldable pub remove_peer : NodeId → List NodeId → List NodeId
remove_peer peer [] = []
remove_peer peer (x ∷ xs) = let rest = remove_peer peer xs in if x == peer then xs else x ∷ rest

-- Makes room for a new peer, or takes a known one out of the order, and puts it at the end.
unfoldable pub make_room : NodeId → Option ℕ → Runtime → Runtime
make_room peer none r = evict_peer r.peer_order r
make_room peer (some old) r = record r { peer_order = remove_peer peer r.peer_order }

unfoldable pub touch_peer : NodeId → Option ℕ → Runtime → Runtime
touch_peer peer known r =
    let kept = make_room peer known r in record kept { peer_order = kept.peer_order ++ peer ∷ [] }

abbrev pub is_generation : ℕ → Option ℕ → Bool
is_generation generation none = false
is_generation generation (some old) = old == generation

-- A new generation makes the reconciliations of the old one pointless.
unfoldable pub note_generation : NodeId → ℕ → Option ℕ → Runtime → Runtime
note_generation peer generation known r =
    let dropped = drop_reconciliation peer r in
    if is_generation generation known then r else record dropped {
      peer_generations = put_generation peer generation dropped.peer_generations;
    }

unfoldable pub count_summary_received : Runtime → Runtime
count_summary_received r = record r {
  metrics = record r.metrics { summaries_received = suc r.metrics.summaries_received };
}

unfoldable pub note_peer : NodeId → ℕ → Runtime → Runtime
note_peer peer generation r =
    let known = generation_of peer r.peer_generations in
    note_generation peer generation known (touch_peer peer known (count_summary_received r))

unfoldable pub compare_root : Env → ℕ → NodeId → Runtime → Result RadixSummary → Runtime
compare_root env now peer r (err e) = r
compare_root env now peer r (ok remote) =
    let local = build_summary env.world.sha256 r.complete_ids [] in
    if not (length remote.prefix == 0)
    then r
    else queue_all env now peer remote.generation (note_peer peer remote.generation r)
        (differing_children local remote)

-- `handleRootSummary`.
unfoldable pub handle_root_summary : Env → ℕ → Packet → Runtime → Runtime
handle_root_summary env now p r = compare_root env now p.source r (decode_summary p)
