-- ===== src/Node/Runtime/Reconcile.antt =====
-- The reconciliation of inventories in internal/node/runtime.go: `serveSummary`, `acceptSummary`,
-- `acceptLeaf` and `initiateReconcile`.
pub mod Discover
use ghost_cache.Common.{
  ℕ, suc, ◌+◌, ◌*◌, ◌%◌, ◌^◌, Bool, true, false, not, ◌||◌, List, [], ◌∷◌, ◌++◌, Option, none, some,
  ltb, leb, ◌==◌, if◌then◌else◌, length, bytes_eq, Result, ok, err,
}
use ghost_cache.Publication.Packet.{PublicationId}
use ghost_cache.Publication.Store.{complete, has_known, has_partial, is_wanted}
use ghost_cache.Node.Packet.{NodeId, Packet}
use ghost_cache.Node.Controller.{millisecond}
use ghost_cache.Node.Ids.{filter_prefix, missing_ids}
use ghost_cache.Node.Radix.{
  RadixSummary, RadixLeaf, leaf_threshold, inventory_generation, build_summary, build_leaf,
  differing_children,
}
use ghost_cache.Node.Radix.Wire.{
  encode_summary_request, decode_summary_request, encode_summary, decode_summary, encode_leaf,
  decode_leaf,
}
use ghost_cache.Node.Runtime.{Acquisition, ReconcileJob, Runtime, Env}
use ghost_cache.Node.Runtime.Table.{
  update, add_candidate, source_inspected, has_outstanding_acquisition,
}
use ghost_cache.Node.Runtime.Radio.{send, backoff_draw, response_deadline}
use ghost_cache.Node.Runtime.Peers.{active_reconciliation, queue_all, count_summary_received}

abbrev pub count_reconciliation_bytes : List ℕ → Runtime × Bool → Runtime
count_reconciliation_bytes wire (r, false) = r
count_reconciliation_bytes wire (r, true) = record r {
  metrics = record r.metrics {
    reconciliation_bytes = r.metrics.reconciliation_bytes + length wire;
  };
}

-- The packet that was counted goes out; an encoding error sends nothing.
unfoldable pub answer_reconciliation :
    Env → ℕ → (Runtime → Runtime) → Result (List ℕ) → Runtime → Runtime
answer_reconciliation env now count (err e) r = r
answer_reconciliation env now count (ok wire) r =
    count_reconciliation_bytes wire (send env now wire (count r))

abbrev pub count_leaf : ℕ → Runtime → Runtime
count_leaf ids r = record r {
  metrics = record r.metrics {
    leaves_sent = suc r.metrics.leaves_sent;
    leaf_ids_sent = r.metrics.leaf_ids_sent + ids;
  };
}

abbrev pub count_summary : Runtime → Runtime
count_summary r = record r {
  metrics = record r.metrics { summaries_sent = suc r.metrics.summaries_sent };
}

-- A small bucket is answered by its leaf, another by its summary.
unfoldable pub serve_bucket : Env → ℕ → Packet → List ℕ → Runtime → Runtime
serve_bucket env now p prefix r =
    let bucket = filter_prefix r.complete_ids prefix in
    let leaf = build_leaf env.world.sha256 r.complete_ids prefix in
    let summary = build_summary env.world.sha256 r.complete_ids prefix in
    if leb (length bucket) leaf_threshold
    then answer_reconciliation env now (count_leaf (length bucket))
        (encode_leaf env.id p.source p.transaction leaf) r
    else answer_reconciliation env now count_summary
        (encode_summary env.id p.source p.transaction summary) r

unfoldable pub serve_generation : Env → ℕ → Packet → Result (ℕ × List ℕ) → Runtime → Runtime
serve_generation env now p (err e) r = r
serve_generation env now p (ok (generation, prefix)) r =
    if inventory_generation env.world.sha256 r.complete_ids == generation
    then serve_bucket env now p prefix r
    else r

-- `serveSummary`.
unfoldable pub serve_summary : Env → ℕ → Packet → Runtime → Runtime
serve_summary env now p r = serve_generation env now p (decode_summary_request p) r

abbrev pub end_job : Runtime → Runtime
end_job r = record r { reconcile_active = none }

unfoldable pub compare_summary : Env → ℕ → ReconcileJob → Result RadixSummary → Runtime → Runtime
compare_summary env now job (err e) r = end_job r
compare_summary env now job (ok remote) r =
    let local = build_summary env.world.sha256 r.complete_ids job.prefix in
    if not (remote.generation == job.generation) || not (bytes_eq remote.prefix job.prefix)
    then end_job r
    else end_job (
        queue_all env now job.peer job.generation (count_summary_received r)
          (differing_children local remote))

unfoldable pub accept_summary_for : Env → ℕ → Packet → Option ReconcileJob → Runtime → Runtime
accept_summary_for env now p none r = r
accept_summary_for env now p (some job) r = compare_summary env now job (decode_summary p) r

-- `acceptSummary`.
unfoldable pub accept_summary : Env → ℕ → Packet → Runtime → Runtime
accept_summary env now p r = accept_summary_for env now p (active_reconciliation env p r) r

-- `if a.nextAttempt.IsZero()`: a candidate without a time gets one.
unfoldable pub schedule : ℕ → Runtime × Option Acquisition → Runtime
schedule at (r, none) = r
schedule at (r, some a) =
    if a.next_attempt == 0 then update (record a { next_attempt = at }) r else r

-- A new publication is tried up to half a second later.
unfoldable pub schedule_new : Env → ℕ → Runtime × Option Acquisition → Runtime
schedule_new env now (r, none) = r
schedule_new env now (r, some a) =
    if a.next_attempt == 0
    then update (record a { next_attempt = now + env.draw r.draws (suc (500 * millisecond)) })
        (record r { draws = suc r.draws })
    else r

unfoldable pub count_discovered : Runtime → Runtime
count_discovered r = record r {
  metrics = record r.metrics { objects_discovered = suc r.metrics.objects_discovered };
}

-- The body of the loop over the IDs that are missing here.
unfoldable pub discover : Env → ℕ → NodeId → Runtime → PublicationId → Runtime
discover env now source r id =
    if complete env.world r.files id
    then r
    else if has_known env.world r.files id
    then if (has_partial r.files id || is_wanted r.files id) || not (source_inspected id source r)
      then schedule now (add_candidate id source r)
      else r
    else schedule_new env now (add_candidate id source (count_discovered r))

unfoldable pub discover_all : Env → ℕ → NodeId → Runtime → List PublicationId → Runtime
discover_all env now source r [] = r
discover_all env now source r (id ∷ ids) =
    discover_all env now source (discover env now source r id) ids

unfoldable pub compare_leaf : Env → ℕ → NodeId → ReconcileJob → Result RadixLeaf → Runtime → Runtime
compare_leaf env now source job (err e) r = end_job r
compare_leaf env now source job (ok leaf) r =
    if not (leaf.generation == job.generation) || not (bytes_eq leaf.prefix job.prefix)
    then end_job r
    else discover_all env now source (end_job r) (missing_ids r.complete_ids leaf.ids)

unfoldable pub accept_leaf_for : Env → ℕ → Packet → Option ReconcileJob → Runtime → Runtime
accept_leaf_for env now p none r = r
accept_leaf_for env now p (some job) r = compare_leaf env now p.source job (decode_leaf p) r

-- `acceptLeaf`.
unfoldable pub accept_leaf : Env → ℕ → Packet → Runtime → Runtime
accept_leaf env now p r = accept_leaf_for env now p (active_reconciliation env p r) r

abbrev pub keep_job :
    ReconcileJob
    → Option (ReconcileJob × List ReconcileJob)
    → Option (ReconcileJob × List ReconcileJob)
keep_job first none = none
keep_job first (some (found, rest)) = some (found, first ∷ rest)

-- The first job whose time has come, and the other jobs.
unfoldable pub take_ready : ℕ → List ReconcileJob → Option (ReconcileJob × List ReconcileJob)
take_ready now [] = none
take_ready now (job ∷ jobs) =
    let later = take_ready now jobs in
    if ltb now job.next_attempt then keep_job job later else some (job, jobs)

-- A job that was not answered, or could not be sent, waits for its backoff.
unfoldable pub retry_job : Env → ℕ → ReconcileJob → Runtime → ReconcileJob
retry_job env now job r = record job {
  failures = suc job.failures;
  next_attempt = now + backoff_draw env (suc job.failures) r;
}

-- After the send of a request.
unfoldable pub begin_job : Env → ℕ → ReconcileJob → List ℕ → Runtime × Bool → Runtime × Bool
begin_job env now job wire (r, false) = (
  record r {
    reconcile_queue = r.reconcile_queue ++ retry_job env now job r ∷ [];
    draws = suc r.draws;
  },
  true,
)
begin_job env now job wire (r, true) = (
  count_reconciliation_bytes wire (
    record r { reconcile_active = some (record job { deadline = response_deadline env r }) },
    true,
  ),
  true,
)

unfoldable pub send_request : Env → ℕ → ReconcileJob → Result (List ℕ) → Runtime → Runtime × Bool
send_request env now job (err e) r = (r, false)
send_request env now job (ok wire) r = begin_job env now job wire (send env now wire r)

unfoldable pub start_job :
    Env → ℕ → Option (ReconcileJob × List ReconcileJob) → Runtime → Runtime × Bool
start_job env now none r = (r, false)
start_job env now (some (found, rest)) r =
    let tx = (r.tx + 1) % 2 ^ 16 in
    send_request env now (record found { transaction = tx })
      (encode_summary_request env.id found.peer tx found.generation found.prefix)
      (record r { tx = tx; reconcile_queue = rest })

abbrev pub is_busy : Option ReconcileJob → Bool
is_busy none = false
is_busy (some job) = true

-- `initiateReconcile`, and whether it did anything.
unfoldable pub initiate_reconcile : Env → ℕ → Runtime → Runtime × Bool
initiate_reconcile env now r =
    if is_busy r.reconcile_active || has_outstanding_acquisition r
    then (r, false)
    else start_job env now (take_ready now r.reconcile_queue) r
