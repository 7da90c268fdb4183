-- ===== src/Node/Runtime/Turn.antt =====
-- What a node does by itself, in internal/node/runtime.go: `onTick`, `nextWork`, `initiate` and
-- `advertise`.
pub mod Waiting
pub mod Quiet
pub mod Fair
pub mod Stuck
use ghost_cache.Common.{
  ℕ, zero, suc, ◌+◌, ◌-◌, ◌*◌, ◌/◌, ◌%◌, ◌^◌, Bool, true, false, not, ◌&&◌, ◌||◌, List, [], ◌∷◌,
  ◌++◌, Option, none, some, ltb, leb, ◌==◌, if◌then◌else◌, length, get_or, take, bit_or, Result, ok,
  err,
}
use ghost_cache.Publication.Packet.{PublicationId}
use ghost_cache.Publication.Manifest.{Manifest}
use ghost_cache.Publication.Assembly.{Assembly}
use ghost_cache.Publication.Store.Listing as Listing
use ghost_cache.Node.Kind
use ghost_cache.Node.Packet.{NodeId, broadcast}
use ghost_cache.Node.Controller.{Controller, prune, batch_size, can_initiate}
use ghost_cache.Node.Scheduler.{missing_batch, jitter}
use ghost_cache.Node.Transfer.{encode_id_request, encode_signature_request, encode_chunk_request}
use ghost_cache.Node.Radix.{build_summary}
use ghost_cache.Node.Radix.Wire.{encode_summary}
use ghost_cache.Node.Runtime.{Acquisition, ReconcileJob, Metrics, Runtime, Env, max_reconcile_jobs}
use ghost_cache.Node.Runtime.Table.{update, find_acquisition, has_outstanding_acquisition}
use ghost_cache.Node.Runtime.Radio.{observe_failure, send, wire_of, response_deadline, fail}
use ghost_cache.Node.Runtime.Reconcile.{
  is_busy, retry_job, end_job, count_summary, count_reconciliation_bytes, initiate_reconcile,
}

-- An answer that has not come in time.
unfoldable pub expire : Env → ℕ → Acquisition → Runtime → Runtime
expire env now a r =
    if not (a.waiting == 0) && ltb a.deadline now then fail env now a (observe_failure now r) else r

unfoldable pub expire_all : Env → ℕ → List Acquisition → Runtime → Runtime
expire_all env now [] r = r
expire_all env now (a ∷ rest) r = expire_all env now rest (expire env now a r)

unfoldable pub requeue : ReconcileJob → Runtime → Runtime
requeue job r =
    if ltb (length r.reconcile_queue) max_reconcile_jobs
    then record r { reconcile_queue = r.reconcile_queue ++ job ∷ [] }
    else r

unfoldable pub expire_job : Env → ℕ → Option ReconcileJob → Runtime → Runtime
expire_job env now none r = r
expire_job env now (some job) r =
    if ltb job.deadline now
    then observe_failure now
        (requeue (retry_job env now job r) (end_job (record r { draws = suc r.draws })))
    else r

-- What the log line changes; the line itself is not modelled.
unfoldable pub log_stats : Env → ℕ → Runtime → Runtime
log_stats env now r =
    if ltb r.next_log now
    then record r {
      controller = prune now r.controller;
      metrics = record r.metrics { inventory_objects = length r.complete_ids };
      next_log = now + env.log_interval;
    }
    else r

abbrev pub is_ready : ℕ → Acquisition → Bool
is_ready now a = a.waiting == 0 && (not (length a.sources == 0) && leb a.next_attempt now)

abbrev pub pick_ready : ℕ → Option Acquisition → Option Acquisition
pick_ready now none = none
pick_ready now (some a) = if is_ready now a then some a else none

-- An acquisition with the cursor behind it, or what the rest of the loop finds.
unfoldable pub first_of :
    Option Acquisition → ℕ → Option (Acquisition × ℕ) → Option (Acquisition × ℕ)
first_of none cursor later = later
first_of (some a) cursor later = some (a, cursor)

-- The loop of `nextWork`, with n places of the order left: the acquisition, and the next cursor.
unfoldable pub work_loop : ℕ → ℕ → ℕ → Runtime → Option (Acquisition × ℕ)
work_loop zero now offset r = none
work_loop (suc n) now offset r =
    let i = (r.work_cursor + offset) % length r.order in
    first_of (pick_ready now (find_acquisition (get_or r.order i []) r.acquisitions))
      ((i + 1) % length r.order) (work_loop n now (offset + 1) r)

-- `nextWork`; the cursor moves when there is work.
unfoldable pub next_work : ℕ → Runtime → Option (Acquisition × ℕ)
next_work now r = work_loop (length r.order) now 0 r

abbrev pub has_manifest : Option Manifest → Bool
has_manifest none = false
has_manifest (some m) = true

-- The signature is asked of the node that sent the manifest; otherwise the sources take turns.
abbrev pub keeps_source : Acquisition → Bool
keeps_source a = has_manifest a.manifest && not (a.manifest_source == 0)

unfoldable pub chosen_source : Acquisition → NodeId
chosen_source a =
    if keeps_source a
    then a.manifest_source
    else get_or a.sources (a.source_cursor % length a.sources) 0

unfoldable pub with_source : ℕ → Acquisition → Acquisition
with_source tx a = record a {
  source_cursor =
      if keeps_source a then a.source_cursor else (a.source_cursor + 1) % length a.sources;
  active_source = chosen_source a;
  transaction = tx;
}

abbrev pub count_manifest_request : List ℕ → Metrics → Metrics
count_manifest_request wire m = record m {
  manifest_requests = suc m.manifest_requests;
  manifest_bytes = m.manifest_bytes + length wire;
}

abbrev pub count_chunk_request : List ℕ → Metrics → Metrics
count_chunk_request wire m = record m { bulk_bytes = m.bulk_bytes + length wire }

-- After the send of a request for an answer of some type.
unfoldable pub requested :
    Env → ℕ → ℕ → (Metrics → Metrics) → Acquisition → Runtime × Bool → Runtime
requested env now kind count a (r, false) = fail env now a r
requested env now kind count a (r, true) =
    update (record a { waiting = kind; deadline = response_deadline env r })
      (record r { metrics = count r.metrics })

unfoldable pub request_manifest : Env → ℕ → Acquisition → Runtime → Runtime
request_manifest env now a r =
    let signature_wire =
      wire_of (encode_signature_request env.id a.active_source a.transaction a.id) in
    let manifest_wire =
      wire_of (encode_id_request Kind.get_manifest env.id a.active_source a.transaction a.id) in
    if has_manifest a.manifest
    then requested env now Kind.signature (count_manifest_request signature_wire) a
        (send env now signature_wire r)
    else requested env now Kind.manifest (count_manifest_request manifest_wire) a
        (send env now manifest_wire r)

-- The bitmap of the chunks that are asked for; it is a byte.
unfoldable pub bitmap_of : ℕ → ℕ → List ℕ → ℕ
bitmap_of base bitmap [] = bitmap
bitmap_of base bitmap (index ∷ indexes) =
    bitmap_of base (bit_or bitmap (2 ^ ((index + 2 ^ 16 - base) % 2 ^ 16)) % 256) indexes

unfoldable pub last_cursor : ℕ → List ℕ → ℕ
last_cursor cursor [] = cursor
last_cursor cursor (index ∷ indexes) = last_cursor (index + 1) indexes

unfoldable pub request_batch : Env → ℕ → Acquisition → ℕ → List ℕ → Runtime → Runtime
request_batch env now a base asked r =
    let wire = wire_of (
      encode_chunk_request env.id a.active_source a.transaction
        (record { id = a.id; base = base; bitmap = bitmap_of base 0 asked })) in
    requested env now Kind.chunk (count_chunk_request wire)
      (record a { wanted = asked; cursor = last_cursor a.cursor asked }) (send env now wire r)

-- `BatchSize` reads the pressure, which prunes the controller's events.
unfoldable pub request_chunks : Env → ℕ → Acquisition → ℕ × (ℕ × List ℕ) → Runtime → Runtime
request_chunks env now a (base, (bitmap, indexes)) r =
    let pruned = prune now r.controller in
    if length indexes == 0
    then update a r
    else request_batch env now a base (take (batch_size (env.pressure pruned.events now)) indexes)
        (record r { controller = pruned })

unfoldable pub request : Env → ℕ → Acquisition → Option Assembly → Runtime → Runtime
request env now a none r = request_manifest env now a r
request env now a (some assembly) r =
    request_chunks env now a (missing_batch assembly.received a.cursor) r

-- `initiate`.
unfoldable pub initiate : Env → ℕ → Acquisition → Runtime → Runtime
initiate env now a r =
    let tx = (r.tx + 1) % 2 ^ 16 in
    request env now (with_source tx a) a.assembly (record r { tx = tx })

unfoldable pub schedule_advertise : Env → ℕ → Runtime → Runtime
schedule_advertise env now r = record r {
  next_advertise =
      now + jitter env.advertise_interval (env.draw r.draws (2 * (env.advertise_interval / 5) + 1));
  draws = suc r.draws;
}

abbrev pub count_advertised : List ℕ → Runtime × Bool → Runtime
count_advertised wire (r, false) = r
count_advertised wire (r, true) = count_reconciliation_bytes wire (count_summary r, true)

unfoldable pub advertise_listing : Env → ℕ → Result (List PublicationId) → Runtime → Runtime
advertise_listing env now (err e) r = schedule_advertise env now r
advertise_listing env now (ok ids) r =
    let wire =
      wire_of (encode_summary env.id broadcast 0 (build_summary env.world.sha256 ids [])) in
    schedule_advertise env now
      (count_advertised wire (send env now wire (record r { complete_ids = ids })))

-- `advertise`.
unfoldable pub advertise : Env → ℕ → Runtime → Runtime
advertise env now r =
    advertise_listing env now (Listing.complete_ids env.world env.list_fails r.files) r

abbrev pub prefer : Bool → Runtime → Runtime
prefer reconcile r = record r { prefer_reconcile = reconcile }

-- A reconciliation, and whatever else if there was none.
unfoldable pub reconciled : Runtime × Bool → Runtime → Runtime
reconciled (r, true) other = prefer false r
reconciled (r, false) other = other

-- An acquisition if there is work, otherwise a reconciliation.
unfoldable pub work : Env → ℕ → Option (Acquisition × ℕ) → Runtime → Runtime
work env now (some (a, cursor)) r =
    prefer true (initiate env now a (record r { work_cursor = cursor }))
work env now none r = let tried = initiate_reconcile env now r in reconciled tried tried.0

-- Reconciliations and acquisitions take turns.
unfoldable pub start_with : Env → ℕ → Bool → Runtime → Runtime
start_with env now false r = work env now (next_work now r) r
start_with env now true r =
    let tried = initiate_reconcile env now r in
    reconciled tried (work env now (next_work now tried.0) tried.0)

unfoldable pub start_something : Env → ℕ → Runtime → Runtime
start_something env now r = start_with env now r.prefer_reconcile r

-- The turn of a node that may speak.
unfoldable pub take_turn : Env → ℕ → Bool × Controller → Runtime → Runtime
take_turn env now (false, controller) r = record r { controller = controller }
take_turn env now (true, controller) r =
    let free = record r { controller = controller } in
    if is_busy r.reconcile_active || has_outstanding_acquisition r
    then free
    else if leb r.next_advertise now
    then advertise env now free
    else start_something env now free

-- The deadlines and the log.
unfoldable pub keep_time : Env → ℕ → Runtime → Runtime
keep_time env now r =
    let expired = expire_all env now r.acquisitions r in
    log_stats env now (expire_job env now expired.reconcile_active expired)

-- `onTick`.
unfoldable pub on_tick : Env → ℕ → Runtime → Runtime
on_tick env now r =
    let kept = keep_time env now r in
    take_turn env now (can_initiate env.pressure now kept.controller) kept
