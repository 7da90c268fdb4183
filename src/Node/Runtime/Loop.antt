-- ===== src/Node/Runtime/Loop.antt =====
-- `NewRuntime`, `handleIncoming` and `Run` of internal/node/runtime.go. A run is the list of what the
-- radio reported.
use ghost_cache.Common.{
  ℕ, suc, ◌+◌, ◌*◌, ◌^◌, Bool, true, false, ◌||◌, List, [], ◌∷◌, Option, none, some, ◌==◌,
  if◌then◌else◌, min, Result, ok, err, refused, ◌>>=◌, ◌>>◌, fail_if,
}
use ghost_cache.Publication.Packet.{PublicationId}
use ghost_cache.Publication.Assembly.{Assembly}
use ghost_cache.Publication.Store.{Files, is_wanted}
use ghost_cache.Publication.Store.Begin.{load_partial, discard_partial}
use ghost_cache.Publication.Store.Listing as Listing
use ghost_cache.Node.Kind
use ghost_cache.Node.Packet.{Packet, broadcast, decode}
use ghost_cache.Node.Controller.{
  Controller, TrafficClass, broadcast_traffic, addressed_other, addressed_us, expected, observe,
  note_signal, startup_delay,
}
use ghost_cache.Node.Policy.{accept}
use ghost_cache.Node.Scheduler.{second}
use ghost_cache.Node.Runtime.{Acquisition, ReconcileJob, Metrics, Runtime, Env}
use ghost_cache.Node.Runtime.Table.{update, add_candidate, active}
use ghost_cache.Node.Runtime.Peers.{active_reconciliation, handle_root_summary}
use ghost_cache.Node.Runtime.Reconcile.{serve_summary, accept_summary, accept_leaf}
use ghost_cache.Node.Runtime.Serve.{serve_manifest, serve_signature, serve_chunks}
use ghost_cache.Node.Runtime.Accept.{with_files, accept_manifest, accept_signature, accept_chunk}
use ghost_cache.Node.Runtime.Turn.{on_tick}

-- A packet from the radio, with its signal.
pub record RadioPacket : Type 0 where
  pub bytes : List ℕ
  pub rssi : ℕ
  pub snr : ℕ

abbrev pub is_some_job : Option ReconcileJob → Bool
is_some_job none = false
is_some_job (some job) = true

abbrev pub is_some_acquisition : Option Acquisition → Bool
is_some_acquisition none = false
is_some_acquisition (some a) = true

-- `isExpected`.
unfoldable pub is_expected : Env → Packet → Runtime → Bool
is_expected env p r =
    is_some_acquisition (active env p r) || is_some_job (active_reconciliation env p r)

unfoldable pub class_of : Env → Packet → Runtime → TrafficClass
class_of env p r =
    if is_expected env p r
    then expected
    else if p.destination == broadcast
    then broadcast_traffic
    else if p.destination == env.id
    then addressed_us
    else addressed_other

-- The switch on the type of a packet for this node.
unfoldable pub handle_addressed : Env → ℕ → Packet → Runtime → Runtime
handle_addressed env now p r =
    if p.type == Kind.get_manifest
    then serve_manifest env now p r
    else if p.type == Kind.get_chunks
    then serve_chunks env now p r
    else if p.type == Kind.manifest
    then accept_manifest env now p r
    else if p.type == Kind.chunk
    then accept_chunk env now p r
    else if p.type == Kind.get_signature
    then serve_signature env now p r
    else if p.type == Kind.signature
    then accept_signature env now p r
    else if p.type == Kind.summary_request
    then serve_summary env now p r
    else if p.type == Kind.summary
    then accept_summary env now p r
    else if p.type == Kind.leaf
    then accept_leaf env now p r
    else r

unfoldable pub handle_packet : Env → ℕ → Packet → Runtime → Runtime
handle_packet env now p r =
    if p.source == env.id
    then r
    else if p.destination == broadcast
    then if p.type == Kind.summary then handle_root_summary env now p r else r
    else if p.destination == env.id
    then handle_addressed env now p r
    else r

unfoldable pub note_packet : Env → ℕ → RadioPacket → Packet → Runtime → Runtime
note_packet env now received p r = record r {
  controller = observe now (class_of env p r) (note_signal received.rssi received.snr r.controller);
}

unfoldable pub handle_decoded : Env → ℕ → RadioPacket → Result Packet → Runtime → Runtime
handle_decoded env now received (err e) r = r
handle_decoded env now received (ok p) r =
    handle_packet env now p (note_packet env now received p r)

-- `handleIncoming`.
unfoldable pub handle_incoming : Env → ℕ → RadioPacket → Runtime → Runtime
handle_incoming env now received r = handle_decoded env now received (decode received.bytes) r

-- What `Receive` gave: a packet, with the times before and after it, or a time-out.
pub data Event : Type 0 where
  received : ℕ → ℕ → RadioPacket → Event
  timed_out : ℕ → Event

unfoldable pub handle_event : Env → Event → Runtime → Runtime
handle_event env (received before after p) r = on_tick env after (handle_incoming env before p r)
handle_event env (timed_out now) r = on_tick env now r

-- `Run`, until it is stopped or the radio fails.
unfoldable pub run : Env → List Event → Runtime → Runtime
run env [] r = r
run env (event ∷ events) r = run env events (handle_event env event r)

abbrev pub new_controller : Controller
new_controller = record {
  events = [];
  last_activity = 0;
  defer_until = 0;
  stats = record {
    rx_packets = 0;
    tx_packets = 0;
    broadcasts = 0;
    others = 0;
    ours = 0;
    expecteds = 0;
    failures = 0;
    deferred = 0;
    last_rssi = 0;
    last_snr = 0;
  };
}

abbrev pub no_metrics : Metrics
no_metrics = record {
  inventory_objects = 0;
  summaries_sent = 0;
  summaries_received = 0;
  leaves_sent = 0;
  leaf_ids_sent = 0;
  manifest_requests = 0;
  manifest_responses = 0;
  objects_discovered = 0;
  objects_accepted = 0;
  objects_deferred = 0;
  reconciliation_bytes = 0;
  manifest_bytes = 0;
  bulk_bytes = 0;
}

-- The composite literal of `NewRuntime`, with the first draw.
unfoldable pub empty_runtime : Env → Files → Runtime
empty_runtime env files = record {
  files = files;
  controller = new_controller;
  acquisitions = [];
  order = [];
  work_cursor = 0;
  next_advertise = 0;
  next_log = 0;
  tx = env.draw 0 (2 ^ 16);
  reconcile_queue = [];
  reconcile_active = none;
  prefer_reconcile = false;
  metrics = no_metrics;
  peer_generations = [];
  inspected_sources = [];
  inspected_order = [];
  complete_ids = [];
  peer_order = [];
  sent = [];
  sends = 0;
  draws = 1;
}

abbrev pub with_assembly : Assembly → Runtime × Option Acquisition → Runtime
with_assembly assembly (r, none) = r
with_assembly assembly (r, some a) = update (record a { assembly = some assembly }) r

-- A stored partial publication, if it can be loaded and the policy still wants it.
unfoldable pub resume_loaded : Env → PublicationId → Files × Result Assembly → Runtime → Runtime
resume_loaded env id (files, err e) r =
    (add_candidate id 0 (with_files r (discard_partial env.world id files).0)).0
resume_loaded env id (files, ok assembly) r =
    if accept env.world.verify env.policy assembly.manifest true (is_wanted files id)
    then with_assembly assembly (add_candidate id 0 (with_files r files))
    else with_files r files

unfoldable pub resume_partials : Env → List PublicationId → Runtime → Runtime
resume_partials env [] r = r
resume_partials env (id ∷ ids) r =
    resume_partials env ids (resume_loaded env id (load_partial env.world id r.files) r)

unfoldable pub add_wanted : List PublicationId → Runtime → Runtime
add_wanted [] r = r
add_wanted (id ∷ ids) r = add_wanted ids (add_candidate id 0 r).0

-- The node listens for a while before it speaks.
unfoldable pub listen_first : Env → ℕ → Runtime → Runtime
listen_first env now r =
    let longest =
      if env.startup_backoff == 0
      then min (5 * second) env.advertise_interval
      else env.startup_backoff in
    let delay = startup_delay longest (env.draw r.draws (suc longest)) in
    record r {
      controller = record r.controller { defer_until = now + delay };
      next_advertise = now + delay;
      next_log = now + env.log_interval;
      draws = suc r.draws;
    }

-- `NewRuntime`, with a store and a radio, and the defaults of the intervals filled in.
unfoldable pub new_runtime : Env → ℕ → Files → Result Runtime
new_runtime env now files = do
  fail_if (env.id == 0 || env.id == broadcast) refused
  complete ← Listing.complete_ids env.world env.list_fails files
  partial ← Listing.partial_ids env.list_fails files
  let resumed =
      resume_partials env partial (record (empty_runtime env files) { complete_ids = complete })
  wanted ← Listing.wanted_ids env.world env.list_fails resumed.files
  ok (listen_first env now (add_wanted wanted resumed))
