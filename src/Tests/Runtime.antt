-- ===== src/Tests/Runtime.antt =====
-- A running node, with one publication to fetch.
use ghost_cache.Common.{
  ◌⊎◌, ℕ, zero, suc, ◌+◌, ◌≤◌, ◌≡◌, refl, sym, ap, ◌∙◌, arith, true, false, ◌||◌, inl, [], ◌∷◌,
  none, some, length, replicate, get_or, get_le, bytes_eq, Result, ok, err,
}
use ghost_cache.Publication.Packet.{PublicationId, encode_packet, decode_packet}
use ghost_cache.Publication.Manifest.{
  encode_manifest, id_matches_hash, manifest_body, decode_manifest, check_manifest, expected_chunks,
}
use ghost_cache.Publication.Assembly.{content, is_complete}
use ghost_cache.Publication.Signing.{verify_signature, verify_manifest_signature}
use ghost_cache.Publication.Store.{
  object_content, object_manifest, object_complete, Files, read_file, same_path, complete,
  check_manifest_object, check_object, load_manifest, load_known, read_manifest, has_known,
  check_stored,
}
use ghost_cache.Publication.Store.Listing as Listing
use ghost_cache.Publication.Store.Listing.{add_dir, dirs_of, keep_ids}
use ghost_cache.Publication.Store.Listing.Exact.{has_id-complete_ids}
use ghost_cache.Node.Ids.{insert_id, sorted_ids, has_id, missing_ids, cut_ids}
use ghost_cache.Node.Kind
use ghost_cache.Node.Packet.{Packet, decode}
use ghost_cache.Node.Controller.{startup_delay}
use ghost_cache.Node.Policy.{permissive}
use ghost_cache.Node.Prefix.{decode_prefix, decode_prefix_with_tail, get_nibbles}
use ghost_cache.Node.Radix.{RadixLeaf}
use ghost_cache.Node.Radix.Wire.{decode_leaf}
use ghost_cache.Node.Runtime.{Acquisition, ReconcileJob, Runtime, Env}
use ghost_cache.Node.Runtime.Table.{
  find_acquisition, new_acquisition, any_waiting, has_outstanding_acquisition, contains_id,
}
use ghost_cache.Node.Runtime.Peers.{job_answered, active_reconciliation, new_job}
use ghost_cache.Node.Runtime.Reconcile.{is_busy, accept_leaf}
use ghost_cache.Node.Runtime.Reconcile.Discover.{accept_leaf_discovers}
use ghost_cache.Node.Runtime.Accept.{chunk_kept}
use ghost_cache.Node.Runtime.Accept.Commit.{chunk_kept_commits}
use ghost_cache.Node.Runtime.Accept.Unasked.{handle_incoming_unasked}
use ghost_cache.Node.Runtime.Serve.Keeps.{Keeps}
use ghost_cache.Node.Runtime.Turn.{is_ready, next_work, initiate, keep_time, on_tick}
use ghost_cache.Node.Runtime.Turn.Quiet.{IsQuiet, on_tick_speaks}
use ghost_cache.Node.Runtime.Turn.Waiting.{on_tick_waits}
use ghost_cache.Node.Runtime.Turn.Fair.{next_work_complete}
use ghost_cache.Node.Runtime.Turn.Stuck.{initiate_complete}
use ghost_cache.Node.Runtime.Loop.{
  RadioPacket, received, timed_out, handle_incoming, run, new_controller, no_metrics, empty_runtime,
  resume_partials, add_wanted, listen_first, new_runtime,
}
use ghost_cache.Node.Runtime.Invariant.{ids_of, IsRuntime}
use ghost_cache.Node.Runtime.Invariant.Run.{HasSource, run-IsRuntime}
use ghost_cache.Tests.Publication.{padded, text, note, note-IsManifest, full, full-IsAssembly}
use ghost_cache.Tests.Store.{works, disk, committed}

-- Node 7, whose sends succeed.
abbrev node : Env
node = record {
  id = 7;
  world = works;
  policy = record { max_auto_size = 0; has_max_size = false; signature = permissive; trust = none };
  pressure = λ events now. record { at_least = λ level. false; wait_ms = 0 };
  advertise_interval = 1000;
  startup_backoff = 10;
  response_timeout = 100;
  log_interval = 1000;
  send_fails = λ n. false;
  draw = λ n bound. 0;
  clock = λ n. 50;
  list_fails = false;
}

abbrev fresh : Runtime
fresh = record {
  files = [];
  controller = new_controller;
  acquisitions = [];
  order = [];
  work_cursor = 0;
  next_advertise = 0;
  next_log = 1000;
  tx = 0;
  reconcile_queue = [];
  reconcile_active = none;
  prefer_reconcile = false;
  metrics = no_metrics;
  peer_generations = [];
  inspected_sources = [];
  inspected_order = [];
  complete_ids = [];
  peer_order = [];
  sent = [];
  sends = 0;
  draws = 2;
}

started : new_runtime node 0 [] ≡ ok fresh
unfolding new_runtime Listing.complete_ids Listing.partial_ids Listing.known_ids Listing.wanted_ids
    dirs_of keep_ids sorted_ids resume_partials add_wanted listen_first empty_runtime startup_delay
started = refl

-- Node 9 asks this node for a manifest that it does not have.
abbrev request : Packet
request = record {
  type = Kind.get_manifest;
  source = 9;
  destination = 7;
  transaction = 1;
  body = replicate 16 0;
}

abbrev heard : RadioPacket
heard = record {
  bytes = b'G' ∷ b'N' ∷ 3 ∷ 2 ∷ 9 ∷ 0 ∷ 0 ∷ 0 ∷ 7 ∷ 0 ∷ 0 ∷ 0 ∷ 1 ∷ 0 ∷ replicate 16 0;
  rssi = 0;
  snr = 0;
}

heard_lem : decode heard.bytes ≡ ok request
unfolding decode get_le
heard_lem = refl

source_of : Result Packet → ℕ
source_of (ok p) = p.source
source_of (err e) = 9

heard-HasSource : HasSource (received 20 30 heard)
unfolding source_of
heard-HasSource p e none_there =
    absurd (omega (arith, ap source_of (sym heard_lem ∙ e), none_there))

run-IsRuntime_example : IsRuntime 256 (run node (received 20 30 heard ∷ timed_out 40 ∷ []) fresh)
run-IsRuntime_example =
    run-IsRuntime node 0 [] fresh (received 20 30 heard ∷ timed_out 40 ∷ []) 256 started
      (omega arith) (omega arith) (heard-HasSource, (tt, tt))

-- The manifest of one publication has been asked for.
abbrev id : PublicationId
id = replicate 16 5

abbrev asked : Acquisition
asked = record (new_acquisition id) {
  sources = 9 ∷ [];
  active_source = 9;
  transaction = 1;
  waiting = Kind.manifest;
  deadline = 100;
}

abbrev waiting_node : Runtime
waiting_node = record fresh { acquisitions = asked ∷ []; order = id ∷ [] }

-- A manifest from node 8, although node 9 has been asked for it.
abbrev stray : Packet
stray = record request { type = Kind.manifest; source = 8 }

abbrev strayed : RadioPacket
strayed = record heard {
  bytes = b'G' ∷ b'N' ∷ 3 ∷ 3 ∷ 8 ∷ 0 ∷ 0 ∷ 0 ∷ 7 ∷ 0 ∷ 0 ∷ 0 ∷ 1 ∷ 0 ∷ replicate 16 0;
}

strayed_lem : decode strayed.bytes ≡ ok stray
unfolding decode get_le
strayed_lem = refl

handle_incoming_unasked_example : Keeps waiting_node (handle_incoming node 20 strayed waiting_node)
handle_incoming_unasked_example =
    handle_incoming_unasked node 20 strayed stray waiting_node strayed_lem (refl, tt) refl

is_waiting :
    (is_busy waiting_node.reconcile_active || has_outstanding_acquisition waiting_node) ≡ true
unfolding has_outstanding_acquisition any_waiting
is_waiting = refl

on_tick_waits_example :
    ((on_tick node 60 waiting_node).sends ≡ 0)
    × ((on_tick node 60 waiting_node).acquisitions ≡ asked ∷ [])
    × ((on_tick node 60 waiting_node).reconcile_active ≡ none)
    × ((on_tick node 60 waiting_node).files ≡ [])
on_tick_waits_example = on_tick_waits node 60 waiting_node is_waiting (λ h. omega arith, tt) tt

-- Node 9 has not answered in time.
on_tick_speaks_example :
    ((on_tick node 200 waiting_node).sends ≡ 0)
    ⊎ IsQuiet node 200 (keep_time node 200 waiting_node).controller
on_tick_speaks_example = on_tick_speaks node 200 waiting_node

-- It has not been asked for yet.
abbrev idle : Acquisition
idle = record (new_acquisition id) { sources = 9 ∷ [] }

abbrev idle_node : Runtime
idle_node = record fresh { acquisitions = idle ∷ []; order = id ∷ [] }

idle_there : find_acquisition id idle_node.acquisitions ≡ some idle
unfolding find_acquisition bytes_eq
idle_there = refl

next_work_complete_example :
    (found : Acquisition) × (cursor : ℕ) × (next_work 60 idle_node ≡ some (found, cursor))
    × (is_ready 60 found ≡ true)
next_work_complete_example =
    next_work_complete 256 60 idle_node id idle (refl, (refl, tt), (omega arith, tt), omega arith)
      idle_there refl

-- Every chunk has arrived.
abbrev filled : Acquisition
filled = record idle { assembly = some full }

full_chunks : (i : ℕ) → get_or full.received i true ≡ true
full_chunks zero = refl
full_chunks (suc zero) = refl
full_chunks (suc (suc i)) = refl

initiate_complete_example :
    ((initiate node 60 filled idle_node).sends ≡ 0)
    × ((initiate node 60 filled idle_node).files ≡ [])
    × ((initiate node 60 filled idle_node).complete_ids ≡ [])
initiate_complete_example = initiate_complete node 60 filled full idle_node refl full_chunks

-- The other node answers a request with its leaf.
abbrev job : ReconcileJob
job = record (new_job 9 4 [] 0) { transaction = 1 }

abbrev comparing : Runtime
comparing = record fresh { reconcile_active = some job }

abbrev leaf_packet : Packet
leaf_packet = record {
  type = Kind.leaf;
  source = 9;
  destination = 7;
  transaction = 1;
  body = 4 ∷ 0 ∷ 0 ∷ 0 ∷ 0 ∷ 1 ∷ id;
}

abbrev leaf : RadixLeaf
leaf = record { generation = 4; prefix = []; ids = id ∷ [] }

leaf_read : decode_leaf leaf_packet ≡ ok leaf
unfolding decode_leaf decode_prefix decode_prefix_with_tail get_nibbles get_le cut_ids
leaf_read = refl

job_active : active_reconciliation node leaf_packet comparing ≡ some job
unfolding active_reconciliation job_answered
job_active = refl

id_there : has_id id leaf.ids ≡ true
unfolding has_id bytes_eq
id_there = refl

nothing_there :
    (has_id id comparing.complete_ids ≡ false)
    × (complete works comparing.files id ≡ false)
    × (has_known works comparing.files id ≡ false)
unfolding has_id complete read_file has_known load_known read_manifest
nothing_there = (refl, refl, refl)

table_room :
    length comparing.acquisitions + length (missing_ids comparing.complete_ids leaf.ids) ≤ 256
unfolding missing_ids has_id
table_room = omega arith

accept_leaf_discovers_example :
    contains_id id (ids_of (accept_leaf node 60 leaf_packet comparing).acquisitions) ≡ true
accept_leaf_discovers_example =
    accept_leaf_discovers node 60 leaf_packet comparing job leaf id job_active leaf_read refl refl
      id_there nothing_there.0 nothing_there.1 nothing_there.2 table_room

-- The last chunk has arrived, and is committed.
abbrev last_chunk : Acquisition
last_chunk = record (new_acquisition note.id) { assembly = some full; waiting = Kind.chunk }

abbrev full_node : Runtime
full_node = record fresh { files = disk; acquisitions = last_chunk ∷ []; order = note.id ∷ [] }

full_complete : is_complete full ≡ true
unfolding is_complete
full_complete = refl

chunk_kept_commits_example :
    (content padded full ≡ ok text)
    × (complete works (chunk_kept node 60 last_chunk full full_node).files note.id ≡ true)
    × (has_id note.id (chunk_kept node 60 last_chunk full full_node).complete_ids ≡ true)
    × (find_acquisition note.id (chunk_kept node 60 last_chunk full full_node).acquisitions ≡ none)
chunk_kept_commits_example =
    chunk_kept_commits node 60 last_chunk full full_node text refl full-IsAssembly note-IsManifest
      (inl refl) refl refl full_complete committed

-- The files of a complete publication, and what another one has left.
abbrev stored : Files
stored =
    (object_complete note.id, [])
    ∷ (object_content id, [])
    ∷ (object_manifest note.id, [])
    ∷ (object_content note.id, text)
    ∷ []

listed : Listing.complete_ids works false stored ≡ ok (note.id ∷ [])
unfolding Listing.complete_ids dirs_of add_dir keep_ids sorted_ids insert_id has_id bytes_eq
    complete check_manifest_object check_object load_manifest read_manifest read_file same_path
    check_stored verify_manifest_signature verify_signature encode_manifest id_matches_hash
    encode_packet manifest_body decode_packet decode_manifest check_manifest get_le expected_chunks
listed = refl

has_id-complete_ids_example : has_id note.id (note.id ∷ []) ≡ complete works stored note.id
has_id-complete_ids_example = has_id-complete_ids works stored (note.id ∷ []) note.id listed
