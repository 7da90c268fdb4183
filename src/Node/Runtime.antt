-- ===== src/Node/Runtime.antt =====
-- internal/node/runtime.go: the state of a running node, and what its environment answers. A time is a
-- number of nanoseconds, 0 the zero time. The maps are lists: the acquisitions in the order in which
-- they were added, in which the code's loops over them are taken to run.
pub mod Table
pub mod Radio
pub mod Peers
pub mod Reconcile
pub mod Serve
pub mod Accept
pub mod Turn
pub mod Loop
pub mod Dispatch
pub mod Invariant
use ghost_cache.Common.{ℕ, Bool, List, Option}
use ghost_cache.Publication.Packet.{PublicationId}
use ghost_cache.Publication.Manifest.{Manifest}
use ghost_cache.Publication.Assembly.{Assembly}
use ghost_cache.Publication.Store.{Files, World}
use ghost_cache.Node.Packet.{NodeId}
use ghost_cache.Node.Controller.{TrafficEvent, Controller, Pressure}
use ghost_cache.Node.Policy.{AcquisitionPolicy}

-- A publication that is fetched. `wanted` holds the chunks asked for; `waiting` is the packet type
-- of the answer, 0 when none is outstanding.
pub record Acquisition : Type 0 where
  pub id : PublicationId
  pub sources : List NodeId
  pub source_cursor : ℕ
  pub active_source : NodeId
  pub assembly : Option Assembly
  pub failures : ℕ
  pub next_attempt : ℕ
  pub cursor : ℕ
  pub transaction : ℕ
  pub waiting : ℕ
  pub deadline : ℕ
  pub wanted : List ℕ
  pub manifest : Option Manifest
  pub manifest_source : NodeId

pub record ReconcileJob : Type 0 where
  pub peer : NodeId
  pub generation : ℕ
  pub prefix : List ℕ
  pub failures : ℕ
  pub next_attempt : ℕ
  pub transaction : ℕ
  pub deadline : ℕ

-- The counters are uint64 and are taken not to overflow.
pub record Metrics : Type 0 where
  pub inventory_objects : ℕ
  pub summaries_sent : ℕ
  pub summaries_received : ℕ
  pub leaves_sent : ℕ
  pub leaf_ids_sent : ℕ
  pub manifest_requests : ℕ
  pub manifest_responses : ℕ
  pub objects_discovered : ℕ
  pub objects_accepted : ℕ
  pub objects_deferred : ℕ
  pub reconciliation_bytes : ℕ
  pub manifest_bytes : ℕ
  pub bulk_bytes : ℕ

-- The store's files, the controller, the fields of `Runtime`, the packets sent so far, and how many
-- sends and random draws there were.
pub record Runtime : Type 0 where
  pub files : Files
  pub controller : Controller
  pub acquisitions : List Acquisition
  pub order : List PublicationId
  pub work_cursor : ℕ
  pub next_advertise : ℕ
  pub next_log : ℕ
  pub tx : ℕ
  pub reconcile_queue : List ReconcileJob
  pub reconcile_active : Option ReconcileJob
  pub prefer_reconcile : Bool
  pub metrics : Metrics
  pub peer_generations : List (NodeId × ℕ)
  pub inspected_sources : List (PublicationId × List NodeId)
  pub inspected_order : List PublicationId
  pub complete_ids : List PublicationId
  pub peer_order : List NodeId
  pub sent : List (List ℕ)
  pub sends : ℕ
  pub draws : ℕ

-- The settings, and the answers of the world: whether the n-th send fails, the n-th draw below a
-- bound, the time read after n sends, and whether the folder of objects cannot be listed.
pub record Env : Type 0 where
  pub id : NodeId
  pub world : World
  pub policy : AcquisitionPolicy
  pub pressure : List TrafficEvent → ℕ → Pressure
  pub advertise_interval : ℕ
  pub startup_backoff : ℕ
  pub response_timeout : ℕ
  pub log_interval : ℕ
  pub send_fails : ℕ → Bool
  pub draw : ℕ → ℕ → ℕ
  pub clock : ℕ → ℕ
  pub list_fails : Bool

abbrev pub max_tracked_peers : ℕ
max_tracked_peers = 64

abbrev pub max_reconcile_jobs : ℕ
max_reconcile_jobs = 256

abbrev pub max_acquisitions : ℕ
max_acquisitions = 256

abbrev pub max_inspected_ids : ℕ
max_inspected_ids = 256

abbrev pub max_sources_per_acquisition : ℕ
max_sources_per_acquisition = 8

abbrev pub max_inspected_sources : ℕ
max_inspected_sources = 8
