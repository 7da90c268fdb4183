-- ===== src/Node/Runtime/Table.antt =====
-- The tables of internal/node/runtime.go: acquisitions with the order in which they are worked on,
-- and the sources that have been inspected.
use ghost_cache.Common.{
  Bool, false, not, ◌&&◌, ◌||◌, List, [], ◌∷◌, ◌++◌, Option, none, some, ltb, leb, ◌==◌,
  if◌then◌else◌, length, bytes_eq, elem,
}
use ghost_cache.Publication.Packet.{PublicationId}
use ghost_cache.Node.Packet.{NodeId, Packet}
use ghost_cache.Node.Runtime.{
  Acquisition, Runtime, Env, max_acquisitions, max_inspected_ids, max_sources_per_acquisition,
  max_inspected_sources,
}

-- `r.acquisitions[id]`.
unfoldable pub find_acquisition : PublicationId → List Acquisition → Option Acquisition
find_acquisition id [] = none
find_acquisition id (a ∷ rest) = if bytes_eq a.id id then some a else find_acquisition id rest

-- A write through the pointer that the map holds.
unfoldable pub put_acquisition : Acquisition → List Acquisition → List Acquisition
put_acquisition b [] = []
put_acquisition b (a ∷ rest) = (if bytes_eq a.id b.id then b else a) ∷ put_acquisition b rest

-- `delete(r.acquisitions, id)`.
unfoldable pub delete_acquisition : PublicationId → List Acquisition → List Acquisition
delete_acquisition id [] = []
delete_acquisition id (a ∷ rest) =
    let others = delete_acquisition id rest in if bytes_eq a.id id then others else a ∷ others

unfoldable pub update : Acquisition → Runtime → Runtime
update a r = record r { acquisitions = put_acquisition a r.acquisitions }

abbrev pub new_acquisition : PublicationId → Acquisition
new_acquisition id = record {
  id = id;
  sources = [];
  source_cursor = 0;
  active_source = 0;
  assembly = none;
  failures = 0;
  next_attempt = 0;
  cursor = 0;
  transaction = 0;
  waiting = 0;
  deadline = 0;
  wanted = [];
  manifest = none;
  manifest_source = 0;
}

-- The end of `addCandidate`. Node 0 is no source.
unfoldable pub add_source : NodeId → Acquisition → Acquisition
add_source source a =
    if not (source == 0)
      && (not (elem source a.sources) && ltb (length a.sources) max_sources_per_acquisition)
    then record a { sources = a.sources ++ source ∷ [] }
    else a

-- `addCandidate` returns the acquisition, or nil when the table is full.
unfoldable pub add_candidate_to :
    PublicationId → NodeId → Option Acquisition → Runtime → Runtime × Option Acquisition
add_candidate_to id source (some a) r = (update (add_source source a) r, some (add_source source a))
add_candidate_to id source none r =
    let a = add_source source (new_acquisition id) in
    if not (source == 0) && leb max_acquisitions (length r.acquisitions)
    then (r, none)
    else (record r { acquisitions = r.acquisitions ++ a ∷ []; order = r.order ++ id ∷ [] }, some a)

unfoldable pub add_candidate : PublicationId → NodeId → Runtime → Runtime × Option Acquisition
add_candidate id source r = add_candidate_to id source (find_acquisition id r.acquisitions) r

-- The first occurrence is taken out.
unfoldable pub remove_id : PublicationId → List PublicationId → List PublicationId
remove_id id [] = []
remove_id id (x ∷ xs) = let rest = remove_id id xs in if bytes_eq x id then xs else x ∷ rest

abbrev pub contains_id : PublicationId → List PublicationId → Bool
contains_id id [] = false
contains_id id (x ∷ xs) = bytes_eq x id || contains_id id xs

-- `removeOrder`.
unfoldable pub remove_order : PublicationId → Runtime → Runtime
remove_order id r =
    let rest = remove_id id r.order in
    if contains_id id r.order
    then record r {
      order = rest;
      work_cursor = if leb (length rest) r.work_cursor then 0 else r.work_cursor;
    }
    else r

-- `delete(r.acquisitions, id)` and `removeOrder`.
unfoldable pub drop_acquisition : PublicationId → Runtime → Runtime
drop_acquisition id r =
    remove_order id (record r { acquisitions = delete_acquisition id r.acquisitions })

-- `active`: the acquisition that a packet answers.
unfoldable pub answers : Env → Packet → Acquisition → Bool
answers env p a =
    (a.transaction == p.transaction && a.active_source == p.source) && p.destination == env.id

unfoldable pub find_active : Env → Packet → List Acquisition → Option Acquisition
find_active env p [] = none
find_active env p (a ∷ rest) = if answers env p a then some a else find_active env p rest

unfoldable pub active : Env → Packet → Runtime → Option Acquisition
active env p r = find_active env p r.acquisitions

unfoldable pub any_waiting : List Acquisition → Bool
any_waiting [] = false
any_waiting (a ∷ rest) = not (a.waiting == 0) || any_waiting rest

unfoldable pub has_outstanding_acquisition : Runtime → Bool
has_outstanding_acquisition r = any_waiting r.acquisitions

-- `r.inspectedSources[id]`, nil for an ID without an entry.
abbrev pub Inspected : Type 0
Inspected = List (PublicationId × List NodeId)

unfoldable pub inspected_of : PublicationId → Inspected → Option (List NodeId)
inspected_of id [] = none
inspected_of id (entry ∷ rest) = if bytes_eq entry.0 id then some entry.1 else inspected_of id rest

unfoldable pub delete_inspected : PublicationId → Inspected → Inspected
delete_inspected id [] = []
delete_inspected id (entry ∷ rest) =
    let others = delete_inspected id rest in if bytes_eq entry.0 id then others else entry ∷ others

-- `r.inspectedSources[id][source] = true`, within the limit.
unfoldable pub put_inspected : PublicationId → NodeId → Inspected → Inspected
put_inspected id source [] = []
put_inspected id source (entry ∷ rest) =
    (if bytes_eq entry.0 id
        && (ltb (length entry.1) max_inspected_sources && not (elem source entry.1))
      then (entry.0, source ∷ entry.1)
      else entry)
    ∷ put_inspected id source rest

abbrev pub has_source : NodeId → Option (List NodeId) → Bool
has_source source none = false
has_source source (some sources) = elem source sources

unfoldable pub source_inspected : PublicationId → NodeId → Runtime → Bool
source_inspected id source r = has_source source (inspected_of id r.inspected_sources)

-- The oldest entry goes when there are too many.
unfoldable pub evict_inspected : List PublicationId → Runtime → Runtime
evict_inspected [] r = r
evict_inspected (oldest ∷ rest) r =
    if leb max_inspected_ids (length (oldest ∷ rest))
    then record r {
      inspected_order = rest;
      inspected_sources = delete_inspected oldest r.inspected_sources;
    }
    else r

unfoldable pub enter_inspected : PublicationId → Option (List NodeId) → Runtime → Runtime
enter_inspected id (some sources) r = r
enter_inspected id none r =
    let kept = evict_inspected r.inspected_order r in
    record kept {
      inspected_sources = kept.inspected_sources ++ (id, []) ∷ [];
      inspected_order = kept.inspected_order ++ id ∷ [];
    }

-- `markSourceInspected`.
unfoldable pub mark_source_inspected : PublicationId → NodeId → Runtime → Runtime
mark_source_inspected id source r =
    let entered = enter_inspected id (inspected_of id r.inspected_sources) r in
    record entered { inspected_sources = put_inspected id source entered.inspected_sources }

unfoldable pub clear_inspected : PublicationId → Runtime → Runtime
clear_inspected id r = record r {
  inspected_sources = delete_inspected id r.inspected_sources;
  inspected_order = remove_id id r.inspected_order;
}
