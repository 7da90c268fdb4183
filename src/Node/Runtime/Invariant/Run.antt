-- ===== src/Node/Runtime/Invariant/Run.antt =====
-- Every state of a run: from `NewRuntime` on, whatever the radio reports.
use ghost_cache.Common.{
  ℕ, suc, ◌≤◌, ◌≡◌, ◌≢◌, refl, subst, arith, true, ◌||◌, List, [], ◌∷◌, Option, none, some,
  Bool-cases, inl, inr, ◌==◌, length, All, elem, refused, Result, ok, err, fail_if, >>=-eq-ok,
}
use ghost_cache.Publication.Packet.{PublicationId}
use ghost_cache.Publication.Assembly.{Assembly}
use ghost_cache.Publication.Store.{Files, is_wanted}
use ghost_cache.Publication.Store.Begin.{load_partial, discard_partial}
use ghost_cache.Publication.Store.Listing as Listing
use ghost_cache.Node.Packet.{Packet, broadcast, decode}
use ghost_cache.Node.Policy.{accept}
use ghost_cache.Node.Runtime.{Acquisition, Runtime, Env, max_acquisitions}
use ghost_cache.Node.Runtime.Table.{add_candidate}
use ghost_cache.Node.Runtime.Peers.{generation_of}
use ghost_cache.Node.Runtime.Accept.{with_files}
use ghost_cache.Node.Runtime.Loop.{
  RadioPacket, handle_packet, note_packet, handle_decoded, handle_incoming, Event, received,
  timed_out, handle_event, run, empty_runtime, with_assembly, resume_loaded, resume_partials,
  add_wanted, listen_first, new_runtime,
}
use ghost_cache.Node.Runtime.Dispatch.{handle_packet-dispatch}
use ghost_cache.Node.Runtime.Invariant.{IsRuntime}
use ghost_cache.Node.Runtime.Invariant.Table.{update_same}
use ghost_cache.Node.Runtime.Invariant.Candidates.{IsAdded, add_candidate-IsAdded_room}
use ghost_cache.Node.Runtime.Invariant.Roots.{handle_root_summary-IsRuntime}
use ghost_cache.Node.Runtime.Invariant.Accept.{
  accept_manifest-IsRuntime, accept_signature-IsRuntime,
}
use ghost_cache.Node.Runtime.Invariant.Chunks.{accept_chunk-IsRuntime}
use ghost_cache.Node.Runtime.Invariant.Serve.{
  serve_summary-IsRuntime, serve_manifest-IsRuntime, serve_signature-IsRuntime,
  serve_chunks-IsRuntime,
}
use ghost_cache.Node.Runtime.Invariant.Reconcile.{accept_summary-IsRuntime, accept_leaf-IsRuntime}
use ghost_cache.Node.Runtime.Invariant.Turn.{on_tick-IsRuntime}

-- Node 0 sends nothing: no node may have this ID.
abbrev pub HasSource : Event → Type 0
HasSource (received before after radio) = (p : Packet) → decode radio.bytes ≡ ok p → p.source ≢ 0
HasSource (timed_out now) = Unit

module _ (limit : ℕ) (env : Env) (room : max_acquisitions ≤ limit) where
  handle_packet-IsRuntime :
      (now : ℕ) (p : Packet) (r : Runtime)
      → p.source ≢ 0
      → IsRuntime limit r
      → IsRuntime limit (handle_packet env now p r)
  handle_packet-IsRuntime now p r real h =
      handle_packet-dispatch (λ s. IsRuntime limit s) env now p r
        (record {
          manifest_served = serve_manifest-IsRuntime limit env now p r h;
          chunks_served = serve_chunks-IsRuntime limit env now p r h;
          manifest_accepted = λ _. accept_manifest-IsRuntime limit env now p r h;
          chunk_accepted = λ _. accept_chunk-IsRuntime limit env now p r h;
          signature_served = serve_signature-IsRuntime limit env now p r h;
          signature_accepted = λ _. accept_signature-IsRuntime limit env now p r h;
          summary_served = serve_summary-IsRuntime limit env now p r h;
          summary_accepted = λ _. accept_summary-IsRuntime limit env now p r h;
          leaf_accepted = λ _. accept_leaf-IsRuntime limit env now p r room real h;
          root_handled = handle_root_summary-IsRuntime limit env now p r h;
          ignored = h;
        })

  handle_decoded-IsRuntime :
      (now : ℕ) (radio : RadioPacket) (decoded : Result Packet) (r : Runtime)
      → ((p : Packet) → decoded ≡ ok p → p.source ≢ 0)
      → IsRuntime limit r
      → IsRuntime limit (handle_decoded env now radio decoded r)
  unfolding handle_decoded note_packet
  handle_decoded-IsRuntime now radio (err e) r real h = h
  handle_decoded-IsRuntime now radio (ok p) r real h =
      handle_packet-IsRuntime now p (note_packet env now radio p r) (real p refl) h

  handle_event-IsRuntime :
      (event : Event) (r : Runtime)
      → HasSource event
      → IsRuntime limit r
      → IsRuntime limit (handle_event env event r)
  unfolding handle_event handle_incoming
  handle_event-IsRuntime (received before after radio) r real h =
      on_tick-IsRuntime limit env after _
        (handle_decoded-IsRuntime before radio (decode radio.bytes) r real h)
  handle_event-IsRuntime (timed_out now) r real h = on_tick-IsRuntime limit env now r h

  run_keeps :
      (events : List Event) (r : Runtime)
      → All HasSource events
      → IsRuntime limit r
      → IsRuntime limit (run env events r)
  unfolding run
  run_keeps [] r real h = h
  run_keeps (event ∷ events) r real h =
      run_keeps events (handle_event env event r) real.1 (handle_event-IsRuntime event r real.0 h)

-- The limit may be any that the table is within.
within :
    (limit limit' : ℕ) (r : Runtime)
    → length r.acquisitions ≤ limit'
    → IsRuntime limit r
    → IsRuntime limit' r
within limit limit' r size ((order, distinct, few, _), single, queue, peers, inspected) =
    ((order, distinct, few, size), single, queue, peers, inspected)

-- A candidate of the store, for which there always is room.
added :
    (limit : ℕ) (id : PublicationId) (r : Runtime)
    → IsRuntime limit r
    → IsAdded (suc limit) (add_candidate id 0 r)
added limit id r h =
    let size = h.0.3 in
    add_candidate-IsAdded_room (suc limit) id 0 r
      (within limit (suc limit) r (omega (arith, size)) h) (omega (arith, size))

IsAdded-IsRuntime :
    (limit : ℕ) (outcome : Runtime × Option Acquisition)
    → IsAdded limit outcome
    → IsRuntime limit outcome.0
IsAdded-IsRuntime limit (r, none) h = h
IsAdded-IsRuntime limit (r, some a) h = h.0

with_assembly-IsRuntime :
    (limit : ℕ) (assembly : Assembly) (outcome : Runtime × Option Acquisition)
    → IsAdded limit outcome
    → IsRuntime limit (with_assembly assembly outcome)
with_assembly-IsRuntime limit assembly (r, none) h = h
with_assembly-IsRuntime limit assembly (r, some a) (h, entry) =
    update_same limit a _ r h entry entry.0 refl refl

resume_loaded-IsRuntime :
    (limit : ℕ) (env : Env) (id : PublicationId) (loaded : Files × Result Assembly) (r : Runtime)
    → IsRuntime limit r
    → IsRuntime (suc limit) (resume_loaded env id loaded r)
unfolding resume_loaded
resume_loaded-IsRuntime limit env id (files, err e) r h =
    let left = with_files r (discard_partial env.world id files).0 in
    IsAdded-IsRuntime (suc limit) (add_candidate id 0 left) (added limit id left h)
resume_loaded-IsRuntime limit env id (files, ok assembly) r h =
    elim (Bool-cases
      (accept env.world.verify env.policy assembly.manifest true (is_wanted files id))) [
        | inl wanted ↦
            rw wanted (
              with_assembly-IsRuntime (suc limit) assembly _
                (added limit id (with_files r files) h))
        | inr unwanted ↦
            let size = h.0.3 in
            rw unwanted (within limit (suc limit) (with_files r files) (omega (arith, size)) h)
      ]

resume_partials-IsRuntime :
    (limit : ℕ) (env : Env) (ids : List PublicationId) (r : Runtime)
    → IsRuntime limit r
    → (limit' : ℕ) × IsRuntime limit' (resume_partials env ids r)
unfolding resume_partials
resume_partials-IsRuntime limit env [] r h = (limit, h)
resume_partials-IsRuntime limit env (id ∷ ids) r h =
    resume_partials-IsRuntime (suc limit) env ids _
      (resume_loaded-IsRuntime limit env id (load_partial env.world id r.files) r h)

add_wanted-IsRuntime :
    (limit : ℕ) (ids : List PublicationId) (r : Runtime)
    → IsRuntime limit r
    → (limit' : ℕ) × IsRuntime limit' (add_wanted ids r)
unfolding add_wanted
add_wanted-IsRuntime limit [] r h = (limit, h)
add_wanted-IsRuntime limit (id ∷ ids) r h =
    add_wanted-IsRuntime (suc limit) ids (add_candidate id 0 r).0
      (IsAdded-IsRuntime (suc limit) (add_candidate id 0 r) (added limit id r h))

empty_runtime-IsRuntime : (env : Env) (files : Files) → IsRuntime 0 (empty_runtime env files)
unfolding empty_runtime elem generation_of
empty_runtime-IsRuntime env files = (
  (refl, tt, tt, omega arith),
  omega arith,
  omega arith,
  (λ peer. refl, tt, omega arith),
  (refl, tt, tt, omega arith),
)

new_runtime-IsRuntime :
    (env : Env) (now : ℕ) (files : Files) (r : Runtime)
    → new_runtime env now files ≡ ok r
    → (limit : ℕ) × IsRuntime limit r
unfolding new_runtime listen_first
new_runtime-IsRuntime env now files r started =
    let (u, valid, a) =
      >>=-eq-ok (fail_if (env.id == 0 || env.id == broadcast) refused) _ started in
    let (complete, listed, b) =
      >>=-eq-ok (Listing.complete_ids env.world env.list_fails files) _ a in
    let (partial, begun, c) = >>=-eq-ok (Listing.partial_ids env.list_fails files) _ b in
    let empty : Runtime = record (empty_runtime env files) { complete_ids = complete } in
    let resumed = resume_partials env partial empty in
    let (limit, h) =
      resume_partials-IsRuntime 0 env partial empty
        (unfold empty_runtime in empty_runtime-IsRuntime env files) in
    let (wanted, asked, d) =
      >>=-eq-ok (Listing.wanted_ids env.world env.list_fails resumed.files) _ c in
    let (limit', h') = add_wanted-IsRuntime limit wanted resumed h in
    let same : listen_first env now (add_wanted wanted resumed) ≡ r = unfold listen_first in cc d in
    (limit', subst (λ (s : Runtime). IsRuntime limit' s) same (unfold listen_first in h'))

-- In a run that begins with a new runtime and receives packets of nodes other than 0 only: in each of
-- its states the tables are bounded and consistent, and at most one answer is waited for. The bound
-- of the acquisitions is any limit that is at least 256 and at least their number at the start.
pub run-IsRuntime :
    (env : Env) (start : ℕ) (files : Files) (r : Runtime) (events : List Event) (limit : ℕ)
    → new_runtime env start files ≡ ok r
    → max_acquisitions ≤ limit
    → length r.acquisitions ≤ limit
    → All HasSource events
    → IsRuntime limit (run env events r)
run-IsRuntime env start files r events limit started room size real =
    let (limit', h) = new_runtime-IsRuntime env start files r started in
    run_keeps limit env room events r real (within limit' limit r size h)
