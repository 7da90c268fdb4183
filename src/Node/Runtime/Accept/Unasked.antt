-- ===== src/Node/Runtime/Accept/Unasked.antt =====
-- A packet that nobody waits for.
use ghost_cache.Common.{
  Bool, ◌&&◌, arith, All, elem, true, ℕ, ◌≡◌, refl, false, not, ◌||◌, List, [], ◌∷◌, Option, none,
  some, Bool-cases, inl, inr, leb, ◌==◌, length, Result, ok, err,
}
use ghost_cache.Publication.Manifest.{Manifest}
use ghost_cache.Publication.Assembly.{Assembly}
use ghost_cache.Node.Kind
use ghost_cache.Node.Transfer.{decode_chunk}
use ghost_cache.Node.Packet.{NodeId, Packet, decode}
use ghost_cache.Node.Radix.{RadixSummary, build_summary, differing_children}
use ghost_cache.Node.Runtime.{Acquisition, ReconcileJob, Runtime, Env}
use ghost_cache.Node.Runtime.Table.{answers, find_active, active}
use ghost_cache.Node.Runtime.Peers.{
  job_answered, is_active_job, is_queued, queue_reconciliation, queue_all, drop_reconciliation,
  generation_of, evict_peer, make_room, touch_peer, is_generation, note_generation,
  count_summary_received, note_peer, active_reconciliation, compare_root, handle_root_summary,
}
use ghost_cache.Node.Runtime.Reconcile.{
  serve_summary, accept_summary_for, accept_summary, accept_leaf_for, accept_leaf,
}
use ghost_cache.Node.Runtime.Serve.{serve_manifest, serve_signature, serve_chunks}
use ghost_cache.Node.Runtime.Serve.Keeps.{
  Keeps, kept, Keeps-trans, serve_generation-Keeps, serve_stored-Keeps, serve_request-Keeps,
}
use ghost_cache.Node.Runtime.Accept.{
  accept_manifest_for, accept_manifest, accept_signature_of, accept_signature_for, accept_signature,
  take_chunk, accept_chunk_of, accept_chunk_for, accept_chunk,
}
use ghost_cache.Node.Runtime.Loop.{
  RadioPacket, handle_packet, note_packet, handle_decoded, handle_incoming,
}
use ghost_cache.Node.Runtime.Dispatch.{handle_packet-dispatch}

-- Root summaries.
evict-Keeps : (order : List NodeId) (r : Runtime) → Keeps r (evict_peer order r)
unfolding evict_peer drop_reconciliation
evict-Keeps [] r = kept r
evict-Keeps (oldest ∷ rest) r = elim (Bool-cases (leb 64 (length (oldest ∷ rest)))) [
  | inl full ↦ rw full (kept r)
  | inr room ↦ rw room (kept r)
]

room-Keeps : (peer : NodeId) (known : Option ℕ) (r : Runtime) → Keeps r (make_room peer known r)
unfolding make_room
room-Keeps peer none r = evict-Keeps r.peer_order r
room-Keeps peer (some old) r = kept r

generation-Keeps :
    (peer generation : ℕ) (known : Option ℕ) (r : Runtime)
    → Keeps r (note_generation peer generation known r)
unfolding note_generation drop_reconciliation
generation-Keeps peer generation known r = elim (Bool-cases (is_generation generation known)) [
  | inl same ↦ rw same (kept r)
  | inr new ↦ rw new (kept r)
]

note_peer-Keeps : (peer generation : ℕ) (r : Runtime) → Keeps r (note_peer peer generation r)
unfolding note_peer touch_peer count_summary_received
note_peer-Keeps peer generation r =
    let known = generation_of peer r.peer_generations in
    let counted = count_summary_received r in
    let touched = touch_peer peer known counted in
    Keeps-trans r touched (note_generation peer generation known touched)
      (room-Keeps peer known counted) (generation-Keeps peer generation known touched)

queue-Keeps :
    (env : Env) (now peer generation : ℕ) (r : Runtime) (prefix : List ℕ)
    → Keeps r (queue_reconciliation env now peer generation r prefix)
unfolding queue_reconciliation
queue-Keeps env now peer generation r prefix =
    elim (Bool-cases (
      leb 256 (length r.reconcile_queue)
      || (is_active_job peer prefix r.reconcile_active
          || is_queued peer generation prefix r.reconcile_queue))) [
            | inl there ↦ rw there (kept r)
            | inr new ↦ rw new (kept r)
          ]

queue_all-Keeps :
    (env : Env) (now peer generation : ℕ) (r : Runtime) (prefixes : List (List ℕ))
    → Keeps r (queue_all env now peer generation r prefixes)
unfolding queue_all
queue_all-Keeps env now peer generation r [] = kept r
queue_all-Keeps env now peer generation r (prefix ∷ prefixes) =
    let next = queue_reconciliation env now peer generation r prefix in
    Keeps-trans r next (queue_all env now peer generation next prefixes)
      (queue-Keeps env now peer generation r prefix)
      (queue_all-Keeps env now peer generation next prefixes)

compare_root-Keeps :
    (env : Env) (now : ℕ) (peer : NodeId) (r : Runtime) (decoded : Result RadixSummary)
    → Keeps r (compare_root env now peer r decoded)
unfolding compare_root
compare_root-Keeps env now peer r (err e) = kept r
compare_root-Keeps env now peer r (ok remote) =
    let found = differing_children (build_summary env.world.sha256 r.complete_ids []) remote in
    let noted = note_peer peer remote.generation r in
    elim (Bool-cases (not (length remote.prefix == 0))) [
      | inl below ↦ rw below (kept r)
      | inr root ↦ rw root (
          Keeps-trans r noted (queue_all env now peer remote.generation noted found)
            (note_peer-Keeps peer remote.generation r)
            (queue_all-Keeps env now peer remote.generation noted found))
    ]

-- The packet is what the acquisition waits for: it comes from the node that was asked, answers that
-- request, has the type of the answer, and if it is a chunk, it is one that was asked for.
abbrev pub wants_chunk : Acquisition → Result (ℕ × List ℕ) → Bool
wants_chunk a (err e) = false
wants_chunk a (ok (index, bytes)) = elem index a.wanted

abbrev pub is_answer : Packet → Acquisition → Bool
is_answer p a =
    a.active_source == p.source
    && (a.transaction == p.transaction
        && (a.waiting == p.type && (not (p.type == Kind.chunk) || wants_chunk a (decode_chunk p))))

abbrev pub is_job_answer : Packet → Option ReconcileJob → Bool
is_job_answer p none = false
is_job_answer p (some job) =
    (p.type == Kind.summary || p.type == Kind.leaf)
    && (job.peer == p.source && job.transaction == p.transaction)

-- What a packet is taken for, although nobody waits for it.
IsUnwanted : Env → Packet → Option Acquisition → Type 0
IsUnwanted env p none = Unit
IsUnwanted env p (some a) = (answers env p a ≡ true) × (is_answer p a ≡ false)

find_active-IsUnwanted :
    (env : Env) (p : Packet) (table : List Acquisition)
    → All (λ a. is_answer p a ≡ false) table
    → IsUnwanted env p (find_active env p table)
unfolding find_active IsUnwanted
find_active-IsUnwanted env p [] h = tt
find_active-IsUnwanted env p (a ∷ rest) h = elim (Bool-cases (answers env p a)) [
  | inl match ↦ rw match (match, h.0)
  | inr other ↦ rw other (find_active-IsUnwanted env p rest h.1)
]

-- An acquisition that is addressed waits for something else.
waits_otherwise :
    (env : Env) (p : Packet) (a : Acquisition) (kind : ℕ)
    → (p.type == kind) ≡ true
    → (kind == Kind.chunk) ≡ false
    → (answers env p a ≡ true) × (is_answer p a ≡ false)
    → (a.waiting == kind) ≡ false
unfolding answers
waits_otherwise env p a kind typed other (match, no_answer) = ground arith

module _ (env : Env) (now : ℕ) (p : Packet) (r : Runtime) where
  manifest-Keeps :
      (o : Option Acquisition)
      → (p.type == Kind.manifest) ≡ true
      → IsUnwanted env p o
      → Keeps r (accept_manifest_for env now p o r)
  unfolding accept_manifest_for IsUnwanted
  manifest-Keeps none typed u = kept r
  manifest-Keeps (some a) typed u = rw (waits_otherwise env p a Kind.manifest typed refl u) (kept r)

  signature-Keeps :
      (o : Option Acquisition)
      → (p.type == Kind.signature) ≡ true
      → IsUnwanted env p o
      → Keeps r (accept_signature_for env now p o r)
  unfolding accept_signature_for accept_signature_of IsUnwanted
  signature-Keeps none typed u = kept r
  signature-Keeps (some a) typed u = of a.manifest
    where
      of : (m : Option Manifest) → Keeps r (accept_signature_of env now p a m r)
      of none = kept r
      of (some m) = rw (waits_otherwise env p a Kind.signature typed refl u) (kept r)

  take_chunk-Keeps :
      (a : Acquisition) (assembly : Assembly) (d : Result (ℕ × List ℕ))
      → wants_chunk a d ≡ false
      → Keeps r (take_chunk env now a assembly d r)
  unfolding take_chunk
  take_chunk-Keeps a assembly (err e) h = kept r
  take_chunk-Keeps a assembly (ok (index, bytes)) h = rw h (kept r)

  chunk-Keeps :
      (o : Option Acquisition)
      → (p.type == Kind.chunk) ≡ true
      → IsUnwanted env p o
      → Keeps r (accept_chunk_for env now p o r)
  unfolding accept_chunk_for accept_chunk_of IsUnwanted
  chunk-Keeps none typed u = kept r
  chunk-Keeps (some a) typed u = of a.assembly
    where
      of : (assembly : Option Assembly) → Keeps r (accept_chunk_of env now p a assembly r)
      of none = kept r
      of (some assembly) = elim (Bool-cases (a.waiting == Kind.chunk)) [
        | inr idle ↦ rw idle (kept r)
        | inl busy ↦
            let unwanted : wants_chunk a (decode_chunk p) ≡ false =
              unfold answers in ground (arith, u, typed, busy) in
            rw busy (take_chunk-Keeps a assembly (decode_chunk p) unwanted)
      ]

no_job :
    (env : Env) (p : Packet) (job : Option ReconcileJob)
    → (p.type == Kind.summary || p.type == Kind.leaf) ≡ true
    → is_job_answer p job ≡ false
    → job_answered env p job ≡ none
unfolding job_answered
no_job env p none typed h = refl
no_job env p (some job) typed h = ground arith

handle_packet-Keeps :
    (env : Env) (now : ℕ) (p : Packet) (r : Runtime)
    → All (λ a. is_answer p a ≡ false) r.acquisitions
    → is_job_answer p r.reconcile_active ≡ false
    → Keeps r (handle_packet env now p r)
unfolding accept_manifest accept_signature accept_chunk accept_summary accept_leaf serve_manifest
    serve_signature serve_chunks serve_summary handle_root_summary accept_summary_for
    accept_leaf_for active active_reconciliation
handle_packet-Keeps env now p r no_one nothing =
    let unwanted = find_active-IsUnwanted env p r.acquisitions no_one in
    handle_packet-dispatch (λ s. Keeps r s) env now p r
      (record {
        manifest_served = serve_stored-Keeps env now _ _ r;
        chunks_served = serve_request-Keeps env now p _ r;
        manifest_accepted = λ typed. manifest-Keeps env now p r _ typed unwanted;
        chunk_accepted = λ typed. chunk-Keeps env now p r _ typed unwanted;
        signature_served = serve_stored-Keeps env now _ _ r;
        signature_accepted = λ typed. signature-Keeps env now p r _ typed unwanted;
        summary_served = serve_generation-Keeps env now p _ r;
        summary_accepted =
            λ typed. rw (no_job env p r.reconcile_active (ground arith) nothing) (kept r);
        leaf_accepted =
            λ typed. rw (no_job env p r.reconcile_active (ground arith) nothing) (kept r);
        root_handled = compare_root-Keeps env now p.source r _;
        ignored = kept r;
      })

-- A packet changes the store, the publications to fetch and the inventory only when it is what an
-- acquisition or the reconciliation waits for. All of them stay as they are when no acquisition waits,
-- with this transaction and from the node that sent the packet, for a packet of this type, and for
-- this chunk if it is one; and when it is no summary or leaf that the active reconciliation has asked
-- its sender for.
pub handle_incoming_unasked :
    (env : Env) (now : ℕ) (radio : RadioPacket) (p : Packet) (r : Runtime)
    → decode radio.bytes ≡ ok p
    → All (λ a. is_answer p a ≡ false) r.acquisitions
    → is_job_answer p r.reconcile_active ≡ false
    → Keeps r (handle_incoming env now radio r)
unfolding handle_incoming handle_decoded note_packet
handle_incoming_unasked env now radio p r read no_one nothing =
    rw read (handle_packet-Keeps env now p (note_packet env now radio p r) no_one nothing)
