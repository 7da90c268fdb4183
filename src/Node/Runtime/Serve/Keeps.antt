-- ===== src/Node/Runtime/Serve/Keeps.antt =====
-- Answering the requests of other nodes changes neither the store nor the acquisitions.
use ghost_cache.Common.{
  ℕ, zero, suc, ◌+◌, ◌≡◌, refl, ◌∙◌, Bool, true, false, List, Bool-cases, inl, inr, ltb, leb, ◌==◌,
  length, Result, ok, err,
}
use ghost_cache.Publication.Packet.{PublicationId}
use ghost_cache.Publication.Manifest.{Manifest}
use ghost_cache.Publication.Store.{complete}
use ghost_cache.Node.Ids.{filter_prefix}
use ghost_cache.Node.Packet.{Packet}
use ghost_cache.Node.Radix.{inventory_generation}
use ghost_cache.Node.Transfer.{ChunkRequest}
use ghost_cache.Node.Runtime.{Runtime, Env}
use ghost_cache.Node.Runtime.Radio.{send, defer_failed, observe_failure}
use ghost_cache.Node.Runtime.Reconcile.{
  count_reconciliation_bytes, answer_reconciliation, count_leaf, count_summary, serve_bucket,
  serve_generation,
}
use ghost_cache.Node.Runtime.Serve.{
  send_response, serve_stored, chunk_sent, send_chunk, asks_for, serve_bit, serve_loop,
  serve_request,
}

-- The store, the publications to fetch and the inventory are as they were.
abbrev pub Keeps : Runtime → Runtime → Type 0
Keeps r after =
    (after.files ≡ r.files)
    × (after.acquisitions ≡ r.acquisitions)
    × (after.order ≡ r.order)
    × (after.complete_ids ≡ r.complete_ids)

pub kept : (r : Runtime) → Keeps r r
kept r = (refl, refl, refl, refl)

pub Keeps-trans : (r s t : Runtime) → Keeps r s → Keeps s t → Keeps r t
Keeps-trans r s t (a, b, c, d) (a', b', c', d') = (a' ∙ a, b' ∙ b, c' ∙ c, d' ∙ d)

send-Keeps : (env : Env) (now : ℕ) (wire : List ℕ) (r : Runtime) → Keeps r (send env now wire r).0
unfolding send defer_failed observe_failure
send-Keeps env now wire r = elim (Bool-cases (env.send_fails r.sends)) [
  | inl fails ↦ rw fails (refl, refl, refl, refl)
  | inr works ↦ rw works (refl, refl, refl, refl)
]

-- Requests of other nodes.
counted-Keeps :
    (r : Runtime) (wire : List ℕ) (sent : Runtime × Bool)
    → Keeps r sent.0
    → Keeps r (count_reconciliation_bytes wire sent)
counted-Keeps r wire (s, true) h = h
counted-Keeps r wire (s, false) h = h

module _ (env : Env) (now : ℕ) where
  answered_leaf-Keeps :
      (ids : ℕ) (wire : Result (List ℕ)) (r : Runtime)
      → Keeps r (answer_reconciliation env now (count_leaf ids) wire r)
  unfolding answer_reconciliation
  answered_leaf-Keeps ids (err e) r = kept r
  answered_leaf-Keeps ids (ok wire) r =
      counted-Keeps r wire _ (send-Keeps env now wire (count_leaf ids r))

  answered_summary-Keeps :
      (wire : Result (List ℕ)) (r : Runtime)
      → Keeps r (answer_reconciliation env now count_summary wire r)
  unfolding answer_reconciliation
  answered_summary-Keeps (err e) r = kept r
  answered_summary-Keeps (ok wire) r =
      counted-Keeps r wire _ (send-Keeps env now wire (count_summary r))

  pub serve_generation-Keeps :
      (p : Packet) (asked : Result (ℕ × List ℕ)) (r : Runtime)
      → Keeps r (serve_generation env now p asked r)
  unfolding serve_generation serve_bucket
  serve_generation-Keeps p (err e) r = kept r
  serve_generation-Keeps p (ok (generation, prefix)) r =
      elim (Bool-cases (inventory_generation env.world.sha256 r.complete_ids == generation)) [
        | inr old ↦ rw old (kept r)
        | inl now_current ↦
            elim (Bool-cases (leb (length (filter_prefix r.complete_ids prefix)) 10)) [
              | inl small ↦ rw (now_current, small) (answered_leaf-Keeps _ _ r)
              | inr large ↦ rw (now_current, large) (answered_summary-Keeps _ r)
            ]
      ]

  response-Keeps : (wire : Result (List ℕ)) (r : Runtime) → Keeps r (send_response env now wire r)
  unfolding send_response
  response-Keeps (err e) r = kept r
  response-Keeps (ok wire) r = send-Keeps env now wire _

  pub serve_stored-Keeps :
      (response : Result Manifest → Result (List ℕ)) (asked : Result PublicationId) (r : Runtime)
      → Keeps r (serve_stored env now response asked r)
  unfolding serve_stored
  serve_stored-Keeps response (err e) r = kept r
  serve_stored-Keeps response (ok id) r = elim (Bool-cases (complete env.world r.files id)) [
    | inl there ↦ rw there (response-Keeps _ r)
    | inr absent ↦ rw absent (kept r)
  ]

  chunk_sent-Keeps :
      (r : Runtime) (wire : List ℕ) (remaining : ℕ) (sent : Runtime × Bool)
      → Keeps r sent.0
      → Keeps r (chunk_sent wire remaining sent).0
  unfolding chunk_sent
  chunk_sent-Keeps r wire remaining (s, true) h = h
  chunk_sent-Keeps r wire remaining (s, false) h = h

  send_chunk-Keeps :
      (wire : Result (List ℕ)) (state : Runtime × ℕ)
      → Keeps state.0 (send_chunk env now wire state).0
  unfolding send_chunk
  send_chunk-Keeps (err e) (r, remaining) = kept r
  send_chunk-Keeps (ok wire) (r, remaining) =
      chunk_sent-Keeps r wire remaining _ (send-Keeps env now wire r)

  serve_bit-Keeps :
      (p : Packet) (req : ChunkRequest) (bit : ℕ) (state : Runtime × ℕ)
      → Keeps state.0 (serve_bit env now p req bit state).0
  unfolding serve_bit
  serve_bit-Keeps p req bit (r, remaining) = elim (Bool-cases (asks_for req.bitmap bit)) [
    | inl asked ↦ rw asked (send_chunk-Keeps _ (r, remaining))
    | inr other ↦ rw other (kept r)
  ]

  serve_loop-Keeps :
      (p : Packet) (req : ChunkRequest) (n bit : ℕ) (state : Runtime × ℕ)
      → Keeps state.0 (serve_loop env now p req n bit state).0
  unfolding serve_loop
  serve_loop-Keeps p req zero bit state = kept state.0
  serve_loop-Keeps p req (suc n) bit state =
      let next = serve_bit env now p req bit state in
      elim (Bool-cases (ltb 0 state.1)) [
        | inl more ↦ rw more (
            Keeps-trans state.0 next.0 (serve_loop env now p req n (bit + 1) next).0
              (serve_bit-Keeps p req bit state) (serve_loop-Keeps p req n (bit + 1) next))
        | inr done ↦ rw done (kept state.0)
      ]

  pub serve_request-Keeps :
      (p : Packet) (asked : Result ChunkRequest) (r : Runtime)
      → Keeps r (serve_request env now p asked r)
  unfolding serve_request
  serve_request-Keeps p (err e) r = kept r
  serve_request-Keeps p (ok req) r = elim (Bool-cases (complete env.world r.files req.id)) [
    | inl there ↦ rw there (serve_loop-Keeps p req 8 0 (r, 4))
    | inr absent ↦ rw absent (kept r)
  ]
