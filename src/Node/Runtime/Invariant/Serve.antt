-- ===== src/Node/Runtime/Invariant/Serve.antt =====
-- Answering requests keeps the invariant of the runtime.
use ghost_cache.Common.{
  ℕ, zero, suc, ◌+◌, Bool, true, false, List, Bool-cases, inl, inr, ltb, leb, ◌==◌, length, Result,
  ok, err,
}
use ghost_cache.Publication.Packet.{PublicationId}
use ghost_cache.Publication.Manifest.{Manifest}
use ghost_cache.Publication.Store.{complete}
use ghost_cache.Node.Ids.{filter_prefix}
use ghost_cache.Node.Packet.{Packet}
use ghost_cache.Node.Radix.{inventory_generation}
use ghost_cache.Node.Transfer.{ChunkRequest}
use ghost_cache.Node.Runtime.{Runtime, Env}
use ghost_cache.Node.Runtime.Reconcile.{
  count_reconciliation_bytes, answer_reconciliation, count_leaf, count_summary, serve_bucket,
  serve_generation, serve_summary,
}
use ghost_cache.Node.Runtime.Serve.{
  send_response, serve_stored, serve_manifest, serve_signature, chunk_sent, send_chunk, asks_for,
  serve_bit, serve_loop, serve_request, serve_chunks,
}
use ghost_cache.Node.Runtime.Invariant.{IsRuntime}
use ghost_cache.Node.Runtime.Invariant.Radio.{send-IsRuntime}

module _ (limit : ℕ) (env : Env) (now : ℕ) where
  pub counted-IsRuntime :
      (wire : List ℕ) (sent : Runtime × Bool)
      → IsRuntime limit sent.0
      → IsRuntime limit (count_reconciliation_bytes wire sent)
  counted-IsRuntime wire (r, true) h = h
  counted-IsRuntime wire (r, false) h = h

  answer_leaf-IsRuntime :
      (ids : ℕ) (wire : Result (List ℕ)) (r : Runtime)
      → IsRuntime limit r
      → IsRuntime limit (answer_reconciliation env now (count_leaf ids) wire r)
  unfolding answer_reconciliation
  answer_leaf-IsRuntime ids (err e) r h = h
  answer_leaf-IsRuntime ids (ok wire) r h =
      counted-IsRuntime wire _ (send-IsRuntime limit env now wire (count_leaf ids r) h)

  answer_summary-IsRuntime :
      (wire : Result (List ℕ)) (r : Runtime)
      → IsRuntime limit r
      → IsRuntime limit (answer_reconciliation env now count_summary wire r)
  unfolding answer_reconciliation
  answer_summary-IsRuntime (err e) r h = h
  answer_summary-IsRuntime (ok wire) r h =
      counted-IsRuntime wire _ (send-IsRuntime limit env now wire (count_summary r) h)

  serve_generation-IsRuntime :
      (p : Packet) (asked : Result (ℕ × List ℕ)) (r : Runtime)
      → IsRuntime limit r
      → IsRuntime limit (serve_generation env now p asked r)
  unfolding serve_generation serve_bucket
  serve_generation-IsRuntime p (err e) r h = h
  serve_generation-IsRuntime p (ok (generation, prefix)) r h =
      elim (Bool-cases (inventory_generation env.world.sha256 r.complete_ids == generation)) [
        | inr old ↦ rw old h
        | inl now_current ↦
            elim (Bool-cases (leb (length (filter_prefix r.complete_ids prefix)) 10)) [
              | inl small ↦ rw (now_current, small) (answer_leaf-IsRuntime _ _ r h)
              | inr large ↦ rw (now_current, large) (answer_summary-IsRuntime _ r h)
            ]
      ]

  pub serve_summary-IsRuntime :
      (p : Packet) (r : Runtime) → IsRuntime limit r → IsRuntime limit (serve_summary env now p r)
  unfolding serve_summary
  serve_summary-IsRuntime p r h = serve_generation-IsRuntime p _ r h

  send_response-IsRuntime :
      (wire : Result (List ℕ)) (r : Runtime)
      → IsRuntime limit r
      → IsRuntime limit (send_response env now wire r)
  unfolding send_response
  send_response-IsRuntime (err e) r h = h
  send_response-IsRuntime (ok wire) r h = send-IsRuntime limit env now wire _ h

  serve_stored-IsRuntime :
      (response : Result Manifest → Result (List ℕ)) (asked : Result PublicationId) (r : Runtime)
      → IsRuntime limit r
      → IsRuntime limit (serve_stored env now response asked r)
  unfolding serve_stored
  serve_stored-IsRuntime response (err e) r h = h
  serve_stored-IsRuntime response (ok id) r h = elim (Bool-cases (complete env.world r.files id)) [
    | inl there ↦ rw there (send_response-IsRuntime _ r h)
    | inr absent ↦ rw absent h
  ]

  pub serve_manifest-IsRuntime :
      (p : Packet) (r : Runtime) → IsRuntime limit r → IsRuntime limit (serve_manifest env now p r)
  unfolding serve_manifest
  serve_manifest-IsRuntime p r h = serve_stored-IsRuntime _ _ r h

  pub serve_signature-IsRuntime :
      (p : Packet) (r : Runtime) → IsRuntime limit r → IsRuntime limit (serve_signature env now p r)
  unfolding serve_signature
  serve_signature-IsRuntime p r h = serve_stored-IsRuntime _ _ r h

  chunk_sent-IsRuntime :
      (wire : List ℕ) (remaining : ℕ) (sent : Runtime × Bool)
      → IsRuntime limit sent.0
      → IsRuntime limit (chunk_sent wire remaining sent).0
  unfolding chunk_sent
  chunk_sent-IsRuntime wire remaining (r, true) h = h
  chunk_sent-IsRuntime wire remaining (r, false) h = h

  send_chunk-IsRuntime :
      (wire : Result (List ℕ)) (state : Runtime × ℕ)
      → IsRuntime limit state.0
      → IsRuntime limit (send_chunk env now wire state).0
  unfolding send_chunk
  send_chunk-IsRuntime (err e) (r, remaining) h = h
  send_chunk-IsRuntime (ok wire) (r, remaining) h =
      chunk_sent-IsRuntime wire remaining _ (send-IsRuntime limit env now wire r h)

  serve_bit-IsRuntime :
      (p : Packet) (req : ChunkRequest) (bit : ℕ) (state : Runtime × ℕ)
      → IsRuntime limit state.0
      → IsRuntime limit (serve_bit env now p req bit state).0
  unfolding serve_bit
  serve_bit-IsRuntime p req bit (r, remaining) h = elim (Bool-cases (asks_for req.bitmap bit)) [
    | inl asked ↦ rw asked (send_chunk-IsRuntime _ (r, remaining) h)
    | inr other ↦ rw other h
  ]

  serve_loop-IsRuntime :
      (p : Packet) (req : ChunkRequest) (n bit : ℕ) (state : Runtime × ℕ)
      → IsRuntime limit state.0
      → IsRuntime limit (serve_loop env now p req n bit state).0
  unfolding serve_loop
  serve_loop-IsRuntime p req zero bit state h = h
  serve_loop-IsRuntime p req (suc n) bit state h = elim (Bool-cases (ltb 0 state.1)) [
    | inl more ↦
        rw more (serve_loop-IsRuntime p req n (bit + 1) _ (serve_bit-IsRuntime p req bit state h))
    | inr done ↦ rw done h
  ]

  serve_request-IsRuntime :
      (p : Packet) (asked : Result ChunkRequest) (r : Runtime)
      → IsRuntime limit r
      → IsRuntime limit (serve_request env now p asked r)
  unfolding serve_request
  serve_request-IsRuntime p (err e) r h = h
  serve_request-IsRuntime p (ok req) r h = elim (Bool-cases (complete env.world r.files req.id)) [
    | inl there ↦ rw there (serve_loop-IsRuntime p req 8 0 (r, 4) h)
    | inr absent ↦ rw absent h
  ]

  pub serve_chunks-IsRuntime :
      (p : Packet) (r : Runtime) → IsRuntime limit r → IsRuntime limit (serve_chunks env now p r)
  unfolding serve_chunks
  serve_chunks-IsRuntime p r h = serve_request-IsRuntime p _ r h
