-- ===== src/Node/Runtime/Serve.antt =====
-- What a node answers to requests, in internal/node/runtime.go: `serveManifest`, `serveSignature` and
-- `serveChunks`.
pub mod Keeps
use ghost_cache.Common.{
  ℕ, zero, suc, ◌+◌, ◌-◌, ◌%◌, ◌^◌, Bool, true, false, not, List, ltb, ◌==◌, if◌then◌else◌, length,
  bit_and, Result, ok, err,
}
use ghost_cache.Publication.Packet.{PublicationId}
use ghost_cache.Publication.Manifest.{Manifest}
use ghost_cache.Publication.Store.{complete, load_manifest}
use ghost_cache.Publication.Store.Begin.{read_chunk}
use ghost_cache.Node.Packet.{Packet, max_chunk_batch}
use ghost_cache.Node.Transfer.{
  ChunkRequest, decode_id_body, encode_manifest, encode_signature, decode_chunk_request,
  encode_chunk,
}
use ghost_cache.Node.Runtime.{Runtime, Env}
use ghost_cache.Node.Runtime.Radio.{send}

-- The response is counted before it is sent, and whether that fails is not looked at.
unfoldable pub send_response : Env → ℕ → Result (List ℕ) → Runtime → Runtime
send_response env now (err e) r = r
send_response env now (ok wire) r =
    (send env now wire (record r {
      metrics = record r.metrics {
        manifest_responses = suc r.metrics.manifest_responses;
        manifest_bytes = r.metrics.manifest_bytes + length wire;
      };
    })).0

unfoldable pub manifest_response : Env → Packet → Result Manifest → Result (List ℕ)
manifest_response env p (err e) = err e
manifest_response env p (ok m) = encode_manifest env.id p.source p.transaction m

unfoldable pub signature_response : Env → Packet → Result Manifest → Result (List ℕ)
signature_response env p (err e) = err e
signature_response env p (ok m) = encode_signature env.id p.source p.transaction m.signature

unfoldable pub serve_stored :
    Env → ℕ → (Result Manifest → Result (List ℕ)) → Result PublicationId → Runtime → Runtime
serve_stored env now response (err e) r = r
serve_stored env now response (ok id) r =
    if complete env.world r.files id
    then send_response env now (response (load_manifest env.world r.files id)) r
    else r

-- `serveManifest`.
unfoldable pub serve_manifest : Env → ℕ → Packet → Runtime → Runtime
serve_manifest env now p r = serve_stored env now (manifest_response env p) (decode_id_body p) r

-- `serveSignature`.
unfoldable pub serve_signature : Env → ℕ → Packet → Runtime → Runtime
serve_signature env now p r = serve_stored env now (signature_response env p) (decode_id_body p) r

unfoldable pub chunk_response : Env → Packet → ℕ → Result (List ℕ) → Result (List ℕ)
chunk_response env p index (err e) = err e
chunk_response env p index (ok bytes) = encode_chunk env.id p.source p.transaction index bytes

abbrev pub count_bulk : List ℕ → Runtime → Runtime
count_bulk wire r = record r {
  metrics = record r.metrics { bulk_bytes = r.metrics.bulk_bytes + length wire };
}

-- What is left of the grant after a chunk.
unfoldable pub chunk_sent : List ℕ → ℕ → Runtime × Bool → Runtime × ℕ
chunk_sent wire remaining (r, false) = (r, remaining)
chunk_sent wire remaining (r, true) = (count_bulk wire r, remaining - 1)

unfoldable pub send_chunk : Env → ℕ → Result (List ℕ) → Runtime × ℕ → Runtime × ℕ
send_chunk env now (err e) (r, remaining) = (r, remaining)
send_chunk env now (ok wire) (r, remaining) = chunk_sent wire remaining (send env now wire r)

-- `req.Bitmap & (1 << bit)`.
unfoldable pub asks_for : ℕ → ℕ → Bool
asks_for bitmap bit = not (bit_and bitmap (2 ^ bit) == 0)

-- One round of the loop. The pause between two chunks is not modelled.
unfoldable pub serve_bit : Env → ℕ → Packet → ChunkRequest → ℕ → Runtime × ℕ → Runtime × ℕ
serve_bit env now p req bit (r, remaining) =
    let index = (req.base + bit) % 2 ^ 16 in
    if asks_for req.bitmap bit
    then send_chunk env now (chunk_response env p index (read_chunk env.world r.files req.id index))
        (r, remaining)
    else (r, remaining)

-- The loop, with n bits left.
unfoldable pub serve_loop : Env → ℕ → Packet → ChunkRequest → ℕ → ℕ → Runtime × ℕ → Runtime × ℕ
serve_loop env now p req zero bit state = state
serve_loop env now p req (suc n) bit state =
    let rest = serve_loop env now p req n (bit + 1) (serve_bit env now p req bit state) in
    if ltb 0 state.1 then rest else state

unfoldable pub serve_request : Env → ℕ → Packet → Result ChunkRequest → Runtime → Runtime
serve_request env now p (err e) r = r
serve_request env now p (ok req) r =
    let served = serve_loop env now p req 8 0 (r, max_chunk_batch) in
    if complete env.world r.files req.id then served.0 else r

-- `serveChunks`.
unfoldable pub serve_chunks : Env → ℕ → Packet → Runtime → Runtime
serve_chunks env now p r = serve_request env now p (decode_chunk_request p) r
