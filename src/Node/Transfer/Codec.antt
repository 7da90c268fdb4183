-- ===== src/Node/Transfer/Codec.antt =====
-- Messages about one publication, sent and received.
use ghost_cache.Common.{
  ℕ, ◌≤◌, ◌<◌, ◌^◌, ◌≡◌, refl, ap, ◌∙◌, arith, false, List, [], ◌∷◌, ◌++◌, Option, none, some, ltb,
  length, length-append, get_or, get_or-append_past, take, take-append, drop, drop-append, take_all,
  slice, put_le, get_le, get_le-put_le, IsByte, IsBytes, All-append, ok, ◌>>=◌,
}
use ghost_cache.Node.Kind
use ghost_cache.Node.Packet.{Packet, packet_bytes, encode, decode, max_chunk_batch}
use ghost_cache.Node.Packet.Codec.{decode-encode}
use ghost_cache.Publication.Packet.{PublicationId, IsPublicationId, chunk_data_size}
use ghost_cache.Publication.Manifest.{Manifest, Signature, IsManifest}
use ghost_cache.Publication.Manifest.Codec.{
  manifest_packet, manifest_packet-IsPacket, decode_manifest-encode_manifest,
}
use ghost_cache.Node.Transfer.{
  encode_id_request, decode_id_body, body_or_nil, encode_manifest, decode_manifest, signature_body,
  encode_signature, decode_signature, ChunkRequest, bits, encode_chunk_request,
  decode_chunk_request, encode_chunk, decode_chunk, IsSignature, IsChunkRequest,
}

-- The addresses of a packet are machine words.
pub record IsAddress (source destination tx : ℕ) : Type 0 where
  pub source_word : source < 2 ^ 32
  pub destination_word : destination < 2 ^ 32
  pub transaction_word : tx < 2 ^ 16

-- A body that fits is sent, and its packet received.
pub sent :
    (kind source destination tx : ℕ) (body : List ℕ)
    → IsByte kind
    → IsAddress source destination tx
    → IsBytes body
    → length body ≤ 186
    → let p : Packet = record {
      type = kind;
      source = source;
      destination = destination;
      transaction = tx;
      body = body;
    } in
      (wire : List ℕ) × (encode p ≡ ok wire) × (decode wire ≡ ok p)
sent kind source destination tx body k a b fits =
    let p : Packet = record {
      type = kind;
      source = source;
      destination = destination;
      transaction = tx;
      body = body;
    } in
    let (sending, receiving, small) = decode-encode p (record {
      type_byte = k;
      source_word = a.source_word;
      destination_word = a.destination_word;
      transaction_word = a.transaction_word;
      body_bytes = b;
      fits = omega arith;
    }) in
    (packet_bytes p, sending, receiving)

-- A request for a publication arrives with the ID it was sent for.
pub decode_id_body-encode_id_request :
    (kind source destination tx : ℕ) (id : PublicationId)
    → IsByte kind
    → IsAddress source destination tx
    → IsPublicationId id
    → (wire : List ℕ) × (encode_id_request kind source destination tx id ≡ ok wire)
      × ((decode wire >>= decode_id_body) ≡ ok id)
unfolding encode_id_request decode_id_body
decode_id_body-encode_id_request kind source destination tx id k a v =
    let (wire, sending, receiving) =
      sent kind source destination tx id k a v.bytes (omega (arith, v.sixteen)) in
    (wire, sending, rw receiving (ground (arith, v.sixteen)))

-- A node that is asked for a manifest answers with the manifest, but for its signature.
pub manifest_transfer :
    (source destination tx : ℕ) (m : Manifest)
    → IsAddress source destination tx
    → IsManifest m
    → (wire : List ℕ) × (encode_manifest source destination tx m ≡ ok wire)
      × ((decode wire >>= λ p. decode_manifest p m.id)
          ≡ ok (record m { version = 1; signature = none }))
unfolding encode_manifest decode_manifest body_or_nil
manifest_transfer source destination tx m a v =
    let legacy = manifest_packet-IsPacket m v in
    let (advertised, read, back) = decode_manifest-encode_manifest m v in
    let (wire, sending, receiving) =
      sent Kind.manifest source destination tx (manifest_packet m).body (omega arith) a
        legacy.body_bytes (omega (arith, legacy.fits)) in
    (wire, rw (advertised, read) sending, rw receiving back)

-- A signature, or that there is none, arrives as it was sent.
pub decode_signature-encode_signature :
    (source destination tx : ℕ) (sig : Option Signature)
    → IsAddress source destination tx
    → ((s : Signature) → sig ≡ some s → IsSignature s)
    → (wire : List ℕ) × (encode_signature source destination tx sig ≡ ok wire)
      × ((decode wire >>= decode_signature) ≡ ok sig)
unfolding encode_signature decode_signature signature_body
decode_signature-encode_signature source destination tx none a v =
    let (wire, sending, receiving) =
      sent Kind.signature source destination tx (0 ∷ []) (omega arith) a (omega arith, tt)
        (omega arith) in
    (wire, sending, rw receiving refl)
decode_signature-encode_signature source destination tx (some s) a v =
    let h = v s refl in
    let size : length (s.public_key ++ s.value) ≡ 96 =
      omega (arith, length-append s.public_key s.value, h.key_length, h.value_length) in
    let (wire, sending, receiving) =
      sent Kind.signature source destination tx (1 ∷ s.public_key ++ s.value) (omega arith) a
        (omega arith, All-append IsByte s.public_key s.value h.key_bytes h.value_bytes)
        (omega arith) in
    let key : take 32 (s.public_key ++ s.value) ≡ s.public_key =
      take-append 32 s.public_key s.value h.key_length in
    let last : take 64 (drop 32 (s.public_key ++ s.value)) ≡ s.value =
      ap (λ (xs : List ℕ). take 64 xs) (drop-append 32 s.public_key s.value h.key_length)
      ∙ take_all 64 s.value (omega (arith, h.value_length)) in
    (wire, sending, rw (receiving, size, key, last) refl)

-- A request for at most four chunks arrives as it was sent.
pub decode_chunk_request-encode_chunk_request :
    (source destination tx : ℕ) (r : ChunkRequest)
    → IsAddress source destination tx
    → IsChunkRequest r
    → (wire : List ℕ) × (encode_chunk_request source destination tx r ≡ ok wire)
      × ((decode wire >>= decode_chunk_request) ≡ ok r)
unfolding encode_chunk_request decode_chunk_request
decode_chunk_request-encode_chunk_request source destination tx r a v =
    let body = r.id ++ (put_le 2 r.base ++ r.bitmap ∷ []) in
    let size : length body ≡ 19 =
      omega (arith, length-append r.id (put_le 2 r.base ++ r.bitmap ∷ []), v.id_length) in
    let few = v.few in
    let pass : ltb max_chunk_batch (bits r.bitmap) ≡ false = ground (arith, few) in
    let bytes : IsBytes body =
      All-append IsByte r.id _ v.id_bytes (omega arith, (omega arith, (v.bitmap_byte, tt))) in
    let (wire, sending, receiving) =
      sent Kind.get_chunks source destination tx body (omega arith) a bytes (omega arith) in
    let id : slice 0 16 body ≡ r.id = take-append 16 r.id _ v.id_length in
    let base : get_le (slice 16 18 body) ≡ r.base =
      ap (λ (xs : List ℕ). get_le (take 2 xs))
        (drop-append 16 r.id (put_le 2 r.base ++ r.bitmap ∷ []) v.id_length)
      ∙ get_le-put_le 2 r.base v.base_word in
    let bitmap : get_or body 18 0 ≡ r.bitmap =
      get_or-append_past 16 18 2 r.id _ 0 v.id_length (omega arith) in
    (wire, rw pass sending, rw (receiving, size, bitmap, pass, id, base) refl)

-- A chunk of at most 178 bytes arrives with its index.
pub chunk_transfer :
    (source destination tx index : ℕ) (bytes : List ℕ)
    → IsAddress source destination tx
    → index < 2 ^ 16
    → IsBytes bytes
    → length bytes ≤ chunk_data_size
    → (wire : List ℕ) × (encode_chunk source destination tx index bytes ≡ ok wire)
      × ((decode wire >>= decode_chunk) ≡ ok (index, bytes))
unfolding encode_chunk decode_chunk
chunk_transfer source destination tx index bytes a w b fits =
    let (wire, sending, receiving) =
      sent Kind.chunk source destination tx (put_le 2 index ++ bytes) (omega arith) a
        (omega arith, (omega arith, b)) (omega arith) in
    (wire, ground (arith, sending), rw receiving (ground (arith, get_le-put_le 2 index w)))
