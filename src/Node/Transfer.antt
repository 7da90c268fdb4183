-- ===== src/Node/Transfer.antt =====
-- Requests and answers about one publication, of internal/node/protocol.go: `EncodeIDRequest`,
-- `DecodeIDBody`, and the manifest, signature, chunk request and chunk messages.
pub mod Codec
use ghost_cache.Common.{
  ℕ, zero, suc, ◌+◌, ◌-◌, ◌/◌, ◌%◌, ◌≤◌, ◌<◌, ◌^◌, ◌≡◌, Bool, true, false, not, ◌||◌, List, [], ◌∷◌,
  ◌++◌, Option, none, some, ltb, ◌==◌, if◌then◌else◌, length, get_or, drop, slice, put_le, get_le,
  bit_and, IsByte, IsBytes, Result, ok, err, malformed, ◌>>=◌, ◌>>◌, fail_if,
}
use ghost_cache.Node.Kind
use ghost_cache.Node.Packet.{Packet, NodeId, encode, max_chunk_batch}
use ghost_cache.Publication.Packet.{
  PublicationId, Packet as PublicationPacket, decode_packet, chunk_data_size, type_manifest,
}
use ghost_cache.Publication.Manifest as PublicationManifest
use ghost_cache.Publication.Manifest.{Manifest, Signature}

unfoldable pub encode_id_request : ℕ → NodeId → NodeId → ℕ → PublicationId → Result (List ℕ)
encode_id_request kind source destination tx id = encode (record {
  type = kind;
  source = source;
  destination = destination;
  transaction = tx;
  body = id;
})

unfoldable pub decode_id_body : Packet → Result PublicationId
decode_id_body p = do fail_if (not (length p.body == 16)) malformed; ok p.body

-- `p, _ := DecodePacket(legacy)`, then `p.Body`.
unfoldable pub body_or_nil : Result PublicationPacket → List ℕ
body_or_nil (ok p) = p.body
body_or_nil (err e) = []

unfoldable pub encode_manifest : NodeId → NodeId → ℕ → Manifest → Result (List ℕ)
encode_manifest source destination tx m = do
  legacy ← PublicationManifest.encode_manifest m
  encode (record {
    type = Kind.manifest;
    source = source;
    destination = destination;
    transaction = tx;
    body = body_or_nil (decode_packet legacy);
  })

unfoldable pub decode_manifest : Packet → PublicationId → Result Manifest
decode_manifest p id = do
  fail_if (not (p.type == Kind.manifest)) malformed
  PublicationManifest.decode_manifest (record { type = type_manifest; id = id; body = p.body })

-- A nil signature is the byte 0.
unfoldable pub signature_body : Option Signature → List ℕ
signature_body none = 0 ∷ []
signature_body (some s) = 1 ∷ s.public_key ++ s.value

unfoldable pub encode_signature : NodeId → NodeId → ℕ → Option Signature → Result (List ℕ)
encode_signature source destination tx sig = encode (record {
  type = Kind.signature;
  source = source;
  destination = destination;
  transaction = tx;
  body = signature_body sig;
})

unfoldable pub encode_signature_request : NodeId → NodeId → ℕ → PublicationId → Result (List ℕ)
encode_signature_request source destination tx id =
    encode_id_request Kind.get_signature source destination tx id

unfoldable pub decode_signature : Packet → Result (Option Signature)
decode_signature p = do
  fail_if (not (p.type == Kind.signature) || ltb (length p.body) 1) malformed
  let key = slice 1 33 p.body
  let value = slice 33 97 p.body
  if get_or p.body 0 0 == 0
      then fail_if (not (length p.body == 1)) malformed >> ok none
      else fail_if (not (get_or p.body 0 0 == 1) || not (length p.body == 97)) malformed
        >> ok (some (record { public_key = key; value = value }))

-- The chunks of one publication that a node asks for: bit k of the bitmap stands for base + k.
pub record ChunkRequest : Type 0 where
  pub id : PublicationId
  pub base : ℕ
  pub bitmap : ℕ

-- The loop of `bits`, with fuel.
unfoldable pub bits_loop : ℕ → ℕ → ℕ
bits_loop zero v = 0
bits_loop (suc fuel) v =
    let rest = bits_loop fuel (v / 2) in if ltb 0 v then bit_and v 1 + rest else 0

-- Eight rounds are enough for a byte.
abbrev pub bits : ℕ → ℕ
bits v = bits_loop 8 v

unfoldable pub encode_chunk_request : NodeId → NodeId → ℕ → ChunkRequest → Result (List ℕ)
encode_chunk_request source destination tx r = do
  fail_if (ltb max_chunk_batch (bits r.bitmap)) malformed
  encode (record {
    type = Kind.get_chunks;
    source = source;
    destination = destination;
    transaction = tx;
    body = r.id ++ (put_le 2 r.base ++ r.bitmap ∷ []);
  })

unfoldable pub decode_chunk_request : Packet → Result ChunkRequest
decode_chunk_request p = do
  fail_if
      (not (p.type == Kind.get_chunks)
        || not (length p.body == 19)
        || ltb max_chunk_batch (bits (get_or p.body 18 0)))
      malformed
  ok (record {
    id = slice 0 16 p.body;
    base = get_le (slice 16 18 p.body);
    bitmap = get_or p.body 18 0;
  })

unfoldable pub encode_chunk : NodeId → NodeId → ℕ → ℕ → List ℕ → Result (List ℕ)
encode_chunk source destination tx index bytes = do
  fail_if (ltb chunk_data_size (length bytes)) malformed
  encode (record {
    type = Kind.chunk;
    source = source;
    destination = destination;
    transaction = tx;
    body = put_le 2 index ++ bytes;
  })

unfoldable pub decode_chunk : Packet → Result (ℕ × List ℕ)
decode_chunk p = do
  fail_if
      (not (p.type == Kind.chunk)
        || ltb (length p.body) 2
        || ltb chunk_data_size (length p.body - 2))
      malformed
  ok (get_le (slice 0 2 p.body), drop 2 p.body)

-- What a signature and a request carry.
pub record IsSignature (s : Signature) : Type 0 where
  pub key_bytes : IsBytes s.public_key
  pub key_length : length s.public_key ≡ 32
  pub value_bytes : IsBytes s.value
  pub value_length : length s.value ≡ 64

pub record IsChunkRequest (r : ChunkRequest) : Type 0 where
  pub id_bytes : IsBytes r.id
  pub id_length : length r.id ≡ 16
  pub base_word : r.base < 2 ^ 16
  pub bitmap_byte : IsByte r.bitmap
  pub few : bits r.bitmap ≤ max_chunk_batch
