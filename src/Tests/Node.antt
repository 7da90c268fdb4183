-- ===== src/Tests/Node.antt =====
-- Packets, transfers, prefixes and messages of internal/node.
use ghost_cache.Common.{
  ℕ, ◌<◌, ◌≡◌, refl, arith, [], ◌∷◌, none, some, replicate, get_le, zeros-IsBytes, IsBytes, ok, err,
  malformed,
}
use ghost_cache.Publication.Packet.{PublicationId, IsPublicationId}
use ghost_cache.Publication.Manifest.{Signature, Manifest, expected_chunks, IsManifest}
use ghost_cache.Node.Packet.{Packet, packet_bytes, encode, decode, IsPacket}
use ghost_cache.Node.Packet.Codec.{decode_sound}
use ghost_cache.Node.Prefix.{put_nibbles, encode_prefix, decode_prefix, decode_prefix_with_tail}
use ghost_cache.Node.Transfer.{
  encode_id_request, encode_signature_request, ChunkRequest, bits_loop, encode_chunk_request,
  IsSignature, IsChunkRequest,
}
use ghost_cache.Node.Transfer.Codec.{IsAddress}

abbrev ping : Packet
ping = record { type = 2; source = 70000; destination = 9; transaction = 300; body = 1 ∷ 2 ∷ [] }

ping-IsPacket : IsPacket ping
ping-IsPacket = record {
  type_byte = omega arith;
  source_word = omega arith;
  destination_word = omega arith;
  transaction_word = omega arith;
  body_bytes = (omega arith, (omega arith, tt));
  fits = omega arith;
}

ping_read : decode (packet_bytes ping) ≡ ok ping
unfolding decode packet_bytes get_le
ping_read = refl

ping-IsBytes : IsBytes (packet_bytes ping)
unfolding packet_bytes
ping-IsBytes = (
  omega arith,
  (
    omega arith,
    (
      omega arith,
      (
        omega arith,
        (
          omega arith,
          (
            omega arith,
            (
              omega arith,
              (
                omega arith,
                (
                  omega arith,
                  (
                    omega arith,
                    (
                      omega arith,
                      (omega arith, (omega arith, (omega arith, (omega arith, (omega arith, tt))))),
                    ),
                  ),
                ),
              ),
            ),
          ),
        ),
      ),
    ),
  ),
)

decode_sound_example : IsPacket ping × (packet_bytes ping ≡ packet_bytes ping)
decode_sound_example = decode_sound (packet_bytes ping) ping ping-IsBytes ping_read

route : IsAddress 5 6 7
route = record {
  source_word = omega arith;
  destination_word = omega arith;
  transaction_word = omega arith;
}

-- IDs that begin with the nibbles 1 2, 1 3 and 2 0.
abbrev pub id_of : ℕ → PublicationId
id_of first = first ∷ replicate 15 0

pub id_of-IsPublicationId : (first : ℕ) → first < 256 → IsPublicationId (id_of first)
id_of-IsPublicationId first h = record { sixteen = refl; bytes = (h, zeros-IsBytes 15) }

abbrev pub note : Manifest
note = record {
  version = 2;
  id = id_of 0x12;
  filename = b'a' ∷ [];
  length = 3;
  sha256 = 0x12 ∷ replicate 31 0;
  chunk_size = 2;
  chunk_count = 2;
  signature = none;
}

note-IsManifest : IsManifest note
unfolding expected_chunks
note-IsManifest = record {
  filename_bytes = (omega arith, tt);
  filename_fits = omega arith;
  hash_bytes = (omega arith, zeros-IsBytes 31);
  hash_length = refl;
  id_of_hash = refl;
  chunk_size_pos = omega arith;
  chunk_size_fits = omega arith;
  chunk_count_fits = omega arith;
  chunks_cover = refl;
}

abbrev pub seal : Signature
seal = record { public_key = replicate 32 0; value = replicate 64 0 }

seal-IsSignature : (s : Signature) → some seal ≡ some s → IsSignature s
seal-IsSignature s e =
    let same : seal ≡ s = cc in
    rw (← same) (record {
      key_bytes = zeros-IsBytes 32;
      key_length = refl;
      value_bytes = zeros-IsBytes 64;
      value_length = refl;
    })

signature_request_run :
    encode_signature_request 1 2 3 []
    ≡ ok (b'G' ∷ b'N' ∷ 3 ∷ 10 ∷ 1 ∷ 0 ∷ 0 ∷ 0 ∷ 2 ∷ 0 ∷ 0 ∷ 0 ∷ 3 ∷ 0 ∷ [])
unfolding encode_signature_request encode_id_request encode packet_bytes
signature_request_run = refl

abbrev ask : ChunkRequest
ask = record { id = id_of 0x12; base = 8; bitmap = 0xb1 }

ask-IsChunkRequest : IsChunkRequest ask
unfolding bits_loop
ask-IsChunkRequest = record {
  id_bytes = (omega arith, zeros-IsBytes 15);
  id_length = refl;
  base_word = omega arith;
  bitmap_byte = omega arith;
  few = omega arith;
}

-- Five chunks are too many.
five_refused : encode_chunk_request 5 6 7 (record ask { bitmap = 0x1f }) ≡ err malformed
unfolding encode_chunk_request bits_loop
five_refused = refl

-- Nibbles that are too large, and a prefix that is too deep.
prefix_refused :
    (encode_prefix 1 (16 ∷ []) ≡ err malformed) × (encode_prefix 1 (replicate 33 0) ≡ err malformed)
unfolding encode_prefix put_nibbles
prefix_refused = (refl, refl)

-- An odd prefix has an empty last half.
padding_refused : decode_prefix (1 ∷ 0 ∷ 0 ∷ 0 ∷ 1 ∷ 0xab ∷ []) ≡ err malformed
unfolding decode_prefix decode_prefix_with_tail
padding_refused = refl
