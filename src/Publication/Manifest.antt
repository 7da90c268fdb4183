-- ===== src/Publication/Manifest.antt =====
-- `Manifest`, `EncodeManifest`, `DecodeManifest` and `IDMatchesHash` of
-- internal/publication/protocol.go, and `Signature` of internal/publication/signing.go.
pub mod Codec
pub mod Sound
use ghost_cache.Common.{
  ℕ, ◌+◌, ◌-◌, ◌*◌, ◌/◌, ◌%◌, ◌≤◌, ◌<◌, ◌^◌, ◌≡◌, Bool, true, false, not, ◌||◌, List, [], ◌∷◌, ◌++◌,
  Option, none, some, ltb, ◌==◌, if◌then◌else◌, length, get_or, drop, take, slice, put_le, get_le,
  bytes_eq, IsBytes, Result, ok, err, malformed, ◌>>=◌, ◌>>◌, fail_if,
}
use ghost_cache.Publication.Packet.{
  PublicationId, Packet, packet_bytes, encode_packet, type_manifest, chunk_data_size,
  max_filename_bytes, max_chunks,
}

-- An Ed25519 key of 32 bytes and a signature of 64.
pub record Signature : Type 0 where
  pub public_key : List ℕ
  pub value : List ℕ

pub record Manifest : Type 0 where
  pub version : ℕ
  pub id : PublicationId
  pub filename : List ℕ
  pub length : ℕ
  pub sha256 : List ℕ
  pub chunk_size : ℕ
  pub chunk_count : ℕ
  pub signature : Option Signature

-- The loop compares the sixteen bytes of the ID with the first sixteen of the hash.
unfoldable pub id_matches_hash : PublicationId → List ℕ → Bool
id_matches_hash [] hash = true
id_matches_hash (b ∷ bs) hash =
    if not (b == get_or hash 0 0) then false else id_matches_hash bs (drop 1 hash)

unfoldable pub manifest_body : Manifest → List ℕ
manifest_body m =
    put_le 8 m.length
    ++ (m.sha256
        ++ (put_le 2 m.chunk_size
            ++ (put_le 2 m.chunk_count ++ (length m.filename % 256) ∷ m.filename)))

unfoldable pub encode_manifest : Manifest → Result (List ℕ)
encode_manifest m = do
  fail_if
      (ltb max_filename_bytes (length m.filename)
        || m.chunk_size == 0
        || ltb chunk_data_size m.chunk_size
        || ltb max_chunks m.chunk_count
        || not (id_matches_hash m.id m.sha256))
      malformed
  encode_packet (record { type = type_manifest; id = m.id; body = manifest_body m })

-- How many chunks of a size hold a content of a length.
unfoldable pub expected_chunks : ℕ → ℕ → ℕ
expected_chunks size chunk_size = if ltb 0 size then (size - 1) / chunk_size + 1 else 0

-- The fields as they are read.
abbrev pub manifest_of : Packet → Manifest
manifest_of p = record {
  version = 1;
  id = p.id;
  filename = drop 45 p.body;
  length = get_le (slice 0 8 p.body);
  sha256 = slice 8 40 p.body;
  chunk_size = get_le (slice 40 42 p.body);
  chunk_count = get_le (slice 42 44 p.body);
  signature = none;
}

-- The checks on the fields that were read.
unfoldable pub check_manifest : Manifest → Result Manifest
check_manifest m = do
  fail_if
      (m.chunk_size == 0
        || ltb chunk_data_size m.chunk_size
        || ltb max_chunks m.chunk_count
        || ltb (max_chunks * m.chunk_size) m.length
        || not (id_matches_hash m.id m.sha256))
      malformed
  fail_if (not (m.chunk_count == expected_chunks m.length m.chunk_size)) malformed
  ok m

unfoldable pub decode_manifest : Packet → Result Manifest
decode_manifest p = do
  fail_if
      (not (p.type == type_manifest)
        || ltb (length p.body) 45
        || not (get_or p.body 44 0 == length p.body - 45))
      malformed
  check_manifest (manifest_of p)

unfoldable pub normalize_manifest : Manifest → Manifest
normalize_manifest m = if m.version == 0 then record m { version = 1 } else m

-- What a manifest that can be advertised promises.
pub record IsManifest (m : Manifest) : Type 0 where
  pub filename_bytes : IsBytes m.filename
  pub filename_fits : length m.filename ≤ max_filename_bytes
  pub hash_bytes : IsBytes m.sha256
  pub hash_length : length m.sha256 ≡ 32
  pub id_of_hash : m.id ≡ take 16 m.sha256
  pub chunk_size_pos : 0 < m.chunk_size
  pub chunk_size_fits : m.chunk_size ≤ chunk_data_size
  pub chunk_count_fits : m.chunk_count ≤ max_chunks
  pub chunks_cover : m.chunk_count ≡ expected_chunks m.length m.chunk_size
