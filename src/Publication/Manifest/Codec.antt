-- ===== src/Publication/Manifest/Codec.antt =====
-- Manifests on the wire.
use ghost_cache.Common.{
  ℕ, zero, suc, ◌+◌, ◌-◌, ◌*◌, ◌/◌, ◌%◌, ◌≤◌, ◌<◌, ◌^◌, ◌≡◌, refl, ap, ◌∙◌, true, List, [], ◌∷◌,
  ◌++◌, none, arith, length, lt-div_mul, length-append, length-take, get_or, take, take-append,
  drop-append, drop-append_past, get_or-append_past, put_le, get_le-put_le, put_le-IsBytes,
  All-append, All-take, IsByte, IsBytes, ok,
}
use native.Mathlib.Nat.{mul-le-mul_right}
use ghost_cache.Publication.Packet.{
  Packet, packet_bytes, encode_packet, decode_packet, IsPacket, type_manifest, chunk_data_size,
  max_chunks,
}
use ghost_cache.Publication.Packet.Codec.{decode_packet-encode_packet}
use ghost_cache.Publication.Manifest.{
  Manifest, id_matches_hash, manifest_body, encode_manifest, expected_chunks, manifest_of,
  check_manifest, decode_manifest, IsManifest,
}

-- The loop of `IDMatchesHash` compares with the prefix of the hash.
pub id_matches_hash→eq :
    (id hash : List ℕ)
    → length id ≤ length hash
    → id_matches_hash id hash ≡ true
    → id ≡ take (length id) hash
unfolding id_matches_hash
id_matches_hash→eq [] hash h e = refl
id_matches_hash→eq (b ∷ bs) [] h e = absurd (omega arith)
id_matches_hash→eq (b ∷ bs) (x ∷ xs) h e = ground (arith, id_matches_hash→eq bs xs)

id_matches_hash-take :
    (n : ℕ) (hash : List ℕ) → n ≤ length hash → id_matches_hash (take n hash) hash ≡ true
unfolding id_matches_hash
id_matches_hash-take zero hash h = refl
id_matches_hash-take (suc n) [] h = absurd (omega arith)
id_matches_hash-take (suc n) (x ∷ xs) h = ground (arith, id_matches_hash-take n xs)

-- A content that so many chunks hold is no longer than they are together.
expected_chunks_cover :
    (size chunk_size n : ℕ)
    → 0 < chunk_size
    → expected_chunks size chunk_size ≤ n
    → size ≤ n * chunk_size
unfolding expected_chunks
expected_chunks_cover zero chunk_size n pos h = omega arith
expected_chunks_cover (suc size) chunk_size n pos h =
    let less : suc size - 1 ≡ size = omega arith in
    let count : size / chunk_size + 1 ≤ n = ground (arith, less) in
    omega (arith, lt-div_mul size chunk_size pos, mul-le-mul_right chunk_size count)

length-manifest_body :
    (m : Manifest) → length m.sha256 ≡ 32 → length (manifest_body m) ≡ 45 + length m.filename
unfolding manifest_body
length-manifest_body m h = omega (arith, length-append m.sha256 _)

-- The fields stand at their fixed places.
manifest_of-body :
    (m : Manifest)
    → IsManifest m
    → m.length < 2 ^ 64
    → manifest_of (record { type = type_manifest; id = m.id; body = manifest_body m })
      ≡ record m { version = 1; signature = none }
unfolding manifest_body
manifest_of-body m v w =
    let tail =
      put_le 2 m.chunk_size ++ (put_le 2 m.chunk_count ++ (length m.filename % 256) ∷ m.filename) in
    let size = v.hash_length in
    let count = v.chunk_count_fits in
    ground (
      arith,
      get_le-put_le 8 m.length w,
      take-append 32 m.sha256 tail size,
      drop-append 32 m.sha256 tail size,
      drop-append_past 32 34 2 m.sha256 tail size (omega arith),
      drop-append_past 32 37 5 m.sha256 tail size (omega arith),
      get_le-put_le 2 m.chunk_size (omega (arith, v.chunk_size_fits)),
      get_le-put_le 2 m.chunk_count (omega (arith, v.chunk_count_fits)),
    )

-- A valid manifest describes at most 253,472 bytes.
pub length_le :
    (m : Manifest) → IsManifest m → (m.length ≤ max_chunks * m.chunk_size) × (m.length ≤ 253472)
length_le m v =
    let cover =
      expected_chunks_cover m.length m.chunk_size max_chunks v.chunk_size_pos
        (omega (arith, v.chunks_cover, v.chunk_count_fits)) in
    (cover, omega (arith, cover, v.chunk_size_fits))

abbrev pub manifest_packet : Manifest → Packet
manifest_packet m = record { type = type_manifest; id = m.id; body = manifest_body m }

length_byte : (m : Manifest) → IsManifest m → get_or (manifest_body m) 44 0 ≡ length m.filename
unfolding manifest_body
length_byte m v =
    get_or-append_past 32 36 4 m.sha256 _ 0 v.hash_length (omega arith)
    ∙ omega (arith, v.filename_fits)

manifest_body-IsBytes : (m : Manifest) → IsManifest m → IsBytes (manifest_body m)
unfolding manifest_body
manifest_body-IsBytes m v = All-append IsByte (put_le 8 m.length) _ (put_le-IsBytes 8 m.length) (
    All-append IsByte m.sha256 _ v.hash_bytes
      (omega arith, (omega arith, (omega arith, (omega arith, (omega arith, v.filename_bytes))))))

pub manifest_packet-IsPacket : (m : Manifest) → IsManifest m → IsPacket (manifest_packet m)
manifest_packet-IsPacket m v = record {
  type_byte = omega arith;
  id_valid = record {
    sixteen = omega (arith, ap length v.id_of_hash, length-take 16 m.sha256, v.hash_length);
    bytes = rw v.id_of_hash (All-take IsByte 16 m.sha256 v.hash_bytes);
  };
  body_bytes = manifest_body-IsBytes m v;
  fits = omega (arith, length-manifest_body m v.hash_length, v.filename_fits);
}

id_matches : (m : Manifest) → IsManifest m → id_matches_hash m.id m.sha256 ≡ true
id_matches m v = rw v.id_of_hash (id_matches_hash-take 16 m.sha256 (omega (arith, v.hash_length)))

encode_manifest_valid :
    (m : Manifest) → IsManifest m → encode_manifest m ≡ encode_packet (manifest_packet m)
unfolding encode_manifest
encode_manifest_valid m v = ground (
  arith,
  id_matches m v,
  v.filename_fits,
  v.chunk_size_pos,
  v.chunk_size_fits,
  v.chunk_count_fits,
)

-- The checks on the fields.
abbrev pub FieldsPass : Manifest → Type 0
FieldsPass m =
    (0 < m.chunk_size)
    × (m.chunk_size ≤ chunk_data_size)
    × (m.chunk_count ≤ max_chunks)
    × (m.length ≤ max_chunks * m.chunk_size)
    × (id_matches_hash m.id m.sha256 ≡ true)
    × (m.chunk_count ≡ expected_chunks m.length m.chunk_size)

fields_pass : (m : Manifest) → FieldsPass m → check_manifest m ≡ ok m
unfolding check_manifest
fields_pass m h = ground arith

decode_manifest_valid :
    (p : Packet) (m : Manifest)
    → p.type ≡ type_manifest
    → length p.body ≡ 45 + length m.filename
    → get_or p.body 44 0 ≡ length m.filename
    → manifest_of p ≡ m
    → FieldsPass m
    → decode_manifest p ≡ ok m
unfolding decode_manifest
decode_manifest_valid p m kind size name fields pass =
    let size' : get_or p.body 44 0 ≡ length p.body - 45 = omega arith in
    let step : decode_manifest p ≡ check_manifest (manifest_of p) = ground arith in
    step ∙ ap check_manifest fields ∙ fields_pass m pass

-- A valid manifest is advertised in a packet that fits, and read back as it was, but with version 1 and
-- no signature: the signature, and the version that goes with it, travel by themselves.
pub decode_manifest-encode_manifest :
    (m : Manifest)
    → IsManifest m
    → (encode_manifest m ≡ ok (packet_bytes (manifest_packet m)))
      × (decode_packet (packet_bytes (manifest_packet m)) ≡ ok (manifest_packet m))
      × (decode_manifest (manifest_packet m) ≡ ok (record m { version = 1; signature = none }))
decode_manifest-encode_manifest m v =
    let packet = manifest_packet-IsPacket m v in
    let fields = manifest_of-body m v (omega (arith, (length_le m v).1)) in
    (
      encode_manifest_valid m v ∙ (decode_packet-encode_packet (manifest_packet m) packet).0,
      (decode_packet-encode_packet (manifest_packet m) packet).1,
      decode_manifest_valid (manifest_packet m) (record m { version = 1; signature = none }) refl
          (length-manifest_body m v.hash_length) (length_byte m v) fields
          (
            v.chunk_size_pos,
            v.chunk_size_fits,
            v.chunk_count_fits,
            (length_le m v).0,
            id_matches m v,
            v.chunks_cover,
          ),
    )
