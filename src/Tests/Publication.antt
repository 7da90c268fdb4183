-- ===== src/Tests/Publication.antt =====
-- Packets, manifests, receipts, assemblies and signatures of internal/publication.
use ghost_cache.Common.{
  ℕ, ◌<◌, ◌≡◌, refl, arith, true, false, Bool, List, [], ◌∷◌, ◌++◌, none, some, length, take,
  replicate, elem, get_le, bytes_eq, All-append, zeros-IsBytes, IsByte, IsBytes, ok, ◌>>=◌,
}
use ghost_cache.Publication.Packet.{
  IsPublicationId, Packet, packet_bytes, encode_packet, decode_packet, IsPacket, type_chunk,
}
use ghost_cache.Publication.Manifest.{
  Manifest, id_matches_hash, manifest_body, encode_manifest, expected_chunks, check_manifest,
  decode_manifest, normalize_manifest, IsManifest,
}
use ghost_cache.Publication.Manifest.Codec.{
  manifest_packet, manifest_packet-IsPacket, decode_manifest-encode_manifest,
}
use ghost_cache.Publication.Manifest.Sound.{decode_manifest_sound}
use ghost_cache.Publication.Chunk.{decode_chunk, encode_simple}
use ghost_cache.Publication.Receipt.{encode_receipt, decode_receipt}
use ghost_cache.Publication.Receipt.Codec.{decode_receipt-encode_receipt}
use ghost_cache.Publication.Assembly.{Assembly, new_assembly, add, missing, join, content}
use ghost_cache.Publication.Assembly.Invariant.{
  IsAssembly, is_received, new_assembly-IsAssembly, add-IsAssembly,
}
use ghost_cache.Publication.Assembly.Order.{add_comm}
use ghost_cache.Publication.Assembly.Complete.{content_sound}
use ghost_cache.Publication.Assembly.Delivery.{deliver, content-deliver}
use ghost_cache.Publication.Assembly.Cut.{Describes}
use ghost_cache.Publication.Signing.{canonical_bytes, Identity, sign_manifest, canonical_manifest}
use ghost_cache.Publication.Signing.Canonical.{HasWidths, canonical_bytes_injective}

-- In place of SHA-256: the content itself, cut or padded to 32 bytes.
abbrev pub padded : List ℕ → List ℕ
padded xs = take 32 (xs ++ replicate 32 0)

abbrev pub text : List ℕ
text = 10 ∷ 20 ∷ 30 ∷ []

abbrev pub note : Manifest
note = record {
  version = 1;
  id = take 16 (padded text);
  filename = b'a' ∷ [];
  length = 3;
  sha256 = padded text;
  chunk_size = 2;
  chunk_count = 2;
  signature = none;
}

padded-IsBytes : IsBytes (padded text)
padded-IsBytes = (omega arith, (omega arith, (omega arith, zeros-IsBytes 29)))

id-IsPublicationId : IsPublicationId note.id
id-IsPublicationId = record {
  sixteen = refl;
  bytes = (omega arith, (omega arith, (omega arith, zeros-IsBytes 13)));
}

pub note-IsManifest : IsManifest note
unfolding expected_chunks
note-IsManifest = record {
  filename_bytes = (omega arith, tt);
  filename_fits = omega arith;
  hash_bytes = padded-IsBytes;
  hash_length = refl;
  id_of_hash = refl;
  chunk_size_pos = omega arith;
  chunk_size_fits = omega arith;
  chunk_count_fits = omega arith;
  chunks_cover = refl;
}

normalize_run :
    (normalize_manifest note ≡ note) × (normalize_manifest (record note { version = 0 }) ≡ note)
unfolding normalize_manifest
normalize_run = (refl, refl)

simple_run : encode_simple 5 note.id ≡ ok (b'G' ∷ b'P' ∷ 1 ∷ 5 ∷ note.id ++ [])
unfolding encode_simple encode_packet
simple_run = refl

decode_manifest-encode_manifest_example :
    (encode_manifest note ≡ ok (packet_bytes (manifest_packet note)))
    × (decode_packet (packet_bytes (manifest_packet note)) ≡ ok (manifest_packet note))
    × (decode_manifest (manifest_packet note) ≡ ok (record note { version = 1; signature = none }))
decode_manifest-encode_manifest_example = decode_manifest-encode_manifest note note-IsManifest

note_read : decode_manifest (manifest_packet note) ≡ ok note
unfolding decode_manifest check_manifest manifest_body id_matches_hash expected_chunks get_le
note_read = refl

decode_manifest_sound_example :
    IsManifest note
    × (manifest_packet note ≡ manifest_packet note)
    × (note.version ≡ 1)
    × (note.signature ≡ none)
decode_manifest_sound_example =
    decode_manifest_sound (manifest_packet note) note
      (manifest_packet-IsPacket note note-IsManifest) note_read

abbrev small : Packet
small = record { type = 5; id = note.id; body = 1 ∷ 2 ∷ [] }

small-IsPacket : IsPacket small
small-IsPacket = record {
  type_byte = omega arith;
  id_valid = id-IsPublicationId;
  body_bytes = (omega arith, (omega arith, tt));
  fits = omega arith;
}

small-IsBytes : IsBytes (packet_bytes small)
unfolding packet_bytes
small-IsBytes =
    All-append IsByte (b'G' ∷ b'P' ∷ 1 ∷ 5 ∷ []) (note.id ++ 1 ∷ 2 ∷ [])
      (omega arith, (omega arith, (omega arith, (omega arith, tt))))
      (All-append IsByte note.id (1 ∷ 2 ∷ []) id-IsPublicationId.bytes
        (omega arith, (omega arith, tt)))

small_read : decode_packet (packet_bytes small) ≡ ok small
unfolding decode_packet packet_bytes
small_read = refl

abbrev second_chunk : Packet
second_chunk = record { type = type_chunk; id = note.id; body = 1 ∷ 0 ∷ 30 ∷ [] }

second_chunk-IsPacket : IsPacket second_chunk
second_chunk-IsPacket = record {
  type_byte = omega arith;
  id_valid = id-IsPublicationId;
  body_bytes = (omega arith, (omega arith, (omega arith, tt)));
  fits = omega arith;
}

second_chunk_read : decode_chunk second_chunk ≡ ok (1, 30 ∷ [])
unfolding decode_chunk get_le
second_chunk_read = refl

abbrev some_flags : List Bool
some_flags = true ∷ false ∷ true ∷ []

decode_receipt-encode_receipt_example :
    (wire : List ℕ) × (encode_receipt note.id 3 some_flags ≡ ok wire)
    × ((decode_packet wire >>= decode_receipt) ≡ ok some_flags)
decode_receipt-encode_receipt_example =
    decode_receipt-encode_receipt note.id some_flags id-IsPublicationId (omega arith)

abbrev pub empty : Assembly
empty = record { manifest = note; chunks = [] ∷ [] ∷ []; received = false ∷ false ∷ [] }

abbrev pub half : Assembly
half = record { manifest = note; chunks = [] ∷ (30 ∷ []) ∷ []; received = false ∷ true ∷ [] }

abbrev pub full : Assembly
full = record {
  manifest = note;
  chunks = (10 ∷ 20 ∷ []) ∷ (30 ∷ []) ∷ [];
  received = true ∷ true ∷ [];
}

pub empty-IsAssembly : IsAssembly empty
unfolding new_assembly
empty-IsAssembly = new_assembly-IsAssembly note

half_added : add empty 1 (30 ∷ []) ≡ ok half
unfolding add
half_added = refl

full_added : add half 0 (10 ∷ 20 ∷ []) ≡ ok full
unfolding add
full_added = refl

pub half-IsAssembly : IsAssembly half
half-IsAssembly = add-IsAssembly empty half 1 (30 ∷ []) empty-IsAssembly half_added

pub full-IsAssembly : IsAssembly full
full-IsAssembly = add-IsAssembly half full 0 (10 ∷ 20 ∷ []) half-IsAssembly full_added

add_comm_example :
    (b : Assembly) × (add empty 0 (10 ∷ 20 ∷ []) ≡ ok b) × (add b 1 (30 ∷ []) ≡ ok full)
add_comm_example =
    add_comm empty half full 1 0 (30 ∷ []) (10 ∷ 20 ∷ []) empty-IsAssembly half_added full_added

pub full_content : content padded full ≡ ok text
unfolding content missing bytes_eq
full_content = refl

note_chunks : note.chunk_count ≡ expected_chunks note.length note.chunk_size
unfolding expected_chunks
note_chunks = refl

content_sound_example :
    (text ≡ join full.chunks)
    × (length text ≡ note.length)
    × (padded text ≡ note.sha256)
    × ((i : ℕ) → i < note.chunk_count → is_received full i ≡ true)
content_sound_example =
    content_sound padded full text full-IsAssembly note_chunks (omega arith) full_content

note-Describes : Describes note text
note-Describes = record {
  size = refl;
  chunk_pos = omega arith;
  cover = note_chunks;
  small = omega arith;
}

-- The second chunk comes first, and once more at the end.
both_delivered : (i : ℕ) → i < 2 → elem i (1 ∷ 0 ∷ 1 ∷ []) ≡ true
unfolding elem
both_delivered i h = ground arith

content-deliver_example :
    (a : Assembly) × (deliver (new_assembly note) text (1 ∷ 0 ∷ 1 ∷ []) ≡ ok a)
    × (content padded a ≡ ok text)
content-deliver_example =
    content-deliver padded note text (1 ∷ 0 ∷ 1 ∷ []) note-Describes refl
      (omega arith, (omega arith, (omega arith, tt))) both_delivered

note-HasWidths : HasWidths note
note-HasWidths = record {
  version_word = omega arith;
  id_length = refl;
  hash_length = refl;
  length_word = omega arith;
  chunk_size_word = omega arith;
  chunk_count_word = omega arith;
}

abbrev signed_note : Manifest
signed_note = record note { signature = some (record { public_key = []; value = [] }) }

signed_note-HasWidths : HasWidths signed_note
signed_note-HasWidths = record {
  version_word = omega arith;
  id_length = refl;
  hash_length = refl;
  length_word = omega arith;
  chunk_size_word = omega arith;
  chunk_count_word = omega arith;
}

same_bytes : canonical_bytes note ≡ canonical_bytes signed_note
unfolding canonical_bytes
same_bytes = refl

canonical_bytes_injective_example : note ≡ record signed_note { signature = none }
canonical_bytes_injective_example =
    canonical_bytes_injective note signed_note note-HasWidths signed_note-HasWidths same_bytes

-- A toy in place of Ed25519: the public key is the private key, and a signature is key and message.
abbrev toy_sign : List ℕ → List ℕ → List ℕ
toy_sign key message = key ++ message

abbrev toy_verify : List ℕ → List ℕ → List ℕ → Bool
toy_verify key message sig = bytes_eq sig (key ++ message)

abbrev alice : Identity
alice = record { name = []; public_key = replicate 64 7; private_key = replicate 64 7 }

abbrev signed_by_alice : Manifest
signed_by_alice = record note {
  version = 2;
  signature = some (record {
    public_key = replicate 64 7;
    value = replicate 64 7 ++ canonical_bytes (record note { version = 2 });
  });
}

alice_signs : sign_manifest toy_sign note alice ≡ ok signed_by_alice
unfolding sign_manifest canonical_manifest
alice_signs = refl
