-- ===== src/Publication/Chunk/Codec.antt =====
-- Chunk and error packets on the wire.
use ghost_cache.Common.{
  ℕ, ◌-◌, ◌≤◌, ◌<◌, ◌^◌, ◌≡◌, refl, sym, ap, ◌∙◌, List, ◌++◌, arith, ltb, length, length-take, take,
  drop, put_le, get_le, get_le-put_le, put_le_field, get_le-lt, All-take, All-slice, IsByte,
  IsBytes, ok, ◌>>=◌, ltb→le, take_all, ap₂, subst, span, slice, length-drop, if◌then◌else◌,
  Bool-cases, inl, inr,
}
use ghost_cache.Publication.Packet.{
  PublicationId, IsPublicationId, Packet, packet_bytes, decode_packet, IsPacket, type_chunk,
  type_error, chunk_data_size,
}
use ghost_cache.Publication.Packet.Codec.{decode_packet-encode_packet}
use ghost_cache.Publication.Chunk.{chunk_packet, encode_chunk, decode_chunk, encode_error}

chunk_packet-IsPacket :
    (id : PublicationId) (index : ℕ) (bytes : List ℕ)
    → IsPublicationId id
    → IsBytes bytes
    → length bytes ≤ chunk_data_size
    → IsPacket (chunk_packet id index bytes)
chunk_packet-IsPacket id index bytes v b h = record {
  type_byte = omega arith;
  id_valid = v;
  body_bytes = (omega arith, (omega arith, b));
  fits = omega arith;
}

-- A chunk of at most 178 bytes is sent, and comes back with its index.
pub decode_chunk-encode_chunk :
    (id : PublicationId) (index : ℕ) (bytes : List ℕ)
    → IsPublicationId id
    → IsBytes bytes
    → length bytes ≤ chunk_data_size
    → index < 2 ^ 16
    → (wire : List ℕ) × (encode_chunk id index bytes ≡ ok wire)
      × ((decode_packet wire >>= decode_chunk) ≡ ok (index, bytes))
unfolding encode_chunk decode_chunk
decode_chunk-encode_chunk id index bytes v b h w =
    let (encoded, decoded) =
      decode_packet-encode_packet (chunk_packet id index bytes)
        (chunk_packet-IsPacket id index bytes v b h) in
    (
      packet_bytes (chunk_packet id index bytes),
      ground (arith, encoded),
      rw decoded (ground (arith, get_le-put_le 2 index w)),
    )

-- What the guards of `decode_chunk` have let through.
record Accepted (p : Packet) (index : ℕ) (bytes : List ℕ) : Type 0 where
  kind : p.type ≡ type_chunk
  long : 2 ≤ length p.body
  fits : length p.body - 2 ≤ chunk_data_size
  number : get_le (slice 0 2 p.body) ≡ index
  content : drop 2 p.body ≡ bytes

decode_chunk-Accepted :
    (p : Packet) (index : ℕ) (bytes : List ℕ)
    → decode_chunk p ≡ ok (index, bytes)
    → Accepted p index bytes
unfolding decode_chunk
decode_chunk-Accepted p index bytes e = ground arith

-- An accepted chunk packet is the packet of its index and bytes.
pub decode_chunk_sound :
    (p : Packet) (index : ℕ) (bytes : List ℕ)
    → IsPacket p
    → decode_chunk p ≡ ok (index, bytes)
    → (p ≡ chunk_packet p.id index bytes) × (length bytes ≤ chunk_data_size) × (index < 2 ^ 16)
decode_chunk_sound p index bytes v e =
    let a = decode_chunk-Accepted p index bytes e in
    let body : p.body ≡ put_le 2 index ++ bytes =
      sym (put_le_field 0 2 p.body v.body_bytes (omega arith) a.long)
      ∙ ap₂ (λ (n : ℕ) (xs : List ℕ). put_le 2 n ++ xs) a.number a.content in
    let word = get_le-lt (slice 0 2 p.body) (All-slice IsByte 0 2 p.body v.body_bytes) in
    let width : length (slice 0 2 p.body) ≡ 2 = omega (arith, length-take 2 p.body, a.long) in
    (
      ground (arith, a.kind, body),
      omega (arith, ap length a.content, length-drop 2 p.body, a.fits),
      omega (arith, a.number, subst (λ (n : ℕ). get_le (slice 0 2 p.body) < span n) width word),
    )

cut :
    (message : List ℕ)
    → (if ltb 180 (length message) then take 180 message else message) ≡ take 180 message
cut message = elim (Bool-cases (ltb 180 (length message))) [
  | inl long ↦ rw long refl
  | inr short ↦ rw short (sym (take_all 180 message (ltb→le 180 (length message) short)))
]

-- An error of any length is sent, cut to the 180 bytes that fit.
pub encode_error_fits :
    (id : PublicationId) (message : List ℕ)
    → IsPublicationId id
    → IsBytes message
    → (wire : List ℕ) × (encode_error id message ≡ ok wire)
      × (decode_packet wire ≡ ok (record { type = type_error; id = id; body = take 180 message }))
unfolding encode_error
encode_error_fits id message v b =
    let p : Packet = record { type = type_error; id = id; body = take 180 message } in
    let (encoded, decoded) = decode_packet-encode_packet p (record {
      type_byte = omega arith;
      id_valid = v;
      body_bytes = All-take IsByte 180 message b;
      fits = omega (arith, length-take 180 message);
    }) in
    (packet_bytes p, rw (cut message) encoded, decoded)
