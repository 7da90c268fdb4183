-- ===== src/Publication/Chunk.antt =====
-- `EncodeChunk`, `DecodeChunk`, `EncodeSimple` and `EncodeError` of
-- internal/publication/protocol.go.
pub mod Codec
use ghost_cache.Common.{
  ℕ, ◌-◌, Bool, true, false, not, ◌||◌, List, [], ◌∷◌, ◌++◌, ltb, ◌==◌, if◌then◌else◌, length, take,
  drop, slice, put_le, get_le, Result, ok, err, malformed, ◌>>=◌, ◌>>◌, fail_if,
}
use ghost_cache.Publication.Packet.{
  PublicationId, Packet, encode_packet, type_chunk, type_error, chunk_data_size, max_packet_size,
  header_size,
}

abbrev pub chunk_packet : PublicationId → ℕ → List ℕ → Packet
chunk_packet id index bytes = record { type = type_chunk; id = id; body = put_le 2 index ++ bytes }

unfoldable pub encode_chunk : PublicationId → ℕ → List ℕ → Result (List ℕ)
encode_chunk id index bytes = do
  fail_if (ltb chunk_data_size (length bytes)) malformed
  encode_packet (chunk_packet id index bytes)

unfoldable pub decode_chunk : Packet → Result (ℕ × List ℕ)
decode_chunk p = do
  fail_if
      (not (p.type == type_chunk)
        || ltb (length p.body) 2
        || ltb chunk_data_size (length p.body - 2))
      malformed
  ok (get_le (slice 0 2 p.body), drop 2 p.body)

unfoldable pub encode_simple : ℕ → PublicationId → Result (List ℕ)
encode_simple type id = encode_packet (record { type = type; id = id; body = [] })

-- A longer message is cut to what fits.
unfoldable pub encode_error : PublicationId → List ℕ → Result (List ℕ)
encode_error id message =
    let limit = max_packet_size - header_size in
    let body = if ltb limit (length message) then take limit message else message in
    encode_packet (record { type = type_error; id = id; body = body })
