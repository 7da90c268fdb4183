-- ===== src/Publication/Packet.antt =====
-- `Packet`, `EncodePacket` and `DecodePacket` of internal/publication/protocol.go.
pub mod Codec
use ghost_cache.Common.{
  ℕ, ◌+◌, ◌-◌, ◌*◌, ◌≤◌, ◌≡◌, Bool, true, false, not, ◌||◌, List, [], ◌∷◌, ◌++◌, ltb, ◌==◌, length,
  get_or, drop, slice, IsByte, IsBytes, Result, ok, err, malformed, ◌>>=◌, ◌>>◌, fail_if,
}

abbrev pub max_packet_size : ℕ
max_packet_size = 200

abbrev pub header_size : ℕ
header_size = 20

abbrev pub chunk_data_size : ℕ
chunk_data_size = max_packet_size - header_size - 2

abbrev pub max_filename_bytes : ℕ
max_filename_bytes = max_packet_size - header_size - 45

abbrev pub max_chunks : ℕ
max_chunks = (max_packet_size - header_size - 2) * 8

-- A [16]byte.
abbrev pub PublicationId : Type 0
PublicationId = List ℕ

pub record IsPublicationId (id : PublicationId) : Type 0 where
  pub sixteen : length id ≡ 16
  pub bytes : IsBytes id

-- The packet types.
abbrev pub type_manifest : ℕ
type_manifest = 1

abbrev pub type_chunk : ℕ
type_chunk = 2

abbrev pub type_receipt : ℕ
type_receipt = 4

abbrev pub type_error : ℕ
type_error = 6

pub record Packet : Type 0 where
  pub type : ℕ
  pub id : PublicationId
  pub body : List ℕ

unfoldable pub packet_bytes : Packet → List ℕ
packet_bytes p = b'G' ∷ b'P' ∷ 1 ∷ p.type ∷ (p.id ++ p.body)

unfoldable pub encode_packet : Packet → Result (List ℕ)
unfolding packet_bytes
encode_packet p = do
  fail_if (ltb max_packet_size (length p.body + header_size)) malformed
  ok (packet_bytes p)

unfoldable pub decode_packet : List ℕ → Result Packet
decode_packet b = do
  fail_if
      (ltb (length b) header_size
        || ltb max_packet_size (length b)
        || not (get_or b 0 0 == b'G')
        || not (get_or b 1 0 == b'P')
        || not (get_or b 2 0 == 1))
      malformed
  ok (record { type = get_or b 3 0; id = slice 4 20 b; body = drop 20 b })

-- The packets that fit.
pub record IsPacket (p : Packet) : Type 0 where
  pub type_byte : IsByte p.type
  pub id_valid : IsPublicationId p.id
  pub body_bytes : IsBytes p.body
  pub fits : length p.body + header_size ≤ max_packet_size
