-- ===== src/Node/Packet.antt =====
-- `Packet`, `Encode` and `Decode` of internal/node/protocol.go.
pub mod Codec
use ghost_cache.Common.{
  ℕ, ◌+◌, ◌≤◌, ◌<◌, ◌^◌, Bool, true, false, not, ◌||◌, List, [], ◌∷◌, ◌++◌, ltb, ◌==◌, length,
  get_or, drop, slice, put_le, get_le, IsByte, IsBytes, Result, ok, err, malformed, ◌>>=◌, ◌>>◌,
  fail_if,
}

abbrev pub version : ℕ
version = 3

abbrev pub max_packet_size : ℕ
max_packet_size = 200

abbrev pub header_size : ℕ
header_size = 14

abbrev pub max_chunk_batch : ℕ
max_chunk_batch = 4

-- A uint32.
abbrev pub NodeId : Type 0
NodeId = ℕ

abbrev pub broadcast : NodeId
broadcast = 0xffffffff

pub record Packet : Type 0 where
  pub type : ℕ
  pub source : NodeId
  pub destination : NodeId
  pub transaction : ℕ
  pub body : List ℕ

unfoldable pub packet_bytes : Packet → List ℕ
packet_bytes p =
    b'G'
    ∷ b'N'
    ∷ version
    ∷ p.type
    ∷ (put_le 4 p.source ++ (put_le 4 p.destination ++ (put_le 2 p.transaction ++ p.body)))

unfoldable pub encode : Packet → Result (List ℕ)
unfolding packet_bytes
encode p = do
  fail_if (ltb max_packet_size (length p.body + header_size)) malformed
  ok (packet_bytes p)

unfoldable pub decode : List ℕ → Result Packet
decode b = do
  fail_if
      (ltb (length b) header_size
        || ltb max_packet_size (length b)
        || not (get_or b 0 0 == b'G')
        || not (get_or b 1 0 == b'N')
        || not (get_or b 2 0 == version))
      malformed
  ok (record {
    type = get_or b 3 0;
    source = get_le (slice 4 8 b);
    destination = get_le (slice 8 12 b);
    transaction = get_le (slice 12 14 b);
    body = drop 14 b;
  })

-- The packets that fit.
pub record IsPacket (p : Packet) : Type 0 where
  pub type_byte : IsByte p.type
  pub source_word : p.source < 2 ^ 32
  pub destination_word : p.destination < 2 ^ 32
  pub transaction_word : p.transaction < 2 ^ 16
  pub body_bytes : IsBytes p.body
  pub fits : length p.body + header_size ≤ max_packet_size
