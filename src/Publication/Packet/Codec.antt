-- ===== src/Publication/Packet/Codec.antt =====
-- Publication packets on the wire.
use ghost_cache.Common.{
  ℕ, ◌≤◌, ◌≡◌, ap, subst, List, ◌∷◌, arith, length, length-append, length-take, length-drop, get_or,
  drop, slice, take-append, drop-append, take-append-drop, All-drop, All-slice, IsByte, IsBytes, ok,
}
use ghost_cache.Publication.Packet.{
  Packet, packet_bytes, encode_packet, decode_packet, IsPacket, header_size, max_packet_size,
}

-- A packet that fits is encoded, and decoded to the same packet.
pub decode_packet-encode_packet :
    (p : Packet)
    → IsPacket p
    → (encode_packet p ≡ ok (packet_bytes p)) × (decode_packet (packet_bytes p) ≡ ok p)
unfolding encode_packet decode_packet
decode_packet-encode_packet p v =
    let size = length-append p.id p.body in
    let fits = v.fits in
    let sixteen = v.id_valid.sixteen in
    (
      ground arith,
      ground (arith, take-append 16 p.id p.body sixteen, drop-append 16 p.id p.body sixteen, size),
    )

-- What the guards of `decode_packet` have let through.
record Accepted (b : List ℕ) (p : Packet) : Type 0 where
  long : header_size ≤ length b
  short : length b ≤ max_packet_size
  magic_g : get_or b 0 0 ≡ b'G'
  magic_p : get_or b 1 0 ≡ b'P'
  version : get_or b 2 0 ≡ 1
  kind : get_or b 3 0 ≡ p.type
  name : slice 4 20 b ≡ p.id
  content : drop 20 b ≡ p.body

decode_packet-Accepted : (b : List ℕ) (p : Packet) → decode_packet b ≡ ok p → Accepted b p
unfolding decode_packet
decode_packet-Accepted b p e = ground arith

packet_bytes-Accepted :
    (b : List ℕ) (p : Packet) → IsBytes b → Accepted b p → IsPacket p × (b ≡ packet_bytes p)
unfolding packet_bytes
packet_bytes-Accepted (g ∷ c ∷ v ∷ t ∷ rest) p bytes a =
    let b = g ∷ c ∷ v ∷ t ∷ rest in
    (
      record {
        type_byte = subst IsByte a.kind (All-drop IsByte 3 b bytes).0;
        id_valid = record {
          sixteen = omega (arith, ap length a.name, length-take 16 rest, a.long);
          bytes = subst IsBytes a.name (All-slice IsByte 4 20 b bytes);
        };
        body_bytes = subst IsBytes a.content (All-drop IsByte 20 b bytes);
        fits = omega (arith, ap length a.content, length-drop 16 rest, a.short, a.long);
      },
      ground (
        arith,
        a.magic_g,
        a.magic_p,
        a.version,
        a.kind,
        a.name,
        a.content,
        take-append-drop 16 rest,
      ),
    )
packet_bytes-Accepted b p bytes a = absurd (omega (arith, a.long))

-- Only encoded packets are accepted: an accepted packet is well formed and its bytes are its
-- encoding.
pub decode_packet_sound :
    (b : List ℕ) (p : Packet)
    → IsBytes b
    → decode_packet b ≡ ok p
    → IsPacket p × (b ≡ packet_bytes p)
decode_packet_sound b p bytes e = packet_bytes-Accepted b p bytes (decode_packet-Accepted b p e)
