-- ===== src/Node/Packet/Codec.antt =====
-- Node packets on the wire.
use ghost_cache.Common.{
  ℕ, ◌-◌, ◌≤◌, ◌<◌, ◌≡◌, refl, sym, ap, ap₂, subst, ◌∙◌, List, ◌∷◌, ◌++◌, arith, length,
  length-take, length-drop, get_or, drop, slice, put_le, get_le, get_le-put_le, get_le-lt,
  put_le_field, span, All-drop, All-slice, IsByte, IsBytes, ok,
}
use ghost_cache.Node.Packet.{
  Packet, packet_bytes, encode, decode, IsPacket, header_size, max_packet_size, version,
}

-- A packet that fits is sent in at most 200 bytes, and decoded to the same packet.
pub decode-encode :
    (p : Packet)
    → IsPacket p
    → (encode p ≡ ok (packet_bytes p))
      × (decode (packet_bytes p) ≡ ok p)
      × (length (packet_bytes p) ≤ max_packet_size)
unfolding encode decode
decode-encode p v =
    let fits = v.fits in
    (
      ground arith,
      ground (
        arith,
        get_le-put_le 4 p.source v.source_word,
        get_le-put_le 4 p.destination v.destination_word,
        get_le-put_le 2 p.transaction v.transaction_word,
      ),
      omega arith,
    )

-- What the guards of `decode` have let through.
record Accepted (b : List ℕ) (p : Packet) : Type 0 where
  long : header_size ≤ length b
  short : length b ≤ max_packet_size
  magic_g : get_or b 0 0 ≡ b'G'
  magic_n : get_or b 1 0 ≡ b'N'
  number : get_or b 2 0 ≡ version
  kind : get_or b 3 0 ≡ p.type
  from : get_le (slice 4 8 b) ≡ p.source
  to : get_le (slice 8 12 b) ≡ p.destination
  tx : get_le (slice 12 14 b) ≡ p.transaction
  content : drop 14 b ≡ p.body

decode-Accepted : (b : List ℕ) (p : Packet) → decode b ≡ ok p → Accepted b p
unfolding decode
decode-Accepted b p e = ground arith

-- An integer field that was read is below its span.
field-lt :
    (low high n : ℕ) (b : List ℕ)
    → IsBytes b
    → high - low ≡ n
    → high ≤ length b
    → low ≤ high
    → get_le (slice low high b) < span n
field-lt low high n b bytes width fits order =
    subst (λ (k : ℕ). get_le (slice low high b) < span k)
      (length-take (high - low) (drop low b) ∙ omega (arith, length-drop low b))
      (get_le-lt (slice low high b) (All-slice IsByte low high b bytes))

packet_bytes-Accepted :
    (b : List ℕ) (p : Packet) → IsBytes b → Accepted b p → IsPacket p × (b ≡ packet_bytes p)
unfolding packet_bytes
packet_bytes-Accepted (g ∷ n ∷ v ∷ t ∷ rest) p bytes a =
    let b = g ∷ n ∷ v ∷ t ∷ rest in
    let long = a.long in
    let body : rest
        ≡ put_le 4 p.source ++ (put_le 4 p.destination ++ (put_le 2 p.transaction ++ p.body)) =
      sym (put_le_field 4 8 b bytes (omega arith) (omega arith))
      ∙ ap₂ (λ (k : ℕ) (xs : List ℕ). put_le 4 k ++ xs) a.from
          (sym (put_le_field 8 12 b bytes (omega arith) (omega arith))
            ∙ ap₂ (λ (k : ℕ) (xs : List ℕ). put_le 4 k ++ xs) a.to
                (sym (put_le_field 12 14 b bytes (omega arith) (omega arith))
                  ∙ ap₂ (λ (k : ℕ) (xs : List ℕ). put_le 2 k ++ xs) a.tx a.content)) in
    (
      record {
        type_byte = subst IsByte a.kind (All-drop IsByte 3 b bytes).0;
        source_word = rw a.from at (field-lt 4 8 4 b bytes refl (omega arith) (omega arith));
        destination_word = rw a.to at (field-lt 8 12 4 b bytes refl (omega arith) (omega arith));
        transaction_word = rw a.tx at (field-lt 12 14 2 b bytes refl (omega arith) (omega arith));
        body_bytes = subst IsBytes a.content (All-drop IsByte 14 b bytes);
        fits = omega (arith, ap length a.content, length-drop 10 rest, a.short, a.long);
      },
      ground (arith, a.magic_g, a.magic_n, a.number, a.kind, body),
    )
packet_bytes-Accepted b p bytes a = absurd (omega (arith, a.long))

-- Only encoded packets are accepted: an accepted packet is well formed and its bytes are its
-- encoding.
pub decode_sound :
    (b : List ℕ) (p : Packet) → IsBytes b → decode b ≡ ok p → IsPacket p × (b ≡ packet_bytes p)
decode_sound b p bytes e = packet_bytes-Accepted b p bytes (decode-Accepted b p e)
