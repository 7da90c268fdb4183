-- ===== src/Modem/Frame/Codec.antt =====
-- Frames on the wire: what is encoded is decoded, and only that.
use ghost_cache.Common.{
  ℕ, ◌+◌, ◌-◌, ◌<◌, ◌≤◌, ◌≡◌, refl, sym, ap, ◌∙◌, subst, List, [], ◌∷◌, ◌++◌, arith, length,
  length-append, get_or, slice, take, drop, take-append, drop-append, take_all, take-append-drop,
  length-take, length-drop, All-take, All-drop, All-slice, put_le, get_le, get_le-put_le,
  put_le-get_le_at, get_le-lt, IsByte, IsBytes, ok, err, >>=-eq-ok, All, too_long,
}
use native.Mathlib.Numerals.{add_eight}
use ghost_cache.Modem.Cobs.{cobs_encode, cobs_decode}
use ghost_cache.Modem.Cobs.RoundTrip.{cobs_decode-cobs_encode}
use ghost_cache.Modem.Cobs.Decoded.{cobs_decode_shape}
use ghost_cache.Modem.Cobs.Shape.{
  IsNonzero, length-cobs_encode-le, length-cobs_encode-pos, cobs_encode-IsNonzero,
}
use ghost_cache.Modem.Crc.{crc32, crc32-lt}
use ghost_cache.Modem.Frame.{
  Frame, frame_head, raw_frame, encode_frame, decode_raw, decode_frame, IsFrame, max_frame_payload,
}

length-frame_head : (f : Frame) → length (frame_head f) ≡ 8 + length f.payload
unfolding frame_head
length-frame_head f = omega arith

length-raw_frame : (f : Frame) → length (raw_frame f) ≡ 8 + length f.payload + 4
unfolding raw_frame
length-raw_frame f =
    omega
      (arith, length-frame_head f, length-append (frame_head f) (put_le 4 (crc32 (frame_head f))))

take-raw_frame : (f : Frame) → take (length (raw_frame f) - 4) (raw_frame f) ≡ frame_head f
unfolding raw_frame
take-raw_frame f =
    take-append _ (frame_head f) (put_le 4 (crc32 (frame_head f)))
      (omega (arith, length-frame_head f, length-raw_frame f))

crc-raw_frame :
    (f : Frame)
    → get_le (slice (length (raw_frame f) - 4) (length (raw_frame f)) (raw_frame f))
      ≡ crc32 (frame_head f)
unfolding raw_frame
crc-raw_frame f =
    let tail = put_le 4 (crc32 (frame_head f)) in
    let low =
      drop-append (length (raw_frame f) - 4) (frame_head f) tail
        (omega (arith, length-frame_head f, length-raw_frame f)) in
    rw
      (
        low,
        take_all (length (raw_frame f) - (length (raw_frame f) - 4)) tail
            (omega (arith, length-raw_frame f)),
      )
      (get_le-put_le 4 (crc32 (frame_head f)) (omega (arith, crc32-lt (frame_head f))))

payload-raw_frame : (f : Frame) → slice 8 (8 + length f.payload) (raw_frame f) ≡ f.payload
unfolding raw_frame frame_head
payload-raw_frame f = take-append _ f.payload (put_le 4 (crc32 (frame_head f))) (omega arith)

-- The fields at their fixed places.
fields-raw_frame :
    (f : Frame)
    → IsFrame f
    → (get_or (raw_frame f) 0 0 ≡ b'G')
      × (get_or (raw_frame f) 1 0 ≡ b'C')
      × (get_or (raw_frame f) 2 0 ≡ 1)
      × (get_or (raw_frame f) 3 0 ≡ f.type)
      × (get_le (slice 4 6 (raw_frame f)) ≡ f.sequence)
      × (get_le (slice 6 8 (raw_frame f)) ≡ length f.payload)
unfolding raw_frame frame_head
fields-raw_frame f v = (
  refl,
  refl,
  refl,
  refl,
  get_le-put_le 2 f.sequence v.sequence_word,
  get_le-put_le 2 (length f.payload) (omega (arith, v.payload_fits)),
)

decode_raw-raw_frame : (f : Frame) → IsFrame f → decode_raw (raw_frame f) ≡ ok f
unfolding decode_raw
decode_raw-raw_frame f v = ground (
  arith,
  fields-raw_frame f v,
  payload-raw_frame f,
  crc-raw_frame f,
  take-raw_frame f,
  length-raw_frame f,
)

-- What the guards of `decode_raw` have let through.
record Accepted (raw : List ℕ) (f : Frame) : Type 0 where
  magic_g : get_or raw 0 0 ≡ b'G'
  magic_c : get_or raw 1 0 ≡ b'C'
  version : get_or raw 2 0 ≡ 1
  kind : get_or raw 3 0 ≡ f.type
  number : get_le (slice 4 6 raw) ≡ f.sequence
  size : length raw ≡ 8 + get_le (slice 6 8 raw) + 4
  fits : get_le (slice 6 8 raw) ≤ max_frame_payload
  crc : crc32 (take (length raw - 4) raw) ≡ get_le (slice (length raw - 4) (length raw) raw)
  content : slice 8 (8 + get_le (slice 6 8 raw)) raw ≡ f.payload

decode_raw-Accepted : (raw : List ℕ) (f : Frame) → decode_raw raw ≡ ok f → Accepted raw f
unfolding decode_raw
decode_raw-Accepted raw f e = ground arith

-- The last four bytes are the checksum of the others.
crc_tail :
    (raw : List ℕ) (n : ℕ)
    → IsBytes raw
    → length raw ≡ n + 4
    → crc32 (take (length raw - 4) raw) ≡ get_le (slice (length raw - 4) (length raw) raw)
    → raw ≡ take n raw ++ put_le 4 (crc32 (take n raw))
crc_tail raw n bytes size crc =
    let start : length raw - 4 ≡ n = omega arith in
    let tail = drop n raw in
    let four : length tail ≡ 4 = omega (arith, length-drop n raw) in
    let read : crc32 (take n raw) ≡ get_le tail =
      rw start at crc ∙ ap get_le (take_all (length raw - n) tail (omega arith)) in
    sym (take-append-drop n raw)
    ∙ ap (λ (t : List ℕ). take n raw ++ t)
        (sym (put_le-get_le_at 4 tail four (All-drop IsByte n raw bytes))
          ∙ ap (put_le 4) (sym read))

raw_frame-Accepted :
    (raw : List ℕ) (f : Frame) → IsBytes raw → Accepted raw f → IsFrame f × (raw ≡ raw_frame f)
unfolding raw_frame frame_head
raw_frame-Accepted (g ∷ c ∷ v ∷ t ∷ s ∷ s' ∷ l ∷ l' ∷ rest) f bytes a =
    let raw = g ∷ c ∷ v ∷ t ∷ s ∷ s' ∷ l ∷ l' ∷ rest in
    let size = get_le (l ∷ l' ∷ []) in
    let body = take size rest in
    let long : length rest ≡ size + 4 = omega (arith, a.size) in
    let content : body ≡ f.payload = ap (λ (n : ℕ). take n rest) (omega arith) ∙ a.content in
    let length_body : length f.payload ≡ size =
      omega (arith, ap length content, length-take size rest) in
    let number : put_le 2 f.sequence ≡ s ∷ s' ∷ [] =
      ap (put_le 2) (sym a.number)
      ∙ put_le-get_le_at 2 (s ∷ s' ∷ []) refl (All-slice IsByte 4 6 raw bytes) in
    let count : put_le 2 (length f.payload) ≡ l ∷ l' ∷ [] =
      ap (put_le 2) length_body
      ∙ put_le-get_le_at 2 (l ∷ l' ∷ []) refl (All-slice IsByte 6 8 raw bytes) in
    let head : take (size + 8) raw ≡ frame_head f =
      rw add_eight
        (ground (arith, a.magic_g, a.magic_c, a.version, a.kind, number, count, content)) in
    (
      record {
        type_byte = subst IsByte a.kind (All-drop IsByte 3 raw bytes).0;
        sequence_word = rw a.number at (get_le-lt (s ∷ s' ∷ []) (All-slice IsByte 4 6 raw bytes));
        payload_bytes =
            subst IsBytes content (All-take IsByte size rest (All-drop IsByte 8 raw bytes));
        payload_fits = omega (arith, a.fits);
      },
      crc_tail raw (size + 8) bytes (omega (arith, a.size)) a.crc
          ∙ ap (λ (h : List ℕ). h ++ put_le 4 (crc32 h)) head,
    )
raw_frame-Accepted raw f bytes a = absurd (omega (arith, a.size))

-- What an accepted serial record, a list of bytes, holds once its COBS coding is undone is exactly the
-- raw form of the frame that is read: magic, version, fields, length, payload and checksum, with every
-- field in range and nothing behind.
pub decode_frame_sound :
    (wire : List ℕ) (f : Frame)
    → IsBytes wire
    → decode_frame wire ≡ ok f
    → IsFrame f × (cobs_decode wire ≡ ok (raw_frame f))
unfolding decode_frame
decode_frame_sound wire f bytes e =
    let (raw, decoded, parsed) = >>=-eq-ok (cobs_decode wire) decode_raw e in
    let (valid, same) =
      raw_frame-Accepted raw f (cobs_decode_shape wire bytes decoded).0
        (decode_raw-Accepted raw f parsed) in
    (valid, decoded ∙ ap ok same)

-- A frame within the limits is encoded as a record with no zero in it and a zero behind it, and
-- the record is decoded to the same frame. It fits the 544 bytes that the stream decoder keeps.
pub decode_frame-encode_frame :
    (f : Frame)
    → IsFrame f
    → (wire : List ℕ) × (encode_frame f ≡ ok (wire ++ 0 ∷ []))
      × (decode_frame wire ≡ ok f)
      × All IsNonzero wire
      × (0 < length wire)
      × (length wire ≤ max_frame_payload + 32)
unfolding encode_frame decode_frame
decode_frame-encode_frame f v = (
  cobs_encode (raw_frame f),
  ground (arith, v.payload_fits),
  rw (cobs_decode-cobs_encode (raw_frame f)) (decode_raw-raw_frame f v),
  cobs_encode-IsNonzero (raw_frame f),
  length-cobs_encode-pos (raw_frame f),
  omega (arith, length-cobs_encode-le (raw_frame f), length-raw_frame f, v.payload_fits),
)

-- A longer payload is refused.
pub encode_frame_refuses :
    (f : Frame)
    → max_frame_payload < length f.payload
    → encode_frame f ≡ err (too_long (length f.payload))
unfolding encode_frame
encode_frame_refuses f h = ground arith
