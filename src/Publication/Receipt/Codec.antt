-- ===== src/Publication/Receipt/Codec.antt =====
-- The bitmap of a receipt is read back as the list that it was made from.
use ghost_cache.Common.{
  ℕ, zero, suc, ◌+◌, ◌*◌, ◌/◌, ◌%◌, ◌^◌, ◌≤◌, ◌<◌, ◌≡◌, ◌≢◌, refl, ap, ap₂, ◌∙◌, Bool, true, false,
  ◌||◌, List, [], ◌∷◌, ◌++◌, inl, inr, arith, ◌==◌, if◌then◌else◌, Bool-cases, length, length-set,
  length-replicate, get_or, get_or-append_past, get_or-set_self, get_or-set_ne, slice, replicate,
  take, take-set, get_or-replicate, IsBytes-get_or, IsBytes-set, zeros-IsBytes, put_le, get_le,
  get_le-put_le, IsBytes, bit_or, ok, ◌>>=◌,
}
use ghost_cache.Publication.Packet.{
  PublicationId, IsPublicationId, Packet, packet_bytes, decode_packet, type_receipt, max_chunks,
}
use ghost_cache.Publication.Packet.Codec.{decode_packet-encode_packet}
use ghost_cache.Publication.Receipt.Bits.{bit_or-lt, bit_test-bit_or, bit_test-zero}
use ghost_cache.Publication.Receipt.{
  mark, is_marked, mark_loop, receipt_body, encode_receipt, marks_from, decode_receipt,
}

mark-IsBytes : (body : List ℕ) (i : ℕ) → IsBytes body → IsBytes (mark body i)
unfolding mark
mark-IsBytes body i h = IsBytes-set body (2 + i / 8) _ h (
    bit_or-lt (get_or body (2 + i / 8) 0) (i % 8) (IsBytes-get_or body (2 + i / 8) h) (omega arith))

length-mark : (body : List ℕ) (i : ℕ) → length (mark body i) ≡ length body
unfolding mark
length-mark body i = length-set body (2 + i / 8) _

-- Marking index i marks i and no other.
is_marked-mark :
    (body : List ℕ) (i j : ℕ)
    → IsBytes body
    → 2 + i / 8 < length body
    → is_marked (mark body i) j ≡ (if i == j then true else is_marked body j)
unfolding is_marked mark
is_marked-mark body i j h inside = elim (Bool-cases (i / 8 == j / 8)) [
  | inl same ↦
      let e : j / 8 ≡ i / 8 = ground arith in
      let old = get_or body (2 + i / 8) 0 in
      let byte = IsBytes-get_or body (2 + i / 8) h in
      let test : (i == j) ≡ (i % 8 == j % 8) = ground arith in
      rw (e, get_or-set_self body (2 + i / 8) (bit_or old (2 ^ (i % 8))) 0 inside, test)
        (bit_test-bit_or old (i % 8) (j % 8) byte (omega arith) (omega arith))
  | inr other ↦
      let test : (i == j) ≡ false = ground arith in
      rw (test, get_or-set_ne body (2 + i / 8) (2 + j / 8) _ 0 (ground arith)) refl
]

-- A round of the loop keeps the body a body and sets at most the bit of its index.
record Marked (body body' : List ℕ) (i : ℕ) (done : Bool) : Type 0 where
  bytes : IsBytes body'
  size : length body' ≡ length body
  here : is_marked body' i ≡ (done || is_marked body i)
  elsewhere : (j : ℕ) → i ≢ j → is_marked body' j ≡ is_marked body j

round-Marked :
    (body : List ℕ) (i : ℕ) (done : Bool)
    → IsBytes body
    → 2 + i / 8 < length body
    → Marked body (if done then mark body i else body) i done
round-Marked body i true h inside = record {
  bytes = mark-IsBytes body i h;
  size = length-mark body i;
  here = ground (arith, is_marked-mark body i i h inside);
  elsewhere = λ j ne. ground (arith, is_marked-mark body i j h inside);
}
round-Marked body i false h inside = record {
  bytes = h;
  size = refl;
  here = refl;
  elsewhere = λ j ne. refl;
}

length-mark_loop :
    (body : List ℕ) (i : ℕ) (rs : List Bool) → length (mark_loop body i rs) ≡ length body
unfolding mark_loop
length-mark_loop body i [] = refl
length-mark_loop body i (true ∷ rs) = length-mark_loop (mark body i) (i + 1) rs ∙ length-mark body i
length-mark_loop body i (false ∷ rs) = length-mark_loop body (i + 1) rs

mark_loop-IsBytes :
    (body : List ℕ) (i : ℕ) (rs : List Bool) → IsBytes body → IsBytes (mark_loop body i rs)
unfolding mark_loop
mark_loop-IsBytes body i [] h = h
mark_loop-IsBytes body i (true ∷ rs) h =
    mark_loop-IsBytes (mark body i) (i + 1) rs (mark-IsBytes body i h)
mark_loop-IsBytes body i (false ∷ rs) h = mark_loop-IsBytes body (i + 1) rs h

-- The loop leaves the bits below its first index alone.
is_marked-mark_loop_below :
    (body : List ℕ) (i j : ℕ) (rs : List Bool)
    → IsBytes body
    → i + length rs + 16 ≤ 8 * length body
    → j < i
    → is_marked (mark_loop body i rs) j ≡ is_marked body j
unfolding mark_loop
is_marked-mark_loop_below body i j [] h fits lt = refl
is_marked-mark_loop_below body i j (done ∷ rs) h fits lt =
    let m = round-Marked body i done h (omega arith) in
    is_marked-mark_loop_below (if done then mark body i else body) (i + 1) j rs m.bytes
      (omega (arith, m.size)) (omega arith)
    ∙ m.elsewhere j (omega arith)

-- Bit `i + d` afterwards is flag d of the list, where it was not set before.
is_marked-mark_loop :
    (body : List ℕ) (i d : ℕ) (rs : List Bool)
    → IsBytes body
    → i + length rs + 16 ≤ 8 * length body
    → is_marked body (i + d) ≡ false
    → is_marked (mark_loop body i rs) (i + d) ≡ get_or rs d false
unfolding mark_loop
is_marked-mark_loop body i d [] h fits clear = clear
is_marked-mark_loop body i zero (done ∷ rs) h fits clear =
    let m = round-Marked body i done h (omega arith) in
    let e : i + zero ≡ i = omega arith in
    rw e (
      is_marked-mark_loop_below _ (i + 1) i rs m.bytes (omega (arith, m.size)) (omega arith)
      ∙ m.here
      ∙ ground (arith, rw e at clear))
is_marked-mark_loop body i (suc d) (done ∷ rs) h fits clear =
    let m = round-Marked body i done h (omega arith) in
    let e : i + suc d ≡ i + 1 + d = omega arith in
    rw e (
      is_marked-mark_loop (if done then mark body i else body) (i + 1) d rs m.bytes
        (omega (arith, m.size)) (m.elsewhere (i + 1 + d) (omega arith) ∙ rw e at clear))

-- Reading the marks of a list back.
marks_from-eq :
    (i : ℕ) (rs : List Bool) (body : List ℕ)
    → ((d : ℕ) → is_marked body (i + d) ≡ get_or rs d false)
    → marks_from i (length rs) body ≡ rs
unfolding marks_from
marks_from-eq i [] body h = refl
marks_from-eq i (r ∷ rs) body h =
    let e : i + 0 ≡ i = omega arith in
    ap₂ (λ (b : Bool) (bs : List Bool). b ∷ bs) (rw e at (h 0))
      (marks_from-eq (i + 1) rs body
        (λ d. let e : i + 1 + d ≡ i + suc d = omega arith in rw e (h (suc d))))

-- The body before the loop: the count, and a bitmap of zeros.
blank : ℕ → ℕ → List ℕ
blank chunk_count size = put_le 2 chunk_count ++ replicate size 0

blank-clear : (chunk_count size j : ℕ) → is_marked (blank chunk_count size) j ≡ false
unfolding is_marked blank
blank-clear chunk_count size j =
    let e : get_or (put_le 2 chunk_count ++ replicate size 0) (2 + j / 8) 0 ≡ 0 =
      get_or-append_past 2 (2 + j / 8) (j / 8) (put_le 2 chunk_count) (replicate size 0) 0 refl refl
      ∙ get_or-replicate size (j / 8) 0 in
    rw e (bit_test-zero (j % 8) (omega arith))

blank-IsBytes : (chunk_count size : ℕ) → IsBytes (blank chunk_count size)
unfolding blank
blank-IsBytes chunk_count size = (omega arith, (omega arith, zeros-IsBytes size))

length-blank : (chunk_count size : ℕ) → length (blank chunk_count size) ≡ 2 + size
unfolding blank
length-blank chunk_count size = omega (arith, length-replicate size (let z : ℕ = 0 in z))

take-blank : (n size : ℕ) → take 2 (blank n size) ≡ put_le 2 n
unfolding blank
take-blank n size = refl

receipt_body-blank :
    (n : ℕ) (rs : List Bool) → receipt_body n rs ≡ mark_loop (blank n ((length rs + 7) / 8)) 0 rs
unfolding receipt_body blank
receipt_body-blank n rs = refl

length-receipt_body :
    (n : ℕ) (rs : List Bool) → length (receipt_body n rs) ≡ 2 + (length rs + 7) / 8
length-receipt_body n rs =
    ap length (receipt_body-blank n rs)
    ∙ length-mark_loop (blank n ((length rs + 7) / 8)) 0 rs
    ∙ length-blank n ((length rs + 7) / 8)

receipt_body-IsBytes : (n : ℕ) (rs : List Bool) → IsBytes (receipt_body n rs)
receipt_body-IsBytes n rs =
    rw (receipt_body-blank n rs) (
      mark_loop-IsBytes (blank n ((length rs + 7) / 8)) 0 rs
        (blank-IsBytes n ((length rs + 7) / 8)))

-- The bits of the body are the flags of the list.
is_marked-receipt_body :
    (n d : ℕ) (rs : List Bool) → is_marked (receipt_body n rs) (0 + d) ≡ get_or rs d false
is_marked-receipt_body n d rs =
    let size = (length rs + 7) / 8 in
    rw (receipt_body-blank n rs) (
      is_marked-mark_loop (blank n size) 0 d rs (blank-IsBytes n size)
        (omega (arith, length-blank n size)) (blank-clear n size (0 + d)))

take-mark_loop :
    (body : List ℕ) (i : ℕ) (rs : List Bool) → take 2 (mark_loop body i rs) ≡ take 2 body
unfolding mark_loop mark
take-mark_loop body i [] = refl
take-mark_loop body i (true ∷ rs) =
    take-mark_loop (mark body i) (i + 1) rs ∙ take-set 2 (2 + i / 8) _ body (omega arith)
take-mark_loop body i (false ∷ rs) = take-mark_loop body (i + 1) rs

-- The two bytes of the count are not touched.
count-receipt_body :
    (n : ℕ) (rs : List Bool) → n < 2 ^ 16 → get_le (slice 0 2 (receipt_body n rs)) ≡ n
count-receipt_body n rs h =
    let size = (length rs + 7) / 8 in
    ap get_le (
      ap (take 2) (receipt_body-blank n rs)
      ∙ take-mark_loop (blank n size) 0 rs
      ∙ take-blank n size)
    ∙ get_le-put_le 2 n h

abbrev pub receipt_packet : PublicationId → List Bool → Packet
receipt_packet id rs = record { type = type_receipt; id = id; body = receipt_body (length rs) rs }

decode_receipt_body :
    (p : Packet) (n : ℕ)
    → p.type ≡ type_receipt
    → length p.body ≡ 2 + (n + 7) / 8
    → get_le (slice 0 2 p.body) ≡ n
    → n ≤ max_chunks
    → decode_receipt p ≡ ok (marks_from 0 n p.body)
unfolding decode_receipt
decode_receipt_body p n kind size count h = ground arith

-- A receipt for up to 1,424 chunks is sent, and read back flag by flag.
pub decode_receipt-encode_receipt :
    (id : PublicationId) (received : List Bool)
    → IsPublicationId id
    → length received ≤ max_chunks
    → (wire : List ℕ) × (encode_receipt id (length received) received ≡ ok wire)
      × ((decode_packet wire >>= decode_receipt) ≡ ok received)
decode_receipt-encode_receipt id received v h =
    let body = receipt_body (length received) received in
    let size = length-receipt_body (length received) received in
    let (encoded, decoded) = decode_packet-encode_packet (receipt_packet id received) (record {
      type_byte = omega arith;
      id_valid = v;
      body_bytes = receipt_body-IsBytes (length received) received;
      fits = omega (arith, size);
    }) in
    let flags =
      marks_from-eq 0 received body (λ d. is_marked-receipt_body (length received) d received) in
    (
      packet_bytes (receipt_packet id received),
      unfold encode_receipt in ground (arith, encoded),
      rw decoded (
          decode_receipt_body (receipt_packet id received) (length received) refl size
            (count-receipt_body (length received) received (omega arith)) h
          ∙ ap ok flags),
    )
