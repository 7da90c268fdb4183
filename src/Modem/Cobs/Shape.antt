-- ===== src/Modem/Cobs/Shape.antt =====
-- What the encoder's output looks like on the wire: no delimiter inside, bytes only, bounded length.
use ghost_cache.Common.{
  ℕ, ◌+◌, ◌/◌, ◌≤◌, ◌<◌, ap, inl, inr, List, [], ◌∷◌, ◌++◌, arith, length, length-append, All,
  All-append, IsByte, IsBytes,
}
use ghost_cache.Modem.Cobs.{cobs_encode}
use ghost_cache.Modem.Cobs.Reference.{
  cobs_reference, cobs_reference_zero, cobs_reference_full, cobs_reference_open, block_cases,
  length-reference-pos, cobs_encode-reference,
}

abbrev pub IsNonzero : ℕ → Type 0
IsNonzero b = 0 < b

reference-IsNonzero :
    (block bs : List ℕ)
    → length block < 254
    → All IsNonzero block
    → All IsNonzero (cobs_reference block bs)
reference-IsNonzero block [] h nz = unfold cobs_reference in (omega arith, nz)
reference-IsNonzero block (b ∷ bs) h nz = elim (block_cases block b h) [
  | inl z ↦
      rw (cobs_reference_zero block bs b z)
        (omega arith, All-append IsNonzero block _ nz (reference-IsNonzero [] bs (omega arith) tt))
  | inr (inl (n, full)) ↦
      let grown = All-append IsNonzero block (b ∷ []) nz (ground arith, tt) in
      rw (cobs_reference_full block bs b n full) (
        omega arith,
        All-append IsNonzero (block ++ b ∷ []) _ grown (reference-IsNonzero [] bs (omega arith) tt),
      )
  | inr (inr (n, o)) ↦ rw (cobs_reference_open block bs b n o) (
      reference-IsNonzero (block ++ b ∷ []) bs (omega (arith, length-append block (b ∷ [])))
        (All-append IsNonzero block (b ∷ []) nz (ground arith, tt)))
]

reference-IsBytes :
    (block bs : List ℕ)
    → length block < 254
    → IsBytes block
    → IsBytes bs
    → IsBytes (cobs_reference block bs)
reference-IsBytes block [] h bytes t = unfold cobs_reference in (omega arith, bytes)
reference-IsBytes block (b ∷ bs) h bytes t = elim (block_cases block b h) [
  | inl z ↦
      rw (cobs_reference_zero block bs b z) (
        omega arith,
        All-append IsByte block _ bytes (reference-IsBytes [] bs (omega arith) tt t.1),
      )
  | inr (inl (n, full)) ↦
      let grown = All-append IsByte block (b ∷ []) bytes (t.0, tt) in
      rw (cobs_reference_full block bs b n full) (
        omega arith,
        All-append IsByte (block ++ b ∷ []) _ grown (reference-IsBytes [] bs (omega arith) tt t.1),
      )
  | inr (inr (n, o)) ↦ rw (cobs_reference_open block bs b n o) (
      reference-IsBytes (block ++ b ∷ []) bs (omega (arith, length-append block (b ∷ [])))
        (All-append IsByte block (b ∷ []) bytes (t.0, tt)) t.1)
]

length-reference-le :
    (block bs : List ℕ)
    → length block < 254
    → length (cobs_reference block bs)
      ≤ length block + length bs + (length block + length bs) / 254 + 1
length-reference-le block [] h = unfold cobs_reference in omega arith
length-reference-le block (b ∷ bs) h = elim (block_cases block b h) [
  | inl z ↦ omega (
    arith,
    ap length (cobs_reference_zero block bs b z),
    length-append block (cobs_reference [] bs),
    length-reference-le [] bs (omega arith),
  )
  | inr (inl (n, full)) ↦ omega (
    arith,
    ap length (cobs_reference_full block bs b n full),
    length-append (block ++ b ∷ []) (cobs_reference [] bs),
    length-append block (b ∷ []),
    length-reference-le [] bs (omega arith),
  )
  | inr (inr (n, o)) ↦ omega (
    arith,
    ap length (cobs_reference_open block bs b n o),
    length-append block (b ∷ []),
    length-reference-le (block ++ b ∷ []) bs (omega (arith, length-append block (b ∷ []))),
  )
]

pub cobs_encode-IsNonzero : (src : List ℕ) → All IsNonzero (cobs_encode src)
cobs_encode-IsNonzero src =
    rw (cobs_encode-reference src) (reference-IsNonzero [] src (omega arith) tt)

pub cobs_encode-IsBytes : (src : List ℕ) → IsBytes src → IsBytes (cobs_encode src)
cobs_encode-IsBytes src h =
    rw (cobs_encode-reference src) (reference-IsBytes [] src (omega arith) tt h)

pub length-cobs_encode-le :
    (src : List ℕ) → length (cobs_encode src) ≤ length src + length src / 254 + 1
length-cobs_encode-le src =
    omega (arith, ap length (cobs_encode-reference src), length-reference-le [] src (omega arith))

pub length-cobs_encode-pos : (src : List ℕ) → 0 < length (cobs_encode src)
length-cobs_encode-pos src =
    omega (arith, ap length (cobs_encode-reference src), length-reference-pos [] src)

-- The encoded bytes hold no zero, so that a zero can end the frame; they are bytes; and they are
-- no more than the input, one byte for each 254 of it, and one more (the capacity that the encoder
-- asks for).
pub cobs_encode_shape :
    (src : List ℕ)
    → IsBytes src
    → All IsNonzero (cobs_encode src)
      × IsBytes (cobs_encode src)
      × (length (cobs_encode src) ≤ length src + length src / 254 + 1)
cobs_encode_shape src h =
    (cobs_encode-IsNonzero src, cobs_encode-IsBytes src h, length-cobs_encode-le src)
