-- ===== src/Modem/Cobs/RoundTrip.antt =====
-- Decoding what was encoded, and the shape of the encoder's output.
use ghost_cache.Common.{
  ℕ, zero, suc, ◌+◌, ◌-◌, ◌≤◌, ◌<◌, ◌≡◌, refl, sym, ap, ◌∙◌, true, false, inl, inr, not, ◌&&◌, List,
  [], ◌∷◌, ◌++◌, append-nil, append_assoc, arith, ltb, ◌==◌, ==_iff, if◌then◌else◌, length,
  length-append, take-append, drop-append, get_or, get_or-append, slice, ok,
}
use ghost_cache.Modem.Cobs.{decode_loop, cobs_encode, cobs_decode}
use ghost_cache.Modem.Cobs.Reference.{
  cobs_reference, cobs_reference_zero, cobs_reference_full, cobs_reference_open, block_cases,
  length-reference-pos, cobs_encode-reference,
}

-- One block of the input, behind what was read and before what is left.
record AtBlock (src pre block rest : List ℕ) : Type 0 where
  splits : src ≡ pre ++ (length block + 1) ∷ (block ++ rest)

slice_block :
    {src pre block rest : List ℕ}
    → AtBlock src pre block rest
    → slice (length pre + 1) (length pre + 1 + (length block + 1) - 1) src ≡ block
slice_block {src} {pre} {block} {rest} at =
    let code = length block + 1 in
    let low =
      drop-append (length pre + 1) (pre ++ code ∷ []) (block ++ rest)
        (omega (arith, length-append pre (code ∷ []))) in
    let width : length pre + 1 + (length block + 1) - 1 - (length pre + 1) ≡ length block =
      omega arith in
    rw (at.splits, width, ← append_assoc pre (code ∷ []) (block ++ rest), low)
      (take-append (length block) block rest refl)

length_block :
    {src pre block rest : List ℕ}
    → AtBlock src pre block rest
    → length src ≡ length pre + 1 + length block + length rest
length_block {src} {pre} {block} {rest} at = omega (
  arith,
  ap length at.splits,
  length-append pre ((length block + 1) ∷ (block ++ rest)),
  length-append block rest,
)

get_or_block :
    {src pre block rest : List ℕ}
    → AtBlock src pre block rest
    → get_or src (length pre) 0 ≡ length block + 1
get_or_block {src} {pre} {block} {rest} at =
    rw at.splits (get_or-append pre (block ++ rest) (length block + 1) 0)

abbrev behind : ℕ → List ℕ → List ℕ → List ℕ
behind size rest dst =
    if not (size + 1 == 0xff) && not (length rest == 0) then dst ++ 0 ∷ [] else dst

-- A round of the loop takes the block, and a zero behind it unless it is full or the last.
decode_loop_block :
    {src pre block rest : List ℕ} (fuel : ℕ) (dst : List ℕ)
    → AtBlock src pre block rest
    → decode_loop (suc fuel) src (length pre) dst
      ≡ decode_loop fuel src
          (length pre + 1 + length block)
          (behind (length block) rest (dst ++ block))
unfolding decode_loop
decode_loop_block {src} {pre} {block} {rest} fuel dst at =
    let size = length_block at in
    let end : length pre + 1 + (length block + 1) - 1 ≡ length pre + 1 + length block =
      omega arith in
    let inside : ltb (length pre) (length src) ≡ true = ground (arith, size) in
    let fits : ltb (length src + 1) (length pre + (length block + 1)) ≡ false =
      ground (arith, size) in
    let ends : ltb (length src) (length pre + 1 + length block) ≡ false = ground (arith, size) in
    let more : ltb (length pre + 1 + length block) (length src) ≡ not (length rest == 0) =
      ground (arith, size) in
    let code : (length block + 1 == 0) ≡ false = ground arith in
    rw (get_or_block at, slice_block at, end, inside, fits, ends, more, code) refl

pub decode_loop_end :
    (fuel : ℕ) (src dst : List ℕ) (index : ℕ)
    → length src ≤ index
    → decode_loop fuel src index dst ≡ ok dst
unfolding decode_loop
decode_loop_end zero src dst index h = refl
decode_loop_end (suc fuel) src dst index h =
    let done : ltb index (length src) ≡ false = ground arith in rw done refl

-- The round, with the index as the length of what is then read.
decode_loop_round :
    {src pre block rest : List ℕ} (fuel : ℕ) (dst : List ℕ)
    → AtBlock src pre block rest
    → decode_loop (suc fuel) src (length pre) dst
      ≡ decode_loop fuel src
          (length (pre ++ (length block + 1) ∷ block))
          (behind (length block) rest (dst ++ block))
decode_loop_round {src} {pre} {block} {rest} fuel dst at =
    let index : length (pre ++ (length block + 1) ∷ block) ≡ length pre + 1 + length block =
      omega (arith, length-append pre ((length block + 1) ∷ block)) in
    rw index (decode_loop_block fuel dst at)

decode_loop-reference :
    (fuel : ℕ) (src pre block bs dst : List ℕ)
    → length block < 254
    → src ≡ pre ++ cobs_reference block bs
    → length (cobs_reference block bs) ≤ fuel
    → decode_loop fuel src (length pre) dst ≡ ok ((dst ++ block) ++ bs)
decode_loop-reference zero src pre block bs dst h e f =
    absurd (omega (arith, length-reference-pos block bs))
decode_loop-reference (suc fuel) src pre block [] dst h e f =
    let at : AtBlock src pre block [] = record {
      splits = unfold cobs_reference in rw append-nil e;
    } in
    decode_loop_block fuel dst at
    ∙ decode_loop_end fuel src _ _ (omega (arith, length_block at))
    ∙ ground (arith, append-nil (dst ++ block))
decode_loop-reference (suc fuel) src pre block (b ∷ bs) dst h e f = elim (block_cases block b h) [
  | inl z ↦
      let rest = cobs_reference [] bs in
      let shape = cobs_reference_zero block bs b z in
      let at : AtBlock src pre block rest = record { splits = e ∙ ap (◌++◌ pre) shape } in
      let more : (length rest == 0) ≡ false = ground (arith, length-reference-pos [] bs) in
      let full : (length block + 1 == 0xff) ≡ false = ground arith in
      decode_loop_round fuel dst at
      ∙ decode_loop-reference fuel src (pre ++ (length block + 1) ∷ block) [] bs _ (omega arith)
          (at.splits ∙ sym (append_assoc pre ((length block + 1) ∷ block) rest))
          (omega (arith, ap length shape, length-append block rest))
      ∙ rw (full, more, (==_iff b 0).0 z) (simp (append-nil, append_assoc))
  | inr (inl (n, full)) ↦
      let rest = cobs_reference [] bs in
      let block' = block ++ b ∷ [] in
      let shape = cobs_reference_full block bs b n full in
      let size : length block' + 1 ≡ 0xff = omega (arith, length-append block (b ∷ [])) in
      let at : AtBlock src pre block' rest = record {
        splits = rw size (e ∙ ap (◌++◌ pre) shape);
      } in
      decode_loop_round fuel dst at
      ∙ decode_loop-reference fuel src (pre ++ (length block' + 1) ∷ block') [] bs _ (omega arith)
          (at.splits ∙ sym (append_assoc pre ((length block' + 1) ∷ block') rest))
          (omega (arith, ap length shape, length-append block' rest))
      ∙ rw size (simp (append-nil, append_assoc))
  | inr (inr (n, o)) ↦
      let shape = cobs_reference_open block bs b n o in
      decode_loop-reference (suc fuel) src pre (block ++ b ∷ []) bs dst
        (omega (arith, length-append block (b ∷ []))) (e ∙ ap (◌++◌ pre) shape)
        (omega (arith, ap length shape))
      ∙ simp append_assoc
]

cobs_decode_all :
    (src : List ℕ) → 0 < length src → cobs_decode src ≡ decode_loop (length src) src 0 []
unfolding cobs_decode
cobs_decode_all [] h = absurd (omega arith)
cobs_decode_all (b ∷ bs) h = refl

-- Decoding an encoded byte string gives the byte string back, whatever its bytes and its length.
pub cobs_decode-cobs_encode : (src : List ℕ) → cobs_decode (cobs_encode src) ≡ ok src
cobs_decode-cobs_encode src =
    let wire = cobs_reference [] src in
    rw (cobs_encode-reference src, cobs_decode_all wire (length-reference-pos [] src))
      (decode_loop-reference (length wire) wire [] [] src [] (omega arith) refl (omega arith))
