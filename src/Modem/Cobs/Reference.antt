-- ===== src/Modem/Cobs/Reference.antt =====
-- COBS as a recursion over the input with the open block in hand, and the encoder's loop against it.
use ghost_cache.Common.{
  ℕ, ◌+◌, ◌%◌, ◌<◌, ◌≡◌, ◌⊎◌, refl, sym, ap, ◌∙◌, true, false, inl, inr, List, [], ◌∷◌, ◌++◌,
  append_assoc, arith, ◌==◌, if◌then◌else◌, length, length-append, set, set-append,
}
use ghost_cache.Modem.Cobs.{Encoder, close_block, encode_byte, encode_loop, cobs_encode}

-- A block is written behind its length plus one. A full block of 254 bytes stands for itself, any
-- other for itself and a zero.
unfoldable pub cobs_reference : List ℕ → List ℕ → List ℕ
cobs_reference block [] = (length block + 1) ∷ block
cobs_reference block (b ∷ bs) =
    let closed = (length block + 1) ∷ (block ++ cobs_reference [] bs) in
    let full = 0xff ∷ ((block ++ b ∷ []) ++ cobs_reference [] bs) in
    let open_block = cobs_reference (block ++ b ∷ []) bs in
    if b == 0 then closed else if length block + 2 == 0xff then full else open_block

-- The encoder's variables behind closed blocks and an open one.
abbrev pub opened : List ℕ → List ℕ → Encoder
opened done block = record {
  dst = done ++ 0 ∷ block;
  code_index = length done;
  code = length block + 1;
}

abbrev pub closed : List ℕ → List ℕ → List ℕ
closed done block = done ++ (length block + 1) ∷ block

close_block-opened :
    (done block : List ℕ) → close_block (opened done block) ≡ opened (closed done block) []
unfolding close_block
close_block-opened done block = rw (set-append done block 0 (length block + 1))

code_grown :
    (block : List ℕ) (b : ℕ)
    → length block < 254
    → (length block + 1 + 1) % 256 ≡ length (block ++ b ∷ []) + 1
code_grown block b h = omega (arith, length-append block (b ∷ []))

encode_byte_zero :
    (done block : List ℕ) (b : ℕ)
    → (b == 0) ≡ true
    → encode_byte (opened done block) b ≡ opened (closed done block) []
unfolding encode_byte
encode_byte_zero done block b z = rw z (close_block-opened done block)

encode_byte_full :
    (done block : List ℕ) (b : ℕ)
    → (b == 0) ≡ false
    → length block + 2 ≡ 0xff
    → encode_byte (opened done block) b ≡ opened (closed done (block ++ b ∷ [])) []
unfolding encode_byte
encode_byte_full done block b n f =
    let test : ((length block + 1 + 1) % 256 == 0xff) ≡ true = ground arith in
    rw
      (
        n,
        test,
        code_grown block b (omega arith),
        append_assoc done (0 ∷ block) (b ∷ []),
        set-append done (block ++ b ∷ []) 0 (length (block ++ b ∷ []) + 1),
      )
      refl

encode_byte_open :
    (done block : List ℕ) (b : ℕ)
    → (b == 0) ≡ false
    → length block + 2 < 0xff
    → encode_byte (opened done block) b ≡ opened done (block ++ b ∷ [])
unfolding encode_byte
encode_byte_open done block b n f =
    let test : ((length block + 1 + 1) % 256 == 0xff) ≡ false = ground arith in
    rw (n, test, code_grown block b (omega arith), append_assoc done (0 ∷ block) (b ∷ []))

pub cobs_reference_zero :
    (block bs : List ℕ) (b : ℕ)
    → (b == 0) ≡ true
    → cobs_reference block (b ∷ bs) ≡ (length block + 1) ∷ (block ++ cobs_reference [] bs)
unfolding cobs_reference
cobs_reference_zero block bs b z = ground arith

pub cobs_reference_full :
    (block bs : List ℕ) (b : ℕ)
    → (b == 0) ≡ false
    → length block + 2 ≡ 0xff
    → cobs_reference block (b ∷ bs) ≡ 0xff ∷ ((block ++ b ∷ []) ++ cobs_reference [] bs)
unfolding cobs_reference
cobs_reference_full block bs b n f = ground arith

pub cobs_reference_open :
    (block bs : List ℕ) (b : ℕ)
    → (b == 0) ≡ false
    → length block + 2 < 0xff
    → cobs_reference block (b ∷ bs) ≡ cobs_reference (block ++ b ∷ []) bs
unfolding cobs_reference
cobs_reference_open block bs b n f = ground arith

-- How a block goes on with the next byte.
pub block_cases :
    (block : List ℕ) (b : ℕ)
    → length block < 254
    → ((b == 0) ≡ true)
      ⊎ (((b == 0) ≡ false) × (length block + 2 ≡ 0xff))
      ⊎ (((b == 0) ≡ false) × (length block + 2 < 0xff))
block_cases block b h = grind arith

encode_finish : Encoder → List ℕ
encode_finish e = set e.dst e.code_index e.code

encode_from : List ℕ → Encoder → List ℕ
encode_from src e = encode_finish (encode_loop e src)

encode_from-reference :
    (done block src : List ℕ)
    → length block < 254
    → encode_from src (opened done block) ≡ done ++ cobs_reference block src
unfolding encode_loop encode_finish encode_from
encode_from-reference done block [] h =
    unfold cobs_reference in set-append done block 0 (length block + 1)
encode_from-reference done block (b ∷ bs) h = elim (block_cases block b h) [
  | inl z ↦
      ap (encode_from bs) (encode_byte_zero done block b z)
      ∙ encode_from-reference (closed done block) [] bs (omega arith)
      ∙ append_assoc done ((length block + 1) ∷ block) (cobs_reference [] bs)
      ∙ ap (◌++◌ done) (sym (cobs_reference_zero block bs b z))
  | inr (inl (n, f)) ↦
      let size : length (block ++ b ∷ []) + 1 ≡ 0xff =
        omega (arith, length-append block (b ∷ [])) in
      ap (encode_from bs) (encode_byte_full done block b n f)
      ∙ encode_from-reference (closed done (block ++ b ∷ [])) [] bs (omega arith)
      ∙ append_assoc done ((length (block ++ b ∷ []) + 1) ∷ (block ++ b ∷ []))
          (cobs_reference [] bs)
      ∙ ap (λ (n : ℕ). done ++ n ∷ ((block ++ b ∷ []) ++ cobs_reference [] bs)) size
      ∙ ap (◌++◌ done) (sym (cobs_reference_full block bs b n f))
  | inr (inr (n, o)) ↦
      ap (encode_from bs) (encode_byte_open done block b n o)
      ∙ encode_from-reference done (block ++ b ∷ []) bs
          (omega (arith, length-append block (b ∷ [])))
      ∙ ap (◌++◌ done) (sym (cobs_reference_open block bs b n o))
]

-- The encoder's loop writes what the reference writes, for every input.
pub cobs_encode-reference : (src : List ℕ) → cobs_encode src ≡ cobs_reference [] src
unfolding cobs_encode encode_finish encode_from
cobs_encode-reference src = encode_from-reference [] [] src (omega arith)

pub length-reference-pos : (block bs : List ℕ) → 0 < length (cobs_reference block bs)
unfolding cobs_reference
length-reference-pos block [] = omega arith
length-reference-pos block (b ∷ bs) = ground (arith, length-reference-pos (block ++ b ∷ []) bs)
