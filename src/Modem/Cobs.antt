-- ===== src/Modem/Cobs.antt =====
-- `cobsEncode` and `cobsDecode` of internal/modem/protocol.go.
pub mod Reference
pub mod RoundTrip
pub mod Shape
pub mod Decoded
use ghost_cache.Common.{
  ℕ, zero, suc, ◌+◌, ◌-◌, ◌%◌, Bool, true, false, ◌&&◌, ◌||◌, not, List, [], ◌∷◌, ◌++◌, ltb, ◌==◌,
  if◌then◌else◌, length, get_or, set, slice, Result, ok, err, malformed,
}

-- The variables of the encoder's loop. `code` is a byte.
pub record Encoder : Type 0 where
  pub dst : List ℕ
  pub code_index : ℕ
  pub code : ℕ

-- `dst[codeIndex] = code; codeIndex = len(dst); dst = append(dst, 0); code = 1`
close_block : Encoder → Encoder
close_block e =
    let dst = set e.dst e.code_index e.code in
    record { dst = dst ++ 0 ∷ []; code_index = length dst; code = 1 }

encode_byte : Encoder → ℕ → Encoder
unfolding close_block
encode_byte e b =
    if b == 0
    then close_block e
    else let e' = record e { dst = e.dst ++ b ∷ []; code = (e.code + 1) % 256 } in
      if e'.code == 0xff then close_block e' else e'

encode_loop : Encoder → List ℕ → Encoder
encode_loop e [] = e
encode_loop e (b ∷ bs) = encode_loop (encode_byte e b) bs

unfoldable pub cobs_encode : List ℕ → List ℕ
unfolding encode_loop encode_byte
cobs_encode src =
    let e = encode_loop (record { dst = 0 ∷ []; code_index = 0; code = 1 }) src in
    set e.dst e.code_index e.code

-- The loop over `index`; every round moves it by one at least, so `length src` rounds are enough.
pub decode_loop : ℕ → List ℕ → ℕ → List ℕ → Result (List ℕ)
decode_loop zero src index dst = ok dst
decode_loop (suc fuel) src index dst =
    let code = get_or src index 0 in
    let end = index + 1 + code - 1 in
    let dst' = dst ++ slice (index + 1) end src in
    let separated = not (code == 0xff) && ltb end (length src) in
    let rest = decode_loop fuel src end (if separated then dst' ++ 0 ∷ [] else dst') in
    if not (ltb index (length src))
    then ok dst
    else if code == 0 || ltb (length src + 1) (index + code)
    then err malformed
    else if ltb (length src) end
    then err malformed
    else rest

unfoldable pub cobs_decode : List ℕ → Result (List ℕ)
unfolding decode_loop
cobs_decode [] = err malformed
cobs_decode (b ∷ bs) = decode_loop (suc (length bs)) (b ∷ bs) 0 []
