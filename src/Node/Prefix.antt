-- ===== src/Node/Prefix.antt =====
-- `encodePrefix`, `decodePrefix` and `decodePrefixWithTail` of internal/node/protocol.go: a
-- generation and a path of nibbles in the radix tree, two nibbles to a byte.
pub mod Nibbles
pub mod Codec
use ghost_cache.Common.{
  ℕ, zero, suc, ◌+◌, ◌-◌, ◌*◌, ◌/◌, ◌%◌, ◌≤◌, Bool, true, false, not, ◌&&◌, ◌||◌, List, [], ◌∷◌,
  ◌++◌, ltb, ◌==◌, if◌then◌else◌, length, get_or, set, slice, replicate, put_le, get_le, bit_and,
  bit_or, Result, ok, err, malformed, ◌>>=◌, ◌>>◌, fail_if,
}

-- `body[5+i/2] = nibble << 4` at an even index, `body[5+i/2] |= nibble` at an odd one.
unfoldable pub put_nibble : List ℕ → ℕ → ℕ → List ℕ
put_nibble body i nibble =
    if i % 2 == 0
    then set body (5 + i / 2) (nibble * 16 % 256)
    else set body (5 + i / 2) (bit_or (get_or body (5 + i / 2) 0) nibble)

-- The loop over the prefix, from index i.
unfoldable pub put_nibbles : List ℕ → ℕ → List ℕ → Result (List ℕ)
put_nibbles body i [] = ok body
put_nibbles body i (nibble ∷ prefix) =
    let rest = put_nibbles (put_nibble body i nibble) (i + 1) prefix in
    if ltb 15 nibble then err malformed else rest

-- How many bytes hold so many nibbles.
abbrev pub packed_size : ℕ → ℕ
packed_size depth = (depth + 1) / 2

unfoldable pub encode_prefix : ℕ → List ℕ → Result (List ℕ)
encode_prefix generation prefix = do
  fail_if (ltb 32 (length prefix)) malformed
  put_nibbles
      (put_le 4 generation ++ (length prefix % 256) ∷ replicate (packed_size (length prefix)) 0) 0
      prefix

unfoldable pub get_nibble : List ℕ → ℕ → ℕ
get_nibble body i =
    if i % 2 == 0 then get_or body (5 + i / 2) 0 / 16 else bit_and (get_or body (5 + i / 2) 0) 15

-- The loop that fills the prefix, from index i.
unfoldable pub get_nibbles : List ℕ → ℕ → ℕ → List ℕ
get_nibbles body i zero = []
get_nibbles body i (suc n) = get_nibble body i ∷ get_nibbles body (i + 1) n

unfoldable pub decode_prefix_with_tail : List ℕ → ℕ → Result (ℕ × List ℕ)
decode_prefix_with_tail body tail = do
  fail_if (ltb (length body) 5) malformed
  let depth = get_or body 4 0
  fail_if (ltb 32 depth || not (length body == 5 + packed_size depth + tail)) malformed
  fail_if (depth % 2 == 1 && not (bit_and (get_or body (5 + depth / 2) 0) 15 == 0)) malformed
  ok (get_le (slice 0 4 body), get_nibbles body 0 depth)

unfoldable pub decode_prefix : List ℕ → Result (ℕ × List ℕ)
decode_prefix body = do
  fail_if (ltb (length body) 5) malformed
  let required = 5 + packed_size (get_or body 4 0)
  fail_if (ltb (length body) required) malformed
  decode_prefix_with_tail body (length body - required)

-- A path that the radix tree can have.
abbrev pub IsNibble : ℕ → Type 0
IsNibble n = n ≤ 15
