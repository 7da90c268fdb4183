-- ===== src/Modem/Cobs/Decoded.antt =====
-- The decoder on any input: what it returns is bytes, no longer than the input, and its fuel is enough.
use ghost_cache.Common.{
  ℕ, zero, suc, ◌+◌, ◌-◌, ◌≤◌, ◌<◌, ◌≡◌, ◌⊎◌, sym, ap, ◌∙◌, inl, inr, not, ◌&&◌, List, [], ◌∷◌,
  ◌++◌, arith, ltb, ◌==◌, if◌then◌else◌, length, length-append, length-take, get_or, drop, slice,
  All-append, All-slice, IsByte, IsBytes, ok,
}
use ghost_cache.Modem.Cobs.RoundTrip.{decode_loop_end}
use ghost_cache.Modem.Cobs.{decode_loop, cobs_decode}

-- `dst` at the end of a round that ends at `end`.
taken : List ℕ → ℕ → ℕ → List ℕ → List ℕ
taken src index end dst =
    let dst' = dst ++ slice (index + 1) end src in
    if not (get_or src index 0 == 0xff) && ltb end (length src) then dst' ++ 0 ∷ [] else dst'

taken-IsBytes :
    (src : List ℕ) (index end : ℕ) (dst : List ℕ)
    → IsBytes src
    → IsBytes dst
    → IsBytes (taken src index end dst)
unfolding taken
taken-IsBytes src index end dst s d =
    let block =
      All-append IsByte dst (slice (index + 1) end src) d
        (All-slice IsByte (index + 1) end src s) in
    ground (
      arith,
      block,
      All-append IsByte (dst ++ slice (index + 1) end src) (0 ∷ []) block (omega arith, tt),
    )

length-taken-le :
    (src : List ℕ) (index end : ℕ) (dst : List ℕ)
    → index < end
    → length (taken src index end dst) ≤ length dst + (end - index)
unfolding taken
length-taken-le src index end dst h = ground (
  arith,
  length-append dst (slice (index + 1) end src),
  length-append (dst ++ slice (index + 1) end src) (0 ∷ []),
  length-take (end - (index + 1)) (drop (index + 1) src),
)

-- What a successful round does.
decode_loop-cases :
    (fuel index : ℕ) (src dst : List ℕ) {out : List ℕ}
    → decode_loop (suc fuel) src index dst ≡ ok out
    → ((length src ≤ index) × (out ≡ dst))
      ⊎ ((index < length src)
          × (0 < get_or src index 0)
          × (index + get_or src index 0 ≤ length src)
          × (decode_loop fuel src
                (index + 1 + get_or src index 0 - 1)
                (taken src index (index + 1 + get_or src index 0 - 1) dst)
              ≡ ok out))
unfolding decode_loop taken
decode_loop-cases fuel index src dst e = ground arith

decode_loop-IsBytes :
    (fuel index : ℕ) (src dst : List ℕ) {out : List ℕ}
    → IsBytes src
    → IsBytes dst
    → decode_loop fuel src index dst ≡ ok out
    → IsBytes out
decode_loop-IsBytes zero index src dst s d e = unfold decode_loop in ground (arith, d)
decode_loop-IsBytes (suc fuel) index src dst s d e = elim (decode_loop-cases fuel index src dst e) [
  | inl (_, same) ↦ rw same d
  | inr (_, _, _, later) ↦
      decode_loop-IsBytes fuel _ src _ s (taken-IsBytes src index _ dst s d) later
]

length-decode_loop-le :
    (fuel index : ℕ) (src dst : List ℕ) {out : List ℕ}
    → decode_loop fuel src index dst ≡ ok out
    → length out ≤ length dst + (length src - index)
length-decode_loop-le zero index src dst e = unfold decode_loop in ground arith
length-decode_loop-le (suc fuel) index src dst e = elim (decode_loop-cases fuel index src dst e) [
  | inl (_, same) ↦ omega (arith, ap length same)
  | inr (inside, code, fits, later) ↦
      let end = index + 1 + get_or src index 0 - 1 in
      omega (
        arith,
        length-decode_loop-le fuel end src (taken src index end dst) later,
        length-taken-le src index end dst (omega arith),
      )
]

decode_loop_step :
    (fuel more index : ℕ) (src dst : List ℕ)
    → let end = index + 1 + get_or src index 0 - 1 in
      (0 < get_or src index 0
        → decode_loop fuel src end (taken src index end dst)
          ≡ decode_loop more src end (taken src index end dst))
      → decode_loop (suc fuel) src index dst ≡ decode_loop (suc more) src index dst
unfolding decode_loop taken
decode_loop_step fuel more index src dst same = ground arith

-- As many rounds as there are bytes left are enough: more change nothing.
pub decode_loop-fuel :
    (fuel more index : ℕ) (src dst : List ℕ)
    → length src ≤ index + fuel
    → length src ≤ index + more
    → decode_loop fuel src index dst ≡ decode_loop more src index dst
decode_loop-fuel zero more index src dst h k =
    decode_loop_end zero src dst index (omega arith)
    ∙ sym (decode_loop_end more src dst index (omega arith))
decode_loop-fuel (suc fuel) zero index src dst h k =
    decode_loop_end (suc fuel) src dst index (omega arith)
    ∙ sym (decode_loop_end zero src dst index (omega arith))
decode_loop-fuel (suc fuel) (suc more) index src dst h k =
    decode_loop_step fuel more index src dst
      (λ code. decode_loop-fuel fuel more _ src _ (omega arith) (omega arith))

-- What `cobsDecode` accepts it turns into bytes, no more of them than it was given.
pub cobs_decode_shape :
    (src : List ℕ) {out : List ℕ}
    → IsBytes src
    → cobs_decode src ≡ ok out
    → IsBytes out × (length out ≤ length src)
unfolding cobs_decode
cobs_decode_shape [] s e = cc
cobs_decode_shape (b ∷ bs) s e = (
  decode_loop-IsBytes (suc (length bs)) 0 (b ∷ bs) [] s tt e,
  omega (arith, length-decode_loop-le (suc (length bs)) 0 (b ∷ bs) [] e),
)
