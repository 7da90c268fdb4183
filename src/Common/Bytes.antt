-- ===== src/Common/Bytes.antt =====
-- Bytes, and the little-endian integers of Go's encoding/binary.
use Prim.Native.Nat.{ℕ, zero, suc, ◌+◌, ◌-◌, ◌*◌, ◌/◌, ◌%◌, ◌≤◌, ◌<◌}
use mathlib.Core.Path.{◌≡◌, refl, sym, ap, ◌∙◌}
use mathlib.Core.List.{List, [], ◌∷◌, ◌++◌}
use native.Mathlib.Omega.{arith}
use ghost_cache.Common.Lists.{
  length, All, get_or, set, replicate, slice, drop, length-take, length-drop, All-slice,
  slice-append-drop,
}

abbrev pub IsByte : ℕ → Type 0
IsByte b = b < 256

abbrev pub IsBytes : List ℕ → Type 0
IsBytes = All IsByte

-- How many values n bytes can hold.
abbrev pub span : ℕ → ℕ
span zero = 1
span (suc n) = 256 * span n

-- `PutUint16`, `PutUint32` and `PutUint64` are n = 2, 4 and 8.
abbrev pub put_le : ℕ → ℕ → List ℕ
put_le zero v = []
put_le (suc n) v = (v % 256) ∷ put_le n (v / 256)

unfoldable pub get_le : List ℕ → ℕ
get_le [] = 0
get_le (b ∷ bs) = b + 256 * get_le bs

pub length-put_le : (n v : ℕ) → length (put_le n v) ≡ n
length-put_le zero v = refl
length-put_le (suc n) v = omega (arith, length-put_le n (v / 256))

pub put_le-IsBytes : (n v : ℕ) → IsBytes (put_le n v)
put_le-IsBytes zero v = tt
put_le-IsBytes (suc n) v = (omega arith, put_le-IsBytes n (v / 256))

pub get_le-put_le : (n v : ℕ) → v < span n → get_le (put_le n v) ≡ v
unfolding get_le
get_le-put_le zero v h = omega arith
get_le-put_le (suc n) v h = omega (arith, get_le-put_le n (v / 256) (omega arith))

pub get_le-lt : (bs : List ℕ) → IsBytes bs → get_le bs < span (length bs)
unfolding get_le
get_le-lt [] h = omega arith
get_le-lt (b ∷ bs) h = omega (arith, get_le-lt bs h.1)

pub put_le-get_le : (bs : List ℕ) → IsBytes bs → put_le (length bs) (get_le bs) ≡ bs
unfolding get_le
put_le-get_le [] h = refl
put_le-get_le (b ∷ bs) h = ground (arith, put_le-get_le bs h.1)

pub put_le-get_le_at :
    (n : ℕ) (bs : List ℕ) → length bs ≡ n → IsBytes bs → put_le n (get_le bs) ≡ bs
put_le-get_le_at n bs e h = ap (λ (k : ℕ). put_le k (get_le bs)) (sym e) ∙ put_le-get_le bs h

-- An integer field of a byte string, with what stands behind it.
pub put_le_field :
    (low high : ℕ) (bs : List ℕ)
    → IsBytes bs
    → low ≤ high
    → high ≤ length bs
    → put_le (high - low) (get_le (slice low high bs)) ++ drop high bs ≡ drop low bs
put_le_field low high bs h order fits =
    let width : length (slice low high bs) ≡ high - low =
      omega (arith, length-take (high - low) (drop low bs), length-drop low bs) in
    ap (λ (xs : List ℕ). xs ++ drop high bs)
      (put_le-get_le_at (high - low) (slice low high bs) width (All-slice IsByte low high bs h))
    ∙ slice-append-drop low high bs order

-- A quotient, multiplied back.
pub lt-div_mul : (a c : ℕ) → 0 < c → a < (a / c + 1) * c
lt-div_mul a c h = grind arith

pub div_mul-le : (a c : ℕ) → 0 < c → a / c * c ≤ a
div_mul-le a c h = grind arith

pub IsBytes-get_or : (xs : List ℕ) (i : ℕ) → IsBytes xs → get_or xs i 0 < 256
IsBytes-get_or [] i h = omega arith
IsBytes-get_or (x ∷ xs) zero h = h.0
IsBytes-get_or (x ∷ xs) (suc i) h = IsBytes-get_or xs i h.1

pub IsBytes-set : (xs : List ℕ) (i v : ℕ) → IsBytes xs → v < 256 → IsBytes (set xs i v)
IsBytes-set [] i v h b = h
IsBytes-set (x ∷ xs) zero v h b = (b, h.1)
IsBytes-set (x ∷ xs) (suc i) v h b = (h.0, IsBytes-set xs i v h.1 b)

pub zeros-IsBytes : (n : ℕ) → IsBytes (replicate n 0)
zeros-IsBytes zero = tt
zeros-IsBytes (suc n) = (omega arith, zeros-IsBytes n)
