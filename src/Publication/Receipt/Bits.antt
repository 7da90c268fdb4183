-- ===== src/Publication/Receipt/Bits.antt =====
-- Setting and testing one bit of a byte, checked over every byte and bit.
use ghost_cache.Common.{
  ℕ, ◌^◌, ◌<◌, ◌≡◌, refl, Bool, true, false, not, ◌&&◌, arith, ◌==◌, ltb, ltb→lt, all_below,
  all_below_sound, &&-true, if◌then◌else◌, bit_and, bit_or,
}

abbrev pub bit_test : ℕ → ℕ → Bool
bit_test x k = not (bit_and x (2 ^ k) == 0)

abbrev bool_eq : Bool → Bool → Bool
bool_eq true b = b
bool_eq false b = not b

bool_eq→eq : (a b : Bool) → bool_eq a b ≡ true → a ≡ b
bool_eq→eq true b h = ground arith
bool_eq→eq false b h = ground arith

abbrev sets_bit : ℕ → ℕ → ℕ → Bool
sets_bit x k j =
    bool_eq (bit_test (bit_or x (2 ^ k)) j) (if k == j then true else bit_test x j)
    && ltb (bit_or x (2 ^ k)) 256

set_table : all_below 256 (λ x. all_below 8 (λ k. all_below 8 (λ j. sets_bit x k j))) ≡ true
unfolding all_below
set_table = refl

clear_table : all_below 8 (λ j. bool_eq (bit_test 0 j) false) ≡ true
unfolding all_below
clear_table = refl

pub bit_or-lt : (x k : ℕ) → x < 256 → k < 8 → bit_or x (2 ^ k) < 256
bit_or-lt x k h b =
    let row = all_below_sound 256 _ x set_table h in
    let cell = all_below_sound 8 _ k row b in
    let point = all_below_sound 8 _ 0 cell (omega arith) in
    ltb→lt _ 256 (&&-true _ (ltb (bit_or x (2 ^ k)) 256) point).1

-- Setting bit k sets bit k and no other.
pub bit_test-bit_or :
    (x k j : ℕ)
    → x < 256
    → k < 8
    → j < 8
    → bit_test (bit_or x (2 ^ k)) j ≡ (if k == j then true else bit_test x j)
bit_test-bit_or x k j h b c =
    let row = all_below_sound 256 _ x set_table h in
    let cell = all_below_sound 8 _ k row b in
    let point = all_below_sound 8 _ j cell c in
    bool_eq→eq _ _ (&&-true _ (ltb (bit_or x (2 ^ k)) 256) point).0

pub bit_test-zero : (j : ℕ) → j < 8 → bit_test 0 j ≡ false
bit_test-zero j h = bool_eq→eq _ _ (all_below_sound 8 _ j clear_table h)
