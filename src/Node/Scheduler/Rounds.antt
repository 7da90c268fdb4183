-- ===== src/Node/Scheduler/Rounds.antt =====
-- The loop of `MissingBatch` over a block: what it has collected after each bit.
use ghost_cache.Common.{
  ℕ, zero, suc, ◌+◌, ◌%◌, ◌^◌, ◌≤◌, ◌<◌, ◌≡◌, refl, sym, ◌∙◌, arith, Bool, true, false, not, ◌&&◌,
  ◌||◌, List, [], ◌∷◌, ◌++◌, inl, inr, ltb, ltb→lt, lt→ltb, ◌==◌, ==_iff, if◌then◌else◌, Bool-cases,
  &&-true, length, length-append, get_or, All, All-append, all_below, all_below_sound, bit_and,
  bit_or, elem,
}
use ghost_cache.Node.Packet.{max_chunk_batch}
use ghost_cache.Node.Scheduler.{batch_loop}
use ghost_cache.Node.Transfer.{bits_loop, bits}

-- Whether bit k is set.
abbrev pub has_bit : ℕ → ℕ → Bool
has_bit bitmap k = not (bit_and bitmap (2 ^ k) == 0)

-- What setting the next bit does to a bitmap that has none as high.
next_bit : ℕ → ℕ → Bool
next_bit bit b =
    if ltb b (2 ^ bit)
    then (bits (bit_or b (2 ^ bit)) == bits b + 1) && ltb (bit_or b (2 ^ bit)) (2 ^ (bit + 1))
    else true

next_bit_table : all_below 8 (λ bit. all_below 256 (next_bit bit)) ≡ true
unfolding all_below bits_loop next_bit
next_bit_table = refl

same : Bool → Bool → Bool
same true b = b
same false b = not b

mark_bit : ℕ → ℕ → ℕ → Bool
mark_bit bit b k =
    if ltb b (2 ^ bit)
    then same (has_bit (bit_or b (2 ^ bit)) k) (k == bit || has_bit b k)
    else true

mark_bit_table : all_below 8 (λ bit. all_below 256 (λ b. all_below 8 (mark_bit bit b))) ≡ true
unfolding all_below same mark_bit
mark_bit_table = refl

power_table : all_below 8 (λ bit. ltb (2 ^ bit) 129 && (2 ^ (bit + 1) == 2 ^ bit + 2 ^ bit)) ≡ true
unfolding all_below
power_table = refl

power : (bit : ℕ) → bit < 8 → (2 ^ bit < 129) × (2 ^ (bit + 1) ≡ 2 ^ bit + 2 ^ bit)
power bit h =
    let (small, double) = &&-true _ _ (all_below_sound 8 _ bit power_table h) in
    (ltb→lt _ _ small, (==_iff _ _).0 double)

bit_byte : (bit b : ℕ) → bit < 8 → b < 2 ^ bit → b < 256
bit_byte bit b h lt = let small = (power bit h).0 in omega arith

bits-bit_or :
    (bit b : ℕ)
    → bit < 8
    → b < 2 ^ bit
    → (bits (bit_or b (2 ^ bit)) ≡ bits b + 1) × (bit_or b (2 ^ bit) < 2 ^ (bit + 1))
unfolding next_bit
bits-bit_or bit b h lt =
    let row =
      all_below_sound 256 _ b (all_below_sound 8 _ bit next_bit_table h) (bit_byte bit b h lt) in
    let pass = lt→ltb b (2 ^ bit) lt in
    let (count, small) = &&-true _ _ (rw pass at row) in ((==_iff _ _).0 count, ltb→lt _ _ small)

same→eq : (a b : Bool) → same a b ≡ true → a ≡ b
unfolding same
same→eq true b h = sym h
same→eq false true h = cc
same→eq false false h = refl

has_bit-bit_or :
    (bit b k : ℕ)
    → bit < 8
    → b < 2 ^ bit
    → k < 8
    → has_bit (bit_or b (2 ^ bit)) k ≡ (k == bit || has_bit b k)
unfolding mark_bit
has_bit-bit_or bit b k h lt small =
    let row =
      all_below_sound 8 _ k
        (all_below_sound 256 _ b (all_below_sound 8 _ bit mark_bit_table h) (bit_byte bit b h lt))
        small in
    same→eq _ _ (rw (lt→ltb b (2 ^ bit) lt) at row)

-- A chunk of the block that is still to come.
pub record IsWanted (received : List Bool) (base i : ℕ) : Type 0 where
  pub inside : i < length received
  pub absent : get_or received i true ≡ false
  pub from : base ≤ i
  pub below : i < base + 8

-- A batch that is being collected, before the bit.
pub record IsBatch (received : List Bool) (base bit bitmap : ℕ) (indexes : List ℕ) : Type 0 where
  pub few : length indexes ≤ max_chunk_batch
  pub mask : bitmap < 2 ^ bit
  pub count : bits bitmap ≡ length indexes
  pub wanted : All (IsWanted received base) indexes
  pub marks : (k : ℕ) → k < 8 → has_bit bitmap k ≡ elem (base + k) indexes

elem-append : (x : ℕ) (xs : List ℕ) (y : ℕ) → elem x (xs ++ y ∷ []) ≡ (y == x || elem x xs)
unfolding elem
elem-append x [] y = refl
elem-append x (z ∷ zs) y = ground (arith, elem-append x zs y)

add_bit :
    (received : List Bool) (base bit bitmap : ℕ) (indexes : List ℕ)
    → bit < 8
    → base + bit < length received
    → length received ≤ 2 ^ 16
    → get_or received (base + bit) true ≡ false
    → length indexes < max_chunk_batch
    → IsBatch received base bit bitmap indexes
    → IsBatch received base
        (bit + 1)
        (bit_or bitmap (2 ^ bit))
        (indexes ++ ((base + bit) % 2 ^ 16) ∷ [])
add_bit received base bit bitmap indexes h inside word absent room v =
    let (count, mask) = bits-bit_or bit bitmap h v.mask in
    let index : (base + bit) % 2 ^ 16 ≡ base + bit = omega arith in
    rw index (record {
      few = omega (arith, length-append indexes ((base + bit) ∷ []));
      mask = mask;
      count = count ∙ omega (arith, length-append indexes ((base + bit) ∷ []), v.count);
      wanted = All-append (IsWanted received base) indexes ((base + bit) ∷ []) v.wanted (
        record { inside = inside; absent = absent; from = omega arith; below = omega arith },
        tt,
      );
      marks = λ k small.
          has_bit-bit_or bit bitmap k h v.mask small
          ∙ ground (arith, v.marks k small, elem-append (base + k) indexes (base + bit));
    })

mask_grows : (bit b : ℕ) → bit < 8 → b < 2 ^ bit → b < 2 ^ (bit + 1)
mask_grows bit b h lt = let double = (power bit h).1 in omega arith

skip_bit :
    (received : List Bool) (base bit bitmap : ℕ) (indexes : List ℕ)
    → bit < 8
    → IsBatch received base bit bitmap indexes
    → IsBatch received base (bit + 1) bitmap indexes
skip_bit received base bit bitmap indexes h v = record {
  few = v.few;
  mask = mask_grows bit bitmap h v.mask;
  count = v.count;
  wanted = v.wanted;
  marks = v.marks;
}

whole_table : all_below 9 (λ bit. ltb (2 ^ bit) 257) ≡ true
unfolding all_below
whole_table = refl

pub IsBatch-byte :
    (received : List Bool) (base bit bitmap : ℕ) (indexes : List ℕ)
    → bit ≤ 8
    → IsBatch received base bit bitmap indexes
    → bitmap < 2 ^ 8
IsBatch-byte received base bit bitmap indexes h v =
    let small = ltb→lt _ _ (all_below_sound 9 _ bit whole_table (omega arith)) in
    omega (arith, small, v.mask)

clear_table : all_below 8 (λ k. not (has_bit 0 k)) ≡ true
unfolding all_below
clear_table = refl

-- Nothing is collected yet.
pub empty-IsBatch : (received : List Bool) (base : ℕ) → IsBatch received base 0 0 []
unfolding bits_loop elem
empty-IsBatch received base = record {
  few = omega arith;
  mask = omega arith;
  count = refl;
  wanted = tt;
  marks = λ k small. ground (arith, all_below_sound 8 (λ k. not (has_bit 0 k)) k clear_table small);
}

-- The loop keeps the batch.
pub batch_loop-IsBatch :
    (n : ℕ) (received : List Bool) (base bit bitmap : ℕ) (indexes : List ℕ)
    → n + bit ≡ 8
    → length received ≤ 2 ^ 16
    → IsBatch received base bit bitmap indexes
    → let (bitmap', indexes') = batch_loop n received base bit bitmap indexes in
      (bit' : ℕ) × (bit' ≤ 8) × IsBatch received base bit' bitmap' indexes'
unfolding batch_loop
batch_loop-IsBatch zero received base bit bitmap indexes e word v = (bit, omega arith, v)
batch_loop-IsBatch (suc n) received base bit bitmap indexes e word v =
    elim (Bool-cases
      (not (ltb (base + bit) (length received)) || not (ltb (length indexes) max_chunk_batch))) [
        | inl stop ↦ rw stop (bit, omega arith, v)
        | inr on ↦ elim (Bool-cases (get_or received (base + bit) true)) [
          | inl there ↦
              rw (on, there)
                (batch_loop-IsBatch n received base (bit + 1) bitmap indexes (omega arith) word
                  (skip_bit received base bit bitmap indexes (omega arith) v))
          | inr absent ↦
              rw (on, absent)
                (batch_loop-IsBatch n received base (bit + 1) (bit_or bitmap (2 ^ bit))
                  (indexes ++ ((base + bit) % 2 ^ 16) ∷ []) (omega arith) word
                  (add_bit received base bit bitmap indexes (omega arith) (ground (arith, on)) word
                    absent (ground (arith, on)) v))
        ]
      ]
