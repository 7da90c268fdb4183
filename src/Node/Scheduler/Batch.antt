-- ===== src/Node/Scheduler/Batch.antt =====
-- `MissingBatch`: what it asks for.
use ghost_cache.Common.{
  ℕ, zero, suc, ◌+◌, ◌-◌, ◌*◌, ◌/◌, ◌%◌, ◌^◌, ◌≤◌, ◌<◌, ◌≡◌, ◌⊎◌, refl, sym, ap, ◌∙◌, arith, Bool,
  true, false, not, ◌||◌, List, [], ◌∷◌, ◌++◌, inl, inr, ltb, ltb→lt, ltb→le, ◌==◌, ==_iff,
  Bool-cases, length, length-append, get_or, All, bit_or, elem,
}
use native.Mathlib.Nat.{mod-lt, mod-eq_of_lt, mod-add-mod, add-mod_right}
use ghost_cache.Node.Packet.{max_chunk_batch}
use ghost_cache.Node.Scheduler.{batch_loop, search_loop, missing_batch}
use ghost_cache.Node.Scheduler.Rounds.{
  has_bit, IsWanted, IsBatch, batch_loop-IsBatch, IsBatch-byte, empty-IsBatch,
}
use ghost_cache.Node.Transfer.{bits}

-- A batch has something in it once there was something to ask for.
batch_loop-keeps :
    (n : ℕ) (received : List Bool) (base bit bitmap : ℕ) (indexes : List ℕ)
    → 0 < length indexes
    → 0 < length (batch_loop n received base bit bitmap indexes).1
unfolding batch_loop
batch_loop-keeps zero received base bit bitmap indexes h = h
batch_loop-keeps (suc n) received base bit bitmap indexes h =
    elim (Bool-cases
      (not (ltb (base + bit) (length received)) || not (ltb (length indexes) max_chunk_batch))) [
        | inl stop ↦ rw stop h
        | inr on ↦ elim (Bool-cases (get_or received (base + bit) true)) [
          | inl there ↦ rw (on, there) (batch_loop-keeps n received base (bit + 1) bitmap indexes h)
          | inr absent ↦
              rw (on, absent)
                (batch_loop-keeps n received base (bit + 1) (bit_or bitmap (2 ^ bit))
                  (indexes ++ ((base + bit) % 2 ^ 16) ∷ [])
                  (omega (arith, length-append indexes (((base + bit) % 2 ^ 16) ∷ []))))
        ]
      ]

batch_loop-finds :
    (n : ℕ) (received : List Bool) (base bit bitmap : ℕ) (indexes : List ℕ) (k : ℕ)
    → bit ≤ k
    → k < bit + n
    → base + k < length received
    → get_or received (base + k) true ≡ false
    → 0 < length (batch_loop n received base bit bitmap indexes).1
unfolding batch_loop
batch_loop-finds zero received base bit bitmap indexes k low high inside h = absurd (omega arith)
batch_loop-finds (suc n) received base bit bitmap indexes k low high inside h =
    elim (Bool-cases
      (not (ltb (base + bit) (length received)) || not (ltb (length indexes) max_chunk_batch))) [
        | inl stop ↦ rw stop (ground (arith, stop))
        | inr on ↦ elim (Bool-cases (get_or received (base + bit) true)) [
          | inl there ↦
              let later : bit + 1 ≤ k = elim (Bool-cases (bit == k)) [
                | inl now ↦ absurd (
                    ground (
                      arith,
                      ap (λ (i : ℕ). get_or received (base + i) true) ((==_iff bit k).0 now),
                    ))
                | inr other ↦ ground (arith, other)
              ] in
              rw (on, there)
                (batch_loop-finds n received base (bit + 1) bitmap indexes k later (omega arith)
                  inside h)
          | inr absent ↦
              rw (on, absent)
                (batch_loop-keeps n received base (bit + 1) (bit_or bitmap (2 ^ bit))
                  (indexes ++ ((base + bit) % 2 ^ 16) ∷ [])
                  (omega (arith, length-append indexes (((base + bit) % 2 ^ 16) ∷ []))))
        ]
      ]

-- How the search over the chunks ends.
abbrev Nothing : List Bool → ℕ → ℕ → ℕ → Type 0
Nothing received start offset n =
    (search_loop n received start offset ≡ (0, (0, [])))
    × ((o : ℕ)
        → offset ≤ o
        → o < offset + n
        → get_or received ((start + o) % length received) true ≡ true)

abbrev Found : List Bool → ℕ → ℕ → ℕ → Type 0
Found received start offset n =
    (i : ℕ) × (i < length received)
    × (get_or received i true ≡ false)
    × (search_loop n received start offset
        ≡ (i / 8 * 8 % 2 ^ 16, batch_loop 8 received (i / 8 * 8) 0 0 []))

search_loop-cases :
    (n : ℕ) (received : List Bool) (start offset : ℕ)
    → 0 < length received
    → Nothing received start offset n ⊎ Found received start offset n
unfolding search_loop
search_loop-cases zero received start offset pos = inl (refl, λ o low high. absurd (omega arith))
search_loop-cases (suc n) received start offset pos =
    elim (Bool-cases (get_or received ((start + offset) % length received) true)) [
      | inl there ↦ elim (search_loop-cases n received start (offset + 1) pos) [
        | inl (none, all) ↦ inl (
          rw there none,
          λ o low high. elim (Bool-cases (offset == o)) [
            | inl now ↦
                ap (λ (x : ℕ). get_or received ((start + x) % length received) true)
                  (sym ((==_iff offset o).0 now))
                ∙ there
            | inr other ↦ all o (ground (arith, other)) (omega arith)
          ],
        )
        | inr (i, inside, absent, found) ↦ inr (i, inside, absent, rw there found)
      ]
      | inr absent ↦ inr ((start + offset) % length received, grind arith, absent, rw absent refl)
    ]

-- Every chunk is looked at.
pub offset_of : (i start len : ℕ) → i < len → (o : ℕ) × (o < len) × ((start + o) % len ≡ i)
offset_of i start len h =
    let small = mod-lt start (let pos : 0 < len = omega arith in pos) in
    elim (Bool-cases (ltb i (start % len))) [
      | inl wrap ↦
          let below = ltb→lt _ _ wrap in
          let sum : start % len + (i + len - start % len) ≡ i + len = omega arith in
          (
            i + len - start % len,
            omega arith,
            sym (mod-add-mod start len (i + len - start % len))
                ∙ ap (λ (x : ℕ). x % len) sum
                ∙ add-mod_right i len
                ∙ mod-eq_of_lt h,
          )
      | inr straight ↦
          let above = ltb→le _ _ straight in
          let sum : start % len + (i - start % len) ≡ i = omega arith in
          (
            i - start % len,
            omega arith,
            sym (mod-add-mod start len (i - start % len))
                ∙ ap (λ (x : ℕ). x % len) sum
                ∙ mod-eq_of_lt h,
          )
    ]

-- What a node may ask for in one message.
pub record IsAsk (received : List Bool) (base bitmap : ℕ) (indexes : List ℕ) : Type 0 where
  pub few : bits bitmap ≤ max_chunk_batch
  pub count : bits bitmap ≡ length indexes
  pub base_word : base < 2 ^ 16
  pub bitmap_byte : bitmap < 2 ^ 8
  pub wanted : All (IsWanted received base) indexes
  pub marks : (k : ℕ) → k < 8 → has_bit bitmap k ≡ elem (base + k) indexes

IsBatch-IsAsk :
    (received : List Bool) (base bit bitmap : ℕ) (indexes : List ℕ)
    → base < 2 ^ 16
    → bit ≤ 8
    → IsBatch received base bit bitmap indexes
    → IsAsk received base bitmap indexes
IsBatch-IsAsk received base bit bitmap indexes word h v = record {
  few = let few = v.few in omega (arith, v.count);
  count = v.count;
  base_word = word;
  bitmap_byte = IsBatch-byte received base bit bitmap indexes h v;
  wanted = v.wanted;
  marks = v.marks;
}

found-IsAsk :
    (received : List Bool) (i : ℕ)
    → length received ≤ 2 ^ 16
    → i < length received
    → let (bitmap, indexes) = batch_loop 8 received (i / 8 * 8) 0 0 [] in
      IsAsk received (i / 8 * 8) bitmap indexes
found-IsAsk received i word inside =
    let (bitmap, indexes) = batch_loop 8 received (i / 8 * 8) 0 0 [] in
    let (bit, fits, v) =
      batch_loop-IsBatch 8 received (i / 8 * 8) 0 0 [] refl word
        (empty-IsBatch received (i / 8 * 8)) in
    IsBatch-IsAsk received (i / 8 * 8) bit bitmap indexes (omega arith) fits v

-- Of at most 65536 chunks a batch asks for at most four that are missing, all from one block of
-- eight, and the bits of the bitmap that are set are those of these chunks.
pub missing_batch-IsAsk :
    (received : List Bool) (start : ℕ)
    → length received ≤ 2 ^ 16
    → let (base, (bitmap, indexes)) = missing_batch received start in
      IsAsk received base bitmap indexes
unfolding missing_batch
missing_batch-IsAsk received start word =
    let none =
      IsBatch-IsAsk received 0 0 0 [] (omega arith) (omega arith) (empty-IsBatch received 0) in
    elim (Bool-cases (length received == 0)) [
      | inl empty ↦ rw empty none
      | inr some ↦
          elim (search_loop-cases (length received) received start 0 (ground (arith, some))) [
            | inl n ↦ rw (some, n.0) none
            | inr (i, inside, absent, found) ↦
                let base : i / 8 * 8 % 2 ^ 16 ≡ i / 8 * 8 = omega arith in
                rw (some, found, base) (found-IsAsk received i word inside)
          ]
    ]

-- A batch is empty only when every chunk is there.
pub missing_batch_complete :
    (received : List Bool) (start : ℕ)
    → (missing_batch received start).1.1 ≡ []
    → (i : ℕ) → i < length received
    → get_or received i true ≡ true
unfolding missing_batch
missing_batch_complete received start = elim (Bool-cases (length received == 0)) [
  | inl empty ↦ λ e i inside. absurd (ground (arith, empty))
  | inr some ↦ elim (search_loop-cases (length received) received start 0 (ground (arith, some))) [
    | inl (none, all) ↦ λ e i inside.
        let (o, small, at) = offset_of i start (length received) inside in
        rw at at (all o (omega arith) (omega arith))
    | inr (j, within, absent, found) ↦ λ e i inside.
        let block : j / 8 * 8 + j % 8 ≡ j = omega arith in
        let full =
          batch_loop-finds 8 received (j / 8 * 8) 0 0 [] (j % 8) (omega arith) (omega arith)
            (omega arith) (rw block absent) in
        absurd (omega (arith, full, ap length (rw (some, found) at e)))
  ]
]
