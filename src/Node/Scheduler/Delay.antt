-- ===== src/Node/Scheduler/Delay.antt =====
-- The turns of the sources, and the waiting times.
use ghost_cache.Common.{
  ℕ, zero, suc, ◌+◌, ◌-◌, ◌*◌, ◌/◌, ◌%◌, ◌≤◌, ◌<◌, ◌≡◌, refl, ap, ◌∙◌, arith, false, List, ltb,
  ◌==◌, if◌then◌else◌, length, get_or,
}
use native.Mathlib.Nat.{mod-add-mod}
use ghost_cache.Node.Scheduler.{Candidate, next_source, second, backoff, jitter}
use ghost_cache.Node.Scheduler.Batch.{offset_of}

-- A candidate after so many calls of `next_source`.
pub asked : ℕ → Candidate → Candidate
asked zero c = c
asked (suc n) c = asked n (next_source c).1

asked-sources : (n : ℕ) (c : Candidate) → (asked n c).sources ≡ c.sources
unfolding asked next_source
asked-sources zero c = refl
asked-sources (suc n) c = asked-sources n (next_source c).1 ∙ ground arith

next_source-turn :
    (c : Candidate) (n : ℕ)
    → 0 < length c.sources
    → ((next_source c).1.source_index + n) % length c.sources
      ≡ (c.source_index + suc n) % length c.sources
unfolding next_source
next_source-turn c n pos =
    let some : (length c.sources == 0) ≡ false = ground (arith, pos) in
    let shift : c.source_index + 1 + n ≡ c.source_index + suc n = omega arith in
    simp some (
      mod-add-mod (c.source_index + 1) (length c.sources) n
      ∙ ap (λ (k : ℕ). k % length c.sources) shift)

asked-turn :
    (n : ℕ) (c : Candidate)
    → 0 < length c.sources
    → (next_source (asked n c)).0 ≡ get_or c.sources ((c.source_index + n) % length c.sources) 0
unfolding asked next_source
asked-turn zero c pos =
    let some : (length c.sources == 0) ≡ false = ground (arith, pos) in
    let shift : c.source_index + 0 ≡ c.source_index = omega arith in simp (some, shift)
asked-turn (suc n) c pos =
    let kept : (next_source c).1.sources ≡ c.sources = asked-sources 1 c in
    asked-turn n (next_source c).1 (rw kept pos)
    ∙ ap (λ (xs : List ℕ). get_or xs (((next_source c).1.source_index + n) % length xs) 0) kept
    ∙ ap (λ (k : ℕ). get_or c.sources k 0) (next_source-turn c n pos)

-- Of as many calls in a row as there are sources, one asks any given source.
pub next_source_fair :
    (c : Candidate) (i : ℕ)
    → i < length c.sources
    → (n : ℕ) × (n < length c.sources) × ((next_source (asked n c)).0 ≡ get_or c.sources i 0)
next_source_fair c i h =
    let (n, small, turn) = offset_of i c.source_index (length c.sources) h in
    (n, small, asked-turn n c (omega arith) ∙ ap (λ (k : ℕ). get_or c.sources k 0) turn)

backoff_late : (failures : ℕ) → 5 ≤ failures → backoff failures ≡ 32 * second
unfolding backoff
backoff_late failures h =
    let most : (if ltb 5 failures then 5 else failures) ≡ 5 = ground (arith, h) in rw most refl

-- The wait after any number of failures is from one second to 32, and never shorter than after one
-- failure less.
pub backoff_bounds :
    (failures : ℕ)
    → (second ≤ backoff failures)
      × (backoff failures ≤ 32 * second)
      × (backoff failures ≤ backoff (suc failures))
unfolding backoff
backoff_bounds zero = (omega arith, omega arith, omega arith)
backoff_bounds (suc zero) = (omega arith, omega arith, omega arith)
backoff_bounds (suc (suc zero)) = (omega arith, omega arith, omega arith)
backoff_bounds (suc (suc (suc zero))) = (omega arith, omega arith, omega arith)
backoff_bounds (suc (suc (suc (suc zero)))) = (omega arith, omega arith, omega arith)
backoff_bounds (suc (suc (suc (suc (suc n))))) =
    let now = backoff_late (suc (suc (suc (suc (suc n))))) (omega arith) in
    let next = backoff_late (suc (suc (suc (suc (suc (suc n)))))) (omega arith) in
    (omega (arith, now), omega (arith, now), omega (arith, now, next))

-- A jittered interval is within a fifth of the interval.
pub jitter_bounds :
    (interval draw : ℕ)
    → draw < 2 * (interval / 5) + 1
    → (interval - interval / 5 ≤ jitter interval draw)
      × (jitter interval draw ≤ interval + interval / 5)
unfolding jitter
jitter_bounds interval draw h = (ground arith, ground arith)
