-- ===== src/Node/Scheduler.antt =====
-- internal/node/scheduler.go: which chunks to ask for next, whom to ask, and how long to wait.
pub mod Rounds
pub mod Batch
pub mod Delay
use ghost_cache.Common.{
  ℕ, zero, suc, ◌+◌, ◌-◌, ◌*◌, ◌/◌, ◌%◌, ◌^◌, ◌≤◌, ◌<◌, Bool, true, false, not, ◌||◌, List, [], ◌∷◌,
  ◌++◌, ltb, ◌==◌, if◌then◌else◌, length, get_or, bit_or,
}
use ghost_cache.Node.Packet.{NodeId, max_chunk_batch}
use ghost_cache.Publication.Packet.{PublicationId}

-- The inner loop over the eight bits of a block, with n bits left to look at. It ends early at the
-- end of the list and when the batch is full.
unfoldable pub batch_loop : ℕ → List Bool → ℕ → ℕ → ℕ → List ℕ → ℕ × List ℕ
batch_loop zero received base bit bitmap indexes = (bitmap, indexes)
batch_loop (suc n) received base bit bitmap indexes =
    let missing = not (get_or received (base + bit) true) in
    let rest =
      batch_loop n received base (bit + 1) (if missing then bit_or bitmap (2 ^ bit) else bitmap)
        (if missing then indexes ++ ((base + bit) % 2 ^ 16) ∷ [] else indexes) in
    if not (ltb (base + bit) (length received)) || not (ltb (length indexes) max_chunk_batch)
    then (bitmap, indexes)
    else rest

-- The outer loop, with n chunks left to look at.
unfoldable pub search_loop : ℕ → List Bool → ℕ → ℕ → ℕ × (ℕ × List ℕ)
search_loop zero received start offset = (0, (0, []))
search_loop (suc n) received start offset =
    let rest = search_loop n received start (offset + 1) in
    let i = (start + offset) % length received in
    if get_or received i true
    then rest
    else (i / 8 * 8 % 2 ^ 16, batch_loop 8 received (i / 8 * 8) 0 0 [])

unfoldable pub missing_batch : List Bool → ℕ → ℕ × (ℕ × List ℕ)
missing_batch received start =
    if length received == 0 then (0, (0, [])) else search_loop (length received) received start 0

-- A publication to fetch, and the nodes that have it.
pub record Candidate : Type 0 where
  pub id : PublicationId
  pub sources : List NodeId
  pub source_index : ℕ
  pub failures : ℕ
  pub next_attempt : ℕ

-- `Source` returns the next node to ask, and moves on.
unfoldable pub next_source : Candidate → NodeId × Candidate
next_source c = if length c.sources == 0 then (0, c) else (
  get_or c.sources (c.source_index % length c.sources) 0,
  record c { source_index = (c.source_index + 1) % length c.sources },
)

-- A second, in nanoseconds.
abbrev pub second : ℕ
second = 1000000000

unfoldable pub backoff : ℕ → ℕ
backoff failures = second * 2 ^ (if ltb 5 failures then 5 else failures)

-- The draw is what `rng.Int63n` returned, below its argument 2 * spread + 1.
unfoldable pub jitter : ℕ → ℕ → ℕ
jitter interval draw = if ltb 0 interval then interval - interval / 5 + draw else 0
