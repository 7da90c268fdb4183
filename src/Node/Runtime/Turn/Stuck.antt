-- ===== src/Node/Runtime/Turn/Stuck.antt =====
-- A publication whose chunks have all arrived, but whose commit failed.
use ghost_cache.Common.{
  ℕ, zero, suc, ◌+◌, ◌%◌, ◌≡◌, refl, Bool, true, List, [], some, Bool-cases, inl, inr, ◌==◌, length,
  get_or,
}
use ghost_cache.Publication.Assembly.{Assembly}
use ghost_cache.Node.Scheduler.{search_loop, missing_batch}
use ghost_cache.Node.Runtime.{Acquisition, Runtime, Env}
use ghost_cache.Node.Runtime.Table.{update}
use ghost_cache.Node.Runtime.Turn.{with_source, request_chunks, request, initiate}

search_loop_full :
    (n : ℕ) (received : List Bool) (start offset : ℕ)
    → ((i : ℕ) → get_or received i true ≡ true)
    → search_loop n received start offset ≡ (0, (0, []))
unfolding search_loop
search_loop_full zero received start offset h = refl
search_loop_full (suc n) received start offset h =
    rw (h ((start + offset) % length received)) (search_loop_full n received start (offset + 1) h)

missing_batch_full :
    (received : List Bool) (start : ℕ)
    → ((i : ℕ) → get_or received i true ≡ true)
    → missing_batch received start ≡ (0, (0, []))
unfolding missing_batch
missing_batch_full received start h = elim (Bool-cases (length received == 0)) [
  | inl empty ↦ rw empty refl
  | inr some_chunks ↦ rw some_chunks (search_loop_full (length received) received start 0 h)
]

-- A call of `initiate` for an acquisition whose assembly has every chunk sends nothing, writes nothing
-- to the store, and leaves the inventory as it is: it does not commit the assembly.
pub initiate_complete :
    (env : Env) (now : ℕ) (a : Acquisition) (assembly : Assembly) (r : Runtime)
    → a.assembly ≡ some assembly
    → ((i : ℕ) → get_or assembly.received i true ≡ true)
    → let after = initiate env now a r in
      (after.sends ≡ r.sends) × (after.files ≡ r.files) × (after.complete_ids ≡ r.complete_ids)
unfolding initiate request request_chunks update with_source
initiate_complete env now a assembly r held full =
    rw (held, missing_batch_full assembly.received a.cursor full) (refl, refl, refl)
