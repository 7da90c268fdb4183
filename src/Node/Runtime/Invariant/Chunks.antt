-- ===== src/Node/Runtime/Invariant/Chunks.antt =====
-- The chunks that a node receives keep the invariant of its runtime.
use ghost_cache.Common.{
  ℕ, ◌≡◌, refl, List, Option, none, some, Bool-cases, inl, inr, ◌==◌, length, elem, hash_mismatch,
  Result, ok, err,
}
use ghost_cache.Publication.Assembly.{Assembly, is_complete}
use ghost_cache.Publication.Store.{Files}
use ghost_cache.Publication.Store.Begin.{restart}
use ghost_cache.Node.Kind
use ghost_cache.Node.Packet.{Packet}
use ghost_cache.Node.Runtime.{Acquisition, Runtime, Env}
use ghost_cache.Node.Runtime.Table.{active}
use ghost_cache.Node.Runtime.Accept.{
  refresh_inventory, proceed, with_files, restarted, committed, chunk_kept, chunk_added, take_chunk,
  accept_chunk_of, accept_chunk_for, accept_chunk,
}
use ghost_cache.Node.Runtime.Invariant.{HasFewSources, IsRuntime}
use ghost_cache.Node.Runtime.Invariant.Table.{IsEntry, update_idle, update_same, active-IsEntry}
use ghost_cache.Node.Runtime.Invariant.Radio.{fail-IsRuntime}
use ghost_cache.Node.Runtime.Invariant.Accept.{refresh-IsRuntime, retire-IsRuntime}

module _ (limit : ℕ) (env : Env) (now : ℕ) where
  committed-IsRuntime :
      (a : Acquisition) (assembly : Assembly) (outcome : Files × Result (List ℕ)) (r : Runtime)
      → IsRuntime limit r
      → HasFewSources a
      → IsRuntime limit (committed env now a assembly outcome r)
  unfolding committed refresh_inventory
  committed-IsRuntime a assembly (files, ok whole) r h few =
      retire-IsRuntime limit env now a.id _
        (refresh-IsRuntime limit env now _ (with_files r files) h)
  committed-IsRuntime a assembly (files, err hash_mismatch) r h few =
      fail-IsRuntime limit env now _ (with_files r (restart env.world assembly.manifest files).0) h
        (restarted-few (restart env.world assembly.manifest files))
    where
      restarted-few : (again : Files × Result Assembly) → HasFewSources (restarted a again)
      restarted-few (left, ok begun_again) = few
      restarted-few (left, err e) = few
  committed-IsRuntime a assembly (files, err _) r h few =
      fail-IsRuntime limit env now a (with_files r files) h few

  chunk_kept-IsRuntime :
      (old a : Acquisition) (assembly : Assembly) (r : Runtime)
      → IsRuntime limit r
      → IsEntry old r
      → HasFewSources a
      → a.id ≡ old.id
      → a.waiting ≡ old.waiting
      → IsRuntime limit (chunk_kept env now a assembly r)
  unfolding chunk_kept proceed
  chunk_kept-IsRuntime old a assembly r h entry few same_id same =
      elim (Bool-cases (is_complete assembly)) [
        | inl full ↦ rw full (committed-IsRuntime a assembly _ r h few)
        | inr more ↦ elim (Bool-cases (length a.wanted == 0)) [
          | inl last ↦ rw (more, last) (update_idle limit _ r h few refl)
          | inr later ↦ rw (more, later) (update_same limit old a r h entry few same_id same)
        ]
      ]

  chunk_added-IsRuntime :
      (a : Acquisition) (index : ℕ) (outcome : Files × (Assembly × Result (Unit {0}))) (r : Runtime)
      → IsRuntime limit r
      → IsEntry a r
      → IsRuntime limit (chunk_added env now a index outcome r)
  unfolding chunk_added
  chunk_added-IsRuntime a index (files, (assembly, err e)) r h entry =
      update_same limit a _ (with_files r files) h entry entry.0 refl refl
  chunk_added-IsRuntime a index (files, (assembly, ok u)) r h entry =
      chunk_kept-IsRuntime a _ assembly (with_files r files) h entry entry.0 refl refl

  take_chunk-IsRuntime :
      (a : Acquisition) (assembly : Assembly) (decoded : Result (ℕ × List ℕ)) (r : Runtime)
      → IsRuntime limit r
      → IsEntry a r
      → IsRuntime limit (take_chunk env now a assembly decoded r)
  unfolding take_chunk
  take_chunk-IsRuntime a assembly (err e) r h entry = h
  take_chunk-IsRuntime a assembly (ok (index, bytes)) r h entry =
      elim (Bool-cases (elem index a.wanted)) [
        | inl asked ↦ rw asked (chunk_added-IsRuntime a index _ r h entry)
        | inr other ↦ rw other h
      ]

  accept_chunk_of-IsRuntime :
      (p : Packet) (a : Acquisition) (assembly : Option Assembly) (r : Runtime)
      → IsRuntime limit r
      → IsEntry a r
      → IsRuntime limit (accept_chunk_of env now p a assembly r)
  unfolding accept_chunk_of
  accept_chunk_of-IsRuntime p a none r h entry = h
  accept_chunk_of-IsRuntime p a (some assembly) r h entry =
      elim (Bool-cases (a.waiting == Kind.chunk)) [
        | inl waiting ↦ rw waiting (take_chunk-IsRuntime a assembly _ r h entry)
        | inr other ↦ rw other h
      ]

  accept_chunk_for-IsRuntime :
      (p : Packet) (found : Option Acquisition) (r : Runtime)
      → IsRuntime limit r
      → ((a : Acquisition) → found ≡ some a → IsEntry a r)
      → IsRuntime limit (accept_chunk_for env now p found r)
  unfolding accept_chunk_for
  accept_chunk_for-IsRuntime p none r h entry = h
  accept_chunk_for-IsRuntime p (some a) r h entry =
      accept_chunk_of-IsRuntime p a a.assembly r h (entry a refl)

  pub accept_chunk-IsRuntime :
      (p : Packet) (r : Runtime) → IsRuntime limit r → IsRuntime limit (accept_chunk env now p r)
  unfolding accept_chunk
  accept_chunk-IsRuntime p r h =
      accept_chunk_for-IsRuntime p (active env p r) r h (λ a e. active-IsEntry limit env p r a h e)
