-- ===== src/Node/Runtime/Invariant/Accept.antt =====
-- The answers to a node's requests keep the invariant of its runtime.
use ghost_cache.Common.{
  ℕ, ◌≡◌, refl, not, ◌&&◌, List, Option, none, some, Bool-cases, inl, inr, ◌==◌, bytes_eq,
  hash_mismatch, Result, ok, err,
}
use ghost_cache.Publication.Packet.{PublicationId}
use ghost_cache.Publication.Manifest.{Manifest, Signature}
use ghost_cache.Publication.Assembly.{Assembly, is_complete}
use ghost_cache.Publication.Signing.{verify_manifest_signature}
use ghost_cache.Publication.Store.{Files, has_partial, is_wanted}
use ghost_cache.Node.Kind
use ghost_cache.Node.Packet.{Packet, NodeId}
use ghost_cache.Node.Policy.{is_signed, is_valid, accept}
use ghost_cache.Node.Runtime.{Acquisition, Runtime, Env}
use ghost_cache.Node.Runtime.Table.{active, clear_inspected}
use ghost_cache.Node.Runtime.Accept.{
  keep_listing, refresh_inventory, proceed, with_files, retire, take_manifest, accept_manifest_for,
  accept_manifest, committed_begun, begun, count_deferred, count_accepted, decide, saved,
  signed_with, take_signature, accept_signature_of, accept_signature_for, accept_signature,
}
use ghost_cache.Node.Runtime.Invariant.{HasFewSources, IsRuntime}
use ghost_cache.Node.Runtime.Invariant.Table.{
  IsEntry, update_idle, remove_order-IsRuntime, drop_acquisition-IsRuntime, active-IsEntry,
}
use ghost_cache.Node.Runtime.Invariant.Sources.{mark-IsRuntime, clear-IsRuntime}
use ghost_cache.Node.Runtime.Invariant.Radio.{fail-IsRuntime}

module _ (limit : ℕ) (env : Env) (now : ℕ) where
  pub refresh-IsRuntime :
      (listing : Result (List PublicationId)) (r : Runtime)
      → IsRuntime limit r
      → IsRuntime limit (keep_listing listing r)
  unfolding keep_listing
  refresh-IsRuntime (ok ids) r h = h
  refresh-IsRuntime (err e) r h = h

  pub retire-IsRuntime :
      (id : PublicationId) (r : Runtime) → IsRuntime limit r → IsRuntime limit (retire id r)
  unfolding retire clear_inspected
  retire-IsRuntime id r h =
      remove_order-IsRuntime limit id (clear_inspected id r) _ (clear-IsRuntime limit id r h) refl

  take_manifest-IsRuntime :
      (source : NodeId) (a : Acquisition) (m : Result Manifest) (r : Runtime)
      → IsRuntime limit r
      → HasFewSources a
      → IsRuntime limit (take_manifest env now source a m r)
  unfolding take_manifest
  take_manifest-IsRuntime source a (err e) r h few = fail-IsRuntime limit env now a r h few
  take_manifest-IsRuntime source a (ok m) r h few = elim (Bool-cases (not (bytes_eq m.id a.id))) [
    | inl other ↦ rw other (fail-IsRuntime limit env now a r h few)
    | inr same ↦ rw same (update_idle limit _ r h few refl)
  ]

  accept_manifest_for-IsRuntime :
      (p : Packet) (found : Option Acquisition) (r : Runtime)
      → IsRuntime limit r
      → ((a : Acquisition) → found ≡ some a → IsEntry a r)
      → IsRuntime limit (accept_manifest_for env now p found r)
  unfolding accept_manifest_for
  accept_manifest_for-IsRuntime p none r h entry = h
  accept_manifest_for-IsRuntime p (some a) r h entry =
      elim (Bool-cases (a.waiting == Kind.manifest)) [
        | inl waiting ↦ rw waiting (take_manifest-IsRuntime p.source a _ r h (entry a refl).0)
        | inr other ↦ rw other h
      ]

  pub accept_manifest-IsRuntime :
      (p : Packet) (r : Runtime) → IsRuntime limit r → IsRuntime limit (accept_manifest env now p r)
  unfolding accept_manifest
  accept_manifest-IsRuntime p r h =
      accept_manifest_for-IsRuntime p (active env p r) r h
        (λ a e. active-IsEntry limit env p r a h e)

  committed_begun-IsRuntime :
      (a : Acquisition) (outcome : Files × Result (List ℕ)) (r : Runtime)
      → IsRuntime limit r
      → HasFewSources a
      → IsRuntime limit (committed_begun env now a outcome r)
  unfolding committed_begun refresh_inventory
  committed_begun-IsRuntime a (files, ok whole) r h few =
      retire-IsRuntime a.id _ (refresh-IsRuntime _ (with_files r files) h)
  committed_begun-IsRuntime a (files, err hash_mismatch) r h few =
      fail-IsRuntime limit env now (record a { assembly = none }) _ h few
  committed_begun-IsRuntime a (files, err _) r h few =
      fail-IsRuntime limit env now a (with_files r files) h few

  begun-IsRuntime :
      (a : Acquisition) (outcome : Files × Result Assembly) (r : Runtime)
      → IsRuntime limit r
      → HasFewSources a
      → IsRuntime limit (begun env now a outcome r)
  unfolding begun proceed
  begun-IsRuntime a (files, err e) r h few =
      fail-IsRuntime limit env now a (with_files r files) h few
  begun-IsRuntime a (files, ok assembly) r h few = elim (Bool-cases (is_complete assembly)) [
    | inl full ↦ rw full (committed_begun-IsRuntime _ _ r h few)
    | inr more ↦ rw more (update_idle limit _ (with_files r files) h few refl)
  ]

  decide-IsRuntime :
      (a : Acquisition) (m : Manifest) (r : Runtime)
      → IsRuntime limit r
      → HasFewSources a
      → IsRuntime limit (decide env now a m r)
  unfolding decide count_accepted count_deferred
  decide-IsRuntime a m r h few =
      elim (Bool-cases (
        accept env.world.verify env.policy m (has_partial r.files m.id) (is_wanted r.files m.id))) [
          | inl yes_please ↦ rw yes_please (begun-IsRuntime a _ _ h few)
          | inr no_thanks ↦ rw no_thanks (drop_acquisition-IsRuntime limit a.id _ h)
        ]

  saved-IsRuntime :
      (a : Acquisition) (m : Manifest) (outcome : Files × Result (Unit {0})) (r : Runtime)
      → IsRuntime limit r
      → HasFewSources a
      → IsRuntime limit (saved env now a m outcome r)
  unfolding saved
  saved-IsRuntime a m (files, err e) r h few =
      fail-IsRuntime limit env now a (with_files r files) h few
  saved-IsRuntime a m (files, ok u) r h few = decide-IsRuntime a m (with_files r files) h few

  take_signature-IsRuntime :
      (source : NodeId) (a : Acquisition) (m : Manifest) (sig : Result (Option Signature))
      (r : Runtime)
      → IsRuntime limit r
      → HasFewSources a
      → IsRuntime limit (take_signature env now source a m sig r)
  unfolding take_signature
  take_signature-IsRuntime source a m (err e) r h few = fail-IsRuntime limit env now a r h few
  take_signature-IsRuntime source a m (ok sig) r h few =
      let marked = mark-IsRuntime limit m.id source r h in
      elim (Bool-cases (
        is_signed sig
        && not (is_valid (verify_manifest_signature env.world.verify (signed_with sig m))))) [
          | inl bad ↦ rw bad (retire-IsRuntime a.id _ marked)
          | inr good ↦ rw good (saved-IsRuntime a _ _ _ marked few)
        ]

  accept_signature_of-IsRuntime :
      (p : Packet) (a : Acquisition) (m : Option Manifest) (r : Runtime)
      → IsRuntime limit r
      → HasFewSources a
      → IsRuntime limit (accept_signature_of env now p a m r)
  unfolding accept_signature_of
  accept_signature_of-IsRuntime p a none r h few = h
  accept_signature_of-IsRuntime p a (some m) r h few =
      elim (Bool-cases (a.waiting == Kind.signature)) [
        | inl waiting ↦ rw waiting (take_signature-IsRuntime p.source a m _ r h few)
        | inr other ↦ rw other h
      ]

  accept_signature_for-IsRuntime :
      (p : Packet) (found : Option Acquisition) (r : Runtime)
      → IsRuntime limit r
      → ((a : Acquisition) → found ≡ some a → IsEntry a r)
      → IsRuntime limit (accept_signature_for env now p found r)
  unfolding accept_signature_for
  accept_signature_for-IsRuntime p none r h entry = h
  accept_signature_for-IsRuntime p (some a) r h entry =
      accept_signature_of-IsRuntime p a a.manifest r h (entry a refl).0

  pub accept_signature-IsRuntime :
      (p : Packet) (r : Runtime)
      → IsRuntime limit r
      → IsRuntime limit (accept_signature env now p r)
  unfolding accept_signature
  accept_signature-IsRuntime p r h =
      accept_signature_for-IsRuntime p (active env p r) r h
        (λ a e. active-IsEntry limit env p r a h e)
