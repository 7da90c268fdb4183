-- ===== src/Node/Runtime/Accept/Commit.antt =====
-- The end of an acquisition.
use ghost_cache.Common.{
  ℕ, ◌≡◌, ◌⊎◌, refl, ap, ◌∙◌, true, false, List, [], ◌∷◌, none, Bool-cases, Result-cases, inl, inr,
  bytes_eq, Result, ok, err,
}
use ghost_cache.Publication.Packet.{PublicationId}
use ghost_cache.Publication.Manifest.{IsManifest}
use ghost_cache.Publication.Assembly.{Assembly, content, is_complete}
use ghost_cache.Publication.Assembly.Invariant.{IsAssembly}
use ghost_cache.Publication.Store.{Files, complete}
use ghost_cache.Publication.Store.Writes.{commit}
use ghost_cache.Publication.Store.Commit.{complete-commit}
use ghost_cache.Publication.Store.Listing as Listing
use ghost_cache.Publication.Store.Listing.Exact.{has_id-complete_ids}
use ghost_cache.Node.Ids.{has_id}
use ghost_cache.Node.Runtime.{Acquisition, Runtime, Env}
use ghost_cache.Node.Runtime.Table.{
  find_acquisition, delete_acquisition, remove_order, clear_inspected, contains_id,
}
use ghost_cache.Node.Runtime.Accept.{
  keep_listing, refresh_inventory, with_files, retire, committed, chunk_kept,
}

find-delete :
    (id : PublicationId) (table : List Acquisition)
    → find_acquisition id (delete_acquisition id table) ≡ none
unfolding find_acquisition delete_acquisition
find-delete id [] = refl
find-delete id (a ∷ rest) = elim (Bool-cases (bytes_eq a.id id)) [
  | inl same ↦ rw same (find-delete id rest)
  | inr other ↦ rw (other, other) (find-delete id rest)
]

remove_order_keeps :
    (id : PublicationId) (r : Runtime)
    → ((remove_order id r).acquisitions ≡ r.acquisitions)
      × ((remove_order id r).files ≡ r.files)
      × ((remove_order id r).complete_ids ≡ r.complete_ids)
unfolding remove_order
remove_order_keeps id r = elim (Bool-cases (contains_id id r.order)) [
  | inl there ↦ rw there (refl, refl, refl)
  | inr absent ↦ rw absent (refl, refl, refl)
]

retire_keeps :
    (id : PublicationId) (r : Runtime)
    → (find_acquisition id (retire id r).acquisitions ≡ none)
      × ((retire id r).files ≡ r.files)
      × ((retire id r).complete_ids ≡ r.complete_ids)
unfolding retire clear_inspected
retire_keeps id r =
    let (table, files, ids) =
      remove_order_keeps id
        (clear_inspected id (record r { acquisitions = delete_acquisition id r.acquisitions })) in
    unfold clear_inspected in
    (ap (find_acquisition id) table ∙ find-delete id r.acquisitions, files, ids)

-- The inventory is exactly what is complete.
refresh_exact :
    (env : Env) (r : Runtime) (x : PublicationId)
    → env.list_fails ≡ false
    → (has_id x (refresh_inventory env r).complete_ids ≡ complete env.world r.files x)
      × ((refresh_inventory env r).files ≡ r.files)
unfolding refresh_inventory
refresh_exact env r x readable =
    elim (Result-cases (Listing.complete_ids env.world env.list_fails r.files)) [
      | inl (ids, listed) ↦ rw listed (
          unfold keep_listing in
          (has_id-complete_ids env.world r.files ids x (rw readable at listed), refl))
      | inr (e, fails) ↦ absurd (unfold Listing.complete_ids in let no = rw readable at fails in cc)
    ]

committed_lem :
    (env : Env) (now : ℕ) (a : Acquisition) (assembly : Assembly)
    (outcome : Files × Result (List ℕ)) (r : Runtime) (whole : List ℕ)
    → outcome.1 ≡ ok whole
    → committed env now a assembly outcome r
      ≡ retire a.id (refresh_inventory env (with_files r outcome.0))
unfolding committed
committed_lem env now a assembly (files, ok bytes) r whole e = refl
committed_lem env now a assembly (files, err failure) r whole e = cc

-- When the last chunk has arrived and the commit succeeds, the publication is complete in the store,
-- it stands in the inventory that other nodes are told of, and it is no longer fetched. The manifest
-- is valid, JSON gives it back, and the folder of objects can be listed.
pub chunk_kept_commits :
    (env : Env) (now : ℕ) (a : Acquisition) (assembly : Assembly) (r : Runtime) (whole : List ℕ)
    → env.list_fails ≡ false
    → IsAssembly assembly
    → IsManifest assembly.manifest
    → (assembly.manifest.version ≡ 1) ⊎ (assembly.manifest.version ≡ 2)
    → env.world.unmarshal (env.world.marshal assembly.manifest) ≡ ok assembly.manifest
    → a.id ≡ assembly.manifest.id
    → is_complete assembly ≡ true
    → (commit env.world assembly r.files).1 ≡ ok whole
    → let after = chunk_kept env now a assembly r in
      (content env.world.sha256 assembly ≡ ok whole)
      × (complete env.world after.files a.id ≡ true)
      × (has_id a.id after.complete_ids ≡ true)
      × (find_acquisition a.id after.acquisitions ≡ none)
unfolding chunk_kept
chunk_kept_commits env now a assembly r whole readable v m known json same full done =
    let (all, stored, there, loaded) =
      complete-commit env.world assembly r.files whole v m known json done in
    let files = (commit env.world assembly r.files).0 in
    let at_id : complete env.world files a.id ≡ true = rw same stored in
    let refreshed = refresh_inventory env (with_files r files) in
    let (exact, kept_files) = refresh_exact env (with_files r files) a.id readable in
    let (gone, files', ids) = retire_keeps a.id refreshed in
    let after : chunk_kept env now a assembly r ≡ retire a.id refreshed =
      rw full (committed_lem env now a assembly (commit env.world assembly r.files) r whole done) in
    rw after (
      all,
      ap (λ (fs : Files). complete env.world fs a.id) (files' ∙ kept_files) ∙ at_id,
      ap (has_id a.id) ids ∙ exact ∙ at_id,
      gone,
    )
