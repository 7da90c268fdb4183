-- ===== src/Node/Runtime/Accept.antt =====
-- What a node does with the answers to its requests, in internal/node/runtime.go: `acceptManifest`,
-- `acceptSignature` and `acceptChunk`.
pub mod Commit
pub mod Unasked
use ghost_cache.Common.{
  ℕ, suc, ◌+◌, ◌*◌, not, ◌&&◌, List, [], ◌∷◌, Option, none, some, ◌==◌, if◌then◌else◌, length,
  bytes_eq, elem, hash_mismatch, Result, ok, err,
}
use ghost_cache.Publication.Packet.{PublicationId}
use ghost_cache.Publication.Manifest.{Manifest, Signature}
use ghost_cache.Publication.Assembly.{Assembly, is_complete}
use ghost_cache.Publication.Signing.{signed_manifest_version, verify_manifest_signature}
use ghost_cache.Publication.Store.{Files, has_partial, is_wanted}
use ghost_cache.Publication.Store.Writes.{save_known, commit, store_add}
use ghost_cache.Publication.Store.Begin.{begin_assembly, discard_partial, restart}
use ghost_cache.Publication.Store.Listing as Listing
use ghost_cache.Node.Kind
use ghost_cache.Node.Packet.{Packet, NodeId}
use ghost_cache.Node.Controller.{millisecond}
use ghost_cache.Node.Policy.{is_signed, is_valid, accept}
use ghost_cache.Node.Transfer.{decode_manifest, decode_signature, decode_chunk}
use ghost_cache.Node.Runtime.{Acquisition, Runtime, Env}
use ghost_cache.Node.Runtime.Table.{
  update, delete_acquisition, drop_acquisition, remove_order, active, mark_source_inspected,
  clear_inspected,
}
use ghost_cache.Node.Runtime.Radio.{fail}

unfoldable pub keep_listing : Result (List PublicationId) → Runtime → Runtime
keep_listing (ok ids) r = record r { complete_ids = ids }
keep_listing (err e) r = r

-- `refreshInventory`, whose error is only logged.
unfoldable pub refresh_inventory : Env → Runtime → Runtime
refresh_inventory env r = keep_listing (Listing.complete_ids env.world env.list_fails r.files) r

abbrev pub soon : ℕ
soon = 100 * millisecond

-- The answer is there, and the next request can follow.
unfoldable pub proceed : ℕ → Acquisition → Acquisition
proceed now a = record a { waiting = 0; failures = 0; next_attempt = now + soon }

abbrev pub with_files : Runtime → Files → Runtime
with_files r files = record r { files = files }

-- An acquisition is over, with what was known about its sources.
unfoldable pub retire : PublicationId → Runtime → Runtime
retire id r =
    remove_order id
      (clear_inspected id (record r { acquisitions = delete_acquisition id r.acquisitions }))

unfoldable pub take_manifest : Env → ℕ → NodeId → Acquisition → Result Manifest → Runtime → Runtime
take_manifest env now source a (err e) r = fail env now a r
take_manifest env now source a (ok m) r =
    if not (bytes_eq m.id a.id)
    then fail env now a r
    else update
        (record a {
          manifest = some m;
          manifest_source = source;
          waiting = 0;
          active_source = 0;
          next_attempt = now + soon;
        })
        r

unfoldable pub accept_manifest_for : Env → ℕ → Packet → Option Acquisition → Runtime → Runtime
accept_manifest_for env now p none r = r
accept_manifest_for env now p (some a) r =
    if a.waiting == Kind.manifest
    then take_manifest env now p.source a (decode_manifest p a.id) r
    else r

-- `acceptManifest`.
unfoldable pub accept_manifest : Env → ℕ → Packet → Runtime → Runtime
accept_manifest env now p r = accept_manifest_for env now p (active env p r) r

-- The acquisition after a commit that was tried from its stored partial data.
unfoldable pub committed_begun : Env → ℕ → Acquisition → Files × Result (List ℕ) → Runtime → Runtime
committed_begun env now a (files, ok whole) r =
    retire a.id (refresh_inventory env (with_files r files))
committed_begun env now a (files, err hash_mismatch) r =
    fail env now (record a { assembly = none })
      (with_files r (discard_partial env.world a.id files).0)
committed_begun env now a (files, err e) r = fail env now a (with_files r files)

unfoldable pub begun : Env → ℕ → Acquisition → Files × Result Assembly → Runtime → Runtime
begun env now a (files, err e) r = fail env now a (with_files r files)
begun env now a (files, ok assembly) r =
    let held = record a { assembly = some assembly; manifest = none; manifest_source = 0 } in
    if is_complete assembly
    then committed_begun env now held (commit env.world assembly files) r
    else update (proceed now held) (with_files r files)

unfoldable pub count_deferred : Runtime → Runtime
count_deferred r = record r {
  metrics = record r.metrics { objects_deferred = suc r.metrics.objects_deferred };
}

unfoldable pub count_accepted : Runtime → Runtime
count_accepted r = record r {
  metrics = record r.metrics { objects_accepted = suc r.metrics.objects_accepted };
}

-- Once the manifest is among the known ones the policy decides.
unfoldable pub decide : Env → ℕ → Acquisition → Manifest → Runtime → Runtime
decide env now a m r =
    if accept env.world.verify env.policy m (has_partial r.files m.id) (is_wanted r.files m.id)
    then begun env now a (begin_assembly env.world m r.files) (count_accepted r)
    else drop_acquisition a.id (count_deferred r)

unfoldable pub saved :
    Env → ℕ → Acquisition → Manifest → Files × Result (Unit {0}) → Runtime → Runtime
saved env now a m (files, err e) r = fail env now a (with_files r files)
saved env now a m (files, ok u) r = decide env now a m (with_files r files)

-- The manifest with the signature that was sent for it.
abbrev pub signed_with : Option Signature → Manifest → Manifest
signed_with sig m = record m {
  signature = sig;
  version = if is_signed sig then signed_manifest_version else 1;
}

unfoldable pub take_signature :
    Env → ℕ → NodeId → Acquisition → Manifest → Result (Option Signature) → Runtime → Runtime
take_signature env now source a m (err e) r = fail env now a r
take_signature env now source a m (ok sig) r =
    let marked = mark_source_inspected m.id source r in
    let full = signed_with sig m in
    if is_signed sig && not (is_valid (verify_manifest_signature env.world.verify full))
    then retire a.id marked
    else saved env now a full (save_known env.world full marked.files) marked

unfoldable pub accept_signature_of :
    Env → ℕ → Packet → Acquisition → Option Manifest → Runtime → Runtime
accept_signature_of env now p a none r = r
accept_signature_of env now p a (some m) r =
    if a.waiting == Kind.signature
    then take_signature env now p.source a m (decode_signature p) r
    else r

unfoldable pub accept_signature_for : Env → ℕ → Packet → Option Acquisition → Runtime → Runtime
accept_signature_for env now p none r = r
accept_signature_for env now p (some a) r = accept_signature_of env now p a a.manifest r

-- `acceptSignature`.
unfoldable pub accept_signature : Env → ℕ → Packet → Runtime → Runtime
accept_signature env now p r = accept_signature_for env now p (active env p r) r

abbrev pub restarted : Acquisition → Files × Result Assembly → Acquisition
restarted a (files, ok assembly) = record a { assembly = some assembly }
restarted a (files, err e) = a

-- The acquisition after the commit of the content that has arrived.
unfoldable pub committed :
    Env → ℕ → Acquisition → Assembly → Files × Result (List ℕ) → Runtime → Runtime
committed env now a assembly (files, ok whole) r =
    retire a.id (refresh_inventory env (with_files r files))
committed env now a assembly (files, err hash_mismatch) r =
    let again = restart env.world assembly.manifest files in
    fail env now (restarted a again) (with_files r again.0)
committed env now a assembly (files, err e) r = fail env now a (with_files r files)

unfoldable pub without : ℕ → List ℕ → List ℕ
without index [] = []
without index (x ∷ xs) = let rest = without index xs in if x == index then rest else x ∷ rest

unfoldable pub chunk_kept : Env → ℕ → Acquisition → Assembly → Runtime → Runtime
chunk_kept env now a assembly r =
    if is_complete assembly
    then committed env now a assembly (commit env.world assembly r.files) r
    else update (if length a.wanted == 0 then proceed now a else a) r

-- `Store.Add` changes the assembly in place; a chunk that it refuses is as good as not received.
unfoldable pub chunk_added :
    Env → ℕ → Acquisition → ℕ → Files × (Assembly × Result (Unit {0})) → Runtime → Runtime
chunk_added env now a index (files, (assembly, err e)) r =
    update (record a { assembly = some assembly }) (with_files r files)
chunk_added env now a index (files, (assembly, ok u)) r =
    chunk_kept env now (record a { assembly = some assembly; wanted = without index a.wanted })
      assembly (with_files r files)

unfoldable pub take_chunk :
    Env → ℕ → Acquisition → Assembly → Result (ℕ × List ℕ) → Runtime → Runtime
take_chunk env now a assembly (err e) r = r
take_chunk env now a assembly (ok (index, bytes)) r =
    if elem index a.wanted
    then chunk_added env now a index (store_add env.world assembly index bytes r.files) r
    else r

-- Chunks are only waited for with an assembly.
unfoldable pub accept_chunk_of :
    Env → ℕ → Packet → Acquisition → Option Assembly → Runtime → Runtime
accept_chunk_of env now p a none r = r
accept_chunk_of env now p a (some assembly) r =
    if a.waiting == Kind.chunk then take_chunk env now a assembly (decode_chunk p) r else r

unfoldable pub accept_chunk_for : Env → ℕ → Packet → Option Acquisition → Runtime → Runtime
accept_chunk_for env now p none r = r
accept_chunk_for env now p (some a) r = accept_chunk_of env now p a a.assembly r

-- `acceptChunk`.
unfoldable pub accept_chunk : Env → ℕ → Packet → Runtime → Runtime
accept_chunk env now p r = accept_chunk_for env now p (active env p r) r
