-- ===== src/Publication/Store/Listing.antt =====
-- The listings of internal/publication/store.go. The folders below objects/, partial/ and known/ are
-- those that hold a file; a folder with another name than an ID is none of the model's paths.
pub mod Exact
use ghost_cache.Common.{
  Bool, List, [], ◌∷◌, Option, none, some, if◌then◌else◌, Result, ok, io_error, ◌>>=◌, ◌>>◌,
  fail_if,
}
use ghost_cache.Publication.Packet.{PublicationId}
use ghost_cache.Publication.Store.{
  StorePath, object_content, object_manifest, object_complete, partial_manifest, partial_chunk,
  known_manifest, known_want, Files, World, complete, has_partial, has_known, is_wanted,
}
use ghost_cache.Node.Ids.{sorted_ids, has_id}

abbrev pub object_dir : StorePath → Option PublicationId
object_dir (object_content id) = some id
object_dir (object_manifest id) = some id
object_dir (object_complete id) = some id
object_dir _ = none

abbrev pub partial_dir : StorePath → Option PublicationId
partial_dir (partial_manifest id) = some id
partial_dir (partial_chunk id i) = some id
partial_dir _ = none

abbrev pub known_dir : StorePath → Option PublicationId
known_dir (known_manifest id) = some id
known_dir (known_want id) = some id
known_dir _ = none

unfoldable pub add_dir : Option PublicationId → List PublicationId → List PublicationId
add_dir none dirs = dirs
add_dir (some id) dirs = if has_id id dirs then dirs else id ∷ dirs

-- The folders of one kind, each once.
unfoldable pub dirs_of : (StorePath → Option PublicationId) → Files → List PublicationId
dirs_of dir [] = []
dirs_of dir (file ∷ files) = add_dir (dir file.0) (dirs_of dir files)

unfoldable pub keep_ids : (PublicationId → Bool) → List PublicationId → List PublicationId
keep_ids test [] = []
keep_ids test (id ∷ ids) = let rest = keep_ids test ids in if test id then id ∷ rest else rest

-- `IDs`; the flag says that the folder cannot be read.
unfoldable pub complete_ids : World → Bool → Files → Result (List PublicationId)
complete_ids w fails files = do
  fail_if fails io_error
  ok (sorted_ids (keep_ids (complete w files) (dirs_of object_dir files)))

unfoldable pub partial_ids : Bool → Files → Result (List PublicationId)
partial_ids fails files = do
  fail_if fails io_error
  ok (sorted_ids (keep_ids (has_partial files) (dirs_of partial_dir files)))

unfoldable pub known_ids : World → Bool → Files → Result (List PublicationId)
known_ids w fails files = do
  fail_if fails io_error
  ok (sorted_ids (keep_ids (has_known w files) (dirs_of known_dir files)))

unfoldable pub wanted_ids : World → Bool → Files → Result (List PublicationId)
wanted_ids w fails files = do ids ← known_ids w fails files; ok (keep_ids (is_wanted files) ids)
