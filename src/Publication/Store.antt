-- ===== src/Publication/Store.antt =====
-- `Store` of internal/publication/store.go over a file system that maps paths to contents. JSON,
-- SHA-256 and Ed25519 are parameters, and so is which writes and removals fail, and how. A write
-- (`writeAtomic`) that fails leaves the old file, or has put the new one in its place when it reports
-- the error of the directory; a removal that fails removes what it can.
pub mod Files
pub mod Commit
pub mod Resume
pub mod Add
pub mod Writes
pub mod Begin
pub mod Listing
use ghost_cache.Common.{
  ℕ, zero, suc, ◌+◌, ◌-◌, ◌*◌, ◌/◌, ◌%◌, ◌^◌, Bool, true, false, not, ◌&&◌, ◌||◌, List, [], ◌∷◌,
  ◌++◌, Option, none, some, ltb, leb, ◌==◌, if◌then◌else◌, length, get_or, set, take, drop, slice,
  min, bytes_eq, Error, Result, ok, err, malformed, io_error, refused, ◌>>=◌, ◌>>◌, fail_if,
}
use ghost_cache.Publication.Packet.{PublicationId, decode_packet, chunk_data_size, max_chunks}
use ghost_cache.Publication.Manifest.{Manifest, encode_manifest, decode_manifest}
use ghost_cache.Publication.Assembly.{Assembly, new_assembly, add, content}
use ghost_cache.Publication.Signing.{
  Identity, sign_manifest, verify_manifest_signature, signed_manifest_version,
}

-- The files below the root: objects/ID, partial/ID and known/ID.
pub data StorePath : Type 0 where
  object_content object_manifest object_complete : PublicationId → StorePath
  partial_manifest : PublicationId → StorePath
  partial_chunk : PublicationId → ℕ → StorePath
  known_manifest known_want : PublicationId → StorePath

unfoldable pub same_path : StorePath → StorePath → Bool
same_path (object_content a) (object_content b) = bytes_eq a b
same_path (object_manifest a) (object_manifest b) = bytes_eq a b
same_path (object_complete a) (object_complete b) = bytes_eq a b
same_path (partial_manifest a) (partial_manifest b) = bytes_eq a b
same_path (partial_chunk a i) (partial_chunk b j) = bytes_eq a b && i == j
same_path (known_manifest a) (known_manifest b) = bytes_eq a b
same_path (known_want a) (known_want b) = bytes_eq a b
same_path _ _ = false

abbrev pub Files : Type 0
Files = List (StorePath × List ℕ)

-- `os.ReadFile`.
unfoldable pub read_file : Files → StorePath → Option (List ℕ)
read_file [] path = none
read_file (file ∷ files) path =
    let rest = read_file files path in if same_path file.0 path then some file.1 else rest

-- Whether a path lies in the directory partial/ID.
unfoldable pub is_partial_of : PublicationId → StorePath → Bool
is_partial_of id (partial_manifest a) = bytes_eq a id
is_partial_of id (partial_chunk a i) = bytes_eq a id
is_partial_of id _ = false

-- `os.RemoveAll` of partial/ID, when it succeeds.
unfoldable pub remove_partial : PublicationId → Files → Files
remove_partial id [] = []
remove_partial id (file ∷ files) =
    let rest = remove_partial id files in if is_partial_of id file.0 then rest else file ∷ rest

-- The same, when it fails and some of the files are left.
unfoldable pub remove_some : (StorePath → Bool) → PublicationId → Files → Files
remove_some leaves id [] = []
remove_some leaves id (file ∷ files) =
    let rest = remove_some leaves id files in
    if is_partial_of id file.0 && not (leaves file.0) then rest else file ∷ rest

-- How a write ends; `late` is an error behind the renaming.
pub data Writing : Type 0 where
  written unwritten late : Writing

-- What the environment answers. `leaves` says which files a removal that fails has left.
pub record World : Type 0 where
  pub marshal : Manifest → List ℕ
  pub unmarshal : List ℕ → Result Manifest
  pub sha256 : List ℕ → List ℕ
  pub verify : List ℕ → List ℕ → List ℕ → Bool
  pub writing : StorePath → Writing
  pub remove_fails : PublicationId → Bool
  pub leaves : StorePath → Bool

abbrev pub write_one :
    Writing → Files → Files → Files × Result (Unit {0}) → Files × Result (Unit {0})
write_one written old new rest = rest
write_one unwritten old new rest = (old, err io_error)
write_one late old new rest = (new, err io_error)

-- `os.RemoveAll`.
unfoldable pub remove_all : World → PublicationId → Files → Files × Result (Unit {0})
remove_all w id files =
    if w.remove_fails id
    then (remove_some w.leaves id files, err io_error)
    else (remove_partial id files, ok tt)

-- Writes one after the other, up to the first that fails.
unfoldable pub write_all : World → List (StorePath × List ℕ) → Files → Files × Result (Unit {0})
write_all w [] files = (files, ok tt)
write_all w (file ∷ todo) files =
    write_one (w.writing file.0) files (file ∷ files) (write_all w todo (file ∷ files))

-- `readManifest`, behind the JSON.
unfoldable pub check_stored : Manifest → Result Manifest
check_stored value = do
  fail_if (not (value.version == 1) && not (value.version == signed_manifest_version)) malformed
  packet ← encode_manifest value
  decoded ← decode_packet packet
  validated ← decode_manifest decoded
  ok (record validated { version = value.version; signature = value.signature })

unfoldable pub read_manifest : World → Option (List ℕ) → Result Manifest
read_manifest w none = err io_error
read_manifest w (some raw) = w.unmarshal raw >>= check_stored

unfoldable pub load_manifest : World → Files → PublicationId → Result Manifest
load_manifest w files id = read_manifest w (read_file files (object_manifest id))

unfoldable pub load_known : World → Files → PublicationId → Result Manifest
load_known w files id = read_manifest w (read_file files (known_manifest id))

abbrev pub is_some : Option (List ℕ) → Bool
is_some none = false
is_some (some raw) = true

abbrev pub has_id_of : PublicationId → Result Manifest → Bool
has_id_of id (ok m) = bytes_eq m.id id
has_id_of id (err e) = false

unfoldable pub has_known : World → Files → PublicationId → Bool
has_known w files id = has_id_of id (load_known w files id)

unfoldable pub has_partial : Files → PublicationId → Bool
has_partial files id = is_some (read_file files (partial_manifest id))

unfoldable pub is_wanted : Files → PublicationId → Bool
is_wanted files id = is_some (read_file files (known_want id))

-- The content of a complete object: present, of the right length and hash, and signed if at all.
unfoldable pub check_object : World → Manifest → Option (List ℕ) → Bool
check_object w m none = false
check_object w m (some whole) = length whole == m.length && bytes_eq (w.sha256 whole) m.sha256

abbrev pub passes : Result (Unit {0}) → Bool
passes (ok u) = true
passes (err e) = false

unfoldable pub check_manifest_object : World → Files → PublicationId → Result Manifest → Bool
check_manifest_object w files id (err e) = false
check_manifest_object w files id (ok m) =
    passes (verify_manifest_signature w.verify m)
    && check_object w m (read_file files (object_content id))

unfoldable pub complete : World → Files → PublicationId → Bool
complete w files id =
    is_some (read_file files (object_complete id))
    && check_manifest_object w files id (load_manifest w files id)
