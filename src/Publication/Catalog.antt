-- ===== src/Publication/Catalog.antt =====
-- `Catalog` and `Resolve` of internal/publication/catalog.go: what a store knows, and the publication
-- that a prefix of an ID stands for. The three lists of IDs are what the store found in its folders.
pub mod Resolve
use ghost_cache.Common.{
  ℕ, ◌+◌, ◌-◌, ◌/◌, ◌%◌, Bool, true, false, ◌||◌, List, [], ◌∷◌, Option, none, some, ltb,
  if◌then◌else◌, length, bytes_eq, trim_space, to_lower, has_prefix, Result, ok, err, refused,
  ◌>>=◌, ◌>>◌, fail_if,
}
use ghost_cache.Publication.Packet.{PublicationId}
use ghost_cache.Publication.Manifest.{Manifest}
use ghost_cache.Publication.Assembly.{Assembly}
use ghost_cache.Publication.Store.{Files, World, load_manifest, load_known, is_wanted}
use ghost_cache.Publication.Store.Begin.{load_partial}

pub data EntryState : Type 0 where
  is_known is_partial is_complete_object : EntryState

pub record CatalogEntry : Type 0 where
  pub manifest : Manifest
  pub state : EntryState
  pub wanted : Bool

-- A map from IDs to entries; a later entry replaces an earlier one.
abbrev pub Entries : Type 0
Entries = List (PublicationId × CatalogEntry)

unfoldable pub put_entry : PublicationId → CatalogEntry → Entries → Entries
put_entry id entry [] = (id, entry) ∷ []
put_entry id entry (e ∷ entries) =
    let rest = put_entry id entry entries in
    if bytes_eq e.0 id then (id, entry) ∷ entries else e ∷ rest

unfoldable pub put_loaded : Files → EntryState → PublicationId → Result Manifest → Entries → Entries
put_loaded files state id (err e) entries = entries
put_loaded files state id (ok m) entries =
    put_entry id (record { manifest = m; state = state; wanted = is_wanted files id }) entries

abbrev pub manifest_of_assembly : Result Assembly → Result Manifest
manifest_of_assembly (ok a) = ok a.manifest
manifest_of_assembly (err e) = err e

unfoldable pub known_loop : World → Files → List PublicationId → Entries → Entries
known_loop w files [] entries = entries
known_loop w files (id ∷ ids) entries =
    known_loop w files ids (put_loaded files is_known id (load_known w files id) entries)

-- Loading a partial publication finds its manifest stored and writes nothing.
unfoldable pub partial_loop : World → Files → List PublicationId → Entries → Entries
partial_loop w files [] entries = entries
partial_loop w files (id ∷ ids) entries =
    partial_loop w files ids
      (put_loaded files is_partial id (manifest_of_assembly (load_partial w id files).1) entries)

unfoldable pub complete_loop : World → Files → List PublicationId → Entries → Entries
complete_loop w files [] entries = entries
complete_loop w files (id ∷ ids) entries =
    complete_loop w files ids
      (put_loaded files is_complete_object id (load_manifest w files id) entries)

-- The entries before they are sorted.
unfoldable pub catalog :
    World → Files → List PublicationId → List PublicationId → List PublicationId → Entries
catalog w files known partial complete =
    complete_loop w files complete (partial_loop w files partial (known_loop w files known []))

-- `ID.String`: lower-case hexadecimal.
unfoldable pub hex_digit : ℕ → ℕ
hex_digit n = if ltb n 10 then b'0' + n else b'a' + n - 10

unfoldable pub id_string : PublicationId → List ℕ
id_string [] = []
id_string (b ∷ bs) = hex_digit (b / 16) ∷ hex_digit (b % 16) ∷ id_string bs

unfoldable pub matching : Entries → List ℕ → List PublicationId
matching [] prefix = []
matching (e ∷ entries) prefix =
    let rest = matching entries prefix in
    if has_prefix (id_string e.1.manifest.id) prefix then e.1.manifest.id ∷ rest else rest

unfoldable pub only_match : List PublicationId → Result PublicationId
only_match [] = err refused
only_match (id ∷ []) = ok id
only_match (id ∷ other ∷ more) = err refused

unfoldable pub resolve : Entries → List ℕ → Result PublicationId
resolve entries text = do
  let prefix = to_lower (trim_space text)
  fail_if (ltb (length prefix) 4 || ltb 32 (length prefix)) refused
  only_match (matching entries prefix)
