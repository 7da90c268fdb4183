-- ===== src/Publication/Store/Writes.antt =====
-- What `Store` of internal/publication/store.go writes: `SaveKnown`, `Want`, `Commit` and `Add`.
use ghost_cache.Common.{
  ℕ, Bool, false, not, ◌&&◌, List, [], ◌∷◌, Option, none, some, ◌==◌, if◌then◌else◌, get_or, set,
  bytes_eq, Result, ok, err, refused, ◌>>=◌, ◌>>◌,
}
use ghost_cache.Publication.Packet.{PublicationId}
use ghost_cache.Publication.Manifest.{Manifest, encode_manifest}
use ghost_cache.Publication.Assembly.{Assembly, add, content}
use ghost_cache.Publication.Signing.{verify_manifest_signature}
use ghost_cache.Publication.Store.{
  StorePath, Files, read_file, remove_all, World, write_all, has_known, has_partial,
  object_manifest, object_content, object_complete, partial_chunk, known_manifest, known_want,
}

-- "verified\n" and "wanted\n".
abbrev pub verified_text : List ℕ
verified_text = b'v' ∷ b'e' ∷ b'r' ∷ b'i' ∷ b'f' ∷ b'i' ∷ b'e' ∷ b'd' ∷ 10 ∷ []

abbrev pub wanted_text : List ℕ
wanted_text = b'w' ∷ b'a' ∷ b'n' ∷ b't' ∷ b'e' ∷ b'd' ∷ 10 ∷ []

abbrev pub same_file : Option (List ℕ) → List ℕ → Bool
same_file none raw = false
same_file (some old) raw = bytes_eq old raw

-- `toJSON`: a manifest without a version has version 1.
unfoldable pub stored_form : World → Manifest → List ℕ
stored_form w m = w.marshal (if m.version == 0 then record m { version = 1 } else m)

unfoldable pub replace_known :
    World → Manifest → Files → Result (List ℕ) → Files × Result (Unit {0})
replace_known w m files (err e) = (files, err e)
replace_known w m files (ok packet) =
    if same_file (read_file files (known_manifest m.id)) (stored_form w m)
    then (files, ok tt)
    else write_all w ((known_manifest m.id, stored_form w m) ∷ []) files

unfoldable pub save_known : World → Manifest → Files → Files × Result (Unit {0})
save_known w m files = replace_known w m files (encode_manifest m)

unfoldable pub want : World → PublicationId → Files → Files × Result (Unit {0})
want w id files =
    if not (has_known w files id) && not (has_partial files id)
    then (files, err refused)
    else write_all w ((known_want id, wanted_text) ∷ []) files

abbrev pub removed_partial : List ℕ → Files × Result (Unit {0}) → Files × Result (List ℕ)
removed_partial whole (files, ok u) = (files, ok whole)
removed_partial whole (files, err e) = (files, err e)

-- The end of `Commit`: once the object is written the partial data goes.
unfoldable pub finish_commit :
    World → Assembly → List ℕ → Files × Result (Unit {0}) → Files × Result (List ℕ)
finish_commit w a whole (files, err e) = (files, err e)
finish_commit w a whole (files, ok u) = removed_partial whole (remove_all w a.manifest.id files)

-- The three files of an object: content first, its mark last.
abbrev pub object_files : World → Assembly → List ℕ → List (StorePath × List ℕ)
object_files w a whole =
    (object_content a.manifest.id, whole)
    ∷ (object_manifest a.manifest.id, stored_form w a.manifest)
    ∷ (object_complete a.manifest.id, verified_text)
    ∷ []

unfoldable pub write_object : World → Assembly → Files → Result (List ℕ) → Files × Result (List ℕ)
write_object w a files (err e) = (files, err e)
write_object w a files (ok whole) =
    finish_commit w a whole (write_all w (object_files w a whole) files)

-- `Commit`.
unfoldable pub commit : World → Assembly → Files → Files × Result (List ℕ)
commit w a files =
    write_object w a files
      (content w.sha256 a >>= λ whole. verify_manifest_signature w.verify a.manifest >> ok whole)

-- A chunk that cannot be written has not arrived.
unfoldable pub keep_written :
    Assembly → ℕ → Files × Result (Unit {0}) → Files × (Assembly × Result (Unit {0}))
keep_written b index (files, ok u) = (files, (b, ok tt))
keep_written b index (files, err e) = (
  files,
  (record b { chunks = set b.chunks index []; received = set b.received index false }, err e),
)

unfoldable pub persist :
    World → Assembly → ℕ → List ℕ → Files → Result Assembly → Files × (Assembly × Result (Unit {0}))
persist w a index bytes files (err e) = (files, (a, err e))
persist w a index bytes files (ok b) =
    let written = write_all w ((partial_chunk a.manifest.id index, bytes) ∷ []) files in
    if get_or a.received index false then (files, (b, ok tt)) else keep_written b index written

-- `Store.Add`.
unfoldable pub store_add :
    World → Assembly → ℕ → List ℕ → Files → Files × (Assembly × Result (Unit {0}))
store_add w a index bytes files = persist w a index bytes files (add a index bytes)
