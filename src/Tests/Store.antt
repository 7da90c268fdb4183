-- ===== src/Tests/Store.antt =====
-- A store with one publication.
use ghost_cache.Common.{
  List, malformed, ℕ, zero, suc, ◌≡◌, ◌⊎◌, if◌then◌else◌, refl, arith, Bool, true, false, inl, [],
  ◌∷◌, none, some, bytes_eq, ok, err, io_error,
}
use ghost_cache.Publication.Assembly.{new_assembly, missing, content}
use ghost_cache.Publication.Assembly.Invariant.{IsAssembly, is_received, chunk_at, stored}
use ghost_cache.Publication.Signing.{verify_signature, verify_manifest_signature}
use ghost_cache.Publication.Store.{
  StorePath, object_content, object_complete, partial_chunk, same_path, Files, read_file,
  is_partial_of, World, write_all, remove_all, written, unwritten, late, complete, load_manifest,
}
use ghost_cache.Publication.Store.Writes.{finish_commit, write_object, commit, store_add}
use ghost_cache.Publication.Store.Begin.{
  skip_slashes, until_slash, reverse_onto, base_name, is_unsafe, resume_loop,
}
use ghost_cache.Publication.Store.Commit.{IsWritten, complete-commit, commit_keeps_partial}
use ghost_cache.Publication.Store.Resume.{IsPersisted, resume_loop_restores}
use ghost_cache.Publication.Store.Add.{store_add-IsPersisted}
use ghost_cache.Common.{to_lower, trim_space, trim_left, trim_right, has_prefix}
use ghost_cache.Publication.Store.{known_manifest, load_known, read_manifest}
use ghost_cache.Publication.Catalog.{
  Entries, is_known, put_loaded, known_loop, partial_loop, complete_loop, catalog, hex_digit,
  id_string, matching, only_match, resolve,
}
use ghost_cache.Publication.Catalog.Resolve.{HasEntry, resolve_unique}
use ghost_cache.Tests.Publication.{
  padded, text, note, note-IsManifest, half, full, half-IsAssembly, full-IsAssembly,
}

-- The parent directory and the root pass for the name of a file.
names_that_pass : (is_unsafe (b'.' ∷ b'.' ∷ []) ≡ false) × (is_unsafe (b'/' ∷ []) ≡ false)
unfolding base_name is_unsafe skip_slashes until_slash reverse_onto bytes_eq
names_that_pass = (refl, refl)

-- JSON, hash and signatures of a toy, and writes that fail as told.
abbrev pub world : (StorePath → Bool) → World
world fails = record {
  marshal = λ m. 1 ∷ [];
  unmarshal = λ raw. ok note;
  sha256 = padded;
  verify = λ key message sig. true;
  writing = λ path. if fails path then unwritten else written;
  remove_fails = λ id. false;
  leaves = λ path. true;
}

abbrev pub works : World
works = world (λ path. false)

-- The mark of the object cannot be written.
abbrev broken : World
broken = world (λ path. elim path [ object_complete id ↦ true | _ ↦ false ])

-- Both chunks are on disk.
abbrev pub disk : Files
disk = (partial_chunk note.id 0, 10 ∷ 20 ∷ []) ∷ (partial_chunk note.id 1, 30 ∷ []) ∷ []

-- Only the second is.
abbrev half_disk : Files
half_disk = (partial_chunk note.id 1, 30 ∷ []) ∷ []

base_run :
    (base_name (b'a' ∷ b'/' ∷ b'b' ∷ b'/' ∷ []) ≡ b'b' ∷ [])
    × (base_name [] ≡ b'.' ∷ [])
    × (is_unsafe (b'.' ∷ b'.' ∷ b'/' ∷ b'x' ∷ []) ≡ true)
    × (is_unsafe (b'x' ∷ []) ≡ false)
unfolding base_name is_unsafe skip_slashes until_slash reverse_onto bytes_eq
base_run = (refl, refl, refl, refl)

pub committed : (commit works full disk).1 ≡ ok text
unfolding commit write_object finish_commit write_all remove_all content missing
    verify_manifest_signature verify_signature bytes_eq
committed = refl

complete-commit_example :
    (content padded full ≡ ok text)
    × (complete works (commit works full disk).0 note.id ≡ true)
    × (read_file (commit works full disk).0 (object_content note.id) ≡ some text)
    × (load_manifest works (commit works full disk).0 note.id ≡ ok note)
complete-commit_example =
    complete-commit works full disk text full-IsAssembly note-IsManifest (inl refl) refl committed

not_committed : (commit broken full disk).1 ≡ err io_error
unfolding commit write_object finish_commit write_all remove_all content missing
    verify_manifest_signature verify_signature bytes_eq
not_committed = refl

chunk_is_partial : is_partial_of note.id (partial_chunk note.id 1) ≡ true
unfolding is_partial_of bytes_eq
chunk_is_partial = refl

commit_keeps_partial_example :
    (read_file (commit broken full disk).0 (partial_chunk note.id 1)
      ≡ read_file disk (partial_chunk note.id 1))
    ⊎ ((false ≡ true) × IsWritten broken full (commit broken full disk).0)
commit_keeps_partial_example =
    commit_keeps_partial broken full disk io_error (partial_chunk note.id 1) not_committed
      chunk_is_partial

half_there :
    (i : ℕ)
    → is_received half i ≡ true
    → read_file half_disk (partial_chunk note.id i) ≡ some (chunk_at half i)
unfolding read_file same_path bytes_eq
half_there zero e = cc
half_there (suc zero) e = refl
half_there (suc (suc i)) e = cc

half_absent :
    (i : ℕ) → is_received half i ≡ false → read_file half_disk (partial_chunk note.id i) ≡ none
unfolding read_file same_path bytes_eq
half_absent zero e = refl
half_absent (suc zero) e = cc
half_absent (suc (suc i)) e = ground arith

half-IsPersisted : IsPersisted half_disk half
half-IsPersisted = record { there = half_there; absent = half_absent }

resume_loop_restores_example : resume_loop 2 half_disk 0 (new_assembly note) ≡ ok half
resume_loop_restores_example = resume_loop_restores half_disk half half-IsAssembly half-IsPersisted

store_add-IsPersisted_example :
    let (files, (b, result)) = store_add works half 0 (10 ∷ 20 ∷ []) half_disk in
    IsAssembly b
    × (IsPersisted files b
        ⊎ ((written ≡ late) × (b ≡ half) × IsPersisted files (stored half 0 (10 ∷ 20 ∷ []))))
store_add-IsPersisted_example =
    store_add-IsPersisted works half 0 (10 ∷ 20 ∷ []) half_disk half-IsAssembly half-IsPersisted

abbrev shelf : Entries
shelf = (note.id, record { manifest = note; state = is_known; wanted = false }) ∷ []

-- The manifest on this disk cannot be read back, so that nothing is known.
nothing_known :
    catalog
      (record works { unmarshal = λ raw. err malformed })
      ((known_manifest note.id, []) ∷ [])
      (note.id ∷ [])
      []
      []
    ≡ []
unfolding catalog known_loop partial_loop complete_loop put_loaded load_known read_manifest
    read_file same_path bytes_eq
nothing_known = refl

-- The note's ID begins with the bytes 10 and 20; " 0A14" stands for it.
abbrev typed : List ℕ
typed = 32 ∷ b'0' ∷ b'A' ∷ b'1' ∷ b'4' ∷ []

typed_resolved : resolve shelf typed ≡ ok note.id
unfolding resolve matching only_match id_string hex_digit to_lower trim_space trim_left trim_right
    has_prefix
typed_resolved = refl

note_on_shelf : HasEntry note.id shelf
unfolding HasEntry
note_on_shelf = inl refl

typed_fits : has_prefix (id_string note.id) (to_lower (trim_space typed)) ≡ true
unfolding id_string hex_digit to_lower trim_space trim_left trim_right has_prefix
typed_fits = refl

resolve_unique_example : note.id ≡ note.id
resolve_unique_example =
    resolve_unique shelf typed note.id note.id typed_resolved note_on_shelf typed_fits
