-- ===== src/Publication/Store/Commit.antt =====
-- `Commit`, when it succeeds and when it fails on the way.
use ghost_cache.Common.{
  ℕ, ◌≡◌, ◌⊎◌, refl, sym, subst, ap, [], ◌∙◌, arith, true, false, not, ◌&&◌, inl, inr, Bool-cases,
  List, ◌∷◌, some, ◌==◌, ==_iff, length, All, bytes_eq_refl, Error, Result, ok, err, Result-cases,
  ◌>>=◌, ◌>>◌, >>=-eq-ok,
}
use ghost_cache.Publication.Manifest.{Manifest, IsManifest}
use ghost_cache.Publication.Manifest.Codec.{decode_manifest-encode_manifest}
use ghost_cache.Publication.Assembly.{Assembly, content}
use ghost_cache.Publication.Assembly.Invariant.{IsAssembly}
use ghost_cache.Publication.Assembly.Complete.{content_sound}
use ghost_cache.Publication.Signing.{verify_manifest_signature, signed_manifest_version}
use ghost_cache.Publication.Store.{
  StorePath, object_content, object_manifest, object_complete, partial_manifest, partial_chunk,
  same_path, Files, read_file, is_partial_of, remove_partial, remove_some, remove_all, World,
  write_all, write_one, Writing, written, unwritten, late, check_stored, read_manifest,
  load_manifest, check_object, check_manifest_object, complete,
}
use ghost_cache.Publication.Store.Writes.{
  verified_text, stored_form, finish_commit, object_files, write_object, commit,
}
use ghost_cache.Publication.Store.Files.{read_file-write_all}

-- They are no partial data.
object_files-apart :
    (w : World) (a : Assembly) (whole : List ℕ) (path : StorePath)
    → is_partial_of a.manifest.id path ≡ true
    → All (λ file. same_path file.0 path ≡ false) (object_files w a whole)
unfolding is_partial_of same_path
object_files-apart w a whole (partial_manifest id) h = (refl, (refl, (refl, tt)))
object_files-apart w a whole (partial_chunk id i) h = (refl, (refl, (refl, tt)))
object_files-apart w a whole _ h = cc

-- The files when every write has succeeded: what was written last comes first.
abbrev put_all : List (StorePath × List ℕ) → Files → Files
put_all [] files = files
put_all (file ∷ todo) files = put_all todo (file ∷ files)

write_one-ok :
    (how : Writing) (old new : Files) (rest : Files × Result (Unit {0}))
    → (write_one how old new rest).1 ≡ ok tt
    → write_one how old new rest ≡ rest
write_one-ok written old new rest h = refl
write_one-ok unwritten old new rest h = cc
write_one-ok late old new rest h = cc

write_all-ok :
    (w : World) (todo : List (StorePath × List ℕ)) (files : Files)
    → (write_all w todo files).1 ≡ ok tt
    → (write_all w todo files).0 ≡ put_all todo files
unfolding write_all
write_all-ok w [] files h = refl
write_all-ok w (file ∷ todo) files h =
    let same =
      write_one-ok (w.writing file.0) files (file ∷ files) (write_all w todo (file ∷ files)) h in
    ap (λ (r : Files × Result (Unit {0})). r.0) same
    ∙ write_all-ok w todo (file ∷ files)
        (sym (ap (λ (r : Files × Result (Unit {0})). r.1) same) ∙ h)

finish_commit-ok :
    (w : World) (a : Assembly) (whole out : List ℕ) (done : Files × Result (Unit {0}))
    → (finish_commit w a whole done).1 ≡ ok out
    → (done.1 ≡ ok tt)
      × (out ≡ whole)
      × ((finish_commit w a whole done).0 ≡ remove_partial a.manifest.id done.0)
unfolding finish_commit remove_all
finish_commit-ok w a whole out (files, err e) h = cc
finish_commit-ok w a whole out (files, ok u) h = elim (Bool-cases (w.remove_fails a.manifest.id)) [
  | inl fails ↦ absurd (let bad = rw fails at h in cc)
  | inr works ↦ let good = rw works at h in rw works (refl, cc good, refl)
]

-- A commit that fails at its end has not begun to remove, or has failed to.
finish_commit-err :
    (w : World) (a : Assembly) (whole : List ℕ) (done : Files × Result (Unit {0})) (e : Error)
    → (finish_commit w a whole done).1 ≡ err e
    → ((finish_commit w a whole done).0 ≡ done.0)
      ⊎ ((w.remove_fails a.manifest.id ≡ true)
          × (done.1 ≡ ok tt)
          × ((finish_commit w a whole done).0 ≡ remove_some w.leaves a.manifest.id done.0))
unfolding finish_commit remove_all
finish_commit-err w a whole (files, err e') e h = inl refl
finish_commit-err w a whole (files, ok u) e h = elim (Bool-cases (w.remove_fails a.manifest.id)) [
  | inl fails ↦ rw fails (inr (refl, refl, refl))
  | inr works ↦ absurd (let bad = rw works at h in cc)
]

-- The object is there: content and mark.
abbrev pub IsWritten : World → Assembly → Files → Type 0
IsWritten w a files =
    (whole : List ℕ) × (content w.sha256 a ≡ ok whole)
    × (read_file files (object_content a.manifest.id) ≡ some whole)
    × (read_file files (object_complete a.manifest.id) ≡ some verified_text)

put_all-IsWritten :
    (w : World) (a : Assembly) (whole : List ℕ) (files : Files)
    → content w.sha256 a ≡ ok whole
    → IsWritten w a (remove_some w.leaves a.manifest.id (put_all (object_files w a whole) files))
unfolding read_file remove_some is_partial_of same_path
put_all-IsWritten w a whole files all =
    (whole, all, rw (bytes_eq_refl a.manifest.id) refl, rw (bytes_eq_refl a.manifest.id) refl)

write_object-err :
    (w : World) (a : Assembly) (files : Files) (checked : Result (List ℕ)) (e : Error)
    (path : StorePath)
    → ((whole : List ℕ) → checked ≡ ok whole → content w.sha256 a ≡ ok whole)
    → (write_object w a files checked).1 ≡ err e
    → is_partial_of a.manifest.id path ≡ true
    → (read_file (write_object w a files checked).0 path ≡ read_file files path)
      ⊎ ((w.remove_fails a.manifest.id ≡ true) × IsWritten w a (write_object w a files checked).0)
unfolding write_object
write_object-err w a files (err e') e path all h part = inl refl
write_object-err w a files (ok whole) e path all h part =
    let done = write_all w (object_files w a whole) files in
    elim (finish_commit-err w a whole done e h) [
      | inl kept ↦ inl (
          ap (λ (fs : Files). read_file fs path) kept
          ∙ read_file-write_all w (object_files w a whole) files path
              (object_files-apart w a whole path part))
      | inr (fails, worked, left) ↦ inr (
        fails,
        subst (IsWritten w a)
            (sym (
              left
              ∙ ap (remove_some w.leaves a.manifest.id)
                  (write_all-ok w (object_files w a whole) files worked)))
            (put_all-IsWritten w a whole files (all whole refl)),
      )
    ]

-- What is checked before anything is written.
checked-ok :
    (w : World) (a : Assembly) (whole : List ℕ)
    → (content w.sha256 a >>= λ x. verify_manifest_signature w.verify a.manifest >> ok x) ≡ ok whole
    → (content w.sha256 a ≡ ok whole) × (verify_manifest_signature w.verify a.manifest ≡ ok tt)
checked-ok w a whole h =
    let (x, all, rest) = >>=-eq-ok (content w.sha256 a) _ h in
    let (u, good, same) = >>=-eq-ok (verify_manifest_signature w.verify a.manifest) _ rest in
    (cc, good)

-- A commit that fails leaves every partial file as it was, unless what fails is the removal of the
-- partial data: then the object is there already, with its content and its mark.
pub commit_keeps_partial :
    (w : World) (a : Assembly) (files : Files) (e : Error) (path : StorePath)
    → (commit w a files).1 ≡ err e
    → is_partial_of a.manifest.id path ≡ true
    → (read_file (commit w a files).0 path ≡ read_file files path)
      ⊎ ((w.remove_fails a.manifest.id ≡ true) × IsWritten w a (commit w a files).0)
unfolding commit
commit_keeps_partial w a files e path h part =
    write_object-err w a files _ e path (λ whole good. (checked-ok w a whole good).0) h part

-- A stored manifest is read back, when JSON gives back what it was given.
check_stored-valid :
    (m : Manifest) → IsManifest m → (m.version ≡ 1) ⊎ (m.version ≡ 2) → check_stored m ≡ ok m
unfolding check_stored
check_stored-valid m v known =
    let (advertised, read, back) = decode_manifest-encode_manifest m v in
    let pass : (not (m.version == 1) && not (m.version == signed_manifest_version)) ≡ false =
      ground (arith, known) in
    rw (pass, advertised, read, back) refl

stored_form-eq :
    (w : World) (m : Manifest) → (m.version ≡ 1) ⊎ (m.version ≡ 2) → stored_form w m ≡ w.marshal m
unfolding stored_form
stored_form-eq w m known =
    let numbered : (m.version == 0) ≡ false = ground (arith, known) in
    rw (stored_form, numbered) refl

-- The files that a successful commit leaves.
load_manifest-written :
    (w : World) (m : Manifest) (files : Files) (whole : List ℕ)
    → w.unmarshal (w.marshal m) ≡ ok m
    → IsManifest m
    → (m.version ≡ 1) ⊎ (m.version ≡ 2)
    → load_manifest w
        (remove_partial m.id (
          (object_complete m.id, verified_text)
          ∷ (object_manifest m.id, stored_form w m)
          ∷ (object_content m.id, whole)
          ∷ files))
        m.id
      ≡ ok m
unfolding load_manifest read_manifest read_file remove_partial is_partial_of same_path
load_manifest-written w m files whole json v known =
    rw (bytes_eq_refl m.id, stored_form-eq w m known, json) (check_stored-valid m v known)

complete-written :
    (w : World) (m : Manifest) (files : Files) (whole : List ℕ)
    → w.unmarshal (w.marshal m) ≡ ok m
    → IsManifest m
    → (m.version ≡ 1) ⊎ (m.version ≡ 2)
    → verify_manifest_signature w.verify m ≡ ok tt
    → length whole ≡ m.length
    → w.sha256 whole ≡ m.sha256
    → let after = remove_partial m.id (
        (object_complete m.id, verified_text)
        ∷ (object_manifest m.id, stored_form w m)
        ∷ (object_content m.id, whole)
        ∷ files) in
      (complete w after m.id ≡ true) × (read_file after (object_content m.id) ≡ some whole)
unfolding complete check_manifest_object check_object read_file remove_partial is_partial_of
    same_path
complete-written w m files whole json v known good size hash =
    let loaded = load_manifest-written w m files whole json v known in
    let equal : (length whole == m.length) ≡ true = (==_iff _ _).1 size in
    (
      rw (bytes_eq_refl m.id, loaded, good, bytes_eq_refl m.id, equal, hash, bytes_eq_refl m.sha256)
          refl,
      rw (bytes_eq_refl m.id) refl,
    )

-- What `Commit` reports as stored is a complete object with this content, and the stored manifest is
-- the assembly's. The assembly and its manifest are valid, the manifest has version 1 or 2, and JSON
-- gives back the manifest that it was given.
pub complete-commit :
    (w : World) (a : Assembly) (files : Files) (whole : List ℕ)
    → IsAssembly a
    → IsManifest a.manifest
    → (a.manifest.version ≡ 1) ⊎ (a.manifest.version ≡ 2)
    → w.unmarshal (w.marshal a.manifest) ≡ ok a.manifest
    → (commit w a files).1 ≡ ok whole
    → (content w.sha256 a ≡ ok whole)
      × (complete w (commit w a files).0 a.manifest.id ≡ true)
      × (read_file (commit w a files).0 (object_content a.manifest.id) ≡ some whole)
      × (load_manifest w (commit w a files).0 a.manifest.id ≡ ok a.manifest)
unfolding commit write_object
complete-commit w a files whole v m known json h =
    elim (Result-cases
      (content w.sha256 a >>= λ x. verify_manifest_signature w.verify a.manifest >> ok x)) [
        | inr (e, bad) ↦ absurd (let no = rw bad at h in cc)
        | inl (x, good) ↦
            let (all, signed) = checked-ok w a x good in
            let done = write_all w (object_files w a x) files in
            let (worked, same, removed) = finish_commit-ok w a x whole done (rw good at h) in
            let after =
              removed
              ∙ ap (remove_partial a.manifest.id)
                  (write_all-ok w (object_files w a x) files worked) in
            let (joined, size, hash, arrived) =
              content_sound w.sha256 a x v m.chunks_cover (omega (arith, m.chunk_count_fits)) all in
            let (complete_now, there) =
              complete-written w a.manifest files x json m known signed size hash in
            rw (good, after, same)
              (all, complete_now, there, load_manifest-written w a.manifest files x json m known)
      ]
