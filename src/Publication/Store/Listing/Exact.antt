-- ===== src/Publication/Store/Listing/Exact.antt =====
-- The listings name exactly what is there.
use ghost_cache.Common.{
  ◌≡◌, refl, ap, ◌∙◌, arith, Bool, true, false, ◌&&◌, List, [], ◌∷◌, Option, none, some, Bool-cases,
  &&-true, inl, inr, bytes_eq, bytes_eq_refl, bytes_eq→eq, ok,
}
use ghost_cache.Publication.Packet.{PublicationId}
use ghost_cache.Publication.Store.{
  StorePath, object_content, object_manifest, object_complete, partial_manifest, partial_chunk,
  known_manifest, known_want, same_path, Files, read_file, World, is_some, complete, has_partial,
}
use ghost_cache.Publication.Store.Listing.{
  object_dir, partial_dir, add_dir, dirs_of, keep_ids, complete_ids, partial_ids,
}
use ghost_cache.Node.Ids.{sorted_ids, has_id}
use ghost_cache.Node.Ids.Order.{has_id-sorted_ids}

has_id-keep_ids :
    (test : PublicationId → Bool) (x : PublicationId) (ids : List PublicationId)
    → has_id x (keep_ids test ids) ≡ (has_id x ids && test x)
unfolding has_id keep_ids
has_id-keep_ids test x [] = refl
has_id-keep_ids test x (id ∷ ids) = elim (Bool-cases (bytes_eq id x)) [
  | inl same ↦
      let e : id ≡ x = bytes_eq→eq id x same in
      rw e (ground (arith, has_id-keep_ids test x ids, bytes_eq_refl x, Bool-cases (test x)))
  | inr other ↦ ground (arith, has_id-keep_ids test x ids, other, Bool-cases (test id))
]

has_id-add_dir :
    (x : PublicationId) (dir : Option PublicationId) (dirs : List PublicationId)
    → has_id x dirs ≡ true
    → has_id x (add_dir dir dirs) ≡ true
unfolding add_dir has_id
has_id-add_dir x none dirs h = h
has_id-add_dir x (some id) dirs h = elim (Bool-cases (has_id id dirs)) [
  | inl old ↦ rw old h
  | inr new ↦ rw (new, h) (ground (arith, Bool-cases (bytes_eq id x)))
]

has_id-add_dir_self :
    (x : PublicationId) (dirs : List PublicationId) → has_id x (add_dir (some x) dirs) ≡ true
unfolding add_dir has_id
has_id-add_dir_self x dirs = elim (Bool-cases (has_id x dirs)) [
  | inl old ↦ rw old old
  | inr new ↦ rw (new, bytes_eq_refl x) refl
]

-- A file that can be read lies in a folder that is listed.
module _ (x : PublicationId) (dir : StorePath → Option PublicationId) (path : StorePath) where
  has_id-dirs_of :
      (files : Files)
      → ((other : StorePath) → same_path other path ≡ true → dir other ≡ some x)
      → is_some (read_file files path) ≡ true
      → has_id x (dirs_of dir files) ≡ true
  unfolding read_file dirs_of
  has_id-dirs_of [] there h = cc
  has_id-dirs_of (file ∷ files) there h = elim (Bool-cases (same_path file.0 path)) [
    | inl here ↦ rw (there file.0 here) (has_id-add_dir_self x (dirs_of dir files))
    | inr later ↦
        has_id-add_dir x (dir file.0) (dirs_of dir files)
          (has_id-dirs_of files there (rw later at h))
  ]

object_complete-dir :
    (x : PublicationId) (other : StorePath)
    → same_path other (object_complete x) ≡ true
    → object_dir other ≡ some x
unfolding same_path
object_complete-dir x (object_complete id) h = ap some (bytes_eq→eq id x h)
object_complete-dir x (object_content id) h = cc
object_complete-dir x (object_manifest id) h = cc
object_complete-dir x (partial_manifest id) h = cc
object_complete-dir x (partial_chunk id i) h = cc
object_complete-dir x (known_manifest id) h = cc
object_complete-dir x (known_want id) h = cc

partial_manifest-dir :
    (x : PublicationId) (other : StorePath)
    → same_path other (partial_manifest x) ≡ true
    → partial_dir other ≡ some x
unfolding same_path
partial_manifest-dir x (partial_manifest id) h = ap some (bytes_eq→eq id x h)
partial_manifest-dir x (object_complete id) h = cc
partial_manifest-dir x (object_content id) h = cc
partial_manifest-dir x (object_manifest id) h = cc
partial_manifest-dir x (partial_chunk id i) h = cc
partial_manifest-dir x (known_manifest id) h = cc
partial_manifest-dir x (known_want id) h = cc

-- A listing filtered by a test that only listed folders pass.
kept_exactly :
    (test : PublicationId → Bool) (dirs : List PublicationId) (x : PublicationId)
    → (test x ≡ true → has_id x dirs ≡ true)
    → has_id x (sorted_ids (keep_ids test dirs)) ≡ test x
kept_exactly test dirs x listed =
    has_id-sorted_ids x (keep_ids test dirs)
    ∙ has_id-keep_ids test x dirs
    ∙ elim (Bool-cases (test x)) [
      | inl passes ↦ rw (passes, listed passes) refl
      | inr fails ↦ ground (arith, fails, Bool-cases (has_id x dirs))
    ]

complete-marked :
    (w : World) (files : Files) (x : PublicationId)
    → complete w files x ≡ true
    → is_some (read_file files (object_complete x)) ≡ true
unfolding complete
complete-marked w files x done = (&&-true _ _ done).0

-- The IDs of the store are exactly those of the complete publications.
pub has_id-complete_ids :
    (w : World) (files : Files) (ids : List PublicationId) (x : PublicationId)
    → complete_ids w false files ≡ ok ids
    → has_id x ids ≡ complete w files x
unfolding complete_ids
has_id-complete_ids w files ids x h =
    let listed : sorted_ids (keep_ids (complete w files) (dirs_of object_dir files)) ≡ ids = cc in
    rw (← listed) (
      kept_exactly (complete w files) (dirs_of object_dir files) x (λ done.
        has_id-dirs_of x object_dir (object_complete x) files (object_complete-dir x)
          (complete-marked w files x done)))

-- The partial IDs are exactly those of which a manifest is stored among the partial data.
pub has_id-partial_ids :
    (files : Files) (ids : List PublicationId) (x : PublicationId)
    → partial_ids false files ≡ ok ids
    → has_id x ids ≡ has_partial files x
unfolding partial_ids has_partial
has_id-partial_ids files ids x h =
    let listed : sorted_ids (keep_ids (has_partial files) (dirs_of partial_dir files)) ≡ ids = cc in
    rw (← listed) (
      kept_exactly (has_partial files) (dirs_of partial_dir files) x (λ begun.
        has_id-dirs_of x partial_dir (partial_manifest x) files (partial_manifest-dir x) begun))
