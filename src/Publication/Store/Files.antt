-- ===== src/Publication/Store/Files.antt =====
-- Reading what was written and what was removed.
use ghost_cache.Common.{
  ℕ, ◌≡◌, refl, ap, ◌∙◌, true, false, inl, inr, Bool-cases, All, subst, List, [], ◌∷◌, none, Result,
  ==_iff, &&-true, if◌then◌else◌, bytes_eq→eq,
}
use ghost_cache.Publication.Packet.{PublicationId}
use ghost_cache.Publication.Store.{
  StorePath, object_content, object_manifest, object_complete, partial_manifest, partial_chunk,
  known_manifest, known_want, same_path, Files, read_file, is_partial_of, remove_partial, World,
  write_all, write_one, Writing, written, unwritten, late,
}

pub same_path→eq : (p q : StorePath) → same_path p q ≡ true → p ≡ q
unfolding same_path
same_path→eq (object_content a) (object_content b) h = ap object_content (bytes_eq→eq a b h)
same_path→eq (object_manifest a) (object_manifest b) h = ap object_manifest (bytes_eq→eq a b h)
same_path→eq (object_complete a) (object_complete b) h = ap object_complete (bytes_eq→eq a b h)
same_path→eq (partial_manifest a) (partial_manifest b) h = ap partial_manifest (bytes_eq→eq a b h)
same_path→eq (partial_chunk a i) (partial_chunk b j) h =
    let (x, y) = &&-true _ _ h in
    ap (λ (c : List ℕ). partial_chunk c i) (bytes_eq→eq a b x)
    ∙ ap (partial_chunk b) ((==_iff i j).0 y)
same_path→eq (known_manifest a) (known_manifest b) h = ap known_manifest (bytes_eq→eq a b h)
same_path→eq (known_want a) (known_want b) h = ap known_want (bytes_eq→eq a b h)
same_path→eq _ _ h = cc

-- Files that are removed are gone, all others stay.
pub read_file-remove_partial :
    (id : PublicationId) (files : Files) (path : StorePath)
    → read_file (remove_partial id files) path
      ≡ (if is_partial_of id path then none else read_file files path)
unfolding read_file remove_partial
read_file-remove_partial id [] path = elim (Bool-cases (is_partial_of id path)) [
  | inl gone ↦ rw gone refl
  | inr kept ↦ rw kept refl
]
read_file-remove_partial id ((p, raw) ∷ files) path =
    let rest = read_file-remove_partial id files path in
    elim (Bool-cases (same_path p path)) [
      | inl same ↦
          let e = same_path→eq p path same in
          elim (Bool-cases (is_partial_of id path)) [
            | inl gone ↦ rw (e, gone) (rw gone at rest)
            | inr kept ↦
                rw (e, kept, subst (λ (q : StorePath). same_path q path ≡ true) e same) refl
          ]
      | inr other ↦ elim (Bool-cases (is_partial_of id p)) [
        | inl gone ↦ rw (gone, other) rest
        | inr kept ↦ rw (kept, other) rest
      ]
    ]

read_file-write_one :
    (how : Writing) (old new : Files) (rest : Files × Result (Unit {0})) (path : StorePath)
    → read_file new path ≡ read_file old path
    → read_file rest.0 path ≡ read_file old path
    → read_file (write_one how old new rest).0 path ≡ read_file old path
read_file-write_one written old new rest path n r = r
read_file-write_one unwritten old new rest path n r = refl
read_file-write_one late old new rest path n r = n

-- Writes elsewhere do not touch a file, whether they succeed or fail.
pub read_file-write_all :
    (w : World) (todo : List (StorePath × List ℕ)) (files : Files) (path : StorePath)
    → All (λ file. same_path file.0 path ≡ false) todo
    → read_file (write_all w todo files).0 path ≡ read_file files path
unfolding read_file write_all
read_file-write_all w [] files path h = refl
read_file-write_all w ((p, raw) ∷ todo) files path h =
    read_file-write_one (w.writing p) files ((p, raw) ∷ files) _ path (rw h.0 refl)
      (read_file-write_all w todo ((p, raw) ∷ files) path h.1 ∙ rw h.0 refl)
