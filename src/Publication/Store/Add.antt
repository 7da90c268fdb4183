-- ===== src/Publication/Store/Add.antt =====
-- `Store.Add`: the chunk files follow the assembly, also when a write fails.
use ghost_cache.Common.{
  ℕ, zero, suc, ◌<◌, ◌≡◌, ◌⊎◌, ok, refl, sym, ap, ◌∙◌, true, false, inl, inr, Bool-cases, List, [],
  ◌∷◌, ◌==◌, length, get_or, set, bytes_eq_refl, Result-cases,
}
use ghost_cache.Publication.Assembly.{Assembly, add, has_expected_length}
use ghost_cache.Publication.Assembly.Invariant.{
  IsAssembly, is_received, stored, add-cases, is_received-stored, chunk_at-stored,
  stored-IsAssembly,
}
use ghost_cache.Publication.Store.{
  partial_chunk, same_path, Files, read_file, World, write_all, write_one, Writing, written,
  unwritten, late,
}
use ghost_cache.Publication.Store.Writes.{keep_written, persist, store_add}
use ghost_cache.Publication.Store.Resume.{IsPersisted}

-- A write that is taken back.
set-set_back :
    {A : Type 0} (xs : List A) (i : ℕ) (v d : A) → set (set xs i v) i (get_or xs i d) ≡ xs
set-set_back [] i v d = refl
set-set_back (x ∷ xs) zero v d = refl
set-set_back (x ∷ xs) (suc i) v d = ap (λ (ys : List _). x ∷ ys) (set-set_back xs i v d)

taken_back :
    (a : Assembly) (index : ℕ) (bytes : List ℕ)
    → IsAssembly a
    → is_received a index ≡ false
    → record a {
      chunks = set (set a.chunks index bytes) index [];
      received = set (set a.received index true) index false;
    }
      ≡ a
taken_back a index bytes v lacks =
    let chunks : set (set a.chunks index bytes) index [] ≡ a.chunks =
      ap (set (set a.chunks index bytes) index) (sym (v.empty index lacks))
      ∙ set-set_back a.chunks index bytes [] in
    let received : set (set a.received index true) index false ≡ a.received =
      ap (set (set a.received index true) index) (sym lacks)
      ∙ set-set_back a.received index true false in
    cc (chunks, received)

same_path-partial_chunk :
    (a : Assembly) (i j : ℕ)
    → same_path (partial_chunk a.manifest.id i) (partial_chunk a.manifest.id j) ≡ (i == j)
unfolding same_path
same_path-partial_chunk a i j = rw (bytes_eq_refl a.manifest.id) refl

stored-IsPersisted :
    (files : Files) (a : Assembly) (index : ℕ) (bytes : List ℕ)
    → IsAssembly a
    → index < length a.chunks
    → IsPersisted files a
    → IsPersisted ((partial_chunk a.manifest.id index, bytes) ∷ files) (stored a index bytes)
unfolding read_file
stored-IsPersisted files a index bytes v inside p = record {
  there = λ j e. elim (Bool-cases (index == j)) [
    | inl now ↦
        rw (same_path-partial_chunk a index j, chunk_at-stored a index j bytes v inside, now) refl
    | inr other ↦
        rw (same_path-partial_chunk a index j, chunk_at-stored a index j bytes v inside, other)
          (p.there j (rw (is_received-stored a index j bytes v inside, other) at e))
  ];
  absent = λ j e. elim (Bool-cases (index == j)) [
    | inl now ↦ cc (rw (is_received-stored a index j bytes v inside, now) at e)
    | inr other ↦
        rw (same_path-partial_chunk a index j, other)
          (p.absent j (rw (is_received-stored a index j bytes v inside, other) at e))
  ];
}

-- A chunk that is new, by how its write ends.
persisted_lem :
    (w : World) (a : Assembly) (index : ℕ) (bytes : List ℕ) (files : Files) (how : Writing)
    → w.writing (partial_chunk a.manifest.id index) ≡ how
    → IsAssembly a
    → IsPersisted files a
    → index < length a.chunks
    → has_expected_length a index bytes ≡ true
    → is_received a index ≡ false
    → let new = (partial_chunk a.manifest.id index, bytes) ∷ files in
      let (files', (b, result)) =
        keep_written (stored a index bytes) index (write_one how files new (new, ok tt)) in
      IsAssembly b
      × (IsPersisted files' b
          ⊎ ((w.writing (partial_chunk a.manifest.id index) ≡ late)
              × (b ≡ a)
              × IsPersisted files' (stored a index bytes)))
unfolding keep_written
persisted_lem w a index bytes files written e v p inside fits lacks = (
  stored-IsAssembly a index bytes v inside fits,
  inl (stored-IsPersisted files a index bytes v inside p),
)
persisted_lem w a index bytes files unwritten e v p inside fits lacks =
    rw (taken_back a index bytes v lacks) (v, inl p)
persisted_lem w a index bytes files late e v p inside fits lacks =
    rw (taken_back a index bytes v lacks)
      (v, inr (e, refl, stored-IsPersisted files a index bytes v inside p))

-- Whatever is added, and whether its file can be written or not, the assembly afterwards is valid,
-- and the chunk files afterwards are those of that assembly; but when the write has put the file in
-- its place and then fails, the assembly is as it was, and the files are those of the assembly with
-- the chunk.
pub store_add-IsPersisted :
    (w : World) (a : Assembly) (index : ℕ) (bytes : List ℕ) (files : Files)
    → IsAssembly a
    → IsPersisted files a
    → let (files', (b, result)) = store_add w a index bytes files in
      IsAssembly b
      × (IsPersisted files' b
          ⊎ ((w.writing (partial_chunk a.manifest.id index) ≡ late)
              × (b ≡ a)
              × IsPersisted files' (stored a index bytes)))
unfolding store_add persist keep_written write_all
store_add-IsPersisted w a index bytes files v p = elim (Result-cases (add a index bytes)) [
  | inr (e, refused) ↦ rw refused (v, inl p)
  | inl (b, added) ↦
      let ((inside, fits), done) = add-cases a b index bytes added in
      elim done [
        | inl (here, equal, same) ↦ rw (added, here, same) (v, inl p)
        | inr (lacks, grown) ↦
            rw (added, lacks, grown)
              (persisted_lem w a index bytes files (w.writing (partial_chunk a.manifest.id index))
                refl v p inside fits lacks)
      ]
]
