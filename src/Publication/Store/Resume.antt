-- ===== src/Publication/Store/Resume.antt =====
-- `Begin` after a restart: the chunk files give back the assembly.
use ghost_cache.Common.{
  ℕ, zero, suc, ◌+◌, ◌<◌, ◌≡◌, refl, sym, ap, subst, ◌∙◌, arith, true, false, ◌&&◌, inl, inr,
  Bool-cases, List, [], none, some, ltb, ◌==◌, ==_iff, if◌then◌else◌, length, eq_of_get_or, ok,
}
use ghost_cache.Publication.Manifest.{Manifest}
use ghost_cache.Publication.Assembly.{Assembly, new_assembly, has_expected_length, add}
use ghost_cache.Publication.Assembly.Invariant.{
  IsAssembly, is_received, chunk_at, stored, new_assembly-IsAssembly, is_received-new_assembly,
  is_received-stored, chunk_at-stored, stored-IsAssembly,
}
use ghost_cache.Publication.Assembly.Order.{add-new}
use ghost_cache.Publication.Store.{partial_chunk, Files, read_file}
use ghost_cache.Publication.Store.Begin.{add_stored, resume_loop}

-- The chunk files of an assembly: one for each chunk that has arrived.
pub record IsPersisted (files : Files) (a : Assembly) : Type 0 where
  pub there :
      (i : ℕ)
      → is_received a i ≡ true
      → read_file files (partial_chunk a.manifest.id i) ≡ some (chunk_at a i)
  pub absent :
      (i : ℕ) → is_received a i ≡ false → read_file files (partial_chunk a.manifest.id i) ≡ none

-- The first i chunks have been read back.
record Restored (a b : Assembly) (i : ℕ) : Type 0 where
  valid : IsAssembly b
  same : b.manifest ≡ a.manifest
  flags : (j : ℕ) → is_received b j ≡ (ltb j i && is_received a j)
  cut : (j : ℕ) → chunk_at b j ≡ (if ltb j i then chunk_at a j else [])

expected_same :
    (a b : Assembly) (i : ℕ) (bytes : List ℕ)
    → b.manifest ≡ a.manifest
    → length b.chunks ≡ length a.chunks
    → has_expected_length b i bytes ≡ has_expected_length a i bytes
unfolding has_expected_length
expected_same a b i bytes m n = rw (m, n) refl

restore_absent :
    (a b : Assembly) (i : ℕ)
    → IsAssembly a
    → is_received a i ≡ false
    → Restored a b i
    → Restored a b (i + 1)
restore_absent a b i v lacks r = record {
  valid = r.valid;
  same = r.same;
  flags = λ j. r.flags j ∙ elim (Bool-cases (i == j)) [
    | inl now ↦
        ground (arith, now, subst (λ (k : ℕ). is_received a k ≡ false) ((==_iff i j).0 now) lacks)
    | inr other ↦ ground (arith, other)
  ];
  cut = λ j. r.cut j ∙ elim (Bool-cases (i == j)) [
    | inl now ↦
        ground
          (arith, now, subst (λ (k : ℕ). chunk_at a k ≡ []) ((==_iff i j).0 now) (v.empty i lacks))
    | inr other ↦ ground (arith, other)
  ];
}

restore_there :
    (a b : Assembly) (i : ℕ)
    → IsAssembly a
    → i < length a.chunks
    → is_received a i ≡ true
    → Restored a b i
    → (add b i (chunk_at a i) ≡ ok (stored b i (chunk_at a i)))
      × Restored a (stored b i (chunk_at a i)) (i + 1)
restore_there a b i v inside arrived r =
    let places : length b.chunks ≡ length a.chunks =
      r.valid.places ∙ ap (λ (m : Manifest). m.chunk_count) r.same ∙ sym v.places in
    let inside' : i < length b.chunks = omega (arith, places) in
    let fits = expected_same a b i (chunk_at a i) r.same places ∙ v.sized i arrived in
    let unseen : is_received b i ≡ false = ground (arith, r.flags i) in
    (
      add-new b i (chunk_at a i) inside' fits unseen,
      record {
        valid = stored-IsAssembly b i (chunk_at a i) r.valid inside' fits;
        same = r.same;
        flags = λ j.
            is_received-stored b i j (chunk_at a i) r.valid inside' ∙ elim (Bool-cases (i == j)) [
              | inl now ↦ ground (
                arith,
                now,
                subst (λ (k : ℕ). is_received a k ≡ true) ((==_iff i j).0 now) arrived,
              )
              | inr other ↦ ground (arith, other, r.flags j)
            ];
        cut = λ j.
            chunk_at-stored b i j (chunk_at a i) r.valid inside' ∙ elim (Bool-cases (i == j)) [
              | inl now ↦ ground (arith, now, ap (chunk_at a) ((==_iff i j).0 now))
              | inr other ↦ ground (arith, other, r.cut j)
            ];
      },
    )

Restored-eq : (a b : Assembly) → IsAssembly a → Restored a b (length a.chunks) → b ≡ a
Restored-eq a b v r =
    let places : length b.chunks ≡ length a.chunks =
      r.valid.places ∙ ap (λ (m : Manifest). m.chunk_count) r.same ∙ sym v.places in
    let flags : length b.received ≡ length a.received =
      r.valid.flags ∙ ap (λ (m : Manifest). m.chunk_count) r.same ∙ sym v.flags in
    let chunks : b.chunks ≡ a.chunks =
      eq_of_get_or b.chunks a.chunks [] places (λ i lt. r.cut i ∙ ground (arith, places, lt)) in
    let received : b.received ≡ a.received =
      eq_of_get_or b.received a.received false flags
        (λ i lt. r.flags i ∙ ground (arith, flags, lt, v.places, v.flags)) in
    cc (r.same, chunks, received)

resume_loop-Restored :
    (n : ℕ) (files : Files) (i : ℕ) (a b : Assembly)
    → IsAssembly a
    → IsPersisted files a
    → i + n ≡ length a.chunks
    → Restored a b i
    → resume_loop n files i b ≡ ok a
unfolding resume_loop add_stored
resume_loop-Restored zero files i a b v p e r =
    ap ok (Restored-eq a b v (subst (Restored a b) (omega arith) r))
resume_loop-Restored (suc n) files i a b v p e r =
    let file : read_file files (partial_chunk b.manifest.id i)
        ≡ read_file files (partial_chunk a.manifest.id i) =
      ap (λ (m : Manifest). read_file files (partial_chunk m.id i)) r.same in
    elim (Bool-cases (is_received a i)) [
      | inl arrived ↦
          let (added, next) = restore_there a b i v (omega arith) arrived r in
          rw (file ∙ p.there i arrived, added)
            (resume_loop-Restored n files (i + 1) a (stored b i (chunk_at a i)) v p (omega arith)
              next)
      | inr lacks ↦ rw (file ∙ p.absent i lacks) (
          resume_loop-Restored n files (i + 1) a b v p (omega arith)
            (restore_absent a b i v lacks r))
    ]

-- After a restart the chunk files give back the assembly as it was.
pub resume_loop_restores :
    (files : Files) (a : Assembly)
    → IsAssembly a
    → IsPersisted files a
    → resume_loop a.manifest.chunk_count files 0 (new_assembly a.manifest) ≡ ok a
unfolding new_assembly
resume_loop_restores files a v p =
    resume_loop-Restored a.manifest.chunk_count files 0 a (new_assembly a.manifest) v p
      (omega (arith, v.places))
      (record {
        valid = new_assembly-IsAssembly a.manifest;
        same = refl;
        flags = λ j. is_received-new_assembly a.manifest j ∙ ground arith;
        cut = λ j.
            (new_assembly-IsAssembly a.manifest).empty j (is_received-new_assembly a.manifest j)
            ∙ ground arith;
      })
