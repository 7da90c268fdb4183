-- ===== src/Publication/Assembly/Invariant.antt =====
-- What every assembly keeps.
use ghost_cache.Common.{
  ℕ, ◌<◌, ◌≡◌, ◌⊎◌, refl, sym, subst, ◌∙◌, Bool, true, false, List, [], inl, inr, arith, ◌==◌,
  ==_iff, if◌then◌else◌, Bool-cases, length, length-set, length-replicate, get_or-replicate, get_or,
  get_or-set, set, bytes_eq, ok,
}
use ghost_cache.Publication.Manifest.{Manifest}
use ghost_cache.Publication.Assembly.{Assembly, new_assembly, has_expected_length, add}

abbrev pub is_received : Assembly → ℕ → Bool
is_received a i = get_or a.received i false

abbrev pub chunk_at : Assembly → ℕ → List ℕ
chunk_at a i = get_or a.chunks i []

-- One place and one flag for each chunk; what has arrived has its length; other places are empty.
pub record IsAssembly (a : Assembly) : Type 0 where
  pub places : length a.chunks ≡ a.manifest.chunk_count
  pub flags : length a.received ≡ a.manifest.chunk_count
  pub sized : (i : ℕ) → is_received a i ≡ true → has_expected_length a i (chunk_at a i) ≡ true
  pub empty : (i : ℕ) → is_received a i ≡ false → chunk_at a i ≡ []

-- The assembly with one chunk more.
abbrev pub stored : Assembly → ℕ → List ℕ → Assembly
stored a i bytes = record a { chunks = set a.chunks i bytes; received = set a.received i true }

-- What `add` does: nothing, or one chunk more.
pub add-cases :
    (a b : Assembly) (i : ℕ) (bytes : List ℕ)
    → add a i bytes ≡ ok b
    → ((i < length a.chunks) × (has_expected_length a i bytes ≡ true))
      × (((is_received a i ≡ true) × (bytes_eq (chunk_at a i) bytes ≡ true) × (b ≡ a))
          ⊎ ((is_received a i ≡ false) × (b ≡ stored a i bytes)))
unfolding add
add-cases a b i bytes e = ground arith

pub is_received-new_assembly : (m : Manifest) (i : ℕ) → is_received (new_assembly m) i ≡ false
unfolding new_assembly
is_received-new_assembly m i = get_or-replicate m.chunk_count i false

pub new_assembly-IsAssembly : (m : Manifest) → IsAssembly (new_assembly m)
unfolding new_assembly
new_assembly-IsAssembly m = record {
  places = length-replicate m.chunk_count [];
  flags = length-replicate m.chunk_count false;
  sized = λ i e. cc (sym (get_or-replicate m.chunk_count i false) ∙ e);
  empty = λ i e. get_or-replicate m.chunk_count i [];
}

-- The length that is expected of a chunk does not depend on what has arrived.
pub expected-stored :
    (a : Assembly) (i j : ℕ) (bytes chunk : List ℕ)
    → has_expected_length (stored a i bytes) j chunk ≡ has_expected_length a j chunk
unfolding has_expected_length
expected-stored a i j bytes chunk = rw (length-set a.chunks i bytes) refl

module _ (a : Assembly) (i j : ℕ) (bytes : List ℕ) (v : IsAssembly a)
    (inside : i < length a.chunks) where
  pub is_received-stored :
      is_received (stored a i bytes) j ≡ (if i == j then true else is_received a j)
  is_received-stored = get_or-set a.received i j true false (omega (arith, v.places, v.flags))

  pub chunk_at-stored : chunk_at (stored a i bytes) j ≡ (if i == j then bytes else chunk_at a j)
  chunk_at-stored = get_or-set a.chunks i j bytes [] inside

  sized-stored :
      has_expected_length a i bytes ≡ true
      → is_received (stored a i bytes) j ≡ true
      → has_expected_length a j (chunk_at (stored a i bytes) j) ≡ true
  sized-stored fits e = elim (Bool-cases (i == j)) [
    | inl same ↦
        rw (chunk_at-stored, same)
          (subst (λ (k : ℕ). has_expected_length a k bytes ≡ true) ((==_iff i j).0 same) fits)
    | inr other ↦ rw (chunk_at-stored, other) (v.sized j (rw (is_received-stored, other) at e))
  ]

  empty-stored : is_received (stored a i bytes) j ≡ false → chunk_at (stored a i bytes) j ≡ []
  empty-stored e = elim (Bool-cases (i == j)) [
    | inl same ↦ cc (rw (is_received-stored, same) at e)
    | inr other ↦ rw (chunk_at-stored, other) (v.empty j (rw (is_received-stored, other) at e))
  ]

pub stored-IsAssembly :
    (a : Assembly) (i : ℕ) (bytes : List ℕ)
    → IsAssembly a
    → i < length a.chunks
    → has_expected_length a i bytes ≡ true
    → IsAssembly (stored a i bytes)
stored-IsAssembly a i bytes v inside fits = record {
  places = length-set a.chunks i bytes ∙ v.places;
  flags = length-set a.received i true ∙ v.flags;
  sized = λ j e.
      expected-stored a i j bytes (chunk_at (stored a i bytes) j)
      ∙ sized-stored a i j bytes v inside fits e;
  empty = λ j e. empty-stored a i j bytes v inside e;
}

-- `Add` keeps the invariant.
pub add-IsAssembly :
    (a b : Assembly) (i : ℕ) (bytes : List ℕ) → IsAssembly a → add a i bytes ≡ ok b → IsAssembly b
add-IsAssembly a b i bytes v e =
    let ((inside, fits), done) = add-cases a b i bytes e in
    elim done [
      | inl (_, _, same) ↦ rw same v
      | inr (_, grown) ↦ rw grown (stored-IsAssembly a i bytes v inside fits)
    ]
