-- ===== src/Publication/Assembly/Order.antt =====
-- The order of arrival and repeated arrivals make no difference.
use ghost_cache.Common.{
  ℕ, ◌≤◌, ◌<◌, ◌≡◌, ◌≢◌, ◌⊎◌, refl, sym, ap, ◌∙◌, true, false, List, inl, inr, arith, ◌==◌, ==_iff,
  Bool-cases, length, length-set, set_comm, bytes_eq, bytes_eq_refl, bytes_eq→eq, ok, err,
  malformed,
}
use ghost_cache.Publication.Assembly.{Assembly, has_expected_length, add}
use ghost_cache.Publication.Assembly.Invariant.{
  IsAssembly, is_received, chunk_at, stored, add-cases, expected-stored, is_received-stored,
  chunk_at-stored,
}

-- The two ways in which `add` succeeds.
pub add-again :
    (a : Assembly) (i : ℕ) (bytes : List ℕ)
    → i < length a.chunks
    → has_expected_length a i bytes ≡ true
    → is_received a i ≡ true
    → chunk_at a i ≡ bytes
    → add a i bytes ≡ ok a
unfolding add
add-again a i bytes inside fits here same =
    let equal : bytes_eq (chunk_at a i) bytes ≡ true = rw same (bytes_eq_refl bytes) in ground arith

pub add-new :
    (a : Assembly) (i : ℕ) (bytes : List ℕ)
    → i < length a.chunks
    → has_expected_length a i bytes ≡ true
    → is_received a i ≡ false
    → add a i bytes ≡ ok (stored a i bytes)
unfolding add
add-new a i bytes inside fits absent = ground arith

-- What has arrived can arrive again.
pub add_idempotent :
    (a b : Assembly) (i : ℕ) (bytes : List ℕ)
    → IsAssembly a
    → add a i bytes ≡ ok b
    → add b i bytes ≡ ok b
add_idempotent a b i bytes v e =
    let ((inside, fits), done) = add-cases a b i bytes e in
    elim done [
      | inl (here, equal, same) ↦
          rw same (add-again a i bytes inside fits here (bytes_eq→eq _ bytes equal))
      | inr (_, grown) ↦
          let self : (i == i) ≡ true = ground arith in
          rw grown (
            add-again (stored a i bytes) i bytes (omega (arith, length-set a.chunks i bytes))
              (expected-stored a i i bytes bytes ∙ fits)
              (rw (is_received-stored a i i bytes v inside, self) refl)
              (rw (chunk_at-stored a i i bytes v inside, self) refl))
    ]

-- Other bytes for a chunk that has arrived are refused, and so are bytes of another length and an
-- index past the end.
pub add_refuses :
    (a : Assembly) (i : ℕ) (bytes : List ℕ)
    → ((length a.chunks ≤ i)
        ⊎ ((has_expected_length a i bytes ≡ false)
            ⊎ ((is_received a i ≡ true) × (chunk_at a i ≢ bytes))))
    → add a i bytes ≡ err malformed
unfolding add
add_refuses a i bytes h = ground (arith, bytes_eq→eq (chunk_at a i) bytes)

-- A chunk that has arrived stays, whatever arrives next.
pub add-kept :
    (a b : Assembly) (i j : ℕ) (bytes chunk : List ℕ)
    → IsAssembly a
    → is_received a i ≡ true
    → chunk_at a i ≡ bytes
    → (i == j) ≡ false
    → add a j chunk ≡ ok b
    → (is_received b i ≡ true) × (chunk_at b i ≡ bytes)
add-kept a b i j bytes chunk v here same ne f =
    let ((inside, _), done) = add-cases a b j chunk f in
    let ne' : (j == i) ≡ false = ground arith in
    elim done [
      | inl (_, _, eq) ↦ rw eq (here, same)
      | inr (_, grown) ↦ rw grown (
        rw (is_received-stored a j i chunk v inside, ne') here,
        rw (chunk_at-stored a j i chunk v inside, ne') same,
      )
    ]

-- What `add` needs of an assembly does not change as chunks arrive.
add-frame :
    (a b : Assembly) (i j : ℕ) (bytes chunk : List ℕ)
    → add a j chunk ≡ ok b
    → (length b.chunks ≡ length a.chunks)
      × (has_expected_length b i bytes ≡ has_expected_length a i bytes)
add-frame a b i j bytes chunk f =
    let (_, done) = add-cases a b j chunk f in
    elim done [
      | inl (_, _, eq) ↦ rw eq (refl, refl)
      | inr (_, grown) ↦ rw grown (length-set a.chunks j chunk, expected-stored a j i chunk bytes)
    ]

-- The chunk that was added is there.
pub add-here :
    (a b : Assembly) (i : ℕ) (bytes : List ℕ)
    → IsAssembly a
    → add a i bytes ≡ ok b
    → (is_received b i ≡ true) × (chunk_at b i ≡ bytes)
add-here a b i bytes v e =
    let ((inside, _), done) = add-cases a b i bytes e in
    let self : (i == i) ≡ true = ground arith in
    elim done [
      | inl (here, equal, eq) ↦ rw eq (here, bytes_eq→eq (chunk_at a i) bytes equal)
      | inr (_, grown) ↦ rw grown (
        rw (is_received-stored a i i bytes v inside, self) refl,
        rw (chunk_at-stored a i i bytes v inside, self) refl,
      )
    ]

-- Two deliveries of one index carry the same bytes.
add-agree :
    (a b c : Assembly) (i : ℕ) (bytes chunk : List ℕ)
    → IsAssembly a
    → add a i bytes ≡ ok b
    → add b i chunk ≡ ok c
    → (chunk ≡ bytes) × (c ≡ b)
add-agree a b c i bytes chunk v e f =
    let (here, same) = add-here a b i bytes v e in
    let (_, done) = add-cases b c i chunk f in
    elim done [
      | inl (_, equal, eq) ↦ (sym (bytes_eq→eq (chunk_at b i) chunk equal) ∙ same, eq)
      | inr (absent, _) ↦ cc
    ]

stored_comm :
    (a : Assembly) (i j : ℕ) (bytes chunk : List ℕ)
    → i ≢ j
    → stored (stored a j chunk) i bytes ≡ stored (stored a i bytes) j chunk
stored_comm a i j bytes chunk ne =
    rw (set_comm a.chunks i j bytes chunk ne, set_comm a.received i j true true ne) refl

add_comm_ne :
    (a b c : Assembly) (i j : ℕ) (bytes chunk : List ℕ)
    → IsAssembly a
    → (i == j) ≡ false
    → add a i bytes ≡ ok b
    → add b j chunk ≡ ok c
    → (b' : Assembly) × (add a j chunk ≡ ok b') × (add b' i bytes ≡ ok c)
add_comm_ne a b c i j bytes chunk v ne e f =
    let ((inside, fits), done) = add-cases a b i bytes e in
    let ((inside', fits'), done') = add-cases b c j chunk f in
    let (places, expected) = add-frame a b j i chunk bytes e in
    let ne' : (j == i) ≡ false = ground arith in
    elim done [
      | inl (here, equal, eq) ↦
          let f' : add a j chunk ≡ ok c = rw eq at f in
          let (kept, same) =
            add-kept a c i j bytes chunk v here (bytes_eq→eq (chunk_at a i) bytes equal) ne f' in
          let (places', expected') = add-frame a c i j bytes chunk f' in
          (c, f', add-again c i bytes (omega arith) (expected' ∙ fits) kept same)
      | inr (absent, grown) ↦
          let flag =
            rw (is_received-stored a i j bytes v inside, ne) at
              (ap (λ (d : Assembly). is_received d j) grown) in
          let there =
            rw (chunk_at-stored a i j bytes v inside, ne) at
              (ap (λ (d : Assembly). chunk_at d j) grown) in
          elim done' [
            | inl (here, equal, eq) ↦ (
              a,
              add-again a j chunk (omega arith) (sym expected ∙ fits') (sym flag ∙ here)
                  (sym there ∙ bytes_eq→eq (chunk_at b j) chunk equal),
              e ∙ ap ok (sym eq),
            )
            | inr (absent', grown') ↦
                let inside'' : j < length a.chunks = omega arith in
                (
                  stored a j chunk,
                  add-new a j chunk inside'' (sym expected ∙ fits') (sym flag ∙ absent'),
                  add-new (stored a j chunk) i bytes (omega (arith, length-set a.chunks j chunk))
                        (expected-stored a j i chunk bytes ∙ fits)
                        (rw (is_received-stored a j i chunk v inside'', ne') absent)
                      ∙ ap ok (
                          stored_comm a i j bytes chunk (ground arith)
                          ∙ ap (λ (d : Assembly). stored d j chunk) (sym grown)
                          ∙ sym grown'),
                )
          ]
    ]

-- Two chunks can arrive in either order: both orders succeed, with the same assembly.
pub add_comm :
    (a b c : Assembly) (i j : ℕ) (bytes chunk : List ℕ)
    → IsAssembly a
    → add a i bytes ≡ ok b
    → add b j chunk ≡ ok c
    → (b' : Assembly) × (add a j chunk ≡ ok b') × (add b' i bytes ≡ ok c)
add_comm a b c i j bytes chunk v e f = elim (Bool-cases (i == j)) [
  | inl same ↦
      let f' = rw (← (==_iff i j).0 same) at f in
      let (agree, eq) = add-agree a b c i bytes chunk v e f' in
      (b, rw (← (==_iff i j).0 same, agree) e, add_idempotent a b i bytes v e ∙ ap ok (sym eq))
  | inr ne ↦ add_comm_ne a b c i j bytes chunk v ne e f
]
