-- ===== src/Publication/Assembly/Cut.antt =====
-- A content cut into the chunks that its manifest describes.
use ghost_cache.Common.{
  ℕ, zero, suc, ◌+◌, ◌-◌, ◌*◌, ◌/◌, ◌^◌, ◌≤◌, ◌<◌, min, ◌≡◌, ap, subst, ◌∙◌, true, List, inl, inr,
  arith, ◌==◌, if◌then◌else◌, Bool-cases, length, lt-div_mul, div_mul-le, length-take, length-drop,
  take, drop,
}
use native.Mathlib.Nat.{mul-le-mul_right}
use ghost_cache.Publication.Manifest.{Manifest, expected_chunks}
use ghost_cache.Publication.Assembly.{Assembly, has_expected_length}

-- Chunk i of a content, as the sender cuts it.
abbrev pub chunk_of : Manifest → List ℕ → ℕ → List ℕ
chunk_of m whole i = take m.chunk_size (drop (i * m.chunk_size) whole)

-- The content that a manifest describes.
pub record Describes (m : Manifest) (whole : List ℕ) : Type 0 where
  pub size : length whole ≡ m.length
  pub chunk_pos : 0 < m.chunk_size
  pub cover : m.chunk_count ≡ expected_chunks m.length m.chunk_size
  pub small : m.chunk_count ≤ 2 ^ 16

inner_le :
    (s chunk_size i q : ℕ) {n : ℕ}
    → i + 1 < n
    → n ≡ q + 1
    → q * chunk_size ≤ s
    → (i + 1) * chunk_size ≤ s
inner_le s chunk_size i q h e b =
    let step : (i + 1) * chunk_size ≤ q * chunk_size = mul-le-mul_right chunk_size (omega arith) in
    omega arith

-- The last chunk starts inside the content, and so does every other with its whole length.
last_chunk_starts :
    (size chunk_size n : ℕ)
    → 0 < chunk_size
    → n ≡ expected_chunks size chunk_size
    → (i : ℕ) → i < n
    → (i * chunk_size < size)
      × (i + 1 ≡ n → size ≤ (i + 1) * chunk_size)
      × (i + 1 < n → (i + 1) * chunk_size < size)
unfolding expected_chunks
last_chunk_starts zero chunk_size n pos e i lt = absurd (omega arith)
last_chunk_starts (suc s) chunk_size n pos e i lt =
    let q = s / chunk_size in
    let less : suc s - 1 ≡ s = omega arith in
    let count : n ≡ q + 1 = ground (arith, less) in
    let below = div_mul-le s chunk_size pos in
    let above = lt-div_mul s chunk_size pos in
    let start : i * chunk_size ≤ q * chunk_size = mul-le-mul_right chunk_size (omega arith) in
    (
      omega arith,
      λ last. omega (arith, ap (λ (k : ℕ). k * chunk_size) (last ∙ count)),
      λ inner. omega (arith, inner_le s chunk_size i q inner count below),
    )

-- The tests of `add` on the length of a chunk that was cut so.
expected_of_size :
    (n chunk_size size i k : ℕ)
    → i < n
    → i * chunk_size < size
    → (i + 1 ≡ n → size ≤ (i + 1) * chunk_size)
    → (i + 1 < n → (i + 1) * chunk_size < size)
    → k ≡ min chunk_size (size - i * chunk_size)
    → (if i == n - 1 then k + i * chunk_size == size else k == chunk_size) ≡ true
expected_of_size n chunk_size size i k lt starts last inner e = elim (Bool-cases (i == n - 1)) [
  | inl is_last ↦ let bound = last (ground arith) in rw is_last (ground (arith, bound))
  | inr other ↦ let bound = inner (ground arith) in rw other (ground (arith, bound))
]

pub chunk_of-expected :
    (a : Assembly) (whole : List ℕ) (i : ℕ)
    → Describes a.manifest whole
    → length a.chunks ≡ a.manifest.chunk_count
    → i < a.manifest.chunk_count
    → has_expected_length a i (chunk_of a.manifest whole i) ≡ true
unfolding has_expected_length
chunk_of-expected a whole i d places lt =
    let m = a.manifest in
    let (starts, last, inner) =
      last_chunk_starts m.length m.chunk_size m.chunk_count d.chunk_pos d.cover i lt in
    let size : length (chunk_of m whole i) ≡ min m.chunk_size (m.length - i * m.chunk_size) =
      length-take m.chunk_size (drop (i * m.chunk_size) whole)
      ∙ ap (min m.chunk_size)
          (length-drop (i * m.chunk_size) whole ∙ ap (λ (k : ℕ). k - i * m.chunk_size) d.size) in
    expected_of_size (length a.chunks) m.chunk_size m.length i (length (chunk_of m whole i))
      (omega arith) starts (λ e. last (e ∙ places))
      (λ e. inner (subst (λ (k : ℕ). i + 1 < k) places e)) size
