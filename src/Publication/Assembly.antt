-- ===== src/Publication/Assembly.antt =====
-- `Assembly` of internal/publication/assembly.go: a publication that is put together from chunks.
pub mod Invariant
pub mod Order
pub mod Complete
pub mod Cut
pub mod Delivery
use ghost_cache.Common.{
  ℕ, zero, suc, ◌+◌, ◌-◌, ◌*◌, ◌%◌, ◌^◌, Bool, true, false, not, List, [], ◌∷◌, ◌++◌, ltb, ◌==◌,
  if◌then◌else◌, length, get_or, set, replicate, bytes_eq, Result, ok, err, malformed, incomplete,
  hash_mismatch, ◌>>=◌, ◌>>◌, fail_if,
}
use ghost_cache.Publication.Manifest.{Manifest}

pub record Assembly : Type 0 where
  pub manifest : Manifest
  pub chunks : List (List ℕ)
  pub received : List Bool

unfoldable pub new_assembly : Manifest → Assembly
new_assembly m = record {
  manifest = m;
  chunks = replicate m.chunk_count [];
  received = replicate m.chunk_count false;
}

-- `len(data) == expected`. The last chunk has what the others leave of the length; as Go's
-- difference of integers may be negative, it is written as a sum.
unfoldable pub has_expected_length : Assembly → ℕ → List ℕ → Bool
has_expected_length a index bytes =
    if index == length a.chunks - 1
    then length bytes + index * a.manifest.chunk_size == a.manifest.length
    else length bytes == a.manifest.chunk_size

-- `Add`. A chunk that is already there must be the same.
unfoldable pub add : Assembly → ℕ → List ℕ → Result Assembly
unfolding has_expected_length
add a index bytes = do
  fail_if (not (ltb index (length a.chunks))) malformed
  fail_if (not (has_expected_length a index bytes)) malformed
  if get_or a.received index false
      then (if bytes_eq (get_or a.chunks index []) bytes then ok a else err malformed)
      else ok (record a { chunks = set a.chunks index bytes; received = set a.received index true })

-- The loop of `Missing`, from index i; indexes are uint16.
unfoldable pub missing_from : ℕ → List Bool → List ℕ
missing_from i [] = []
missing_from i (done ∷ received) =
    let rest = missing_from (i + 1) received in if not done then (i % 2 ^ 16) ∷ rest else rest

unfoldable pub missing : Assembly → List ℕ
unfolding missing_from
missing a = missing_from 0 a.received

unfoldable pub is_complete : Assembly → Bool
unfolding missing
is_complete a = length (missing a) == 0

unfoldable pub join : List (List ℕ) → List ℕ
join [] = []
join (chunk ∷ chunks) = chunk ++ join chunks

-- `Content`, over the hash function.
unfoldable pub content : (List ℕ → List ℕ) → Assembly → Result (List ℕ)
unfolding is_complete join
content sha256 a = do
  fail_if (not (is_complete a)) incomplete
  let whole = join a.chunks
  fail_if (not (bytes_eq (sha256 whole) a.manifest.sha256)) hash_mismatch
  ok whole
