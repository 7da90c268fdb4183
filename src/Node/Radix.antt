-- ===== src/Node/Radix.antt =====
-- internal/node/radix.go: the radix tree of publication IDs, compared level by level. SHA-256 is a
-- parameter.
pub mod Reconcile
pub mod Wire
pub mod Codec
use ghost_cache.Common.{
  ℕ, zero, suc, ◌+◌, ◌%◌, ◌^◌, ◌≤◌, ◌<◌, Bool, true, false, not, ◌&&◌, List, [], ◌∷◌, ◌++◌, ltb,
  ◌==◌, if◌then◌else◌, length, take, get_le, replicate, bytes_eq,
}
use ghost_cache.Publication.Packet.{PublicationId}
use ghost_cache.Node.Ids.{sorted_ids, filter_prefix, join_ids}

abbrev pub radix_children : ℕ
radix_children = 16

abbrev pub leaf_threshold : ℕ
leaf_threshold = 10

pub record ChildDigest : Type 0 where
  pub count : ℕ
  pub digest : ℕ

pub record RadixSummary : Type 0 where
  pub generation : ℕ
  pub prefix : List ℕ
  pub children : List ChildDigest

pub record RadixLeaf : Type 0 where
  pub generation : ℕ
  pub prefix : List ℕ
  pub ids : List PublicationId

unfoldable pub inventory_generation : (List ℕ → List ℕ) → List PublicationId → ℕ
inventory_generation sha256 ids = get_le (take 4 (sha256 (join_ids (sorted_ids ids))))

unfoldable pub digest_ids : (List ℕ → List ℕ) → List PublicationId → ℕ
digest_ids sha256 ids = get_le (take 8 (sha256 (join_ids (sorted_ids ids))))

-- A bucket, summarised. The count saturates at 65535.
unfoldable pub child_digest : (List ℕ → List ℕ) → List PublicationId → ChildDigest
child_digest sha256 bucket = record {
  count = if ltb 65535 (length bucket) then 65535 else length bucket;
  digest = digest_ids sha256 bucket;
}

-- The loop over the children, with n of them left.
unfoldable pub children_loop :
    ℕ → (List ℕ → List ℕ) → List PublicationId → List ℕ → ℕ → List ChildDigest
children_loop zero sha256 ids prefix child = []
children_loop (suc n) sha256 ids prefix child =
    child_digest sha256 (filter_prefix ids (prefix ++ child ∷ []))
    ∷ children_loop n sha256 ids prefix (child + 1)

unfoldable pub build_summary : (List ℕ → List ℕ) → List PublicationId → List ℕ → RadixSummary
build_summary sha256 ids prefix = record {
  generation = inventory_generation sha256 ids;
  prefix = prefix;
  children =
      if ltb (length prefix) 32
      then children_loop radix_children sha256 ids prefix 0
      else replicate radix_children (record { count = 0; digest = 0 });
}

unfoldable pub build_leaf : (List ℕ → List ℕ) → List PublicationId → List ℕ → RadixLeaf
build_leaf sha256 ids prefix = record {
  generation = inventory_generation sha256 ids;
  prefix = prefix;
  ids = filter_prefix ids prefix;
}

unfoldable pub same_digest : ChildDigest → ChildDigest → Bool
same_digest a b = a.count == b.count && a.digest == b.digest

-- The loop over the children of both, from a child on.
unfoldable pub differing_loop : List ChildDigest → List ChildDigest → List ℕ → ℕ → List (List ℕ)
differing_loop [] remote prefix child = []
differing_loop (x ∷ xs) [] prefix child = []
differing_loop (x ∷ xs) (y ∷ ys) prefix child =
    let rest = differing_loop xs ys prefix (child + 1) in
    if same_digest x y then rest else (prefix ++ child ∷ []) ∷ rest

unfoldable pub differing_children : RadixSummary → RadixSummary → List (List ℕ)
differing_children local remote =
    if not (bytes_eq local.prefix remote.prefix)
    then []
    else differing_loop local.children remote.children remote.prefix 0
