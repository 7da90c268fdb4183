-- ===== src/Tests/Sharing.antt =====
-- Batches, policies, summaries and leaves of internal/node.
use ghost_cache.Common.{
  ℕ, ◌*◌, ◌^◌, ◌≤◌, ◌<◌, ◌≡◌, ◌≢◌, ◌⊎◌, refl, arith, true, false, Bool, List, [], ◌∷◌, ◌++◌, some,
  length, get_or, take, replicate, get_le, All, bytes_eq, ok, err, refused,
}
use ghost_cache.Publication.Packet.{PublicationId, IsPublicationId}
use ghost_cache.Publication.Manifest.{Manifest}
use ghost_cache.Publication.Signing.{
  canonical_manifest, verify_signature, verify_manifest_signature,
}
use ghost_cache.Node.Scheduler.{missing_batch, search_loop, batch_loop, Candidate, second, backoff}
use ghost_cache.Node.Scheduler.Batch.{IsAsk, missing_batch-IsAsk, missing_batch_complete}
use ghost_cache.Node.Policy.{
  parse_signature_policy, permissive, required, trusted, AcquisitionPolicy, is_trusted, is_valid,
  satisfies, accept,
}
use ghost_cache.Node.Policy.Accept.{accept_sound}
use ghost_cache.Node.Ids.{
  sorted_ids, insert_id, bytes_less, nibble_at, matches_from, filter_prefix, select_prefix, has_id,
  missing_ids, join_ids,
}
use ghost_cache.Node.Inventory.{Inventory, IsInventory}
use ghost_cache.Node.Radix.{
  RadixSummary, RadixLeaf, digest_ids, build_summary, build_leaf, differing_children,
}
use ghost_cache.Node.Radix.Reconcile.{differing_children_complete}
use ghost_cache.Node.Radix.Wire.{IsPath, IsSummary, IsLeaf}
use ghost_cache.Tests.Node.{id_of, id_of-IsPublicationId, note, seal}

-- Chunks 0, 2 and 9 are there.
abbrev flags : List Bool
flags = true ∷ false ∷ true ∷ false ∷ false ∷ false ∷ false ∷ false ∷ false ∷ true ∷ []

batch_run :
    (missing_batch flags 0 ≡ (0, (0x3a, 1 ∷ 3 ∷ 4 ∷ 5 ∷ [])))
    × (missing_batch flags 8 ≡ (8, (1, 8 ∷ [])))
    × (missing_batch [] 3 ≡ (0, (0, [])))
unfolding missing_batch search_loop batch_loop
batch_run = (refl, refl, refl)

missing_batch-IsAsk_example :
    let (base, (bitmap, indexes)) = missing_batch flags 3 in IsAsk flags base bitmap indexes
missing_batch-IsAsk_example = missing_batch-IsAsk flags 3 (omega arith)

all_there : (missing_batch (true ∷ true ∷ []) 1).1.1 ≡ []
unfolding missing_batch search_loop
all_there = refl

missing_batch_complete_example : get_or (true ∷ true ∷ []) 1 true ≡ true
missing_batch_complete_example =
    missing_batch_complete (true ∷ true ∷ []) 1 all_there 1 (omega arith)

abbrev candidate : Candidate
candidate = record {
  id = id_of 0x12;
  sources = 5 ∷ 6 ∷ 7 ∷ [];
  source_index = 2;
  failures = 0;
  next_attempt = 0;
}

backoff_run : (backoff 0 ≡ second) × (backoff 3 ≡ 8 * second) × (backoff 9 ≡ 32 * second)
unfolding backoff
backoff_run = (refl, refl, refl)

parse_run :
    (parse_signature_policy [] ≡ ok permissive)
    × (parse_signature_policy (b's' ∷ b'i' ∷ b'g' ∷ b'n' ∷ b'e' ∷ b'd' ∷ []) ≡ ok required)
    × (parse_signature_policy (b's' ∷ []) ≡ err refused)
unfolding parse_signature_policy bytes_eq
parse_run = (refl, refl, refl)

-- In place of Ed25519: signatures that begin with 0 are good.
abbrev toy_verify : List ℕ → List ℕ → List ℕ → Bool
toy_verify key message sig = bytes_eq (take 1 sig) (0 ∷ [])

abbrev careful : AcquisitionPolicy
careful = record {
  max_auto_size = 100;
  has_max_size = true;
  signature = trusted;
  trust = some (λ key. true);
}

abbrev sealed_note : Manifest
sealed_note = record note { signature = some seal }

abbrev forged_note : Manifest
forged_note = record note { signature = some (record seal { value = replicate 64 1 }) }

sealed_accepted : accept toy_verify careful sealed_note false false ≡ true
unfolding accept verify_manifest_signature verify_signature canonical_manifest is_valid satisfies
    is_trusted bytes_eq
sealed_accepted = refl

accept_sound_example :
    (verify_manifest_signature toy_verify sealed_note ≡ ok tt)
    × ((false ≡ true)
        ⊎ (((false ≡ true) ⊎ ((true ≡ false) ⊎ (3 ≤ 100)))
            × (satisfies trusted (some (λ key. true)) (some seal) ≡ true)))
accept_sound_example = accept_sound toy_verify careful sealed_note false false sealed_accepted

forged_invalid : verify_manifest_signature toy_verify forged_note ≡ err refused
unfolding verify_manifest_signature verify_signature canonical_manifest bytes_eq
forged_invalid = refl

abbrev mine : List PublicationId
mine = id_of 0x20 ∷ id_of 0x12 ∷ []

abbrev theirs : List PublicationId
theirs = id_of 0x13 ∷ id_of 0x12 ∷ id_of 0x20 ∷ []

sort_run : sorted_ids theirs ≡ id_of 0x12 ∷ id_of 0x13 ∷ id_of 0x20 ∷ []
unfolding sorted_ids insert_id bytes_less
sort_run = refl

missing_run : missing_ids mine (build_leaf (λ xs. xs) theirs (1 ∷ [])).ids ≡ id_of 0x13 ∷ []
unfolding missing_ids build_leaf filter_prefix select_prefix matches_from nibble_at sorted_ids
    insert_id bytes_less has_id bytes_eq
missing_run = refl

three-IsPublicationId : All IsPublicationId theirs
three-IsPublicationId = (
  id_of-IsPublicationId 0x13 (omega arith),
  (id_of-IsPublicationId 0x12 (omega arith), (id_of-IsPublicationId 0x20 (omega arith), tt)),
)

abbrev page : Inventory
page = record { generation = 77; page = 0; pages = 1; ids = theirs }

page-IsInventory : IsInventory page
page-IsInventory = record {
  generation_word = omega arith;
  pages_word = omega arith;
  page_of = omega arith;
  ids_valid = three-IsPublicationId;
  few = omega arith;
}

below_one : IsPath 9 (1 ∷ [])
below_one = record {
  generation_word = omega arith;
  nibbles = (omega arith, tt);
  depth = omega arith;
}

abbrev summary : RadixSummary
summary = record {
  generation = 9;
  prefix = 1 ∷ [];
  children = replicate 16 (record { count = 300; digest = 70000 });
}

summary-IsSummary : IsSummary summary
summary-IsSummary =
    let child : (300 < 2 ^ 16) × (70000 < 2 ^ 64) = (omega arith, omega arith) in
    record {
      path = below_one;
      inner = omega arith;
      sixteen = refl;
      digests = (
        child,
        (
          child,
          (
            child,
            (
              child,
              (
                child,
                (
                  child,
                  (
                    child,
                    (
                      child,
                      (child, (child, (child, (child, (child, (child, (child, (child, tt)))))))),
                    ),
                  ),
                ),
              ),
            ),
          ),
        ),
      );
    }

abbrev leaf : RadixLeaf
leaf = record { generation = 9; prefix = 1 ∷ []; ids = theirs }

leaf-IsLeaf : IsLeaf leaf
leaf-IsLeaf = record { path = below_one; few = omega arith; ids_valid = three-IsPublicationId }

-- In place of SHA-256, a hash that tells the two buckets apart by their length.
abbrev count_hash : List ℕ → List ℕ
count_hash xs = length xs ∷ []

theirs_has : has_id (id_of 0x13) theirs ≡ true
unfolding has_id bytes_eq
theirs_has = refl

mine_has_not : has_id (id_of 0x13) mine ≡ false
unfolding has_id bytes_eq
mine_has_not = refl

below : matches_from (id_of 0x13) 0 ([] ++ 1 ∷ []) ≡ true
unfolding matches_from nibble_at
below = refl

digests_differ :
    digest_ids count_hash (filter_prefix mine ([] ++ 1 ∷ []))
    ≢ digest_ids count_hash (filter_prefix theirs ([] ++ 1 ∷ []))
unfolding digest_ids get_le filter_prefix select_prefix matches_from nibble_at sorted_ids insert_id
    bytes_less join_ids
digests_differ e = absurd (omega (arith, e))

differing_children_complete_example :
    has_id
      ([] ++ 1 ∷ [])
      (differing_children (build_summary count_hash mine []) (build_summary count_hash theirs []))
    ≡ true
differing_children_complete_example =
    differing_children_complete count_hash mine theirs [] (id_of 0x13) 1 (omega arith) (omega arith)
      theirs_has below mine_has_not (λ e. absurd (digests_differ e))
