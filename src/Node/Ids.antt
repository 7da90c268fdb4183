-- ===== src/Node/Ids.antt =====
-- Lists of publication IDs: `sortedIDs`, `FilterPrefix`, `MissingIDs` and `nibbleAt` of
-- internal/node/radix.go, and lists of IDs on the wire.
pub mod Wire
pub mod Order
use ghost_cache.Common.{
  ℕ, zero, suc, ◌/◌, ◌%◌, ◌≡◌, Bool, true, false, not, ◌&&◌, ◌||◌, List, [], ◌∷◌, ◌++◌, ltb, ◌==◌,
  if◌then◌else◌, length, get_or, take, drop, bit_and, bytes_eq, All, IsBytes,
}
use ghost_cache.Publication.Packet.{PublicationId}

-- The comparison of Go's strings.
unfoldable pub bytes_less : List ℕ → List ℕ → Bool
bytes_less [] [] = false
bytes_less [] (y ∷ ys) = true
bytes_less (x ∷ xs) [] = false
bytes_less (x ∷ xs) (y ∷ ys) = ltb x y || (x == y && bytes_less xs ys)

-- Equal IDs are the same bytes, so that every sort gives the same list.
unfoldable pub insert_id : PublicationId → List PublicationId → List PublicationId
insert_id id [] = id ∷ []
insert_id id (x ∷ xs) =
    let rest = insert_id id xs in if bytes_less x id then x ∷ rest else id ∷ x ∷ xs

unfoldable pub sorted_ids : List PublicationId → List PublicationId
sorted_ids [] = []
sorted_ids (id ∷ ids) = insert_id id (sorted_ids ids)

unfoldable pub nibble_at : PublicationId → ℕ → ℕ
nibble_at id depth =
    if depth % 2 == 0 then get_or id (depth / 2) 0 / 16 else bit_and (get_or id (depth / 2) 0) 15

-- The loop over the prefix, from a depth.
unfoldable pub matches_from : PublicationId → ℕ → List ℕ → Bool
matches_from id depth [] = true
matches_from id depth (nibble ∷ prefix) =
    let rest = matches_from id (suc depth) prefix in
    if not (nibble_at id depth == nibble) then false else rest

unfoldable pub select_prefix : List PublicationId → List ℕ → List PublicationId
select_prefix [] prefix = []
select_prefix (id ∷ ids) prefix =
    let rest = select_prefix ids prefix in if matches_from id 0 prefix then id ∷ rest else rest

unfoldable pub filter_prefix : List PublicationId → List ℕ → List PublicationId
filter_prefix ids prefix = sorted_ids (select_prefix ids prefix)

-- Whether an ID is in a list, as the lookup in the map of `MissingIDs`.
unfoldable pub has_id : PublicationId → List PublicationId → Bool
has_id id [] = false
has_id id (x ∷ xs) = bytes_eq x id || has_id id xs

unfoldable pub missing_ids : List PublicationId → List PublicationId → List PublicationId
missing_ids local [] = []
missing_ids local (id ∷ remote) =
    let rest = missing_ids local remote in if has_id id local then rest else id ∷ rest

-- The bytes of the IDs, one behind the other.
unfoldable pub join_ids : List PublicationId → List ℕ
join_ids [] = []
join_ids (id ∷ ids) = id ++ join_ids ids

-- The loop that cuts them apart again.
unfoldable pub cut_ids : ℕ → List ℕ → List PublicationId
cut_ids zero bytes = []
cut_ids (suc n) bytes = take 16 bytes ∷ cut_ids n (drop 16 bytes)
