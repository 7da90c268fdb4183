-- ===== src/Node/Radix/Wire.antt =====
-- The summary and leaf messages of internal/node/protocol.go.
use ghost_cache.Common.{
  ℕ, zero, suc, ◌+◌, ◌*◌, ◌%◌, ◌≤◌, ◌<◌, ◌^◌, ◌≡◌, not, ◌||◌, List, [], ◌∷◌, ◌++◌, ltb, leb, ◌==◌,
  length, get_or, drop, slice, put_le, get_le, All, Result, ok, malformed, ◌>>=◌, ◌>>◌, fail_if,
}
use ghost_cache.Publication.Packet.{IsPublicationId}
use ghost_cache.Node.Kind
use ghost_cache.Node.Packet.{Packet, NodeId, encode}
use ghost_cache.Node.Prefix.{
  encode_prefix, decode_prefix, decode_prefix_with_tail, packed_size, IsNibble,
}
use ghost_cache.Node.Ids.{join_ids, cut_ids}
use ghost_cache.Node.Radix.{ChildDigest, RadixSummary, RadixLeaf, radix_children, leaf_threshold}

unfoldable pub encode_summary_request : NodeId → NodeId → ℕ → ℕ → List ℕ → Result (List ℕ)
encode_summary_request source destination tx generation prefix = do
  body ← encode_prefix generation prefix
  encode (record {
    type = Kind.summary_request;
    source = source;
    destination = destination;
    transaction = tx;
    body = body;
  })

unfoldable pub decode_summary_request : Packet → Result (ℕ × List ℕ)
decode_summary_request p = do
  fail_if (not (p.type == Kind.summary_request)) malformed
  decode_prefix p.body

-- Ten bytes for each child.
unfoldable pub put_children : List ChildDigest → List ℕ
put_children [] = []
put_children (c ∷ cs) = put_le 2 c.count ++ (put_le 8 c.digest ++ put_children cs)

-- The loop that reads n children.
unfoldable pub get_children : ℕ → List ℕ → List ChildDigest
get_children zero bytes = []
get_children (suc n) bytes =
    record { count = get_le (slice 0 2 bytes); digest = get_le (slice 2 10 bytes) }
    ∷ get_children n (drop 10 bytes)

unfoldable pub encode_summary : NodeId → NodeId → ℕ → RadixSummary → Result (List ℕ)
encode_summary source destination tx s = do
  fail_if (leb 32 (length s.prefix)) malformed
  body ← encode_prefix s.generation s.prefix
  encode (record {
    type = Kind.summary;
    source = source;
    destination = destination;
    transaction = tx;
    body = body ++ put_children s.children;
  })

unfoldable pub decode_summary : Packet → Result RadixSummary
decode_summary p = do
  fail_if (not (p.type == Kind.summary)) malformed
  found ← decode_prefix_with_tail p.body 160
  fail_if (leb 32 (length found.1)) malformed
  ok (record {
    generation = found.0;
    prefix = found.1;
    children = get_children radix_children (drop (5 + packed_size (length found.1)) p.body);
  })

unfoldable pub encode_leaf : NodeId → NodeId → ℕ → RadixLeaf → Result (List ℕ)
encode_leaf source destination tx leaf = do
  fail_if (ltb leaf_threshold (length leaf.ids)) malformed
  body ← encode_prefix leaf.generation leaf.prefix
  encode (record {
    type = Kind.leaf;
    source = source;
    destination = destination;
    transaction = tx;
    body = body ++ (length leaf.ids % 256) ∷ join_ids leaf.ids;
  })

unfoldable pub decode_leaf : Packet → Result RadixLeaf
decode_leaf p = do
  fail_if (not (p.type == Kind.leaf) || ltb (length p.body) 6) malformed
  found ← decode_prefix p.body
  let offset = 5 + packed_size (length found.1)
  fail_if (leb (length p.body) offset) malformed
  let count = get_or p.body offset 0
  fail_if (ltb leaf_threshold count || not (length p.body == offset + 1 + count * 16)) malformed
  ok (record {
    generation = found.0;
    prefix = found.1;
    ids = cut_ids count (drop (offset + 1) p.body);
  })

-- What fits into the messages.
pub record IsPath (generation : ℕ) (prefix : List ℕ) : Type 0 where
  pub generation_word : generation < 2 ^ 32
  pub nibbles : All IsNibble prefix
  pub depth : length prefix ≤ 32

abbrev pub IsChildDigest : ChildDigest → Type 0
IsChildDigest c = (c.count < 2 ^ 16) × (c.digest < 2 ^ 64)

pub record IsSummary (s : RadixSummary) : Type 0 where
  pub path : IsPath s.generation s.prefix
  pub inner : length s.prefix < 32
  pub sixteen : length s.children ≡ 16
  pub digests : All IsChildDigest s.children

pub record IsLeaf (leaf : RadixLeaf) : Type 0 where
  pub path : IsPath leaf.generation leaf.prefix
  pub few : length leaf.ids ≤ leaf_threshold
  pub ids_valid : All IsPublicationId leaf.ids
