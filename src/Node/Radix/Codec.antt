-- ===== src/Node/Radix/Codec.antt =====
-- Summaries and leaves, sent and received.
use ghost_cache.Common.{
  ℕ, ◌+◌, ◌*◌, ◌%◌, ◌≡◌, refl, sym, ap, ◌∙◌, arith, false, not, ◌||◌, List, [], ◌∷◌, ◌++◌,
  append-nil, ltb, leb, ◌==◌, length, length-append, get_or, get_or-append_past, drop, drop-append,
  drop-append_past, get_le-put_le, All, All-append, IsByte, IsBytes, ok, ◌>>=◌,
}
use ghost_cache.Node.Kind
use ghost_cache.Node.Packet.{decode}
use ghost_cache.Node.Prefix.{decode_prefix, decode_prefix_with_tail, packed_size}
use ghost_cache.Node.Prefix.Codec.{
  encode_prefix-Encoded, decode_prefix_with_tail-Encoded, decode_prefix-Encoded,
}
use ghost_cache.Node.Ids.{join_ids, cut_ids}
use ghost_cache.Node.Ids.Wire.{length-join_ids, join_ids-IsBytes, cut_ids-join_ids}
use ghost_cache.Node.Transfer.Codec.{IsAddress, sent}
use ghost_cache.Node.Radix.{ChildDigest, RadixSummary, RadixLeaf, leaf_threshold}
use ghost_cache.Node.Radix.Wire.{
  encode_summary_request, decode_summary_request, put_children, get_children, encode_summary,
  decode_summary, encode_leaf, decode_leaf, IsPath, IsChildDigest, IsSummary, IsLeaf,
}

-- A request for the summary below a prefix arrives with its generation and its prefix.
pub decode_summary_request-encode_summary_request :
    (source destination tx generation : ℕ) (prefix : List ℕ)
    → IsAddress source destination tx
    → IsPath generation prefix
    → (wire : List ℕ) × (encode_summary_request source destination tx generation prefix ≡ ok wire)
      × ((decode wire >>= decode_summary_request) ≡ ok (generation, prefix))
unfolding encode_summary_request decode_summary_request
decode_summary_request-encode_summary_request source destination tx generation prefix a v =
    let depth = v.depth in
    let (body, e) = encode_prefix-Encoded generation prefix v.generation_word v.depth v.nibbles in
    let (wire, sending, receiving) =
      sent Kind.summary_request source destination tx body (omega arith) a e.bytes
        (omega (arith, e.size)) in
    let back : decode_prefix body ≡ ok (generation, prefix) =
      ap decode_prefix (sym (append-nil body))
      ∙ decode_prefix-Encoded generation prefix body [] v.depth e in
    (wire, rw e.run sending, rw receiving back)

length-put_children : (cs : List ChildDigest) → length (put_children cs) ≡ length cs * 10
unfolding put_children
length-put_children [] = refl
length-put_children (c ∷ cs) = omega (arith, length-put_children cs)

put_children-IsBytes : (cs : List ChildDigest) → IsBytes (put_children cs)
unfolding put_children
put_children-IsBytes [] = tt
put_children-IsBytes (c ∷ cs) = (
  omega arith,
  (
    omega arith,
    (
      omega arith,
      (
        omega arith,
        (
          omega arith,
          (
            omega arith,
            (omega arith, (omega arith, (omega arith, (omega arith, put_children-IsBytes cs)))),
          ),
        ),
      ),
    ),
  ),
)

get_children-put_children :
    (cs : List ChildDigest) → All IsChildDigest cs → get_children (length cs) (put_children cs) ≡ cs
unfolding put_children get_children
get_children-put_children [] v = refl
get_children-put_children (c ∷ cs) v = ground (
  arith,
  get_le-put_le 2 c.count v.0.0,
  get_le-put_le 8 c.digest v.0.1,
  get_children-put_children cs v.1,
)

-- A summary of sixteen children above the deepest level arrives as it was sent.
pub decode_summary-encode_summary :
    (source destination tx : ℕ) (s : RadixSummary)
    → IsAddress source destination tx
    → IsSummary s
    → (wire : List ℕ) × (encode_summary source destination tx s ≡ ok wire)
      × ((decode wire >>= decode_summary) ≡ ok s)
unfolding encode_summary decode_summary
decode_summary-encode_summary source destination tx s a v =
    let tail = put_children s.children in
    let (body, e) =
      encode_prefix-Encoded s.generation s.prefix v.path.generation_word v.path.depth
        v.path.nibbles in
    let width : length tail ≡ 160 = omega (arith, length-put_children s.children, v.sixteen) in
    let inner = v.inner in
    let small : leb 32 (length s.prefix) ≡ false = ground (arith, inner) in
    let (wire, sending, receiving) =
      sent Kind.summary source destination tx (body ++ tail) (omega arith) a
        (All-append IsByte body tail e.bytes (put_children-IsBytes s.children))
        (omega (arith, length-append body tail, e.size)) in
    let back : decode_prefix_with_tail (body ++ tail) 160 ≡ ok (s.generation, s.prefix) =
      rw width at
        (decode_prefix_with_tail-Encoded s.generation s.prefix body tail v.path.depth e) in
    let children : get_children 16 (drop (5 + packed_size (length s.prefix)) (body ++ tail))
        ≡ s.children =
      ap (λ (xs : List ℕ). get_children 16 xs)
        (drop-append (5 + packed_size (length s.prefix)) body tail e.size)
      ∙ rw v.sixteen at (get_children-put_children s.children v.digests) in
    (wire, rw (small, e.run) sending, rw (receiving, back, small, children) refl)

-- A leaf of at most ten IDs arrives as it was sent.
pub decode_leaf-encode_leaf :
    (source destination tx : ℕ) (leaf : RadixLeaf)
    → IsAddress source destination tx
    → IsLeaf leaf
    → (wire : List ℕ) × (encode_leaf source destination tx leaf ≡ ok wire)
      × ((decode wire >>= decode_leaf) ≡ ok leaf)
unfolding encode_leaf decode_leaf
decode_leaf-encode_leaf source destination tx leaf a v =
    let few = v.few in
    let size = length-join_ids leaf.ids v.ids_valid in
    let count : length leaf.ids % 256 ≡ length leaf.ids = omega arith in
    let tail = (length leaf.ids % 256) ∷ join_ids leaf.ids in
    let depth = v.path.depth in
    let (body, e) =
      encode_prefix-Encoded leaf.generation leaf.prefix v.path.generation_word v.path.depth
        v.path.nibbles in
    let offset = 5 + packed_size (length leaf.prefix) in
    let whole : length (body ++ tail) ≡ offset + 1 + length leaf.ids * 16 =
      omega (arith, length-append body tail, e.size, size) in
    let (wire, sending, receiving) =
      sent Kind.leaf source destination tx (body ++ tail) (omega arith) a
        (All-append IsByte body tail e.bytes (omega arith, join_ids-IsBytes leaf.ids v.ids_valid))
        (omega (arith, whole)) in
    let back = decode_prefix-Encoded leaf.generation leaf.prefix body tail v.path.depth e in
    let small : ltb leaf_threshold (length leaf.ids) ≡ false = ground (arith, few) in
    let long : ltb (length (body ++ tail)) 6 ≡ false = ground (arith, whole) in
    let inside : leb (length (body ++ tail)) offset ≡ false = ground (arith, whole) in
    let number : get_or (body ++ tail) offset 0 ≡ length leaf.ids =
      get_or-append_past offset offset 0 body tail 0 e.size (omega arith) ∙ count in
    let fits : (ltb leaf_threshold (length leaf.ids)
          || not (length (body ++ tail) == offset + 1 + length leaf.ids * 16))
        ≡ false =
      ground (arith, few, whole) in
    let ids : cut_ids (length leaf.ids) (drop (offset + 1) (body ++ tail)) ≡ leaf.ids =
      ap (cut_ids (length leaf.ids))
        (drop-append_past offset (offset + 1) 1 body tail e.size (omega arith))
      ∙ cut_ids-join_ids leaf.ids v.ids_valid in
    (wire, rw (small, e.run) sending, rw (receiving, long, back, inside, number, fits, ids) refl)
