-- ===== src/Node/Radix/Reconcile.antt =====
-- What the comparison of two summaries finds.
use ghost_cache.Common.{
  ℕ, zero, suc, ◌+◌, ◌≤◌, ◌<◌, ◌≡◌, ◌≢◌, refl, sym, ap, subst, ◌∙◌, arith, true, false, inl, inr,
  Bool-cases, &&-true, List, [], ◌∷◌, ◌++◌, lt→ltb, ◌==◌, ==_iff, length, bytes_eq, bytes_eq_refl,
  bytes_eq→eq,
}
use ghost_cache.Publication.Packet.{PublicationId}
use ghost_cache.Node.Ids.{sorted_ids, matches_from, filter_prefix, has_id}
use ghost_cache.Node.Ids.Order.{has_id-sorted_ids, has_id-filter_prefix}
use ghost_cache.Node.Radix.{
  ChildDigest, digest_ids, child_digest, children_loop, build_summary, same_digest, differing_loop,
  differing_children, radix_children,
}

same_digest_refl : (c : ChildDigest) → same_digest c c ≡ true
unfolding same_digest
same_digest_refl c = ground arith

module _ (sha256 : List ℕ → List ℕ) (local remote : List PublicationId) (prefix : List ℕ) where
  -- The two buckets of a child.
  abbrev here : ℕ → ChildDigest
  here k = child_digest sha256 (filter_prefix local (prefix ++ k ∷ []))

  abbrev there : ℕ → ChildDigest
  there k = child_digest sha256 (filter_prefix remote (prefix ++ k ∷ []))

  -- The loops of both, compared.
  abbrev found : ℕ → ℕ → List (List ℕ)
  found n child =
      differing_loop (children_loop n sha256 local prefix child)
        (children_loop n sha256 remote prefix child) prefix child

  found_complete :
      (n child k : ℕ)
      → child ≤ k
      → k < child + n
      → same_digest (here k) (there k) ≡ false
      → has_id (prefix ++ k ∷ []) (found n child) ≡ true
  unfolding differing_loop children_loop has_id
  found_complete zero child k low high h = absurd (omega arith)
  found_complete (suc n) child k low high h = elim (Bool-cases (child == k)) [
    | inl now ↦
        let e : child ≡ k = (==_iff child k).0 now in
        rw (e, h, bytes_eq_refl (prefix ++ k ∷ [])) refl
    | inr later ↦
        let rest = found_complete n (child + 1) k (ground (arith, later)) (omega arith) h in
        elim (Bool-cases (same_digest (here child) (there child))) [
          | inl same ↦ rw same rest
          | inr differ ↦
              rw (differ, rest)
                (ground (arith, Bool-cases (bytes_eq (prefix ++ child ∷ []) (prefix ++ k ∷ []))))
        ]
  ]

  found_sound :
      (n child : ℕ) (path : List ℕ)
      → has_id path (found n child) ≡ true
      → (k : ℕ) × (k < child + n)
        × (path ≡ prefix ++ k ∷ [])
        × (same_digest (here k) (there k) ≡ false)
  unfolding differing_loop children_loop has_id
  found_sound zero child path h = cc
  found_sound (suc n) child path h = elim (Bool-cases (same_digest (here child) (there child))) [
    | inl same ↦
        let (k, high, e, differ) = found_sound n (child + 1) path (rw same at h) in
        (k, omega arith, e, differ)
    | inr differ ↦ elim (Bool-cases (bytes_eq (prefix ++ child ∷ []) path)) [
      | inl now ↦ (child, omega arith, sym (bytes_eq→eq _ _ now), differ)
      | inr later ↦
          let (k, high, e, differ') = found_sound n (child + 1) path (rw (differ, later) at h) in
          (k, omega arith, e, differ')
    ]
  ]

  -- Buckets that differ in an ID have digests that differ, unless the digests collide.
  buckets_differ :
      (x : PublicationId) (k : ℕ)
      → has_id x remote ≡ true
      → matches_from x 0 (prefix ++ k ∷ []) ≡ true
      → has_id x local ≡ false
      → (digest_ids sha256 (filter_prefix local (prefix ++ k ∷ []))
            ≡ digest_ids sha256 (filter_prefix remote (prefix ++ k ∷ []))
          → sorted_ids (filter_prefix local (prefix ++ k ∷ []))
            ≡ sorted_ids (filter_prefix remote (prefix ++ k ∷ [])))
      → same_digest (here k) (there k) ≡ false
  unfolding same_digest child_digest
  buckets_differ x k there' below absent apart =
      elim (Bool-cases (same_digest (here k) (there k))) [
        | inr differ ↦ differ
        | inl same ↦
            let digests = (==_iff _ _).0 (&&-true _ _ same).1 in
            let mine = filter_prefix local (prefix ++ k ∷ []) in
            let theirs = filter_prefix remote (prefix ++ k ∷ []) in
            let e : has_id x mine ≡ has_id x theirs =
              sym (has_id-sorted_ids x mine)
              ∙ ap (has_id x) (apart digests)
              ∙ has_id-sorted_ids x theirs in
            absurd (
              ground (
                arith,
                e,
                has_id-filter_prefix x local (prefix ++ k ∷ []),
                has_id-filter_prefix x remote (prefix ++ k ∷ []),
              ))
      ]

  -- Above the deepest level the comparison leads to every ID that the other node has and this one
  -- does not: the child of its next nibble is among the differing ones, when the digests of the two
  -- buckets of that child do not collide.
  pub differing_children_complete :
      (x : PublicationId) (k : ℕ)
      → length prefix < 32
      → k < radix_children
      → has_id x remote ≡ true
      → matches_from x 0 (prefix ++ k ∷ []) ≡ true
      → has_id x local ≡ false
      → (digest_ids sha256 (filter_prefix local (prefix ++ k ∷ []))
            ≡ digest_ids sha256 (filter_prefix remote (prefix ++ k ∷ []))
          → sorted_ids (filter_prefix local (prefix ++ k ∷ []))
            ≡ sorted_ids (filter_prefix remote (prefix ++ k ∷ [])))
      → has_id (prefix ++ k ∷ []) (
          differing_children
            (build_summary sha256 local prefix)
            (build_summary sha256 remote prefix))
        ≡ true
  unfolding differing_children build_summary
  differing_children_complete x k short nibble there' below absent apart =
      rw (bytes_eq_refl prefix, lt→ltb (length prefix) 32 short)
        (found_complete 16 0 k (omega arith) (omega arith)
          (buckets_differ x k there' below absent apart))

  -- Every child that the comparison reports is a child of the prefix, and its two buckets differ.
  pub differing_children_sound :
      (path : List ℕ)
      → length prefix < 32
      → has_id path (
          differing_children
            (build_summary sha256 local prefix)
            (build_summary sha256 remote prefix))
        ≡ true
      → (k : ℕ) × (k < radix_children)
        × (path ≡ prefix ++ k ∷ [])
        × (filter_prefix local path ≢ filter_prefix remote path)
  unfolding differing_children build_summary
  differing_children_sound path short h =
      let (k, high, e, differ) =
        found_sound 16 0 path (rw (bytes_eq_refl prefix, lt→ltb (length prefix) 32 short) at h) in
      (
        k,
        omega arith,
        e,
        λ same.
            let both : here k ≡ there k =
              ap (child_digest sha256)
                (subst (λ (p : List ℕ). filter_prefix local p ≡ filter_prefix remote p) e same) in
            absurd (ground (arith, ap (same_digest (here k)) both, same_digest_refl (here k))),
      )
