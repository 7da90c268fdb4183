-- ===== src/Node/Ids/Wire.antt =====
-- IDs written and read.
use ghost_cache.Common.{
  ℕ, ◌*◌, ◌≡◌, refl, ap, ap₂, ◌∙◌, arith, List, [], ◌∷◌, length, length-append, take-append,
  drop-append, All, All-append, IsByte, IsBytes,
}
use ghost_cache.Publication.Packet.{PublicationId, IsPublicationId}
use ghost_cache.Node.Ids.{join_ids, cut_ids}

pub length-join_ids :
    (ids : List PublicationId) → All IsPublicationId ids → length (join_ids ids) ≡ length ids * 16
unfolding join_ids
length-join_ids [] v = refl
length-join_ids (id ∷ ids) v =
    length-append id (join_ids ids) ∙ omega (arith, v.0.sixteen, length-join_ids ids v.1)

pub join_ids-IsBytes : (ids : List PublicationId) → All IsPublicationId ids → IsBytes (join_ids ids)
unfolding join_ids
join_ids-IsBytes [] v = tt
join_ids-IsBytes (id ∷ ids) v =
    All-append IsByte id (join_ids ids) v.0.bytes (join_ids-IsBytes ids v.1)

pub cut_ids-join_ids :
    (ids : List PublicationId) → All IsPublicationId ids → cut_ids (length ids) (join_ids ids) ≡ ids
unfolding join_ids cut_ids
cut_ids-join_ids [] v = refl
cut_ids-join_ids (id ∷ ids) v =
    ap₂ (λ (x : List ℕ) (xs : List ℕ). x ∷ cut_ids (length ids) xs)
      (take-append 16 id (join_ids ids) v.0.sixteen) (drop-append 16 id (join_ids ids) v.0.sixteen)
    ∙ ap (λ (xs : List PublicationId). id ∷ xs) (cut_ids-join_ids ids v.1)
