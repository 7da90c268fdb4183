-- ===== src/Node/Inventory/Pages.antt =====
-- The pages of an inventory, put together.
use ghost_cache.Common.{
  ℕ, zero, suc, ◌+◌, ◌-◌, ◌*◌, ◌≤◌, ◌≡◌, refl, sym, ap, ap₂, ◌∙◌, arith, inl, inr, Bool-cases, List,
  [], ◌∷◌, ◌++◌, ltb, ltb→lt, ltb→le, length, length-drop, take, take_all, take-add, drop,
  drop-drop, slice, min,
}
use ghost_cache.Modem.Crc.{crc32}
use ghost_cache.Publication.Packet.{PublicationId}
use ghost_cache.Node.Ids.{sorted_ids, join_ids}
use ghost_cache.Node.Inventory.{Inventory, ids_per_page, pages_loop, page_count, inventory_pages}

-- The IDs of all pages.
pub page_ids : List Inventory → List PublicationId
page_ids [] = []
page_ids (p ∷ ps) = p.ids ++ page_ids ps

-- The last page ends with the list.
cut_short :
    (start : ℕ) (ids : List PublicationId)
    → slice start (min (start + ids_per_page) (length ids)) ids ≡ take ids_per_page (drop start ids)
cut_short start ids = elim (Bool-cases (ltb (length ids) (start + ids_per_page))) [
  | inl last ↦
      let short = ltb→lt _ _ last in
      let rest = length-drop start ids in
      let width : min (start + ids_per_page) (length ids) - start ≡ length ids - start =
        omega arith in
      rw width (
        take_all (length ids - start) (drop start ids) (omega arith)
        ∙ sym (take_all ids_per_page (drop start ids) (omega arith)))
  | inr full ↦
      let long = ltb→le _ _ full in
      let width : min (start + ids_per_page) (length ids) - start ≡ ids_per_page = omega arith in
      rw width refl
]

page_ids-pages_loop :
    (n : ℕ) (ids : List PublicationId) (generation pages page : ℕ)
    → page_ids (pages_loop n ids generation pages page)
      ≡ take (n * ids_per_page) (drop (page * ids_per_page) ids)
unfolding page_ids pages_loop
page_ids-pages_loop zero ids generation pages page = refl
page_ids-pages_loop (suc n) ids generation pages page =
    let start = page * ids_per_page in
    let next : (page + 1) * ids_per_page ≡ start + ids_per_page = omega arith in
    let width : suc n * ids_per_page ≡ ids_per_page + n * ids_per_page = omega arith in
    ap₂ (λ (xs ys : List PublicationId). xs ++ ys) (cut_short start ids)
      (page_ids-pages_loop n ids generation pages (page + 1)
        ∙ ap (λ (k : ℕ). take (n * ids_per_page) (drop k ids)) next
        ∙ ap (λ (xs : List PublicationId). take (n * ids_per_page) xs)
            (sym (drop-drop start ids_per_page ids)))
    ∙ sym (take-add ids_per_page (n * ids_per_page) (drop start ids))
    ∙ ap (λ (k : ℕ). take k (drop start ids)) (sym width)

page_count-covers : (n : ℕ) → n ≤ page_count n * ids_per_page
unfolding page_count
page_count-covers n = ground arith

-- The pages of an inventory, one behind the other, are the sorted IDs.
pub page_ids-inventory_pages :
    (ids : List PublicationId) → page_ids (inventory_pages ids) ≡ sorted_ids ids
unfolding inventory_pages
page_ids-inventory_pages ids =
    let sorted = sorted_ids ids in
    page_ids-pages_loop (page_count (length sorted)) sorted (crc32 (join_ids sorted))
      (page_count (length sorted)) 0
    ∙ take_all (page_count (length sorted) * ids_per_page) sorted
        (page_count-covers (length sorted))
