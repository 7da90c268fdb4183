-- ===== src/Node/Inventory/Codec.antt =====
-- Inventory pages, sent and received.
use ghost_cache.Common.{
  ℕ, ◌+◌, ◌*◌, ◌%◌, ◌^◌, ◌<◌, ◌≡◌, refl, arith, false, not, ◌||◌, List, ◌∷◌, ◌++◌, ltb, leb, ◌==◌,
  length, put_le, get_le, get_le-put_le, ok, ◌>>=◌,
}
use ghost_cache.Node.Kind
use ghost_cache.Node.Packet.{NodeId, decode, broadcast}
use ghost_cache.Node.Ids.{join_ids}
use ghost_cache.Node.Ids.Wire.{length-join_ids, join_ids-IsBytes, cut_ids-join_ids}
use ghost_cache.Node.Transfer.Codec.{sent}
use ghost_cache.Node.Inventory.{
  Inventory, encode_inventory, decode_inventory, IsInventory, ids_per_page,
}

-- A page of at most eleven IDs is broadcast, and arrives as it was.
pub decode_inventory-encode_inventory :
    (source : NodeId) (inv : Inventory)
    → source < 2 ^ 32
    → IsInventory inv
    → (wire : List ℕ) × (encode_inventory source inv ≡ ok wire)
      × ((decode wire >>= decode_inventory) ≡ ok inv)
unfolding encode_inventory decode_inventory
decode_inventory-encode_inventory source inv w v =
    let size = length-join_ids inv.ids v.ids_valid in
    let few = v.few in
    let count : length inv.ids % 256 ≡ length inv.ids = omega arith in
    let body =
      put_le 4 inv.generation
      ++ (put_le 2 inv.page ++ (put_le 2 inv.pages ++ (length inv.ids % 256) ∷ join_ids inv.ids)) in
    let (wire, sending, receiving) =
      sent Kind.inventory source broadcast 0 body (omega arith)
        (record { source_word = w; destination_word = omega arith; transaction_word = omega arith })
        (
          omega arith,
          (
            omega arith,
            (
              omega arith,
              (
                omega arith,
                (
                  omega arith,
                  (
                    omega arith,
                    (
                      omega arith,
                      (omega arith, (omega arith, join_ids-IsBytes inv.ids v.ids_valid)),
                    ),
                  ),
                ),
              ),
            ),
          ),
        )
        (omega (arith, size)) in
    let page : get_le (put_le 2 inv.page) ≡ inv.page =
      get_le-put_le 2 inv.page (omega (arith, v.page_of, v.pages_word)) in
    let pages : get_le (put_le 2 inv.pages) ≡ inv.pages = get_le-put_le 2 inv.pages v.pages_word in
    let generation : get_le (put_le 4 inv.generation) ≡ inv.generation =
      get_le-put_le 4 inv.generation v.generation_word in
    let refuse : (inv.pages == 0 || leb inv.pages inv.page || ltb ids_per_page (length inv.ids))
        ≡ false =
      ground (arith, v.page_of, few) in
    let whole : length body ≡ 9 + length inv.ids * 16 = omega (arith, size) in
    let first : (ltb (length body) 9
          || ltb ids_per_page (length inv.ids)
          || not (length body == 9 + length inv.ids * 16))
        ≡ false =
      ground (arith, few, whole) in
    let order : (inv.pages == 0 || leb inv.pages inv.page) ≡ false = ground (arith, v.page_of) in
    (
      wire,
      rw refuse sending,
      rw
          (
            receiving,
            count,
            first,
            page,
            pages,
            order,
            generation,
            cut_ids-join_ids inv.ids v.ids_valid,
          )
          refl,
    )
