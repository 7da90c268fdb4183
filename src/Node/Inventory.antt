-- ===== src/Node/Inventory.antt =====
-- `Inventory`, `InventoryPages`, `EncodeInventory` and `DecodeInventory` of
-- internal/node/protocol.go.
pub mod Codec
pub mod Pages
use ghost_cache.Common.{
  ℕ, zero, suc, ◌+◌, ◌-◌, ◌*◌, ◌/◌, ◌%◌, ◌^◌, ◌≤◌, ◌<◌, Bool, true, false, not, ◌||◌, List, [], ◌∷◌,
  ◌++◌, ltb, leb, ◌==◌, if◌then◌else◌, length, get_or, drop, slice, put_le, get_le, min, All,
  Result, ok, err, malformed, ◌>>=◌, ◌>>◌, fail_if,
}
use ghost_cache.Modem.Crc.{crc32}
use ghost_cache.Publication.Packet.{PublicationId, IsPublicationId}
use ghost_cache.Node.Kind
use ghost_cache.Node.Packet.{Packet, NodeId, encode, broadcast}
use ghost_cache.Node.Ids.{sorted_ids, join_ids, cut_ids}

-- (200 - 14 - 9) / 16.
abbrev pub ids_per_page : ℕ
ids_per_page = 11

pub record Inventory : Type 0 where
  pub generation : ℕ
  pub page : ℕ
  pub pages : ℕ
  pub ids : List PublicationId

-- The loop over the pages, with n pages left.
unfoldable pub pages_loop : ℕ → List PublicationId → ℕ → ℕ → ℕ → List Inventory
pages_loop zero ids generation pages page = []
pages_loop (suc n) ids generation pages page =
    let start = page * ids_per_page in
    record {
      generation = generation;
      page = page % 2 ^ 16;
      pages = pages % 2 ^ 16;
      ids = slice start (min (start + ids_per_page) (length ids)) ids;
    }
    ∷ pages_loop n ids generation pages (page + 1)

-- Even no IDs have a page.
unfoldable pub page_count : ℕ → ℕ
page_count n = let pages = (n + ids_per_page - 1) / ids_per_page in if pages == 0 then 1 else pages

unfoldable pub inventory_pages : List PublicationId → List Inventory
inventory_pages ids =
    let sorted = sorted_ids ids in
    let pages = page_count (length sorted) in
    pages_loop pages sorted (crc32 (join_ids sorted)) pages 0

unfoldable pub encode_inventory : NodeId → Inventory → Result (List ℕ)
encode_inventory source inv = do
  fail_if (inv.pages == 0 || leb inv.pages inv.page || ltb ids_per_page (length inv.ids)) malformed
  encode (record {
    type = Kind.inventory;
    source = source;
    destination = broadcast;
    transaction = 0;
    body =
        put_le 4 inv.generation
        ++ (put_le 2 inv.page ++ (put_le 2 inv.pages ++ (length inv.ids % 256) ∷ join_ids inv.ids));
  })

unfoldable pub decode_inventory : Packet → Result Inventory
decode_inventory p = do
  fail_if
      (not (p.type == Kind.inventory)
        || not (p.destination == broadcast)
        || ltb (length p.body) 9
        || ltb ids_per_page (get_or p.body 8 0)
        || not (length p.body == 9 + get_or p.body 8 0 * 16))
      malformed
  let page = get_le (slice 4 6 p.body)
  let pages = get_le (slice 6 8 p.body)
  fail_if (pages == 0 || leb pages page) malformed
  ok (record {
    generation = get_le (slice 0 4 p.body);
    page = page;
    pages = pages;
    ids = cut_ids (get_or p.body 8 0) (drop 9 p.body);
  })

pub record IsInventory (inv : Inventory) : Type 0 where
  pub generation_word : inv.generation < 2 ^ 32
  pub pages_word : inv.pages < 2 ^ 16
  pub page_of : inv.page < inv.pages
  pub ids_valid : All IsPublicationId inv.ids
  pub few : length inv.ids ≤ ids_per_page
