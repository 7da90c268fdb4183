-- ===== src/Publication/Receipt.antt =====
-- `EncodeReceipt` and `DecodeReceipt` of internal/publication/protocol.go: which chunks have
-- arrived, one bit for each.
pub mod Bits
pub mod Codec
use ghost_cache.Common.{
  ℕ, zero, suc, ◌+◌, ◌/◌, ◌%◌, ◌*◌, ◌^◌, Bool, true, false, not, ◌||◌, List, [], ◌∷◌, ◌++◌, ltb,
  ◌==◌, if◌then◌else◌, length, get_or, set, slice, replicate, put_le, get_le, bit_and, bit_or,
  Result, ok, err, malformed, ◌>>=◌, ◌>>◌, fail_if,
}
use ghost_cache.Publication.Packet.{PublicationId, Packet, encode_packet, type_receipt, max_chunks}

-- `body[2+i/8] |= 1 << (uint(i) % 8)`
unfoldable pub mark : List ℕ → ℕ → List ℕ
mark body i = set body (2 + i / 8) (bit_or (get_or body (2 + i / 8) 0) (2 ^ (i % 8)))

-- `packet.Body[2+i/8]&(1<<(uint(i)%8)) != 0`
unfoldable pub is_marked : List ℕ → ℕ → Bool
is_marked body i = not (bit_and (get_or body (2 + i / 8) 0) (2 ^ (i % 8)) == 0)

-- The loop over `received`, from index i.
unfoldable pub mark_loop : List ℕ → ℕ → List Bool → List ℕ
mark_loop body i [] = body
mark_loop body i (done ∷ received) = mark_loop (if done then mark body i else body) (i + 1) received

unfoldable pub receipt_body : ℕ → List Bool → List ℕ
receipt_body chunk_count received =
    mark_loop (put_le 2 chunk_count ++ replicate ((length received + 7) / 8) 0) 0 received

unfoldable pub encode_receipt : PublicationId → ℕ → List Bool → Result (List ℕ)
encode_receipt id chunk_count received = do
  fail_if (not (chunk_count == length received) || ltb max_chunks chunk_count) malformed
  encode_packet (record { type = type_receipt; id = id; body = receipt_body chunk_count received })

-- `make([]bool, count)` and the loop that fills it, from index i.
unfoldable pub marks_from : ℕ → ℕ → List ℕ → List Bool
marks_from i zero body = []
marks_from i (suc n) body = is_marked body i ∷ marks_from (i + 1) n body

unfoldable pub decode_receipt : Packet → Result (List Bool)
decode_receipt p = do
  fail_if (not (p.type == type_receipt) || ltb (length p.body) 2) malformed
  let count = get_le (slice 0 2 p.body)
  fail_if (ltb max_chunks count || not (length p.body == 2 + (count + 7) / 8)) malformed
  ok (marks_from 0 count p.body)
