-- ===== src/Modem/Crc.antt =====
-- `crc32.ChecksumIEEE` of Go's hash/crc32: the reflected polynomial 0xEDB88320, bit by bit.
use ghost_cache.Common.{
  ℕ, zero, suc, ◌/◌, ◌%◌, ◌^◌, ◌<◌, ◌≡◌, refl, bit_xor, List, [], ◌∷◌, arith, ◌==◌, if◌then◌else◌,
}

crc_shift : ℕ → ℕ
crc_shift c = let half = c / 2 in if c % 2 == 1 then bit_xor half 0xedb88320 else half

crc_bits : ℕ → ℕ → ℕ
crc_bits zero c = c
crc_bits (suc n) c = crc_bits n (crc_shift c)

crc_bytes : ℕ → List ℕ → ℕ
crc_bytes c [] = c
crc_bytes c (b ∷ bs) = crc_bytes (crc_bits 8 (bit_xor c b)) bs

-- The register is a uint32.
unfoldable pub crc32 : List ℕ → ℕ
unfolding crc_bytes crc_bits crc_shift
crc32 bs = bit_xor (crc_bytes 0xffffffff bs) 0xffffffff % 2 ^ 32

pub crc32-lt : (bs : List ℕ) → crc32 bs < 2 ^ 32
unfolding crc32
crc32-lt bs = omega arith

-- The check value of CRC-32: the checksum of "123456789".
crc32_check : crc32 (0x31 ∷ 0x32 ∷ 0x33 ∷ 0x34 ∷ 0x35 ∷ 0x36 ∷ 0x37 ∷ 0x38 ∷ 0x39 ∷ []) ≡ 0xcbf43926
unfolding crc32
crc32_check = refl
