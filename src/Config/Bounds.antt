-- ===== src/Config/Bounds.antt =====
-- What a configuration that was accepted promises.
use ghost_cache.Common.{
  ℕ, ◌-◌, ◌*◌, ◌/◌, ◌^◌, ◌≤◌, ◌<◌, ◌≡◌, ◌⊎◌, arith, false, ◌||◌, List, ltb, ◌==◌, div_mul-le, ok,
  >>=-eq-ok,
}
use ghost_cache.Common.{trim_space, to_upper}
use native.Mathlib.Nat.{mul-le-mul_right}
use ghost_cache.Modem.Messages.{RadioConfig}
use ghost_cache.Config.{
  ConfigFile, given_and, is_bad_float, is_bad_power, trim_space, to_upper, suffixes, split_suffix,
  parse_uint, scale, parse_size,
}

-- The radio settings that the firmware accepts.
pub record IsRadioSetting (c : RadioConfig) : Type 0 where
  pub frequency : (0 < c.frequency_mhz) × (c.frequency_mhz < 0x7f800000)
  pub bandwidth : (0 < c.bandwidth_khz) × (c.bandwidth_khz < 0x7f800000)
  pub spreading : (5 ≤ c.spreading_factor) × (c.spreading_factor ≤ 12)
  pub coding : (5 ≤ c.coding_rate) × (c.coding_rate ≤ 8)
  pub power : (c.tx_power_dbm ≤ 22) ⊎ (247 ≤ c.tx_power_dbm)
  pub preamble : 0 < c.preamble_symbols

record Checked (c : ConfigFile) : Type 0 where
  frequency : given_and c.frequency_mhz is_bad_float ≡ false
  bandwidth : given_and c.bandwidth_khz is_bad_float ≡ false
  spreading : given_and c.spreading_factor (λ v. ltb v 5 || ltb 12 v) ≡ false
  coding : given_and c.coding_rate (λ v. ltb v 5 || ltb 8 v) ≡ false
  power : given_and c.tx_power_dbm is_bad_power ≡ false
  preamble : given_and c.preamble (λ v. v == 0) ≡ false

scale-ok : (number m n : ℕ) → 0 < m → scale number m ≡ ok n → (n ≡ number * m) × (n < 2 ^ 64)
unfolding scale
scale-ok number m n pos h =
    let below = div_mul-le (2 ^ 64 - 1) m pos in
    let fits : number ≤ (2 ^ 64 - 1) / m = ground (arith, h) in
    let grows : number * m ≤ (2 ^ 64 - 1) / m * m = mul-le-mul_right m fits in
    let same : n ≡ number * m = ground (arith, h) in (same, omega arith)

multiplier_pos : (text : List ℕ) → 0 < (split_suffix suffixes text).1
unfolding split_suffix
multiplier_pos text = ground arith

-- A size that is read is the number in front of its suffix times the multiplier, with no overflow of
-- its 64 bits.
pub parse_size_exact :
    (value : List ℕ) (n : ℕ)
    → parse_size value ≡ ok n
    → (number : ℕ) × (parse_uint (split_suffix suffixes (to_upper (trim_space value))).0
        ≡ ok number)
      × (n ≡ number * (split_suffix suffixes (to_upper (trim_space value))).1)
      × (n < 2 ^ 64)
unfolding parse_size
parse_size_exact value n h =
    let split = split_suffix suffixes (to_upper (trim_space value)) in
    let (number, read, rest) = >>=-eq-ok (parse_uint split.0) _ h in
    let (same, fits) =
      scale-ok number split.1 n (multiplier_pos (to_upper (trim_space value))) rest in
    (number, read, same, fits)
