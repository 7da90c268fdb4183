-- ===== src/Config.antt =====
-- internal/config/config.go: the values of a configuration file, and sizes such as "128KiB". Strings are
-- their bytes, read as ASCII; a float32 is its bit pattern, an int8 or a duration its two's complement.
pub mod Bounds
use ghost_cache.Common.{
  ℕ, zero, suc, ◌+◌, ◌-◌, ◌*◌, ◌/◌, ◌^◌, ◌≤◌, ◌<◌, Bool, true, false, not, ◌&&◌, ◌||◌, List, [],
  ◌∷◌, ◌++◌, Option, none, some, ltb, ◌==◌, if◌then◌else◌, length, take, drop, bytes_eq, Result, ok,
  err, refused, malformed, ◌>>=◌, ◌>>◌, fail_if,
}
use ghost_cache.Common.{to_upper, trim_space}
use ghost_cache.Modem.Messages.{RadioConfig}
use ghost_cache.Node.Policy.{SignaturePolicy, parse_signature_policy}

-- The sections of a `File` that are checked; a key that is not given is `none`.
pub record ConfigFile : Type 0 where
  pub data_dir : List ℕ
  pub device : List ℕ
  pub frequency_mhz : Option ℕ
  pub spreading_factor : Option ℕ
  pub bandwidth_khz : Option ℕ
  pub coding_rate : Option ℕ
  pub tx_power_dbm : Option ℕ
  pub preamble : Option ℕ
  pub sync_word : Option ℕ
  pub advertise_interval : ℕ
  pub startup_backoff : ℕ
  pub signature_policy : List ℕ

-- `p != nil && test(*p)`
abbrev pub given_and : Option ℕ → (ℕ → Bool) → Bool
given_and none test = false
given_and (some v) test = test v

-- Not a positive number, NaN, or infinite.
abbrev pub is_bad_float : ℕ → Bool
is_bad_float bits = bits == 0 || not (ltb bits 0x7f800000)

-- Below -9 or above 22, of an int8.
abbrev pub is_bad_power : ℕ → Bool
is_bad_power v = if ltb v 128 then ltb 22 v else ltb v 247

abbrev pub is_negative : ℕ → Bool
is_negative duration = not (ltb duration (2 ^ 63))

unfoldable pub validate : ConfigFile → Result SignaturePolicy
validate c = do
  fail_if (length c.data_dir == 0) refused
  fail_if (length c.device == 0) refused
  fail_if (given_and c.frequency_mhz is_bad_float) refused
  fail_if (given_and c.bandwidth_khz is_bad_float) refused
  fail_if (given_and c.spreading_factor (λ v. ltb v 5 || ltb 12 v)) refused
  fail_if (given_and c.coding_rate (λ v. ltb v 5 || ltb 8 v)) refused
  fail_if (given_and c.tx_power_dbm is_bad_power) refused
  fail_if (given_and c.preamble (λ v. v == 0)) refused
  fail_if (is_negative c.advertise_interval || is_negative c.startup_backoff) refused
  parse_signature_policy c.signature_policy

abbrev pub value_or : ℕ → Option ℕ → ℕ
value_or d none = d
value_or d (some v) = v

-- 915 MHz, 125 kHz, spreading factor 7, coding rate 5, 5 dBm, 8 symbols, 0x12.
abbrev pub default_config : RadioConfig
default_config = record {
  frequency_mhz = 0x4464c000;
  bandwidth_khz = 0x42fa0000;
  spreading_factor = 7;
  coding_rate = 5;
  tx_power_dbm = 5;
  preamble_symbols = 8;
  sync_word = 0x12;
}

unfoldable pub radio_config : ConfigFile → RadioConfig
radio_config c = record {
  frequency_mhz = value_or default_config.frequency_mhz c.frequency_mhz;
  bandwidth_khz = value_or default_config.bandwidth_khz c.bandwidth_khz;
  spreading_factor = value_or default_config.spreading_factor c.spreading_factor;
  coding_rate = value_or default_config.coding_rate c.coding_rate;
  tx_power_dbm = value_or default_config.tx_power_dbm c.tx_power_dbm;
  preamble_symbols = value_or default_config.preamble_symbols c.preamble;
  sync_word = value_or default_config.sync_word c.sync_word;
}

-- `strconv.ParseUint` in base 10 and 64 bits.
unfoldable pub parse_digits : ℕ → List ℕ → Result ℕ
parse_digits n [] = ok n
parse_digits n (c ∷ cs) = do
  fail_if (ltb c b'0' || ltb b'9' c) malformed
  let next = n * 10 + (c - b'0')
  fail_if (not (ltb next (2 ^ 64))) malformed
  parse_digits next cs

unfoldable pub parse_uint : List ℕ → Result ℕ
parse_uint [] = err malformed
parse_uint (c ∷ cs) = parse_digits 0 (c ∷ cs)

-- The suffixes in the order of the search, with their multipliers.
abbrev pub suffixes : List (List ℕ × ℕ)
suffixes =
    (b'K' ∷ b'I' ∷ b'B' ∷ [], 1024)
    ∷ (b'M' ∷ b'I' ∷ b'B' ∷ [], 1024 * 1024)
    ∷ (b'G' ∷ b'I' ∷ b'B' ∷ [], 1024 * 1024 * 1024)
    ∷ (b'K' ∷ b'B' ∷ [], 1000)
    ∷ (b'M' ∷ b'B' ∷ [], 1000000)
    ∷ (b'G' ∷ b'B' ∷ [], 1000000000)
    ∷ (b'B' ∷ [], 1)
    ∷ []

unfoldable pub has_suffix : List ℕ → List ℕ → Bool
has_suffix text suffix =
    not (ltb (length text) (length suffix))
    && bytes_eq (drop (length text - length suffix) text) suffix

-- The number's text and the multiplier.
unfoldable pub split_suffix : List (List ℕ × ℕ) → List ℕ → List ℕ × ℕ
split_suffix [] text = (text, 1)
split_suffix (candidate ∷ candidates) text =
    let rest = split_suffix candidates text in
    if has_suffix text candidate.0
    then (trim_space (take (length text - length candidate.0) text), candidate.1)
    else rest

unfoldable pub scale : ℕ → ℕ → Result ℕ
scale number m = do fail_if (ltb ((2 ^ 64 - 1) / m) number) refused; ok (number * m)

unfoldable pub parse_size : List ℕ → Result ℕ
parse_size value = do
  let split = split_suffix suffixes (to_upper (trim_space value))
  number ← parse_uint split.0
  scale number split.1
