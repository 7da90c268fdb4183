-- ===== src/Modem/Messages.antt =====
-- The payloads of the serial messages: `EncodeConfig`, `DecodeConfig`, `DecodeRXPacket` and
-- `DecodeResult` of internal/modem/protocol.go. A float32 is its bit pattern (`math.Float32bits`),
-- an int8 or int16 its two's complement pattern.
pub mod Codec
use ghost_cache.Common.{
  ℕ, ◌+◌, ◌<◌, ◌^◌, Bool, true, false, not, List, [], ◌∷◌, ◌++◌, ltb, ◌==◌, length, get_or, drop,
  slice, put_le, get_le, IsByte, Result, ok, err, malformed, ◌>>=◌, ◌>>◌, fail_if,
}

pub record RadioConfig : Type 0 where
  pub frequency_mhz : ℕ
  pub bandwidth_khz : ℕ
  pub spreading_factor : ℕ
  pub coding_rate : ℕ
  pub tx_power_dbm : ℕ
  pub preamble_symbols : ℕ
  pub sync_word : ℕ

unfoldable pub encode_config : RadioConfig → List ℕ
encode_config c =
    put_le 4 c.frequency_mhz
    ++ (put_le 4 c.bandwidth_khz
        ++ c.spreading_factor
          ∷ c.coding_rate
          ∷ c.tx_power_dbm
          ∷ (put_le 2 c.preamble_symbols ++ c.sync_word ∷ 0 ∷ []))

unfoldable pub decode_config : List ℕ → Result RadioConfig
decode_config b = do
  fail_if (not (length b == 15)) malformed
  ok (record {
    frequency_mhz = get_le (slice 0 4 b);
    bandwidth_khz = get_le (slice 4 8 b);
    spreading_factor = get_or b 8 0;
    coding_rate = get_or b 9 0;
    tx_power_dbm = get_or b 10 0;
    preamble_symbols = get_le (slice 11 13 b);
    sync_word = get_or b 13 0;
  })

pub record RxPacket : Type 0 where
  pub rssi : ℕ
  pub snr : ℕ
  pub payload : List ℕ

unfoldable pub decode_rx_packet : List ℕ → Result RxPacket
decode_rx_packet b = do
  fail_if (ltb (length b) 8) malformed
  ok (record { rssi = get_le (slice 0 4 b); snr = get_le (slice 4 8 b); payload = drop 8 b })

pub record TxResult : Type 0 where
  pub code : ℕ
  pub message : List ℕ

unfoldable pub decode_result : List ℕ → Result TxResult
decode_result b = do
  fail_if (ltb (length b) 2) malformed
  ok (record { code = get_le (slice 0 2 b); message = drop 2 b })

-- The values that the fields can hold.
pub record IsRadioConfig (c : RadioConfig) : Type 0 where
  pub frequency_word : c.frequency_mhz < 2 ^ 32
  pub bandwidth_word : c.bandwidth_khz < 2 ^ 32
  pub spreading_byte : IsByte c.spreading_factor
  pub coding_byte : IsByte c.coding_rate
  pub power_byte : IsByte c.tx_power_dbm
  pub preamble_word : c.preamble_symbols < 2 ^ 16
  pub sync_byte : IsByte c.sync_word
