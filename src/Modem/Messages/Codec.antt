-- ===== src/Modem/Messages/Codec.antt =====
-- The host's messages and the modem's answers on the wire.
use ghost_cache.Common.{
  ℕ, ◌<◌, ◌^◌, ◌≡◌, List, ◌++◌, arith, length, put_le, get_le-put_le, IsBytes, ok,
}
use ghost_cache.Modem.Messages.{
  RadioConfig, encode_config, decode_config, IsRadioConfig, decode_rx_packet, decode_result,
}

-- A radio configuration is 15 bytes on the wire and is read back as it was.
pub decode_config-encode_config :
    (c : RadioConfig)
    → IsRadioConfig c
    → (length (encode_config c) ≡ 15)
      × IsBytes (encode_config c)
      × (decode_config (encode_config c) ≡ ok c)
unfolding encode_config decode_config
decode_config-encode_config c v = (
  omega arith,
  omega arith,
  ground (
    arith,
    get_le-put_le 4 c.frequency_mhz v.frequency_word,
    get_le-put_le 4 c.bandwidth_khz v.bandwidth_word,
    get_le-put_le 2 c.preamble_symbols v.preamble_word,
  ),
)

-- Read answers give back what they were made of: signal strengths and packet, code and message.
pub decode_answers :
    (rssi snr code : ℕ) (payload message : List ℕ)
    → rssi < 2 ^ 32
    → snr < 2 ^ 32
    → code < 2 ^ 16
    → (decode_rx_packet (put_le 4 rssi ++ (put_le 4 snr ++ payload))
        ≡ ok (record { rssi = rssi; snr = snr; payload = payload }))
      × (decode_result (put_le 2 code ++ message) ≡ ok (record { code = code; message = message }))
unfolding decode_rx_packet decode_result
decode_answers rssi snr code payload message r s c = (
  ground (arith, get_le-put_le 4 rssi r, get_le-put_le 4 snr s),
  ground (arith, get_le-put_le 2 code c),
)
