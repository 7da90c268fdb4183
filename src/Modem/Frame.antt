-- ===== src/Modem/Frame.antt =====
-- `EncodeFrame` and `DecodeFrame` of internal/modem/protocol.go.
pub mod Codec
use ghost_cache.Common.{
  ℕ, ◌+◌, ◌-◌, ◌<◌, ◌≤◌, ◌^◌, Bool, true, false, not, ◌||◌, List, [], ◌∷◌, ◌++◌, ltb, ◌==◌, length,
  get_or, slice, take, put_le, get_le, IsByte, IsBytes, Result, ok, err, malformed, crc_mismatch,
  bad_version, too_long, ◌>>=◌, ◌>>◌, fail_if,
}
use ghost_cache.Modem.Cobs.{cobs_encode, cobs_decode}
use ghost_cache.Modem.Crc.{crc32}

abbrev pub protocol_version : ℕ
protocol_version = 1

abbrev pub max_frame_payload : ℕ
max_frame_payload = 512

-- A message type is its byte.
pub record Frame : Type 0 where
  pub type : ℕ
  pub sequence : ℕ
  pub payload : List ℕ

-- `raw[:len(raw)-4]`: magic, version, type, sequence number, payload length and payload.
unfoldable pub frame_head : Frame → List ℕ
frame_head f =
    b'G'
    ∷ b'C'
    ∷ protocol_version
    ∷ f.type
    ∷ (put_le 2 f.sequence ++ (put_le 2 (length f.payload) ++ f.payload))

unfoldable pub raw_frame : Frame → List ℕ
unfolding frame_head
raw_frame f = frame_head f ++ put_le 4 (crc32 (frame_head f))

unfoldable pub encode_frame : Frame → Result (List ℕ)
unfolding raw_frame
encode_frame f = do
  fail_if (ltb max_frame_payload (length f.payload)) (too_long (length f.payload))
  ok (cobs_encode (raw_frame f) ++ 0 ∷ [])

-- What `DecodeFrame` does behind `cobsDecode`.
unfoldable pub decode_raw : List ℕ → Result Frame
decode_raw raw = do
  fail_if (ltb (length raw) 12 || not (get_or raw 0 0 == b'G') || not (get_or raw 1 0 == b'C'))
      malformed
  fail_if (not (get_or raw 2 0 == protocol_version)) (bad_version (get_or raw 2 0))
  let payload_len = get_le (slice 6 8 raw)
  fail_if (ltb max_frame_payload payload_len || not (length raw == 8 + payload_len + 4)) malformed
  let want_crc = get_le (slice (length raw - 4) (length raw) raw)
  fail_if (not (crc32 (take (length raw - 4) raw) == want_crc)) crc_mismatch
  ok (record {
    type = get_or raw 3 0;
    sequence = get_le (slice 4 6 raw);
    payload = slice 8 (8 + payload_len) raw;
  })

unfoldable pub decode_frame : List ℕ → Result Frame
unfolding decode_raw
decode_frame encoded = do raw ← cobs_decode encoded; decode_raw raw

-- The values that the fields of a `Frame` can hold, and the payload that is allowed.
pub record IsFrame (f : Frame) : Type 0 where
  pub type_byte : IsByte f.type
  pub sequence_word : f.sequence < 2 ^ 16
  pub payload_bytes : IsBytes f.payload
  pub payload_fits : length f.payload ≤ max_frame_payload
