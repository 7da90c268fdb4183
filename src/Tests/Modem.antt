-- ===== src/Tests/Modem.antt =====
-- Frames, noise and configurations of internal/modem.
use ghost_cache.Common.{
  ℕ, ◌+◌, ◌/◌, ◌≤◌, ◌<◌, ◌≡◌, refl, arith, false, List, [], ◌∷◌, ◌++◌, length, get_le, All, IsBytes,
  ok, err, malformed, crc_mismatch, bad_version, replicate,
}
use ghost_cache.Modem.Cobs.{cobs_encode, cobs_decode}
use ghost_cache.Modem.Cobs.Reference.{cobs_reference, cobs_encode-reference}
use ghost_cache.Modem.Cobs.RoundTrip.{cobs_decode-cobs_encode}
use ghost_cache.Modem.Cobs.Shape.{IsNonzero, cobs_encode_shape}
use ghost_cache.Modem.Crc.{crc32}
use ghost_cache.Modem.Frame.{
  Frame, raw_frame, encode_frame, decode_frame, IsFrame, max_frame_payload,
}
use ghost_cache.Modem.Frame.Codec.{decode_frame-encode_frame, decode_frame_sound}
use ghost_cache.Modem.Decoder.{StreamDecoder, push, initial}
use ghost_cache.Modem.Decoder.Resync.{
  IsDecoder, encode_frames, push-IsDecoder, push_resync, push-encode_frames,
}
use ghost_cache.Modem.Messages.{RadioConfig, IsRadioConfig}

abbrev hello : Frame
hello = record { type = 3; sequence = 258; payload = 0 ∷ 1 ∷ 0 ∷ 255 ∷ [] }

hello-IsFrame : IsFrame hello
hello-IsFrame = record {
  type_byte = omega arith;
  sequence_word = omega arith;
  payload_bytes = (omega arith, (omega arith, (omega arith, (omega arith, tt))));
  payload_fits = omega arith;
}

-- The frame on the wire, without its delimiter.
abbrev hello_record : List ℕ
hello_record = 8 ∷ 71 ∷ 67 ∷ 1 ∷ 3 ∷ 2 ∷ 1 ∷ 4 ∷ 1 ∷ 2 ∷ 1 ∷ 6 ∷ 255 ∷ 96 ∷ 123 ∷ 200 ∷ 245 ∷ []

cobs_run : cobs_encode (1 ∷ 0 ∷ 2 ∷ 3 ∷ []) ≡ 2 ∷ 1 ∷ 3 ∷ 2 ∷ 3 ∷ []
unfolding cobs_encode
cobs_run = refl

hello_wire : encode_frame hello ≡ ok (hello_record ++ 0 ∷ [])
unfolding encode_frame raw_frame cobs_encode crc32
hello_wire = refl

hello_read : decode_frame hello_record ≡ ok hello
unfolding decode_frame cobs_decode crc32 get_le
hello_read = refl

-- A flipped bit, another version, and no record at all.
refused :
    (decode_frame
        (8 ∷ 71 ∷ 67 ∷ 1 ∷ 3 ∷ 2 ∷ 1 ∷ 4 ∷ 1 ∷ 2 ∷ 3 ∷ 6 ∷ 255 ∷ 96 ∷ 123 ∷ 200 ∷ 245 ∷ [])
      ≡ err crc_mismatch)
    × (decode_frame
          (8 ∷ 71 ∷ 67 ∷ 2 ∷ 3 ∷ 2 ∷ 1 ∷ 4 ∷ 1 ∷ 2 ∷ 1 ∷ 6 ∷ 255 ∷ 96 ∷ 123 ∷ 200 ∷ 245 ∷ [])
        ≡ err (bad_version 2))
    × (decode_frame [] ≡ err malformed)
unfolding decode_frame cobs_decode crc32 get_le
refused = (refl, refl, refl)

cobs_decode-cobs_encode_example : cobs_decode (cobs_encode (1 ∷ 0 ∷ 2 ∷ [])) ≡ ok (1 ∷ 0 ∷ 2 ∷ [])
cobs_decode-cobs_encode_example = cobs_decode-cobs_encode (1 ∷ 0 ∷ 2 ∷ [])

cobs_encode-reference_example : cobs_encode (0 ∷ 0 ∷ 7 ∷ []) ≡ cobs_reference [] (0 ∷ 0 ∷ 7 ∷ [])
cobs_encode-reference_example = cobs_encode-reference (0 ∷ 0 ∷ 7 ∷ [])

three-IsBytes : IsBytes (1 ∷ 0 ∷ 2 ∷ [])
three-IsBytes = (omega arith, (omega arith, (omega arith, tt)))

cobs_encode_shape_example :
    All IsNonzero (cobs_encode (1 ∷ 0 ∷ 2 ∷ []))
    × IsBytes (cobs_encode (1 ∷ 0 ∷ 2 ∷ []))
    × (length (cobs_encode (1 ∷ 0 ∷ 2 ∷ [])) ≤ 3 + 3 / 254 + 1)
cobs_encode_shape_example = cobs_encode_shape (1 ∷ 0 ∷ 2 ∷ []) three-IsBytes

hello_record-IsBytes : IsBytes hello_record
hello_record-IsBytes = (
  omega arith,
  (
    omega arith,
    (
      omega arith,
      (
        omega arith,
        (
          omega arith,
          (
            omega arith,
            (
              omega arith,
              (
                omega arith,
                (
                  omega arith,
                  (
                    omega arith,
                    (
                      omega arith,
                      (
                        omega arith,
                        (
                          omega arith,
                          (omega arith, (omega arith, (omega arith, (omega arith, tt)))),
                        ),
                      ),
                    ),
                  ),
                ),
              ),
            ),
          ),
        ),
      ),
    ),
  ),
)

hello_raw : cobs_decode hello_record ≡ ok (raw_frame hello)
unfolding cobs_decode raw_frame crc32
hello_raw = refl

decode_frame-encode_frame_example :
    (wire : List ℕ) × (encode_frame hello ≡ ok (wire ++ 0 ∷ []))
    × (decode_frame wire ≡ ok hello)
    × All IsNonzero wire
    × (0 < length wire)
    × (length wire ≤ max_frame_payload + 32)
decode_frame-encode_frame_example = decode_frame-encode_frame hello hello-IsFrame

decode_frame_sound_example : IsFrame hello × (cobs_decode hello_record ≡ ok (raw_frame hello))
decode_frame_sound_example = decode_frame_sound hello_record hello hello_record-IsBytes hello_read

abbrev long_frame : Frame
long_frame = record { type = 3; sequence = 0; payload = replicate 513 7 }

-- A decoder in the middle of a record.
abbrev busy : StreamDecoder
busy = record { buffer = 5 ∷ 6 ∷ []; discard = false }

busy-IsDecoder : IsDecoder busy
busy-IsDecoder = record {
  bounded = omega arith;
  nonzero = (omega arith, (omega arith, tt));
  skipping = λ e. cc e;
}

push-IsDecoder_example : IsDecoder (push busy (1 ∷ 0 ∷ 9 ∷ [])).decoder
push-IsDecoder_example = push-IsDecoder busy (1 ∷ 0 ∷ 9 ∷ []) busy-IsDecoder

push_resync_example : push busy (((200 ∷ 4 ∷ []) ++ 0 ∷ []) ++ (hello_record ++ 0 ∷ [])) ≡ record {
  decoder = initial;
  frames = (push busy ((200 ∷ 4 ∷ []) ++ 0 ∷ [])).frames ++ hello ∷ [];
  errs = (push busy ((200 ∷ 4 ∷ []) ++ 0 ∷ [])).errs;
}
push_resync_example =
    push_resync busy (200 ∷ 4 ∷ []) (hello_record ++ 0 ∷ []) hello busy-IsDecoder hello-IsFrame
      hello_wire

two_wires :
    encode_frames (hello ∷ hello ∷ []) ≡ ok ((hello_record ++ 0 ∷ []) ++ (hello_record ++ 0 ∷ []))
unfolding encode_frame raw_frame cobs_encode crc32
two_wires = refl

push-encode_frames_example :
    push initial ((hello_record ++ 0 ∷ []) ++ (hello_record ++ 0 ∷ []))
    ≡ record { decoder = initial; frames = hello ∷ hello ∷ []; errs = [] }
push-encode_frames_example =
    push-encode_frames (hello ∷ hello ∷ []) ((hello_record ++ 0 ∷ []) ++ (hello_record ++ 0 ∷ []))
      (hello-IsFrame, (hello-IsFrame, tt)) two_wires

-- 915 MHz, 125 kHz, spreading factor 7.
abbrev radio : RadioConfig
radio = record {
  frequency_mhz = 0x4464c000;
  bandwidth_khz = 0x42fa0000;
  spreading_factor = 7;
  coding_rate = 5;
  tx_power_dbm = 17;
  preamble_symbols = 8;
  sync_word = 0x12;
}

radio-IsRadioConfig : IsRadioConfig radio
radio-IsRadioConfig = record {
  frequency_word = omega arith;
  bandwidth_word = omega arith;
  spreading_byte = omega arith;
  coding_byte = omega arith;
  power_byte = omega arith;
  preamble_word = omega arith;
  sync_byte = omega arith;
}
