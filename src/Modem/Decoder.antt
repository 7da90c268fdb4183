-- ===== src/Modem/Decoder.antt =====
-- `StreamDecoder` of internal/modem/decoder.go.
pub mod Reference
pub mod Resync
use ghost_cache.Common.{
  ℕ, ◌+◌, ◌≤◌, Bool, true, false, List, [], ◌∷◌, ◌++◌, ltb, leb, ◌==◌, if◌then◌else◌, length, Error,
  Result, ok, err, malformed,
}
use ghost_cache.Modem.Frame.{Frame, decode_frame, max_frame_payload}

pub record StreamDecoder : Type 0 where
  pub buffer : List ℕ
  pub discard : Bool

-- The zero value.
abbrev pub initial : StreamDecoder
initial = record { buffer = []; discard = false }

-- The decoder with the frames and the errors of the call so far.
pub record Pushed : Type 0 where
  pub decoder : StreamDecoder
  pub frames : List Frame
  pub errs : List Error

unfoldable pub report : Pushed → Result Frame → Pushed
report p (ok frame) = record p { frames = p.frames ++ frame ∷ [] }
report p (err e) = record p { errs = p.errs ++ e ∷ [] }

-- The zero that ends a record: skip the rest of a discarded one, ignore an empty one.
unfoldable pub end_record : Pushed → Pushed
unfolding report
end_record p =
    if p.decoder.discard
    then record p { decoder = initial }
    else if length p.decoder.buffer == 0
    then p
    else record (report p (decode_frame p.decoder.buffer)) { decoder = initial }

unfoldable pub push_byte : Pushed → ℕ → Pushed
unfolding end_record
push_byte p b =
    if b == 0
    then end_record p
    else if p.decoder.discard
    then p
    else if leb (max_frame_payload + 32) (length p.decoder.buffer)
    then record p {
      decoder = record { buffer = []; discard = true };
      errs = p.errs ++ malformed ∷ [];
    }
    else record p { decoder = record p.decoder { buffer = p.decoder.buffer ++ b ∷ [] } }

unfoldable pub push_bytes : Pushed → List ℕ → Pushed
push_bytes p [] = p
push_bytes p (b ∷ bytes) = push_bytes (push_byte p b) bytes

-- `Push`.
unfoldable pub push : StreamDecoder → List ℕ → Pushed
push d bytes = push_bytes (record { decoder = d; frames = []; errs = [] }) bytes
