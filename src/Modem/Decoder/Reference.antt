-- ===== src/Modem/Decoder/Reference.antt =====
-- What `StreamDecoder` of internal/modem/decoder.go is to do, record by record.
use ghost_cache.Common.{
  ℕ, ◌+◌, ◌≡◌, refl, Bool, true, false, inl, inr, List, [], ◌∷◌, ◌++◌, arith, ltb, ◌==◌,
  if◌then◌else◌, length, length-append, Bool-cases, err, malformed,
}
use ghost_cache.Modem.Frame.{decode_frame, max_frame_payload}
use ghost_cache.Modem.Decoder.{Pushed, report, end_record, push_byte, push_bytes, push, initial}

-- The bytes between the delimiters, and those behind the last one. The first argument holds those
-- before the list.
abbrev pub cut : List ℕ → List ℕ → List (List ℕ) × List ℕ
cut open_record [] = ([], open_record)
cut open_record (b ∷ bytes) =
    let (records, rest) = cut (if b == 0 then [] else open_record ++ b ∷ []) bytes in
    (if b == 0 then open_record ∷ records else records, rest)

abbrev pub is_long : List ℕ → Bool
is_long bytes = ltb (max_frame_payload + 32) (length bytes)

-- A record by itself: nothing, too long, or a frame or its error.
abbrev pub judge : Pushed → List ℕ → Pushed
judge p bytes =
    if length bytes == 0
    then p
    else if is_long bytes
    then report p (err malformed)
    else report p (decode_frame bytes)

abbrev pub judge_all : Pushed → List (List ℕ) → Pushed
judge_all p [] = p
judge_all p (bytes ∷ records) = judge_all (judge p bytes) records

-- A record that has not ended: it is kept, unless it is too long already.
abbrev pub leave_open : List ℕ → Pushed → Pushed
leave_open bytes p =
    if is_long bytes
    then record (report p (err malformed)) { decoder = record { buffer = []; discard = true } }
    else record p { decoder = record { buffer = bytes; discard = false } }

leave_open_step :
    (u : List ℕ) (p : Pushed) (b : ℕ)
    → (b == 0) ≡ false
    → push_byte (leave_open u p) b ≡ leave_open (u ++ b ∷ []) p
unfolding push_byte report
leave_open_step u p b n = ground (arith, length-append u (b ∷ []))

leave_open_end :
    (u : List ℕ) (p : Pushed) → push_byte (leave_open u p) 0 ≡ leave_open [] (judge p u)
unfolding push_byte end_record report
leave_open_end u p = ground (arith)

push_bytes-leave_open :
    (u bytes : List ℕ) (p : Pushed)
    → let (records, rest) = cut u bytes in
      push_bytes (leave_open u p) bytes ≡ leave_open rest (judge_all p records)
unfolding push_bytes
push_bytes-leave_open u [] p = refl
push_bytes-leave_open u (b ∷ bytes) p = elim (Bool-cases (b == 0)) [
  | inl ends ↦
      let zero_byte : b ≡ 0 = ground arith in
      rw (ends, zero_byte, leave_open_end u p) (push_bytes-leave_open [] bytes (judge p u))
  | inr goes_on ↦
      rw (goes_on, leave_open_step u p b goes_on) (push_bytes-leave_open (u ++ b ∷ []) bytes p)
]

-- The decoder, byte by byte, comes to what the records come to one by one: the bytes are cut at the
-- delimiters, an empty record is ignored, one of more than 544 bytes is an error, and every other one
-- is decoded by itself; of the bytes behind the last delimiter the decoder keeps those that it needs.
pub push-reference :
    (bytes : List ℕ)
    → let (records, rest) = cut [] bytes in
      push initial bytes
      ≡ leave_open rest (judge_all (record { decoder = initial; frames = []; errs = [] }) records)
unfolding push
push-reference bytes =
    push_bytes-leave_open [] bytes (record { decoder = initial; frames = []; errs = [] })
