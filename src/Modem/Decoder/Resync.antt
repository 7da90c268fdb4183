-- ===== src/Modem/Decoder/Resync.antt =====
-- The stream decoder on frames, on noise and on both.
use ghost_cache.Common.{
  ℕ, ◌+◌, ◌≤◌, ◌<◌, ◌≡◌, refl, sym, ap, ◌∙◌, true, false, inl, inr, List, [], ◌∷◌, ◌++◌, append-nil,
  append_assoc, arith, leb, ◌==◌, length, length-append, All, All-append, Bool-cases, Error, Result,
  ok, err, ◌>>=◌, >>=-eq-ok, eq-nil_of_length,
}
use ghost_cache.Modem.Cobs.Shape.{IsNonzero}
use ghost_cache.Modem.Frame.Codec.{decode_frame-encode_frame}
use ghost_cache.Modem.Frame.{Frame, decode_frame, encode_frame, IsFrame, max_frame_payload}
use ghost_cache.Modem.Decoder.{
  StreamDecoder, Pushed, report, end_record, push_byte, push_bytes, push, initial,
}

-- The buffer is bounded, holds no delimiter, and is empty while a record is skipped.
pub record IsDecoder (d : StreamDecoder) : Type 0 where
  pub bounded : length d.buffer ≤ max_frame_payload + 32
  pub nonzero : All IsNonzero d.buffer
  pub skipping : d.discard ≡ true → d.buffer ≡ []

push_byte-IsDecoder : (p : Pushed) (b : ℕ) → IsDecoder p.decoder → IsDecoder (push_byte p b).decoder
unfolding push_byte
push_byte-IsDecoder p b v = ground (
  arith,
  All-append IsNonzero p.decoder.buffer (b ∷ []) v.nonzero,
  length-append p.decoder.buffer (b ∷ []),
)

push_bytes-append :
    (p : Pushed) (xs ys : List ℕ) → push_bytes p (xs ++ ys) ≡ push_bytes (push_bytes p xs) ys
unfolding push_bytes
push_bytes-append p [] ys = refl
push_bytes-append p (x ∷ xs) ys = push_bytes-append (push_byte p x) xs ys

-- What was found before this call comes first.
abbrev pub after : List Frame → List Error → Pushed → Pushed
after fs es p = record p { frames = fs ++ p.frames; errs = es ++ p.errs }

report-after :
    (fs : List Frame) (es : List Error) (p : Pushed) (r : Result Frame)
    → report (after fs es p) r ≡ after fs es (report p r)
unfolding report
report-after fs es p (ok f) = rw (append_assoc fs p.frames (f ∷ []))
report-after fs es p (err e) = rw (append_assoc es p.errs (e ∷ []))

end_record-after :
    (fs : List Frame) (es : List Error) (p : Pushed)
    → end_record (after fs es p) ≡ after fs es (end_record p)
unfolding end_record
end_record-after fs es p = elim (Bool-cases p.decoder.discard) [
  | inl skip ↦ simp skip
  | inr keep ↦ elim (Bool-cases (length p.decoder.buffer == 0)) [
    | inl empty ↦ simp (keep, empty)
    | inr full ↦
        simp (keep, full)
          (ap (λ (q : Pushed). record q { decoder = initial })
            (report-after fs es p (decode_frame p.decoder.buffer)))
  ]
]

push_byte-after :
    (fs : List Frame) (es : List Error) (p : Pushed) (b : ℕ)
    → push_byte (after fs es p) b ≡ after fs es (push_byte p b)
unfolding push_byte
push_byte-after fs es p b = elim (Bool-cases (b == 0)) [
  | inl z ↦ rw z (end_record-after fs es p)
  | inr n ↦ elim (Bool-cases p.decoder.discard) [
    | inl skip ↦ simp (n, skip)
    | inr keep ↦ elim (Bool-cases (leb (max_frame_payload + 32) (length p.decoder.buffer))) [
      | inl full ↦ simp (n, keep, full, append_assoc)
      | inr room ↦ simp (n, keep, room)
    ]
  ]
]

push_bytes-after :
    (fs : List Frame) (es : List Error) (p : Pushed) (bs : List ℕ)
    → push_bytes (after fs es p) bs ≡ after fs es (push_bytes p bs)
unfolding push_bytes
push_bytes-after fs es p [] = refl
push_bytes-after fs es p (b ∷ bs) =
    ap (λ (q : Pushed). push_bytes q bs) (push_byte-after fs es p b)
    ∙ push_bytes-after fs es (push_byte p b) bs

-- How the bytes are cut into calls of `Push` makes no difference: two calls find what one finds.
pub push-append :
    (d : StreamDecoder) (xs ys : List ℕ)
    → push d (xs ++ ys) ≡ after (push d xs).frames (push d xs).errs (push (push d xs).decoder ys)
unfolding push
push-append d xs ys =
    let first = push d xs in
    push_bytes-append _ xs ys
    ∙ sym (
        ap (λ (q : Pushed). push_bytes q ys)
          (rw (append-nil first.frames, append-nil first.errs) refl))
    ∙ push_bytes-after first.frames first.errs
        (record { decoder = first.decoder; frames = []; errs = [] }) ys

-- Bytes of one record that fit into the buffer.
push_bytes_record :
    (p : Pushed) (buf bs : List ℕ)
    → All IsNonzero bs
    → length buf + length bs ≤ max_frame_payload + 32
    → push_bytes (record p { decoder = record { buffer = buf; discard = false } }) bs
      ≡ record p { decoder = record { buffer = buf ++ bs; discard = false } }
unfolding push_bytes
push_bytes_record p buf [] nz h = rw append-nil
push_bytes_record p buf (b ∷ bs) nz h =
    let step : push_byte (record p { decoder = record { buffer = buf; discard = false } }) b
        ≡ record p { decoder = record { buffer = buf ++ b ∷ []; discard = false } } =
      unfold push_byte in ground (arith, nz.0) in
    ap (λ (q : Pushed). push_bytes q bs) step
    ∙ push_bytes_record p (buf ++ b ∷ []) bs nz.1 (omega (arith, length-append buf (b ∷ [])))
    ∙ rw append_assoc

-- The delimiter ends any record: what follows meets a cleared decoder.
push_byte_zero : (p : Pushed) → IsDecoder p.decoder → (push_byte p 0).decoder ≡ initial
unfolding push_byte
push_byte_zero p v = ground (arith, v.bounded, eq-nil_of_length p.decoder.buffer)

push_bytes-IsDecoder :
    (p : Pushed) (bs : List ℕ) → IsDecoder p.decoder → IsDecoder (push_bytes p bs).decoder
unfolding push_bytes
push_bytes-IsDecoder p [] v = v
push_bytes-IsDecoder p (b ∷ bs) v =
    push_bytes-IsDecoder (push_byte p b) bs (push_byte-IsDecoder p b v)

-- `Push` keeps the buffer within 544 bytes, free of delimiters, and empty while it skips a record.
pub push-IsDecoder : (d : StreamDecoder) (bs : List ℕ) → IsDecoder d → IsDecoder (push d bs).decoder
unfolding push
push-IsDecoder d bs v = push_bytes-IsDecoder _ bs v

-- The delimiter behind the record of a frame.
push_byte_full :
    (p : Pushed) (w : List ℕ) (f : Frame)
    → 0 < length w
    → decode_frame w ≡ ok f
    → push_byte (record p { decoder = record { buffer = w; discard = false } }) 0
      ≡ record { decoder = initial; frames = p.frames ++ f ∷ []; errs = p.errs }
unfolding push_byte
push_byte_full p w f pos decoded =
    let full : (length w == 0) ≡ false = ground arith in simp (full, decoded)

-- The wire form of a frame, pushed into a cleared decoder.
push_frame :
    (f : Frame) (wire : List ℕ)
    → IsFrame f
    → encode_frame f ≡ ok wire
    → push initial wire ≡ record { decoder = initial; frames = f ∷ []; errs = [] }
unfolding push push_bytes
push_frame f wire v e =
    let (w, encoded, decoded, nz, pos, fits) = decode_frame-encode_frame f v in
    let same : wire ≡ w ++ 0 ∷ [] = cc (sym encoded ∙ e) in
    let start : Pushed = record { decoder = initial; frames = []; errs = [] } in
    rw same (
      push_bytes-append start w (0 ∷ [])
      ∙ ap (λ (q : Pushed). push_byte q 0) (push_bytes_record start [] w nz (omega arith))
      ∙ push_byte_full start w f pos decoded)

push_delimiter : (d : StreamDecoder) → IsDecoder d → (push d (0 ∷ [])).decoder ≡ initial
unfolding push push_bytes
push_delimiter d v = push_byte_zero (record { decoder = d; frames = []; errs = [] }) v

-- After any noise, in any state, a delimiter and the wire form of a frame give that frame, behind
-- what the noise gave, with no error more; the decoder is then cleared.
pub push_resync :
    (d : StreamDecoder) (noise wire : List ℕ) (f : Frame)
    → IsDecoder d
    → IsFrame f
    → encode_frame f ≡ ok wire
    → let before = push d (noise ++ 0 ∷ []) in
      push d ((noise ++ 0 ∷ []) ++ wire)
      ≡ record { decoder = initial; frames = before.frames ++ f ∷ []; errs = before.errs }
push_resync d noise wire f v w e =
    let before = push d (noise ++ 0 ∷ []) in
    let cleared : before.decoder ≡ initial =
      ap (λ (q : Pushed). q.decoder) (push-append d noise (0 ∷ []))
      ∙ push_delimiter (push d noise).decoder (push-IsDecoder d noise v) in
    push-append d (noise ++ 0 ∷ []) wire
    ∙ ap (λ (q : Pushed). after before.frames before.errs q)
        (ap (λ (c : StreamDecoder). push c wire) cleared ∙ push_frame f wire w e)
    ∙ rw append-nil

-- The wire forms of frames, one behind the other.
abbrev pub encode_frames : List Frame → Result (List ℕ)
encode_frames [] = ok []
encode_frames (f ∷ fs) = do wire ← encode_frame f; rest ← encode_frames fs; ok (wire ++ rest)

-- A stream of encoded frames is read back frame by frame, with no error.
pub push-encode_frames :
    (fs : List Frame) (wire : List ℕ)
    → All IsFrame fs
    → encode_frames fs ≡ ok wire
    → push initial wire ≡ record { decoder = initial; frames = fs; errs = [] }
push-encode_frames [] wire v e = unfold push push_bytes in rw (← e') refl
  where
    e' : [] ≡ wire
    e' = cc e
push-encode_frames (f ∷ fs) wire v e =
    let (first, encoded, more) = >>=-eq-ok (encode_frame f) _ e in
    let (rest, tail, joined) = >>=-eq-ok (encode_frames fs) _ more in
    let same : wire ≡ first ++ rest = cc joined in
    rw same (
      push-append initial first rest
      ∙ ap (λ (q : Pushed). after q.frames q.errs (push q.decoder rest))
          (push_frame f first v.0 encoded)
      ∙ ap (λ (q : Pushed). after (f ∷ []) [] q) (push-encode_frames fs rest v.1 tail))
