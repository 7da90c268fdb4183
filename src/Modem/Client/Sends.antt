-- ===== src/Modem/Client/Sends.antt =====
-- `Send` and `writeAll` of internal/modem/client.go.
use ghost_cache.Common.{
  ℕ, zero, suc, ◌≤◌, ◌≡◌, inl, inr, refl, sym, ap, ◌∙◌, List, [], ◌∷◌, ◌++◌, append-nil,
  append_assoc, arith, length, take, drop, length-drop, take-append-drop, ◌==◌, false, Bool-cases,
  Result, ok, err,
}
use ghost_cache.Modem.Frame.{Frame, encode_frame}
use ghost_cache.Modem.Client.{
  Host, Client, write_loop, write_all, after_write, count_up, sent_frame, send_encoded, send,
}
use ghost_cache.Modem.Client.Laws.{HostLaws, Moved, Moved-world}

module _ {W : Type 0} {h : Host W} (laws : HostLaws h) where
  -- What a call of `writeAll` does to the port.
  pub record Wrote (bytes : List ℕ) (before : W) (r : W × Result (Unit {0})) : Type 0 where
    pub later : laws.time before ≤ laws.time r.0
    pub same : laws.arrived r.0 ≡ laws.arrived before
    pub complete : r.1 ≡ ok tt → laws.sent r.0 ≡ laws.sent before ++ bytes

  -- The first write, and the writes of the rest.
  after_write-Wrote :
      (again : List ℕ → W → W × Result (Unit {0})) (bytes : List ℕ) (w : W) (r : W × Result ℕ)
      → ((rest : List ℕ) (v : W) → Wrote rest v (again rest v))
      → laws.time w ≤ laws.time r.0
      → laws.arrived r.0 ≡ laws.arrived w
      → ((n : ℕ) → r.1 ≡ ok n → laws.sent r.0 ≡ laws.sent w ++ take n bytes)
      → Wrote bytes w (after_write h again bytes r)
  after_write-Wrote again bytes w (v, err e) ih later same part = record {
    later = later;
    same = same;
    complete = λ done. cc done;
  }
  after_write-Wrote again bytes w (v, ok n) ih later same part = elim (Bool-cases (n == 0)) [
    | inl none_taken ↦
        rw none_taken (record { later = later; same = same; complete = λ done. cc done })
    | inr some_taken ↦
        let rest = ih (drop n bytes) v in
        rw some_taken (record {
          later = omega (arith, rest.later);
          same = rest.same ∙ same;
          complete = λ done.
              rest.complete done ∙ rw (part n refl, append_assoc, take-append-drop n bytes) refl;
        })
  ]

  write_loop-Wrote : (fuel : ℕ) (bytes : List ℕ) (w : W) → Wrote bytes w (write_loop h fuel bytes w)
  unfolding write_loop
  write_loop-Wrote fuel [] w = record {
    later = omega arith;
    same = refl;
    complete = λ done. sym (append-nil (laws.sent w));
  }
  write_loop-Wrote zero (b ∷ bytes) w = record {
    later = omega arith;
    same = refl;
    complete = λ done. cc done;
  }
  write_loop-Wrote (suc fuel) (b ∷ bytes) w =
      after_write-Wrote (write_loop h fuel) (b ∷ bytes) w (h.write (b ∷ bytes) w)
        (write_loop-Wrote fuel) (laws.write_time (b ∷ bytes) w) (laws.write_arrived (b ∷ bytes) w)
        (laws.write_sent (b ∷ bytes) w)

  pub write_all-Wrote : (bytes : List ℕ) (w : W) → Wrote bytes w (write_all h bytes w)
  write_all-Wrote bytes w = write_loop-Wrote (length bytes) bytes w

  after_write_same :
      (f g : List ℕ → W → W × Result (Unit {0})) (bytes : List ℕ) (r : W × Result ℕ)
      → ((n : ℕ) → (n == 0) ≡ false → f (drop n bytes) r.0 ≡ g (drop n bytes) r.0)
      → after_write h f bytes r ≡ after_write h g bytes r
  after_write_same f g bytes (v, err e) same = refl
  after_write_same f g bytes (v, ok n) same = elim (Bool-cases (n == 0)) [
    | inl none_taken ↦ rw none_taken refl
    | inr some_taken ↦ rw some_taken (same n some_taken)
  ]

  -- As many writes as bytes are enough.
  write_loop-fuel :
      (j k : ℕ) (bytes : List ℕ) (w : W)
      → length bytes ≤ j
      → length bytes ≤ k
      → write_loop h j bytes w ≡ write_loop h k bytes w
  unfolding write_loop
  write_loop-fuel j k [] w _ _ = refl
  write_loop-fuel zero k (b ∷ bytes) w few _ = ground arith
  write_loop-fuel (suc j) zero (b ∷ bytes) w _ few = ground arith
  write_loop-fuel (suc j) (suc k) (b ∷ bytes) w s t =
      after_write_same (write_loop h j) (write_loop h k) (b ∷ bytes) (h.write (b ∷ bytes) w)
        (λ n some_taken.
          let shorter : length (drop n (b ∷ bytes)) ≤ length bytes =
            ground (arith, length-drop n (b ∷ bytes)) in
          write_loop-fuel j k (drop n (b ∷ bytes)) _ (omega arith) (omega arith))

  -- A frame has gone out as a whole, once.
  pub record SentOnce (f : Frame) (before after : W) : Type 0 where
    pub wire : List ℕ
    pub encoded : encode_frame f ≡ ok wire
    pub written : laws.sent after ≡ laws.sent before ++ wire

  send_encoded_lem :
      (c : Client W) (e : Result (List ℕ))
      → let r = send_encoded h c e in
        Moved laws c r.0
        × ((s : ℕ)
            → r.1 ≡ ok s
            → (s ≡ c.seq)
              × ((wire : List ℕ) × (e ≡ ok wire)
                  × (laws.sent r.0.world ≡ laws.sent c.world ++ wire)))
  send_encoded_lem c (err e) = (Moved-world laws c c.world refl (omega arith), λ s done. cc done)
  send_encoded_lem c (ok wire) = lem (write_all h wire c.world) (write_all-Wrote wire c.world)
    where
      lem :
          (r : W × Result (Unit {0}))
          → Wrote wire c.world r
          → let sent = sent_frame c r in
            Moved laws c sent.0
            × ((s : ℕ)
                → sent.1 ≡ ok s
                → (s ≡ c.seq)
                  × ((bytes : List ℕ) × (ok wire ≡ ok bytes)
                      × (laws.sent sent.0.world ≡ laws.sent c.world ++ bytes)))
      lem (w, err e) v = (Moved-world laws c w v.same v.later, λ s done. cc done)
      lem (w, ok done) v =
          (Moved-world laws c w v.same v.later, λ s same. (cc same, (wire, refl, v.complete refl)))

  -- Whatever happens to the port, `Send` takes the next sequence number and touches no frame that
  -- waits; when it succeeds, the frame has gone out once.
  pub send_lem :
      (type : ℕ) (payload : List ℕ) (c : Client W)
      → let r = send h type payload c in
        Moved laws (count_up c) r.0
        × ((s : ℕ)
            → r.1 ≡ ok s
            → (s ≡ r.0.seq)
              × SentOnce
                  (record { type = type; sequence = s; payload = payload })
                  c.world
                  r.0.world)
  unfolding send
  send_lem type payload c =
      let f : Frame = record { type = type; sequence = (count_up c).seq; payload = payload } in
      let (moved, sent) = send_encoded_lem (count_up c) (encode_frame f) in
      (
        moved,
        λ s done.
            let (same, out) = sent s done in
            let (wire, encoded, written) = out in
            (
              same ∙ sym moved.same_seq,
              record {
                wire = wire;
                encoded =
                    ap (λ n. encode_frame (record { type = type; sequence = n; payload = payload }))
                      same
                    ∙ encoded;
                written = written;
              },
            ),
      )
