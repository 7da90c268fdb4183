-- ===== src/Modem/Client/Laws.antt =====
-- What the client of internal/modem/client.go relies on: the documented behaviour of a serial port
-- (go.bug.st/serial, io.Reader, io.Writer) and of the clock.
use ghost_cache.Common.{
  ◌≢◌, ◌⊎◌, inl, Error, io_error, some, true, ℕ, ◌≤◌, ◌<◌, ◌≡◌, refl, sym, ◌∙◌, List, [], ◌++◌,
  append-nil, append_assoc, Option, arith, length, take, ok,
}
use ghost_cache.Modem.Decoder.{push, push_bytes}
use ghost_cache.Modem.Decoder.Resync.{push-append}
use ghost_cache.Modem.Client.{Read, got, end_of_file, read_error, blocks, Host, Client, with_world}

abbrev pub bytes_of : Read → List ℕ
bytes_of (got bytes) = bytes
bytes_of (end_of_file bytes) = bytes
bytes_of (read_error bytes) = bytes
bytes_of blocks = []

-- The time, and the bytes that have been written to the port and read from it, as they are seen from
-- outside. The clock does not go back, and a read takes time: it waits for a byte or for its
-- time-out; with a time-out set, it returns. A successful write says how much it took.
pub record HostLaws {W : Type 0} (h : Host W) : Type 0 where
  pub time : W → ℕ
  pub sent : W → List ℕ
  pub arrived : W → List ℕ
  pub setting_time : (limit : Option ℕ) (w : W) → time w ≤ time (h.set_read_timeout limit w).0
  pub setting_sent : (limit : Option ℕ) (w : W) → sent (h.set_read_timeout limit w).0 ≡ sent w
  pub setting_arrived :
      (limit : Option ℕ) (w : W) → arrived (h.set_read_timeout limit w).0 ≡ arrived w
  pub read_returns :
      (limit : ℕ) (w : W)
      → (h.set_read_timeout (some limit) w).1 ≡ true
      → (h.read (h.set_read_timeout (some limit) w).0).1 ≢ blocks
  pub read_time : (w : W) → time w < time (h.read w).0
  pub read_sent : (w : W) → sent (h.read w).0 ≡ sent w
  pub read_arrived : (w : W) → arrived (h.read w).0 ≡ arrived w ++ bytes_of (h.read w).1
  pub write_time : (bytes : List ℕ) (w : W) → time w ≤ time (h.write bytes w).0
  pub write_arrived : (bytes : List ℕ) (w : W) → arrived (h.write bytes w).0 ≡ arrived w
  pub write_count : (bytes : List ℕ) (w : W) (n : ℕ) → (h.write bytes w).1 ≡ ok n → n ≤ length bytes
  pub write_sent :
      (bytes : List ℕ) (w : W) (n : ℕ)
      → (h.write bytes w).1 ≡ ok n
      → sent (h.write bytes w).0 ≡ sent w ++ take n bytes
  pub now_value : (w : W) → time w ≤ (h.now w).1
  pub now_time : (w : W) → (h.now w).1 ≤ time (h.now w).0
  pub now_sent : (w : W) → sent (h.now w).0 ≡ sent w
  pub now_arrived : (w : W) → arrived (h.now w).0 ≡ arrived w

module _ {W : Type 0} {h : Host W} (laws : HostLaws h) where
  -- From one state to a later one: the bytes that have arrived have gone through the decoder, and
  -- their frames are kept, in order.
  pub record Moved (before after : Client W) : Type 0 where
    pub bytes : List ℕ
    pub arrive : laws.arrived after.world ≡ laws.arrived before.world ++ bytes
    pub decode : after.decoder ≡ (push before.decoder bytes).decoder
    pub keep : after.pending ≡ before.pending ++ (push before.decoder bytes).frames
    pub later : laws.time before.world ≤ laws.time after.world
    pub same_seq : after.seq ≡ before.seq

  -- Nothing has been written.
  abbrev pub IsSilent : Client W → Client W → Type 0
  IsSilent before after = laws.sent after.world ≡ laws.sent before.world

  pub Moved-world :
      (c : Client W) (w : W)
      → laws.arrived w ≡ laws.arrived c.world
      → laws.time c.world ≤ laws.time w
      → Moved c (with_world c w)
  Moved-world c w same later = record {
    bytes = [];
    arrive = same ∙ sym (append-nil (laws.arrived c.world));
    decode = unfold push push_bytes in refl;
    keep = unfold push push_bytes in (sym (append-nil c.pending));
    later = later;
    same_seq = refl;
  }

  pub Moved-trans : {a b c : Client W} → Moved a b → Moved b c → Moved a c
  Moved-trans {a} {b} {c} ab bc =
      let both = push-append a.decoder ab.bytes bc.bytes in
      record {
        bytes = ab.bytes ++ bc.bytes;
        arrive = bc.arrive ∙ rw (ab.arrive, append_assoc) refl;
        decode = bc.decode ∙ rw (ab.decode, both) refl;
        keep = bc.keep ∙ rw (ab.keep, ab.decode, both, append_assoc) refl;
        later = omega (arith, ab.later, bc.later);
        same_seq = bc.same_seq ∙ ab.same_seq;
      }

  pub Moved-step :
      {b c : Client W} (w : W)
      → Moved b c
      → laws.arrived w ≡ laws.arrived c.world
      → laws.time c.world ≤ laws.time w
      → Moved b (with_world c w)
  Moved-step {b} {c} w m same later = Moved-trans m (Moved-world c w same later)

  -- Looking at the clock.
  pub now_later : (w : W) → laws.time w ≤ laws.time (h.now w).0
  now_later w = omega (arith, laws.now_value w, laws.now_time w)

  pub Moved-now : {b c : Client W} → Moved b c → Moved b (with_world c (h.now c.world).0)
  Moved-now {b} {c} m = Moved-step _ m (laws.now_arrived c.world) (now_later c.world)

  -- From one state to a later one, at which a call fails: the bytes that a read has given together
  -- with its error are lost.
  pub record Lost (e : Error) (before after : Client W) : Type 0 where
    pub all : Client W
    pub lost : List ℕ
    pub reason : (lost ≡ []) ⊎ (e ≡ io_error)
    pub moved : Moved before all
    pub arrive : laws.arrived after.world ≡ laws.arrived all.world ++ lost
    pub decode : after.decoder ≡ all.decoder
    pub keep : after.pending ≡ all.pending

  pub Moved-Lost : (e : Error) {before after : Client W} → Moved before after → Lost e before after
  Moved-Lost e {before} {after} m = record {
    all = after;
    lost = [];
    reason = inl refl;
    moved = m;
    arrive = sym (append-nil (laws.arrived after.world));
    decode = refl;
    keep = refl;
  }

  pub Lost-trans : {e : Error} {a b c : Client W} → Moved a b → Lost e b c → Lost e a c
  Lost-trans m l = record {
    all = l.all;
    lost = l.lost;
    reason = l.reason;
    moved = Moved-trans m l.moved;
    arrive = l.arrive;
    decode = l.decode;
    keep = l.keep;
  }
