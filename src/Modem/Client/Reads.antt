-- ===== src/Modem/Client/Reads.antt =====
-- `readAvailable` of internal/modem/client.go.
use ghost_cache.Common.{
  ℕ, ◌-◌, ◌≤◌, ◌<◌, ◌≡◌, ◌≢◌, inl, inr, refl, sym, ◌∙◌, Bool, true, false, List, ◌++◌, append-nil,
  some, arith, leb, Bool-cases, Error, ok, err, [], io_error, modem_timeout,
}
use ghost_cache.Modem.Frame.{Frame}
use ghost_cache.Modem.Client.{
  decode_bytes, Read, got, end_of_file, read_error, blocks, Outcome, returned, waiting, Host,
  Client, with_world, after_read, after_setting, read_until, read_available,
}
use ghost_cache.Modem.Client.Laws.{
  HostLaws, Moved, Moved-world, Lost, Moved-Lost, IsSilent, bytes_of,
}

abbrev pub keep_frames : {W : Type 0} → Client W → List Frame → Client W
keep_frames c frames = record c { pending = c.pending ++ frames }

module _ {W : Type 0} {h : Host W} (laws : HostLaws h) where
  -- From one world to a later one, over the bytes that arrive.
  pub record Passed (before after : W) (bytes : List ℕ) : Type 0 where
    pub later : laws.time before ≤ laws.time after
    pub silent : laws.sent after ≡ laws.sent before
    pub arrive : laws.arrived after ≡ laws.arrived before ++ bytes

  -- A read that succeeds takes time, and its frames can be kept; one that fails loses at most the bytes
  -- that came with the error. Neither writes, and one of them happens.
  pub record HasRead (c : Client W) (r : Client W × Outcome (List Frame)) : Type 0 where
    pub silent : IsSilent laws c r.0
    pub same_pending : r.0.pending ≡ c.pending
    pub succeed :
        (frames : List Frame)
        → r.1 ≡ returned (ok frames)
        → Moved laws c (keep_frames r.0 frames) × (laws.time c.world < laws.time r.0.world)
    pub fail : (e : Error) → r.1 ≡ returned (err e) → Lost laws e c r.0
    pub finish : r.1 ≢ waiting

  has_failed :
      (c : Client W) (w : W) (e : Error)
      → Passed c.world w []
      → HasRead c (with_world c w, returned (err e))
  has_failed c w e p = record {
    silent = p.silent;
    same_pending = refl;
    succeed = λ frames done. cc done;
    fail = λ e' same.
        Moved-Lost laws e'
          (Moved-world laws c w (p.arrive ∙ append-nil (laws.arrived c.world)) p.later);
    finish = λ stuck. cc stuck;
  }

  has_succeeded :
      (c : Client W) (w : W) (bytes : List ℕ)
      → Passed c.world w bytes
      → laws.time c.world < laws.time w
      → HasRead c (decode_bytes c w bytes)
  has_succeeded c w bytes p strict = record {
    silent = p.silent;
    same_pending = refl;
    succeed = λ frames done. (
      record {
        bytes = bytes;
        arrive = p.arrive;
        decode = refl;
        keep = cc done;
        later = p.later;
        same_seq = refl;
      },
      strict,
    );
    fail = λ e failed. cc failed;
    finish = λ stuck. cc stuck;
  }

  has_lost :
      (c : Client W) (w : W) (bytes : List ℕ)
      → Passed c.world w bytes
      → HasRead c (with_world c w, returned (err io_error))
  has_lost c w bytes p = record {
    silent = p.silent;
    same_pending = refl;
    succeed = λ frames done. cc done;
    fail = λ e same. record {
      all = with_world c c.world;
      lost = bytes;
      reason = inr (cc same);
      moved = Moved-world laws c c.world refl (omega arith);
      arrive = p.arrive;
      decode = refl;
      keep = refl;
    };
    finish = λ stuck. cc stuck;
  }

  after_read-HasRead :
      (c : Client W) (r : W × Read)
      → Passed c.world r.0 (bytes_of r.1)
      → laws.time c.world < laws.time r.0
      → r.1 ≢ blocks
      → HasRead c (after_read c r)
  after_read-HasRead c (w, got bytes) p strict ends = has_succeeded c w bytes p strict
  after_read-HasRead c (w, end_of_file bytes) p strict ends = has_succeeded c w bytes p strict
  after_read-HasRead c (w, read_error bytes) p strict ends = has_lost c w bytes p
  after_read-HasRead c (w, blocks) p strict ends = absurd (ends refl)

  after_setting-HasRead :
      (c : Client W) (r : W × Bool)
      → (r.1 ≡ true → (h.read r.0).1 ≢ blocks)
      → Passed c.world r.0 []
      → HasRead c (after_setting h c r)
  after_setting-HasRead c (w, false) ends p = has_failed c w io_error p
  after_setting-HasRead c (w, true) ends p =
      let strict : laws.time c.world < laws.time (h.read w).0 =
        omega (arith, p.later, laws.read_time w) in
      after_read-HasRead c (h.read w)
        (record {
          later = omega (arith, strict);
          silent = laws.read_sent w ∙ p.silent;
          arrive = laws.read_arrived w ∙ rw (p.arrive, append-nil) refl;
        })
        strict (ends refl)

  set_and_read :
      (c : Client W) (limit : ℕ) (w : W)
      → Passed c.world w []
      → HasRead c (after_setting h c (h.set_read_timeout (some limit) w))
  set_and_read c limit w p =
      after_setting-HasRead c (h.set_read_timeout (some limit) w) (laws.read_returns limit w)
        (record {
          later = omega (arith, p.later, laws.setting_time (some limit) w);
          silent = laws.setting_sent (some limit) w ∙ p.silent;
          arrive = laws.setting_arrived (some limit) w ∙ p.arrive;
        })

  read_until-HasRead :
      (c : Client W) (deadline : ℕ) (r : W × ℕ)
      → Passed c.world r.0 []
      → HasRead c (read_until h c deadline r)
  read_until-HasRead c deadline (w, t) p = elim (Bool-cases (leb deadline t)) [
    | inl late ↦ rw late (has_failed c w modem_timeout p)
    | inr early ↦ rw early (set_and_read c (deadline - t) w p)
  ]

  pub now-Passed : (w : W) → Passed w (h.now w).0 []
  now-Passed w = record {
    later = omega (arith, laws.now_value w, laws.now_time w);
    silent = laws.now_sent w;
    arrive = laws.now_arrived w ∙ sym (append-nil (laws.arrived w));
  }

  pub read_available-HasRead :
      (deadline : ℕ) (c : Client W) → HasRead c (read_available h (some deadline) c)
  unfolding read_available
  read_available-HasRead deadline c =
      read_until-HasRead c deadline (h.now c.world) (now-Passed c.world)
