-- ===== src/Modem/Client/Answers.antt =====
-- What `requestWithRetry` of internal/modem/client.go does with the frames that arrive.
use ghost_cache.Common.{
  refused, ◌⊎◌, Error, io_error, append_assoc, ℕ, zero, suc, ◌+◌, ◌%◌, ◌^◌, ◌≡◌, inl, inr, refl,
  sym, ap, subst, ◌∙◌, Bool, true, false, ◌||◌, List, [], ◌∷◌, ◌++◌, append-nil, All, Option, none,
  some, arith, ◌==◌, Bool-cases, Result, ok, err,
}
use ghost_cache.Modem.Frame.{Frame}
use ghost_cache.Modem.Decoder.{push, push_bytes}
use ghost_cache.Modem.Client.{Outcome, returned, waiting, Host, Client, with_world, count_up}
use ghost_cache.Modem.Client.Laws.{
  HostLaws, Lost, Moved-Lost, Lost-trans, Moved, Moved-world, Moved-trans, Moved-now,
}
use ghost_cache.Modem.Client.Sends.{send_lem}
use ghost_cache.Modem.Client.Request.{
  Exchange, Again, answers, keep_before, take_answer, request_loop, reset_timeout, exchange,
  request_with_retry,
}
use ghost_cache.Modem.Client.Rounds.{
  Answer, Round, answered, failed, goes_on, before_deadline-Round,
}

-- A frame among others, the first of them that answers.
pub record IsFirst (seq : ℕ) (accept : Frame → Bool) (all : List Frame) (f : Frame)
    (others : List Frame) : Type 0 where
  pub before : List Frame
  pub behind : List Frame
  pub position : all ≡ before ++ f ∷ behind
  pub removed : others ≡ before ++ behind
  pub answering : answers seq accept f ≡ true
  pub earlier : All (λ g. answers seq accept g ≡ false) before

keep_before_found :
    (seq : ℕ) (accept : Frame → Bool) (g : Frame) (frames : List Frame)
    (o : Option (Frame × List Frame)) (f : Frame) (rest : List Frame)
    → answers seq accept g ≡ false
    → ((others : List Frame) → o ≡ some (f, others) → IsFirst seq accept frames f others)
    → keep_before g o ≡ some (f, rest)
    → IsFirst seq accept (g ∷ frames) f rest
keep_before_found seq accept g frames none f rest passed ih found = cc found
keep_before_found seq accept g frames (some (f', others)) f rest passed ih found =
    let v = ih others (cc found) in
    record {
      before = g ∷ v.before;
      behind = v.behind;
      position = ap (λ (gs : List Frame). g ∷ gs) v.position;
      removed =
          let same : rest ≡ g ∷ others = cc found in
          same ∙ ap (λ (gs : List Frame). g ∷ gs) v.removed;
      answering = v.answering;
      earlier = (passed, v.earlier);
    }

take_answer-IsFirst :
    (seq : ℕ) (accept : Frame → Bool) (frames rest : List Frame) (f : Frame)
    → take_answer seq accept frames ≡ some (f, rest)
    → IsFirst seq accept frames f rest
unfolding take_answer
take_answer-IsFirst seq accept [] rest f found = cc found
take_answer-IsFirst seq accept (g ∷ frames) rest f found =
    elim (Bool-cases (answers seq accept g)) [
      | inl here ↦
          let first : take_answer seq accept (g ∷ frames) ≡ some (g, frames) = rw here refl in
          let same : f ≡ g = cc (sym first ∙ found) in
          record {
            before = [];
            behind = frames;
            position = rw same refl;
            removed = cc (sym first ∙ found);
            answering = rw same here;
            earlier = tt;
          }
      | inr elsewhere ↦
          let there : take_answer seq accept (g ∷ frames)
              ≡ keep_before g (take_answer seq accept frames) =
            rw elsewhere refl in
          keep_before_found seq accept g frames _ f rest elsewhere
            (λ others. take_answer-IsFirst seq accept frames others f) (sym there ∙ found)
    ]

module _ {W : Type 0} {h : Host W} (laws : HostLaws h) where
  -- The bytes that have arrived have gone through the decoder, and their frames wait behind those
  -- that waited.
  pub record IsKept (before after : Client W) : Type 0 where
    pub bytes : List ℕ
    pub arrive : laws.arrived after.world ≡ laws.arrived before.world ++ bytes
    pub decode : after.decoder ≡ (push before.decoder bytes).decoder
    pub keep : after.pending ≡ before.pending ++ (push before.decoder bytes).frames

  -- The same, but for the first frame that answers, which is taken out.
  pub record IsAnswered (seq : ℕ) (accept : Frame → Bool) (before after : Client W) (f : Frame)
      : Type 0 where
    pub bytes : List ℕ
    pub arrive : laws.arrived after.world ≡ laws.arrived before.world ++ bytes
    pub decode : after.decoder ≡ (push before.decoder bytes).decoder
    pub first :
        IsFirst seq accept (before.pending ++ (push before.decoder bytes).frames) f after.pending

  kept :
      (c : Client W) {after : Client W} (w : W)
      → Moved laws (count_up c) after
      → laws.arrived w ≡ laws.arrived after.world
      → IsKept c (with_world after w)
  kept c w m same = record {
    bytes = m.bytes;
    arrive = same ∙ m.arrive;
    decode = m.decode;
    keep = m.keep;
  }

  -- The same for a call that fails: what a read has given with an error is lost.
  pub record IsFailed (e : Error) (before after : Client W) : Type 0 where
    pub bytes : List ℕ
    pub lost : List ℕ
    pub reason : (lost ≡ []) ⊎ (e ≡ io_error)
    pub arrive : laws.arrived after.world ≡ laws.arrived before.world ++ (bytes ++ lost)
    pub decode : after.decoder ≡ (push before.decoder bytes).decoder
    pub keep : after.pending ≡ before.pending ++ (push before.decoder bytes).frames

  failed_lem :
      (c : Client W) {e : Error} {after : Client W} (w : W)
      → Lost laws e (count_up c) after
      → laws.arrived w ≡ laws.arrived after.world
      → IsFailed e c (with_world after w)
  failed_lem c w l same = record {
    bytes = l.moved.bytes;
    lost = l.lost;
    reason = l.reason;
    arrive = same ∙ l.arrive ∙ rw (l.moved.arrive, append_assoc) refl;
    decode = l.decode ∙ l.moved.decode;
    keep = l.keep ∙ l.moved.keep;
  }

  untouched : (e : Error) (c : Client W) → IsFailed e c c
  untouched e c = record {
    bytes = [];
    lost = [];
    reason = inl refl;
    arrive = sym (append-nil (laws.arrived c.world));
    decode = unfold push push_bytes in refl;
    keep = unfold push push_bytes in (sym (append-nil c.pending));
  }

  pub IsConcluded : ℕ → (Frame → Bool) → Client W → Client W × Outcome Frame → Type 0
  IsConcluded seq accept before (after, returned (ok f)) = IsAnswered seq accept before after f
  IsConcluded seq accept before (after, returned (err e)) = IsFailed e before after
  IsConcluded seq accept before (after, waiting) = IsKept before after

  -- The loop's own view, in which the time passes.
  abbrev Settled : Exchange → Client W → Client W × Outcome Frame → Type 0
  Settled x b (after, returned (ok f)) = Answer laws x b after f
  Settled x b (after, returned (err e)) = Lost laws e b after
  Settled x b (after, waiting) = Moved laws b after

  Settled-trans :
      (x : Exchange) (b c : Client W) (r : Client W × Outcome Frame)
      → Moved laws b c
      → Settled x c r
      → Settled x b r
  Settled-trans x b c (after, returned (ok f)) m a = record {
    all = a.all;
    rest = a.rest;
    moved = Moved-trans laws m a.moved;
    taken = a.taken;
    others = a.others;
  }
  Settled-trans x b c (after, returned (err e)) m l = Lost-trans laws m l
  Settled-trans x b c (after, waiting) m n = Moved-trans laws m n

  round-Settled :
      (x : Exchange) (again : Again W) (next : ℕ) (c : Client W) (r : Client W × Outcome Frame)
      → Round laws x again next c r
      → ((later : ℕ) (after : Client W) → Settled x after (again later after))
      → Settled x c r
  round-Settled x again next c r (answered after f same a _) rest = rw same a
  round-Settled x again next c r (failed after e same m _) rest = rw same m
  round-Settled x again next c r (goes_on later after same m _ _) rest =
      rw same (Settled-trans x c after (again later after) m (rest later after))

  stay : (c : Client W) → Moved laws c c
  stay c = Moved-world laws c c.world refl (omega arith)

  request_loop-Settled :
      (k : ℕ) (x : Exchange) (next : ℕ) (c : Client W) → Settled x c (request_loop h k x next c)
  unfolding request_loop
  request_loop-Settled zero x next c = stay c
  request_loop-Settled (suc k) x next c =
      round-Settled x _ next c _ (before_deadline-Round laws x (request_loop h k x) next c)
        (request_loop-Settled k x)

  -- The deferred call leaves the frames as they are.
  reset_timeout-IsConcluded :
      (x : Exchange) (c : Client W) (r : Client W × Outcome Frame)
      → Settled x (count_up c) r
      → IsConcluded x.frame.sequence x.accept c (reset_timeout h r)
  unfolding IsConcluded
  reset_timeout-IsConcluded x c (after, returned (ok f)) a = record {
    bytes = a.moved.bytes;
    arrive = laws.setting_arrived none after.world ∙ rw (a.others, a.moved.arrive) refl;
    decode = rw (a.others, a.moved.decode) refl;
    first =
        rw (← a.moved.keep, a.others)
          (take_answer-IsFirst x.frame.sequence x.accept a.all.pending a.rest f a.taken);
  }
  reset_timeout-IsConcluded x c (after, returned (err e)) l =
      failed_lem c _ l (laws.setting_arrived none after.world)
  reset_timeout-IsConcluded x c (after, waiting) m =
      kept c _ m (laws.setting_arrived none after.world)

  exchange-IsConcluded :
      (type : ℕ) (payload : List ℕ) (limit interval : ℕ) (accept : Frame → Bool) (c : Client W)
      (r : Client W × Result ℕ)
      → Moved laws (count_up c) r.0
      → ((s : ℕ) → r.1 ≡ ok s → s ≡ r.0.seq)
      → IsConcluded (count_up c).seq accept c (exchange h type payload limit interval accept r)
  exchange-IsConcluded type payload limit interval accept c (d, err e) m number =
      unfold IsConcluded in failed_lem c d.world (Moved-Lost laws e m) refl
  exchange-IsConcluded type payload limit interval accept c (d, ok seq) m number =
      subst
        (λ (n : ℕ).
          IsConcluded n accept c (exchange h type payload limit interval accept (d, ok seq)))
        (number seq refl ∙ m.same_seq)
        (reset_timeout-IsConcluded _ c _ (
          Settled-trans _ (count_up c) _ _ (Moved-now laws (Moved-now laws m))
            (request_loop-Settled (suc limit) _ _ _)))

  -- For a port and a clock that keep their laws, a request is answered by the first frame with its
  -- sequence number that is accepted, of those that wait and those in the bytes that arrive; no other
  -- frame is lost, and their order stays. A request that fails loses no frame either, but for the
  -- bytes that a read gives together with an error.
  pub request_answers :
      (type : ℕ) (payload : List ℕ) (limit interval : ℕ) (accept : Frame → Bool) (c : Client W)
      → IsConcluded
          ((c.seq + 1) % 2 ^ 16)
          accept
          c
          (request_with_retry h type payload limit interval accept c)
  unfolding request_with_retry IsConcluded
  request_answers type payload limit interval accept c =
      elim (Bool-cases (limit == 0 || interval == 0)) [
        | inl bad ↦ rw bad (untouched refused c)
        | inr good ↦
            let (moved, out) = send_lem laws type payload c in
            rw good (
              exchange-IsConcluded type payload limit interval accept c _ moved
                (λ s done. (out s done).0))
      ]
