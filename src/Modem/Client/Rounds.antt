-- ===== src/Modem/Client/Rounds.antt =====
-- One turn of the loop of `requestWithRetry` of internal/modem/client.go.
use ghost_cache.Common.{
  ℕ, ◌≤◌, ◌<◌, ◌≡◌, ◌⊎◌, inl, inr, refl, sym, ◌∙◌, min, Bool, List, [], ◌∷◌, ◌++◌, Option, none,
  some, arith, ltb, Bool-cases, Error, Result, ok, err, modem_timeout,
}
use ghost_cache.Modem.Frame.{Frame, encode_frame}
use ghost_cache.Modem.Client.{Outcome, returned, waiting, Host, Client, with_world, write_all}
use ghost_cache.Modem.Client.Laws.{
  HostLaws, Lost, Moved-Lost, Lost-trans, Moved, Moved-world, Moved-trans, Moved-step, Moved-now,
  now_later, IsSilent,
}
use ghost_cache.Modem.Client.Sends.{Wrote, write_all-Wrote}
use ghost_cache.Modem.Client.Reads.{keep_frames, HasRead, read_available-HasRead}
use ghost_cache.Modem.Client.Request.{
  Exchange, Again, answers, keep_before, take_answer, after_retry, retransmit, retry_due,
  search_arrived, take_arrived, search_pending, before_deadline,
}

keep_before-none : (f : Frame) (o : Option (Frame × List Frame)) → keep_before f o ≡ none → o ≡ none
keep_before-none f none absent = refl
keep_before-none f (some found) absent = cc absent

take_answer-append :
    (seq : ℕ) (accept : Frame → Bool) (xs ys rest : List Frame) (f : Frame)
    → take_answer seq accept xs ≡ none
    → take_answer seq accept ys ≡ some (f, rest)
    → take_answer seq accept (xs ++ ys) ≡ some (f, xs ++ rest)
unfolding take_answer
take_answer-append seq accept [] ys rest f absent found = found
take_answer-append seq accept (x ∷ xs) ys rest f absent found =
    elim (Bool-cases (answers seq accept x)) [
      | inl here ↦
          let found_here : take_answer seq accept (x ∷ xs) ≡ some (x, xs) = rw here refl in
          cc (sym found_here ∙ absent)
      | inr elsewhere ↦
          let there : take_answer seq accept (x ∷ xs) ≡ keep_before x (take_answer seq accept xs) =
            rw elsewhere refl in
          let later : take_answer seq accept xs ≡ none =
            keep_before-none x _ (sym there ∙ absent) in
          rw (elsewhere, take_answer-append seq accept xs ys rest f later found) refl
    ]

module _ {W : Type 0} {h : Host W} (laws : HostLaws h) (x : Exchange) where
  -- The answer is taken out of the frames that wait and that have arrived; the others stay, in order.
  pub record Answer (before after : Client W) (f : Frame) : Type 0 where
    pub all : Client W
    pub rest : List Frame
    pub moved : Moved laws before all
    pub taken : take_answer x.frame.sequence x.accept all.pending ≡ some (f, rest)
    pub others : after ≡ record all { pending = rest }

  -- What one turn of the loop comes to, when a retry is due at `next`.
  pub data Round (again : Again W) (next : ℕ) (c : Client W) (r : Client W × Outcome Frame)
      : Type 0 where
    answered :
        (after : Client W) (f : Frame)
        → r ≡ (after, returned (ok f))
        → Answer c after f
        → IsSilent laws c after
        → Round again next c r
    failed :
        (after : Client W) (e : Error)
        → r ≡ (after, returned (err e))
        → Lost laws e c after
        → (next < x.deadline) ⊎ IsSilent laws c after
        → Round again next c r
    goes_on :
        (later : ℕ) (after : Client W)
        → r ≡ again later after
        → Moved laws c after
        → laws.time c.world < laws.time after.world
        → (next < x.deadline) ⊎ ((later ≡ next) × IsSilent laws c after)
        → Round again next c r

  module _ (again : Again W) (next : ℕ) (b : Client W) where
    after_retry-Round :
        (c : Client W) (wire : List ℕ) (r : W × Result (Unit {0}))
        → Moved laws b c
        → laws.time b.world < laws.time c.world
        → next < x.deadline
        → Wrote laws wire c.world r
        → Round again next b (after_retry h x again c r)
    after_retry-Round c wire (w, err e) m strict due v =
        failed (with_world c w) e refl (Moved-Lost laws e (Moved-step laws w m v.same v.later))
          (inl due)
    after_retry-Round c wire (w, ok done) m strict due v =
        goes_on _ _ refl (Moved-now laws (Moved-step laws w m v.same v.later))
          (omega (arith, v.later, now_later laws w)) (inl due)

    retransmit-Round :
        (c : Client W) (e : Result (List ℕ))
        → Moved laws b c
        → laws.time b.world < laws.time c.world
        → next < x.deadline
        → Round again next b (retransmit h x again c e)
    retransmit-Round c (err e) m strict due = failed c e refl (Moved-Lost laws e m) (inl due)
    retransmit-Round c (ok wire) m strict due =
        after_retry-Round c wire (write_all h wire c.world) m strict due
          (write_all-Wrote laws wire c.world)

    retry_due-Round :
        (c : Client W)
        → Moved laws b c
        → laws.time b.world < laws.time c.world
        → IsSilent laws b c
        → Round again next b (retry_due h x again next c (h.now c.world))
    retry_due-Round c m strict silent =
        let w = (h.now c.world).0 in
        let v = (h.now w).0 in
        let once : Moved laws b (with_world c w) = Moved-now laws m in
        let twice : Moved laws b (with_world c v) = Moved-now laws once in
        let order : (h.now c.world).1 ≤ (h.now w).1 =
          omega (arith, laws.now_time c.world, laws.now_value w) in
        let quiet : laws.sent w ≡ laws.sent b.world = laws.now_sent c.world ∙ silent in
        let first : laws.time b.world < laws.time w =
          omega (arith, strict, now_later laws c.world) in
        let second : laws.time b.world < laws.time v = omega (arith, first, now_later laws w) in
        elim (Bool-cases (ltb (h.now c.world).1 next)) [
          | inl early ↦ rw early (goes_on next (with_world c w) refl once first (inr (refl, quiet)))
          | inr due ↦ elim (Bool-cases (ltb (h.now w).1 x.deadline)) [
            | inl more ↦
                rw (due, more)
                  (retransmit-Round (with_world c v) (encode_frame x.frame) twice second
                    (ground (arith, order, due, more)))
            | inr over ↦
                rw (due, over)
                  (goes_on next (with_world c v) refl twice second
                    (inr (refl, laws.now_sent w ∙ quiet)))
          ]
        ]

    search_arrived-Round :
        (c : Client W) (frames : List Frame) (o : Option (Frame × List Frame))
        → o ≡ take_answer x.frame.sequence x.accept frames
        → take_answer x.frame.sequence x.accept c.pending ≡ none
        → Moved laws b (keep_frames c frames)
        → laws.time b.world < laws.time c.world
        → IsSilent laws b c
        → Round again next b (search_arrived h x again next c frames o)
    search_arrived-Round c frames none same absent m strict silent =
        retry_due-Round (keep_frames c frames) m strict silent
    search_arrived-Round c frames (some (f, rest)) same absent m strict silent =
        answered _ f refl
          (record {
            all = keep_frames c frames;
            rest = c.pending ++ rest;
            moved = m;
            taken =
                take_answer-append x.frame.sequence x.accept c.pending frames rest f absent
                  (sym same);
            others = refl;
          })
          silent

    take_arrived-Round :
        (c : Client W) (r : Client W × Outcome (List Frame))
        → take_answer x.frame.sequence x.accept c.pending ≡ none
        → Moved laws b c
        → IsSilent laws b c
        → HasRead laws c r
        → Round again next b (take_arrived h x again next r)
    take_arrived-Round c (d, waiting) absent m silent v = absurd (v.finish refl)
    take_arrived-Round c (d, returned (err e)) absent m silent v =
        failed d e refl (Lost-trans laws m (v.fail e refl)) (inr (v.silent ∙ silent))
    take_arrived-Round c (d, returned (ok frames)) absent m silent v =
        let (kept, strict) = v.succeed frames refl in
        search_arrived-Round d frames _ refl (rw v.same_pending absent) (Moved-trans laws m kept)
          (omega (arith, strict, m.later)) (v.silent ∙ silent)

    search_pending-Round :
        (c : Client W) (o : Option (Frame × List Frame))
        → o ≡ take_answer x.frame.sequence x.accept c.pending
        → Moved laws b c
        → IsSilent laws b c
        → Round again next b (search_pending h x again next c o)
    search_pending-Round c none same m silent =
        take_arrived-Round c _ (sym same) m silent
          (read_available-HasRead laws (min next x.deadline) c)
    search_pending-Round c (some (f, rest)) same m silent =
        answered _ f refl
          (record { all = c; rest = rest; moved = m; taken = sym same; others = refl }) silent

    -- The clock is looked at, and then the frames that wait.
    pub before_deadline-Round :
        Round again next b (before_deadline h x again next b (h.now b.world))
    before_deadline-Round =
        let c = with_world b (h.now b.world).0 in
        let m : Moved laws b c =
          Moved-world laws b _ (laws.now_arrived b.world) (now_later laws b.world) in
        let quiet : IsSilent laws b c = laws.now_sent b.world in
        elim (Bool-cases (ltb (h.now b.world).1 x.deadline)) [
          | inl early ↦ rw early (search_pending-Round c _ refl m quiet)
          | inr late ↦
              rw late (failed c modem_timeout refl (Moved-Lost laws modem_timeout m) (inr quiet))
        ]
