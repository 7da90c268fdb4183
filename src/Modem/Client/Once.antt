-- ===== src/Modem/Client/Once.antt =====
-- `Request` of internal/modem/client.go: what it writes to the port.
use ghost_cache.Common.{
  ℕ, zero, suc, ◌+◌, ◌≤◌, ◌≡◌, ◌⊎◌, inl, inr, refl, sym, ap, ◌∙◌, none, ◌%◌, ◌^◌, Bool, ◌||◌, List,
  arith, ◌==◌, Bool-cases, Result, Result-cases, Error, ok, err,
}
use ghost_cache.Modem.Frame.{Frame, encode_frame}
use ghost_cache.Modem.Client.{Outcome, Host, Client, with_world, send}
use ghost_cache.Modem.Client.Laws.{HostLaws, IsSilent}
use ghost_cache.Modem.Client.Sends.{SentOnce, send_lem}
use ghost_cache.Modem.Client.Request.{
  Exchange, Again, request_loop, exchange, request_with_retry, request,
}
use ghost_cache.Modem.Client.Rounds.{Round, answered, failed, goes_on, before_deadline-Round}

module _ {W : Type 0} {h : Host W} (laws : HostLaws h) where
  round-IsSilent :
      (x : Exchange) (again : Again W) (next : ℕ) (c : Client W) (r : Client W × Outcome Frame)
      → x.deadline ≤ next
      → Round laws x again next c r
      → ((later : ℕ) (after : Client W)
          → x.deadline ≤ later
          → IsSilent laws after (again later after).0)
      → IsSilent laws c r.0
  round-IsSilent x again next c r late (answered after f same _ silent) rest = rw same silent
  round-IsSilent x again next c r late (failed after e same _ (inl due)) rest = ground arith
  round-IsSilent x again next c r late (failed after e same _ (inr silent)) rest = rw same silent
  round-IsSilent x again next c r late (goes_on later after same _ _ (inl due)) rest = ground arith
  round-IsSilent x again next c r late (goes_on later after same _ _ (inr (kept, silent))) rest =
      rw same (rest later after (rw kept late) ∙ silent)

  -- A retry that is due at the deadline or later is never sent.
  request_loop-IsSilent :
      (k : ℕ) (x : Exchange) (next : ℕ) (c : Client W)
      → x.deadline ≤ next
      → IsSilent laws c (request_loop h k x next c).0
  unfolding request_loop
  request_loop-IsSilent zero x next c late = refl
  request_loop-IsSilent (suc k) x next c late =
      round-IsSilent x _ next c _ late (before_deadline-Round laws x (request_loop h k x) next c)
        (request_loop-IsSilent k x)

  exchange-IsSilent :
      (type : ℕ) (payload : List ℕ) (limit : ℕ) (accept : Frame → Bool) (r : Client W × Result ℕ)
      → IsSilent laws r.0 (exchange h type payload limit limit accept r).0
  exchange-IsSilent type payload limit accept (c, err e) = refl
  exchange-IsSilent type payload limit accept (c, ok seq) =
      let v = (h.now (h.now c.world).0).0 in
      laws.setting_sent none _
      ∙ request_loop-IsSilent (suc limit) _ _ (with_world c v)
          (omega (arith, laws.now_time c.world, laws.now_value (h.now c.world).0))
      ∙ laws.now_sent (h.now c.world).0
      ∙ laws.now_sent c.world

  -- For a port and a clock that keep their laws, a request without retries writes nothing, if its
  -- time-out is refused; or what a `Send` that fails has written; or its frame, once and as a whole,
  -- however long the answer takes and whether it comes or not: no packet is sent twice.
  pub request_once :
      (type : ℕ) (payload : List ℕ) (limit : ℕ) (accept : Frame → Bool) (c : Client W)
      → let r = request h type payload limit accept c in
        let s = send h type payload c in
        ((limit ≡ 0) × IsSilent laws c r.0)
        ⊎ (((e : Error) × (s.1 ≡ err e) × IsSilent laws s.0 r.0)
            ⊎ SentOnce laws
                (record { type = type; sequence = (c.seq + 1) % 2 ^ 16; payload = payload })
                c.world
                r.0.world)
  unfolding request request_with_retry
  request_once type payload limit accept c = elim (Bool-cases (limit == 0 || limit == 0)) [
    | inl bad ↦ rw bad (inl (ground arith, refl))
    | inr good ↦
        let s = send h type payload c in
        let silent = exchange-IsSilent type payload limit accept s in
        rw good (
          inr (elim (Result-cases s.1) [
            | inl (seq, sent) ↦
                let (moved, out) = send_lem laws type payload c in
                let (same, once) = out seq sent in
                let number : seq ≡ (c.seq + 1) % 2 ^ 16 = same ∙ moved.same_seq in
                inr (record {
                  wire = once.wire;
                  encoded =
                      ap
                        (λ (n : ℕ).
                          encode_frame (record { type = type; sequence = n; payload = payload }))
                        (sym number)
                      ∙ once.encoded;
                  written = silent ∙ once.written;
                })
            | inr (e, broken) ↦ inl (e, broken, silent)
          ]))
  ]
