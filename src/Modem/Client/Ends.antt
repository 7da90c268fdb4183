-- ===== src/Modem/Client/Ends.antt =====
-- `requestWithRetry` of internal/modem/client.go always returns.
use ghost_cache.Common.{
  ℕ, zero, suc, ◌+◌, ◌≤◌, ◌<◌, ◌≡◌, inl, inr, refl, Bool, false, ◌||◌, List, arith, ltb, ◌==◌,
  Bool-cases, Result, ok, err, refused,
}
use ghost_cache.Modem.Frame.{Frame}
use ghost_cache.Modem.Client.{Outcome, returned, Host, Client, send}
use ghost_cache.Modem.Client.Laws.{HostLaws}
use ghost_cache.Modem.Client.Request.{Exchange, Again, request_loop, exchange, request_with_retry}
use ghost_cache.Modem.Client.Rounds.{Round, answered, failed, goes_on, before_deadline-Round}

abbrev pub IsReturned : Outcome Frame → Type 0
IsReturned o = (r : Result Frame) × (o ≡ returned r)

module _ {W : Type 0} {h : Host W} (laws : HostLaws h) where
  round_ends :
      (x : Exchange) (again : Again W) (next : ℕ) (c : Client W) (r : Client W × Outcome Frame)
      → Round laws x again next c r
      → ((later : ℕ) (after : Client W)
          → laws.time c.world < laws.time after.world
          → IsReturned (again later after).1)
      → IsReturned r.1
  round_ends x again next c r (answered after f same _ _) ends = (ok f, rw same refl)
  round_ends x again next c r (failed after e same _ _) ends = (err e, rw same refl)
  round_ends x again next c r (goes_on later after same _ strict _) ends =
      rw same (ends later after strict)

  -- Every turn takes time, so that as many turns are enough as there is time to the deadline.
  request_loop_ends :
      (k : ℕ) (x : Exchange) (next : ℕ) (c : Client W)
      → x.deadline ≤ laws.time c.world + k
      → IsReturned (request_loop h (suc k) x next c).1
  unfolding request_loop
  request_loop_ends zero x next c soon =
      let over : ltb (h.now c.world).1 x.deadline ≡ false =
        ground (arith, laws.now_value c.world) in
      rw over (_, refl)
  request_loop_ends (suc k) x next c soon =
      round_ends x _ next c _ (before_deadline-Round laws x (request_loop h (suc k) x) next c)
        (λ later after strict. request_loop_ends k x later after (omega (arith, strict)))

  exchange_ends :
      (type : ℕ) (payload : List ℕ) (limit interval : ℕ) (accept : Frame → Bool)
      (r : Client W × Result ℕ)
      → IsReturned (exchange h type payload limit interval accept r).1
  exchange_ends type payload limit interval accept (c, err e) = (err e, refl)
  exchange_ends type payload limit interval accept (c, ok seq) = request_loop_ends limit _ _ _ (
      omega (
        arith,
        laws.now_time c.world,
        laws.now_value (h.now c.world).0,
        laws.now_time (h.now c.world).0,
      ))

  -- For a port and a clock that keep their laws (a read takes time, and returns when a time-out has
  -- been set), a request returns, with an answer or with an error, whatever the port delivers and
  -- however often the frame is repeated.
  pub request_with_retry_ends :
      (type : ℕ) (payload : List ℕ) (limit interval : ℕ) (accept : Frame → Bool) (c : Client W)
      → IsReturned (request_with_retry h type payload limit interval accept c).1
  unfolding request_with_retry
  request_with_retry_ends type payload limit interval accept c =
      elim (Bool-cases (limit == 0 || interval == 0)) [
        | inl bad ↦ rw bad (err refused, refl)
        | inr good ↦
            rw good (exchange_ends type payload limit interval accept (send h type payload c))
      ]
