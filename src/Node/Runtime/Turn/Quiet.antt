-- ===== src/Node/Runtime/Turn/Quiet.antt =====
-- When a tick may speak, in `onTick` of internal/node/runtime.go.
use ghost_cache.Common.{
  ℕ, ◌+◌, ◌*◌, ◌≤◌, ◌≡◌, ◌⊎◌, refl, ◌∙◌, inl, inr, Bool, true, false, not, ◌&&◌, Bool-cases, List,
  [], ◌∷◌, Option, none, some, ltb, ◌==◌, length,
}
use ghost_cache.Node.Controller.{Controller, millisecond, prune, quiet_time, can_initiate}
use ghost_cache.Node.Controller.Turns.{can_initiate_sound}
use ghost_cache.Node.Runtime.{Acquisition, ReconcileJob, Runtime, Env, max_reconcile_jobs}
use ghost_cache.Node.Runtime.Radio.{observe_failure, defer_failed, fail}
use ghost_cache.Node.Runtime.Table.{update}
use ghost_cache.Node.Runtime.Turn.{
  expire, expire_all, requeue, expire_job, keep_time, take_turn, on_tick,
}
use ghost_cache.Node.Runtime.Turn.Waiting.{log_stats_keeps}

-- The deferral is over, and the radio has been quiet for long enough, or has never been heard.
abbrev pub IsQuiet : Env → ℕ → Controller → Type 0
IsQuiet env now c =
    (c.defer_until ≤ now)
    × ((c.last_activity ≡ 0)
        ⊎ ((c.last_activity + quiet_time (env.pressure (prune now c).events now) ≤ now)
            × (c.last_activity + 150 * millisecond ≤ now)))

module _ (env : Env) (now : ℕ) where
  -- Giving up what was not answered sends nothing.
  expire_sends : (a : Acquisition) (r : Runtime) → (expire env now a r).sends ≡ r.sends
  unfolding expire fail defer_failed update observe_failure
  expire_sends a r = elim (Bool-cases (not (a.waiting == 0) && ltb a.deadline now)) [
    | inl late ↦ rw late refl
    | inr early ↦ rw early refl
  ]

  expire_all_sends :
      (table : List Acquisition) (r : Runtime) → (expire_all env now table r).sends ≡ r.sends
  unfolding expire_all
  expire_all_sends [] r = refl
  expire_all_sends (a ∷ rest) r = expire_all_sends rest (expire env now a r) ∙ expire_sends a r

  requeue_sends : (job : ReconcileJob) (r : Runtime) → (requeue job r).sends ≡ r.sends
  unfolding requeue
  requeue_sends job r = elim (Bool-cases (ltb (length r.reconcile_queue) max_reconcile_jobs)) [
    | inl room ↦ rw room refl
    | inr full ↦ rw full refl
  ]

  expire_job_sends :
      (job : Option ReconcileJob) (r : Runtime) → (expire_job env now job r).sends ≡ r.sends
  unfolding expire_job observe_failure
  expire_job_sends none r = refl
  expire_job_sends (some job) r = elim (Bool-cases (ltb job.deadline now)) [
    | inl late ↦ rw late (requeue_sends _ _)
    | inr early ↦ rw early refl
  ]

  keep_time_sends : (r : Runtime) → (keep_time env now r).sends ≡ r.sends
  unfolding keep_time
  keep_time_sends r =
      let expired = expire_all env now r.acquisitions r in
      (log_stats_keeps env now (expire_job env now expired.reconcile_active expired)).0
      ∙ expire_job_sends expired.reconcile_active expired
      ∙ expire_all_sends r.acquisitions r

  take_turn_speaks :
      (allowed : Bool × Controller) (r : Runtime)
      → (allowed.0 ≡ true → IsQuiet env now r.controller)
      → ((take_turn env now allowed r).sends ≡ r.sends) ⊎ IsQuiet env now r.controller
  unfolding take_turn
  take_turn_speaks (false, controller) r h = inl refl
  take_turn_speaks (true, controller) r h = inr (h refl)

  -- A tick tries to send something only when, once the requests that were not answered in time have
  -- been given up, the deferral is over, and the radio has been quiet for the time that the pressure
  -- asks for, which is 150 ms at least, or no activity has been noted yet.
  pub on_tick_speaks :
      (r : Runtime)
      → ((on_tick env now r).sends ≡ r.sends) ⊎ IsQuiet env now (keep_time env now r).controller
  unfolding on_tick
  on_tick_speaks r =
      let kept = keep_time env now r in
      elim (take_turn_speaks (can_initiate env.pressure now kept.controller) kept
        (can_initiate_sound env.pressure now kept.controller)) [
          | inl silent ↦ inl (silent ∙ keep_time_sends r)
          | inr quiet ↦ inr quiet
        ]
