-- ===== src/Node/Runtime/Turn/Waiting.antt =====
-- A node that waits for an answer is silent.
use ghost_cache.Common.{
  ℕ, ◌≤◌, ◌≡◌, refl, ◌∙◌, Bool, true, false, ◌||◌, List, [], ◌∷◌, Option, none, some, Bool-cases,
  inl, inr, ltb, le→ltb, ◌==◌, All,
}
use ghost_cache.Node.Controller.{Controller, can_initiate}
use ghost_cache.Node.Runtime.{Acquisition, ReconcileJob, Runtime, Env}
use ghost_cache.Node.Runtime.Table.{has_outstanding_acquisition}
use ghost_cache.Node.Runtime.Reconcile.{is_busy}
use ghost_cache.Node.Runtime.Turn.{
  expire, expire_all, expire_job, log_stats, take_turn, keep_time, on_tick,
}

-- The deadline of what is waited for has not passed.
abbrev pub IsInTime : ℕ → Acquisition → Type 0
IsInTime now a = (a.waiting == 0) ≡ false → now ≤ a.deadline

abbrev pub JobInTime : ℕ → Option ReconcileJob → Type 0
JobInTime now none = Unit
JobInTime now (some job) = now ≤ job.deadline

expire_in_time :
    (env : Env) (now : ℕ) (a : Acquisition) (r : Runtime) → IsInTime now a → expire env now a r ≡ r
unfolding expire
expire_in_time env now a r h = elim (Bool-cases (a.waiting == 0)) [
  | inl idle ↦ rw idle refl
  | inr waiting ↦ rw (waiting, le→ltb a.deadline now (h waiting)) refl
]

expire_all_in_time :
    (env : Env) (now : ℕ) (table : List Acquisition) (r : Runtime)
    → All (IsInTime now) table
    → expire_all env now table r ≡ r
unfolding expire_all
expire_all_in_time env now [] r h = refl
expire_all_in_time env now (a ∷ rest) r h =
    rw (expire_in_time env now a r h.0) (expire_all_in_time env now rest r h.1)

expire_job_in_time :
    (env : Env) (now : ℕ) (job : Option ReconcileJob) (r : Runtime)
    → JobInTime now job
    → expire_job env now job r ≡ r
unfolding expire_job
expire_job_in_time env now none r h = refl
expire_job_in_time env now (some job) r h = rw (le→ltb job.deadline now h) refl

-- The log line changes none of these.
pub log_stats_keeps :
    (env : Env) (now : ℕ) (r : Runtime)
    → ((log_stats env now r).sends ≡ r.sends)
      × ((log_stats env now r).acquisitions ≡ r.acquisitions)
      × ((log_stats env now r).reconcile_active ≡ r.reconcile_active)
      × ((log_stats env now r).files ≡ r.files)
unfolding log_stats
log_stats_keeps env now r = elim (Bool-cases (ltb r.next_log now)) [
  | inl due ↦ rw due (refl, refl, refl, refl)
  | inr early ↦ rw early (refl, refl, refl, refl)
]

take_turn_busy :
    (env : Env) (now : ℕ) (allowed : Bool × Controller) (r : Runtime)
    → (is_busy r.reconcile_active || has_outstanding_acquisition r) ≡ true
    → let after = take_turn env now allowed r in
      (after.sends ≡ r.sends)
      × (after.acquisitions ≡ r.acquisitions)
      × (after.reconcile_active ≡ r.reconcile_active)
      × (after.files ≡ r.files)
unfolding take_turn
take_turn_busy env now (false, controller) r h = (refl, refl, refl, refl)
take_turn_busy env now (true, controller) r h = rw h (refl, refl, refl, refl)

-- While an answer is waited for and its deadline has not passed, a tick sends nothing, and gives
-- nothing up: the store, the acquisitions and the reconciliation are as they were.
pub on_tick_waits :
    (env : Env) (now : ℕ) (r : Runtime)
    → (is_busy r.reconcile_active || has_outstanding_acquisition r) ≡ true
    → All (IsInTime now) r.acquisitions
    → JobInTime now r.reconcile_active
    → let after = on_tick env now r in
      (after.sends ≡ r.sends)
      × (after.acquisitions ≡ r.acquisitions)
      × (after.reconcile_active ≡ r.reconcile_active)
      × (after.files ≡ r.files)
unfolding on_tick keep_time has_outstanding_acquisition
on_tick_waits env now r waiting in_time job_in_time =
    let expired = expire_all_in_time env now r.acquisitions r in_time in
    let job = expire_job_in_time env now r.reconcile_active r job_in_time in
    let logged = log_stats env now r in
    let (sends, acquisitions, active, files) = log_stats_keeps env now r in
    let still : (is_busy logged.reconcile_active || has_outstanding_acquisition logged) ≡ true =
      unfold has_outstanding_acquisition in rw (active, acquisitions) waiting in
    let (sends', acquisitions', active', files') =
      take_turn_busy env now (can_initiate env.pressure now logged.controller) logged still in
    rw (expired, job)
      (sends' ∙ sends, acquisitions' ∙ acquisitions, active' ∙ active, files' ∙ files)
