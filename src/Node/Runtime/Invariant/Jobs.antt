-- ===== src/Node/Runtime/Invariant/Jobs.antt =====
-- Starting a reconciliation keeps the invariant of the runtime.
use ghost_cache.Common.{
  ℕ, suc, ◌+◌, ◌%◌, ◌^◌, ◌≤◌, ◌≡◌, refl, sym, ap, arith, Bool, true, false, ◌||◌, List, [], ◌∷◌,
  Option, none, some, Bool-cases, Option-cases, inl, inr, ltb, length, length-append, Result, ok,
  err,
}
use ghost_cache.Node.Runtime.{ReconcileJob, Runtime, Env, max_reconcile_jobs}
use ghost_cache.Node.Runtime.Table.{has_outstanding_acquisition}
use ghost_cache.Node.Runtime.Radio.{send}
use ghost_cache.Node.Runtime.Reconcile.{
  take_ready, begin_job, send_request, start_job, is_busy, initiate_reconcile,
}
use ghost_cache.Node.Runtime.Invariant.{count_waiting, IsRuntime}
use ghost_cache.Node.Runtime.Invariant.Radio.{send_keeps, send-IsRuntime}
use ghost_cache.Node.Runtime.Invariant.Reconcile.{any_waiting-false}

-- Nothing is waited for.
abbrev pub IsQuiet : Runtime → Type 0
IsQuiet r = (count_waiting r.acquisitions ≡ 0) × (r.reconcile_active ≡ none)

not_busy : (job : Option ReconcileJob) → is_busy job ≡ false → job ≡ none
not_busy none h = refl
not_busy (some job) h = cc

pub not_busy-IsQuiet :
    (r : Runtime)
    → (is_busy r.reconcile_active || has_outstanding_acquisition r) ≡ false
    → IsQuiet r
unfolding has_outstanding_acquisition
not_busy-IsQuiet r h = elim (Bool-cases (is_busy r.reconcile_active)) [
  | inl busy ↦ absurd (let e = rw busy at h in cc)
  | inr free ↦ (any_waiting-false r.acquisitions (rw free at h), not_busy r.reconcile_active free)
]

-- A job that is taken out makes room for itself.
length-take_ready :
    (now : ℕ) (jobs : List ReconcileJob) (found : ReconcileJob) (rest : List ReconcileJob)
    → take_ready now jobs ≡ some (found, rest)
    → suc (length rest) ≡ length jobs
unfolding take_ready
length-take_ready now [] found rest h = cc
length-take_ready now (job ∷ jobs) found rest h = elim (Bool-cases (ltb now job.next_attempt)) [
  | inr ready ↦
      let e : some (job, jobs) ≡ some (found, rest) = rw ready at h in
      ap suc (ap length (sym (ap rest_of e)))
  | inl early ↦ elim (Option-cases (take_ready now jobs)) [
    | inl empty ↦ absurd (let e = rw (early, empty) at h in cc)
    | inr ((found', rest'), there) ↦
        let e : some (found', job ∷ rest') ≡ some (found, rest) = rw (early, there) at h in
        let shorter = length-take_ready now jobs found' rest' there in
        omega (arith, shorter, ap length (ap rest_of e))
  ]
]
  where
    rest_of : Option (ReconcileJob × List ReconcileJob) → List ReconcileJob
    rest_of none = []
    rest_of (some (first, others)) = others

module _ (limit : ℕ) (env : Env) (now : ℕ) where
  begin_job-IsRuntime :
      (job : ReconcileJob) (wire : List ℕ) (sent : Runtime × Bool)
      → IsRuntime limit sent.0
      → suc (length sent.0.reconcile_queue) ≤ max_reconcile_jobs
      → count_waiting sent.0.acquisitions ≡ 0
      → IsRuntime limit (begin_job env now job wire sent).0
  unfolding begin_job
  begin_job-IsRuntime job wire (r, false) (table, single, queue, peers, inspected) room quiet =
      (table, single, omega (arith, length-append {0} r.reconcile_queue), peers, inspected)
  begin_job-IsRuntime job wire (r, true) (table, single, queue, peers, inspected) room quiet =
      (table, omega arith, queue, peers, inspected)

  send_request-IsRuntime :
      (job : ReconcileJob) (wire : Result (List ℕ)) (r : Runtime)
      → IsRuntime limit r
      → suc (length r.reconcile_queue) ≤ max_reconcile_jobs
      → count_waiting r.acquisitions ≡ 0
      → IsRuntime limit (send_request env now job wire r).0
  unfolding send_request
  send_request-IsRuntime job (err e) r h room quiet = h
  send_request-IsRuntime job (ok wire) r h room quiet =
      let (same, _, queue, _, _) = send_keeps env now wire r in
      begin_job-IsRuntime job wire _ (send-IsRuntime limit env now wire r h) (rw queue room)
        (rw same quiet)

  start_job-IsRuntime :
      (found : Option (ReconcileJob × List ReconcileJob)) (r : Runtime)
      → IsRuntime limit r
      → take_ready now r.reconcile_queue ≡ found
      → count_waiting r.acquisitions ≡ 0
      → IsRuntime limit (start_job env now found r).0
  unfolding start_job
  start_job-IsRuntime none r h e quiet = h
  start_job-IsRuntime (some (found, rest)) r h e quiet =
      let shorter = length-take_ready now r.reconcile_queue found rest e in
      let (table, single, queue, peers, inspected) = h in
      send_request-IsRuntime _ _ (record r { tx = (r.tx + 1) % 2 ^ 16; reconcile_queue = rest })
        (table, single, omega (arith, shorter), peers, inspected) (omega (arith, shorter)) quiet

  pub initiate_reconcile-IsRuntime :
      (r : Runtime) → IsRuntime limit r → IsRuntime limit (initiate_reconcile env now r).0
  unfolding initiate_reconcile
  initiate_reconcile-IsRuntime r h =
      elim (Bool-cases (is_busy r.reconcile_active || has_outstanding_acquisition r)) [
        | inl busy ↦ rw busy h
        | inr free ↦ rw free (start_job-IsRuntime _ r h refl (not_busy-IsQuiet r free).0)
      ]

  begin_job-true :
      (job : ReconcileJob) (wire : List ℕ) (sent : Runtime × Bool)
      → (begin_job env now job wire sent).1 ≡ true
  unfolding begin_job
  begin_job-true job wire (r, true) = refl
  begin_job-true job wire (r, false) = refl

  send_request-IsQuiet :
      (job : ReconcileJob) (wire : Result (List ℕ)) (r : Runtime)
      → IsQuiet r
      → (send_request env now job wire r).1 ≡ false
      → IsQuiet (send_request env now job wire r).0
  unfolding send_request
  send_request-IsQuiet job (err e) r q h = q
  send_request-IsQuiet job (ok wire) r q h =
      absurd (let e = begin_job-true job wire (send env now wire r) in cc)

  start_job-IsQuiet :
      (found : Option (ReconcileJob × List ReconcileJob)) (r : Runtime)
      → IsQuiet r
      → (start_job env now found r).1 ≡ false
      → IsQuiet (start_job env now found r).0
  unfolding start_job
  start_job-IsQuiet none r q h = q
  start_job-IsQuiet (some (found, rest)) r q h = send_request-IsQuiet _ _ _ q h

  -- A reconciliation that was not started leaves nothing to be waited for.
  pub initiate_reconcile-IsQuiet :
      (r : Runtime)
      → IsQuiet r
      → (initiate_reconcile env now r).1 ≡ false
      → IsQuiet (initiate_reconcile env now r).0
  unfolding initiate_reconcile
  initiate_reconcile-IsQuiet r q h =
      elim (Bool-cases (is_busy r.reconcile_active || has_outstanding_acquisition r)) [
        | inl busy ↦ rw busy q
        | inr free ↦ rw free (start_job-IsQuiet _ r q (rw free at h))
      ]
