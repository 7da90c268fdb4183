-- ===== src/Node/Runtime/Invariant/Turn.antt =====
-- What a node does by itself keeps the invariant of its runtime.
use ghost_cache.Common.{
  ℕ, zero, suc, ◌+◌, ◌%◌, ◌^◌, ◌≤◌, ◌≡◌, refl, arith, Bool, true, false, not, ◌&&◌, ◌||◌, List, [],
  ◌∷◌, ◌++◌, Option, none, some, Bool-cases, Option-cases, inl, inr, ltb, leb, ◌==◌, length,
  length-append, get_or, All, Result, ok, err,
}
use ghost_cache.Publication.Packet.{PublicationId}
use ghost_cache.Publication.Assembly.{Assembly}
use ghost_cache.Node.Controller.{Controller, prune}
use ghost_cache.Node.Runtime.{Acquisition, ReconcileJob, Metrics, Runtime, Env}
use ghost_cache.Node.Runtime.Table.{find_acquisition, has_outstanding_acquisition}
use ghost_cache.Node.Runtime.Radio.{observe_failure, send}
use ghost_cache.Node.Runtime.Reconcile.{is_busy, retry_job, end_job, initiate_reconcile}
use ghost_cache.Node.Runtime.Turn.{
  expire, expire_all, requeue, expire_job, log_stats, is_ready, first_of, work_loop, next_work,
  has_manifest, with_source, requested, request_manifest, request_batch, request_chunks, request,
  initiate, schedule_advertise, count_advertised, advertise_listing, advertise, reconciled, work,
  start_with, start_something, take_turn, keep_time, on_tick,
}
use ghost_cache.Node.Runtime.Invariant.{HasFewSources, IsRuntime}
use ghost_cache.Node.Runtime.Invariant.Table.{update_free}
use ghost_cache.Node.Runtime.Invariant.Candidates.{find-few}
use ghost_cache.Node.Runtime.Invariant.Radio.{send_keeps, send-IsRuntime, fail-IsRuntime}
use ghost_cache.Node.Runtime.Invariant.Jobs.{
  IsQuiet, not_busy-IsQuiet, initiate_reconcile-IsRuntime, initiate_reconcile-IsQuiet,
}

-- The work that is found is in the table, and ready.
pub work_loop_sound :
    (n now offset : ℕ) (r : Runtime) (a : Acquisition) (cursor : ℕ)
    → All HasFewSources r.acquisitions
    → work_loop n now offset r ≡ some (a, cursor)
    → HasFewSources a × (is_ready now a ≡ true)
unfolding work_loop first_of
work_loop_sound zero now offset r a cursor few h = cc
work_loop_sound (suc n) now offset r a cursor few h =
    let id = get_or r.order ((r.work_cursor + offset) % length r.order) [] in
    elim (Option-cases (find_acquisition id r.acquisitions)) [
      | inl absent ↦ work_loop_sound n now (offset + 1) r a cursor few (rw absent at h)
      | inr (b, there) ↦ elim (Bool-cases (is_ready now b)) [
        | inr later ↦ work_loop_sound n now (offset + 1) r a cursor few (rw (there, later) at h)
        | inl ready ↦
            let e = rw (there, ready) at h in
            let same : b ≡ a = cc in rw (← same) (find-few id r.acquisitions b few there, ready)
      ]
    ]

module _ (limit : ℕ) (env : Env) (now : ℕ) where
  expire-IsRuntime :
      (a : Acquisition) (r : Runtime)
      → IsRuntime limit r
      → HasFewSources a
      → IsRuntime limit (expire env now a r)
  unfolding expire observe_failure
  expire-IsRuntime a r h few = elim (Bool-cases (not (a.waiting == 0) && ltb a.deadline now)) [
    | inl late ↦
        rw late
          (fail-IsRuntime limit env now a (observe_failure now r) (unfold observe_failure in h) few)
    | inr early ↦ rw early h
  ]

  expire_all-IsRuntime :
      (table : List Acquisition) (r : Runtime)
      → IsRuntime limit r
      → All HasFewSources table
      → IsRuntime limit (expire_all env now table r)
  unfolding expire_all
  expire_all-IsRuntime [] r h few = h
  expire_all-IsRuntime (a ∷ rest) r h few =
      expire_all-IsRuntime rest (expire env now a r) (expire-IsRuntime a r h few.0) few.1

  requeue-IsRuntime :
      (job : ReconcileJob) (r : Runtime) → IsRuntime limit r → IsRuntime limit (requeue job r)
  unfolding requeue
  requeue-IsRuntime job r h =
      let (table, single, queue, peers, inspected) = h in
      elim (Bool-cases (ltb (length r.reconcile_queue) 256)) [
        | inl room ↦ rw room (table, single, grown r.reconcile_queue job room, peers, inspected)
        | inr full ↦ rw full h
      ]
    where
      grown :
          (jobs : List ReconcileJob) (last : ReconcileJob)
          → ltb (length jobs) 256 ≡ true
          → length (jobs ++ last ∷ []) ≤ 256
      grown jobs last room = ground (arith, length-append jobs (last ∷ []))

  expire_job-IsRuntime :
      (job : Option ReconcileJob) (r : Runtime)
      → IsRuntime limit r
      → IsRuntime limit (expire_job env now job r)
  unfolding expire_job observe_failure
  expire_job-IsRuntime none r h = h
  expire_job-IsRuntime (some job) r h = elim (Bool-cases (ltb job.deadline now)) [
    | inr early ↦ rw early h
    | inl late ↦
        let (table, single, queue, peers, inspected) = h in
        rw late (
          requeue-IsRuntime (retry_job env now job r) (end_job (record r { draws = suc r.draws }))
            (table, omega arith, queue, peers, inspected))
  ]

  log_stats-IsRuntime : (r : Runtime) → IsRuntime limit r → IsRuntime limit (log_stats env now r)
  unfolding log_stats
  log_stats-IsRuntime r h = elim (Bool-cases (ltb r.next_log now)) [
    | inl due ↦ rw due h
    | inr early ↦ rw early h
  ]

  keep_time-IsRuntime : (r : Runtime) → IsRuntime limit r → IsRuntime limit (keep_time env now r)
  unfolding keep_time
  keep_time-IsRuntime r h =
      log_stats-IsRuntime _
        (expire_job-IsRuntime _ _ (expire_all-IsRuntime r.acquisitions r h h.0.2))

  requested-IsRuntime :
      (kind : ℕ) (count : Metrics → Metrics) (a : Acquisition) (sent : Runtime × Bool)
      → IsRuntime limit sent.0
      → IsQuiet sent.0
      → HasFewSources a
      → IsRuntime limit (requested env now kind count a sent)
  unfolding requested
  requested-IsRuntime kind count a (r, false) h quiet few = fail-IsRuntime limit env now a r h few
  requested-IsRuntime kind count a (r, true) h quiet few =
      update_free limit _ (record r { metrics = count r.metrics }) h few quiet.0 quiet.1

  send-IsQuiet : (wire : List ℕ) (r : Runtime) → IsQuiet r → IsQuiet (send env now wire r).0
  send-IsQuiet wire r quiet =
      let (same, job, _, _, _) = send_keeps env now wire r in (rw same quiet.0, rw job quiet.1)

  request_manifest-IsRuntime :
      (a : Acquisition) (r : Runtime)
      → IsRuntime limit r
      → IsQuiet r
      → HasFewSources a
      → IsRuntime limit (request_manifest env now a r)
  unfolding request_manifest
  request_manifest-IsRuntime a r h quiet few = elim (Bool-cases (has_manifest a.manifest)) [
    | inl there ↦ rw there (
        requested-IsRuntime _ _ a _ (send-IsRuntime limit env now _ r h) (send-IsQuiet _ r quiet)
          few)
    | inr absent ↦ rw absent (
        requested-IsRuntime _ _ a _ (send-IsRuntime limit env now _ r h) (send-IsQuiet _ r quiet)
          few)
  ]

  request_batch-IsRuntime :
      (a : Acquisition) (base : ℕ) (asked : List ℕ) (r : Runtime)
      → IsRuntime limit r
      → IsQuiet r
      → HasFewSources a
      → IsRuntime limit (request_batch env now a base asked r)
  unfolding request_batch
  request_batch-IsRuntime a base asked r h quiet few =
      requested-IsRuntime _ _ _ _ (send-IsRuntime limit env now _ r h) (send-IsQuiet _ r quiet) few

  request_chunks-IsRuntime :
      (a : Acquisition) (batch : ℕ × (ℕ × List ℕ)) (r : Runtime)
      → IsRuntime limit r
      → IsQuiet r
      → HasFewSources a
      → IsRuntime limit (request_chunks env now a batch r)
  unfolding request_chunks
  request_chunks-IsRuntime a (base, (bitmap, indexes)) r h quiet few =
      elim (Bool-cases (length indexes == 0)) [
        | inl empty ↦ rw empty (update_free limit a r h few quiet.0 quiet.1)
        | inr more ↦ rw more (
            request_batch-IsRuntime a base _ (record r { controller = prune now r.controller }) h
              quiet few)
      ]

  request-IsRuntime :
      (a : Acquisition) (assembly : Option Assembly) (r : Runtime)
      → IsRuntime limit r
      → IsQuiet r
      → HasFewSources a
      → IsRuntime limit (request env now a assembly r)
  unfolding request
  request-IsRuntime a none r h quiet few = request_manifest-IsRuntime a r h quiet few
  request-IsRuntime a (some assembly) r h quiet few = request_chunks-IsRuntime a _ r h quiet few

  initiate-IsRuntime :
      (a : Acquisition) (r : Runtime)
      → IsRuntime limit r
      → IsQuiet r
      → HasFewSources a
      → IsRuntime limit (initiate env now a r)
  unfolding initiate with_source
  initiate-IsRuntime a r h quiet few =
      request-IsRuntime _ a.assembly (record r { tx = (r.tx + 1) % 2 ^ 16 }) h quiet few

  counted-IsRuntime :
      (wire : List ℕ) (sent : Runtime × Bool)
      → IsRuntime limit sent.0
      → IsRuntime limit (count_advertised wire sent)
  counted-IsRuntime wire (r, true) h = h
  counted-IsRuntime wire (r, false) h = h

  advertise-IsRuntime :
      (listing : Result (List PublicationId)) (r : Runtime)
      → IsRuntime limit r
      → IsRuntime limit (advertise_listing env now listing r)
  unfolding advertise_listing schedule_advertise
  advertise-IsRuntime (err e) r h = h
  advertise-IsRuntime (ok ids) r h =
      counted-IsRuntime _ _ (send-IsRuntime limit env now _ (record r { complete_ids = ids }) h)

  reconciled-IsRuntime :
      (tried : Runtime × Bool) (other : Runtime)
      → IsRuntime limit tried.0
      → (tried.1 ≡ false → IsRuntime limit other)
      → IsRuntime limit (reconciled tried other)
  unfolding reconciled
  reconciled-IsRuntime (r, true) other h h' = h
  reconciled-IsRuntime (r, false) other h h' = h' refl

  work-IsRuntime :
      (found : Option (Acquisition × ℕ)) (r : Runtime)
      → IsRuntime limit r
      → IsQuiet r
      → next_work now r ≡ found
      → IsRuntime limit (work env now found r)
  unfolding work next_work
  work-IsRuntime none r h quiet e =
      let tried = initiate_reconcile-IsRuntime limit env now r h in
      reconciled-IsRuntime _ _ tried (λ _. tried)
  work-IsRuntime (some (a, cursor)) r h quiet e =
      initiate-IsRuntime a (record r { work_cursor = cursor }) h quiet
        (work_loop_sound (length r.order) now 0 r a cursor h.0.2 e).0

  start_with-IsRuntime :
      (reconcile_first : Bool) (r : Runtime)
      → IsRuntime limit r
      → IsQuiet r
      → IsRuntime limit (start_with env now reconcile_first r)
  unfolding start_with
  start_with-IsRuntime false r h quiet = work-IsRuntime _ r h quiet refl
  start_with-IsRuntime true r h quiet =
      let tried = initiate_reconcile-IsRuntime limit env now r h in
      let after = (initiate_reconcile env now r).0 in
      reconciled-IsRuntime _ (work env now (next_work now after) after) tried (λ none_started.
        work-IsRuntime (next_work now after) after tried
          (initiate_reconcile-IsQuiet limit env now r quiet none_started) refl)

  take_turn-IsRuntime :
      (allowed : Bool × Controller) (r : Runtime)
      → IsRuntime limit r
      → IsRuntime limit (take_turn env now allowed r)
  unfolding take_turn advertise start_something
  take_turn-IsRuntime (false, controller) r h = h
  take_turn-IsRuntime (true, controller) r h =
      elim (Bool-cases (is_busy r.reconcile_active || has_outstanding_acquisition r)) [
        | inl busy ↦ rw busy h
        | inr free ↦
            let quiet = not_busy-IsQuiet r free in
            elim (Bool-cases (leb r.next_advertise now)) [
              | inl due ↦
                  rw (free, due) (advertise-IsRuntime _ (record r { controller = controller }) h)
              | inr early ↦
                  rw (free, early)
                    (start_with-IsRuntime r.prefer_reconcile (record r { controller = controller })
                      h quiet)
            ]
      ]

  pub on_tick-IsRuntime : (r : Runtime) → IsRuntime limit r → IsRuntime limit (on_tick env now r)
  unfolding on_tick
  on_tick-IsRuntime r h = take_turn-IsRuntime _ _ (keep_time-IsRuntime r h)
