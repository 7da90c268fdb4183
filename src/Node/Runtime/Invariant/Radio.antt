-- ===== src/Node/Runtime/Invariant/Radio.antt =====
-- Sending and failing keep the invariant of the runtime.
use ghost_cache.Common.{ℕ, suc, ◌≡◌, refl, List, Bool-cases, inl, inr, ◌==◌}
use ghost_cache.Node.Kind
use ghost_cache.Node.Runtime.{Acquisition, Runtime, Env}
use ghost_cache.Node.Runtime.Radio.{observe_failure, defer_failed, send, failed, fail}
use ghost_cache.Node.Runtime.Invariant.{HasFewSources, IsRuntime}
use ghost_cache.Node.Runtime.Invariant.Table.{update_idle}

-- A send changes nothing but the controller and the counters.
pub send_keeps :
    (env : Env) (now : ℕ) (wire : List ℕ) (r : Runtime)
    → let after = (send env now wire r).0 in
      (after.acquisitions ≡ r.acquisitions)
      × (after.reconcile_active ≡ r.reconcile_active)
      × (after.reconcile_queue ≡ r.reconcile_queue)
      × (after.files ≡ r.files)
      × (after.order ≡ r.order)
unfolding send defer_failed observe_failure
send_keeps env now wire r = elim (Bool-cases (env.send_fails r.sends)) [
  | inl fails ↦ rw fails (refl, refl, refl, refl, refl)
  | inr works ↦ rw works (refl, refl, refl, refl, refl)
]

pub failed-few :
    (env : Env) (now : ℕ) (a : Acquisition) (r : Runtime)
    → HasFewSources a
    → HasFewSources (failed env now a r) × ((failed env now a r).waiting ≡ 0)
unfolding failed
failed-few env now a r h = elim (Bool-cases (a.waiting == Kind.signature)) [
  | inl asked ↦ rw asked (h, refl)
  | inr other ↦ rw other (h, refl)
]

module _ (limit : ℕ) (env : Env) (now : ℕ) where
  pub send-IsRuntime :
      (wire : List ℕ) (r : Runtime) → IsRuntime limit r → IsRuntime limit (send env now wire r).0
  unfolding send defer_failed observe_failure
  send-IsRuntime wire r h = elim (Bool-cases (env.send_fails r.sends)) [
    | inl fails ↦ rw fails h
    | inr works ↦ rw works h
  ]

  pub fail-IsRuntime :
      (a : Acquisition) (r : Runtime)
      → IsRuntime limit r
      → HasFewSources a
      → IsRuntime limit (fail env now a r)
  unfolding fail defer_failed
  fail-IsRuntime a r h few =
      let (few', idle) = failed-few env now a r few in
      update_idle limit (failed env now a r) (record r { draws = suc r.draws }) h few' idle
