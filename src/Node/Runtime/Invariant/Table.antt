-- ===== src/Node/Runtime/Invariant/Table.antt =====
-- Writing, adding and dropping acquisitions keep the invariant of the runtime.
use ghost_cache.Common.{
  ℕ, ◌≤◌, ◌≡◌, refl, sym, ap, subst, ◌∙◌, arith, List, none, some, Bool-cases, inl, inr, length,
  All,
}
use ghost_cache.Publication.Packet.{PublicationId}
use ghost_cache.Node.Packet.{Packet}
use ghost_cache.Node.Runtime.{Acquisition, Runtime, Env}
use ghost_cache.Node.Runtime.Table.{
  find_acquisition, delete_acquisition, update, remove_id, contains_id, remove_order,
  drop_acquisition, active,
}
use ghost_cache.Node.Runtime.Invariant.{
  Distinct, ids_of, waits, count_waiting, HasFewSources, IsRuntime,
}
use ghost_cache.Node.Runtime.Invariant.Ids.{remove_id_absent, Distinct-remove_id}
use ghost_cache.Node.Runtime.Invariant.Acquisitions.{
  ids_of-put, length-put, few_sources-put, ids_of-delete, length-delete, few_sources-delete,
  count-delete, count-put_idle, count-put, count-put_same, find_active-few, find_active-find,
}

-- An entry of the table, as the code's pointers to it.
abbrev pub IsEntry : Acquisition → Runtime → Type 0
IsEntry a r = HasFewSources a × (find_acquisition a.id r.acquisitions ≡ some a)

module _ (limit : ℕ) where
  pub Distinct-ids : (r : Runtime) → IsRuntime limit r → Distinct (ids_of r.acquisitions)
  Distinct-ids r h = subst (λ (xs : List PublicationId). Distinct xs) h.0.0 h.0.1

  -- What waits for nothing is written.
  pub update_idle :
      (b : Acquisition) (r : Runtime)
      → IsRuntime limit r
      → HasFewSources b
      → b.waiting ≡ 0
      → IsRuntime limit (update b r)
  unfolding update
  update_idle b r ((order, distinct, few, size), single, queue, peers, inspected) small idle = (
    (
      order ∙ sym (ids_of-put b r.acquisitions),
      distinct,
      few_sources-put b r.acquisitions few small,
      omega (arith, length-put b r.acquisitions),
    ),
    omega (arith, count-put_idle b r.acquisitions idle),
    queue,
    peers,
    inspected,
  )

  -- An entry is written that waits as it did.
  pub update_same :
      (a b : Acquisition) (r : Runtime)
      → IsRuntime limit r
      → IsEntry a r
      → HasFewSources b
      → b.id ≡ a.id
      → b.waiting ≡ a.waiting
      → IsRuntime limit (update b r)
  unfolding update
  update_same a b r h entry small same_id same =
      let ((order, distinct, few, size), single, queue, peers, inspected) = h in
      let found : find_acquisition b.id r.acquisitions ≡ some a = rw same_id entry.1 in
      let count = count-put_same a b r.acquisitions (Distinct-ids r h) found same in
      (
        (
          order ∙ sym (ids_of-put b r.acquisitions),
          distinct,
          few_sources-put b r.acquisitions few small,
          omega (arith, length-put b r.acquisitions),
        ),
        omega (arith, count),
        queue,
        peers,
        inspected,
      )

  waits-le : (b : Acquisition) → waits b ≤ 1
  waits-le b = ground arith

  -- When nothing is waited for, one request can go out.
  pub update_free :
      (b : Acquisition) (r : Runtime)
      → IsRuntime limit r
      → HasFewSources b
      → count_waiting r.acquisitions ≡ 0
      → r.reconcile_active ≡ none
      → IsRuntime limit (update b r)
  unfolding update
  update_free b r h small quiet free =
      let ((order, distinct, few, size), single, queue, peers, inspected) = h in
      let count = count-put b r.acquisitions (Distinct-ids r h) in
      (
        (
          order ∙ sym (ids_of-put b r.acquisitions),
          distinct,
          few_sources-put b r.acquisitions few small,
          omega (arith, length-put b r.acquisitions),
        ),
        rw free (omega (arith, count, waits-le b)),
        queue,
        peers,
        inspected,
      )

  pub remove_order-IsRuntime :
      (id : PublicationId) (r : Runtime) (table : List Acquisition)
      → IsRuntime limit r
      → table ≡ delete_acquisition id r.acquisitions
      → IsRuntime limit (remove_order id (record r { acquisitions = table }))
  unfolding remove_order
  remove_order-IsRuntime id r table h e =
      let ((order, distinct, few, size), single, queue, peers, inspected) = h in
      let kept : ids_of table ≡ remove_id id r.order =
        ap ids_of e
        ∙ ids_of-delete id r.acquisitions (Distinct-ids r h)
        ∙ ap (remove_id id) (sym order) in
      let fewer : All HasFewSources table = rw e (few_sources-delete id r.acquisitions few) in
      let count : count_waiting table ≤ count_waiting r.acquisitions =
        rw e (count-delete id r.acquisitions) in
      let smaller : length table ≤ length r.acquisitions = rw e (length-delete id r.acquisitions) in
      elim (Bool-cases (contains_id id r.order)) [
        | inl there ↦ rw there (
          (sym kept, Distinct-remove_id id r.order distinct, fewer, omega arith),
          omega arith,
          queue,
          peers,
          inspected,
        )
        | inr absent ↦ rw absent (
          (sym (kept ∙ remove_id_absent id r.order absent), distinct, fewer, omega arith),
          omega arith,
          queue,
          peers,
          inspected,
        )
      ]

  pub drop_acquisition-IsRuntime :
      (id : PublicationId) (r : Runtime)
      → IsRuntime limit r
      → IsRuntime limit (drop_acquisition id r)
  unfolding drop_acquisition
  drop_acquisition-IsRuntime id r h = remove_order-IsRuntime id r _ h refl

  -- An active acquisition is an entry.
  pub active-IsEntry :
      (env : Env) (p : Packet) (r : Runtime) (a : Acquisition)
      → IsRuntime limit r
      → active env p r ≡ some a
      → IsEntry a r
  unfolding active
  active-IsEntry env p r a h e = (
    find_active-few env p r.acquisitions a h.0.2 e,
    find_active-find env p r.acquisitions a (Distinct-ids r h) e,
  )
