-- ===== src/Node/Runtime/Invariant/Roots.antt =====
-- A root summary keeps the invariant of the runtime.
use ghost_cache.Common.{
  ℕ, suc, ◌≤◌, ◌≡◌, refl, sym, ap, subst, ◌∙◌, arith, true, false, not, List, [], ◌∷◌, ◌++◌, none,
  some, Bool-cases, Option-cases, inl, inr, leb, ◌==◌, ==_iff, length, length-append, elem, Result,
  ok, err,
}
use ghost_cache.Node.Packet.{NodeId, Packet}
use ghost_cache.Node.Radix.{RadixSummary}
use ghost_cache.Node.Radix.Wire.{decode_summary}
use ghost_cache.Node.Runtime.{Runtime, Env, max_tracked_peers}
use ghost_cache.Node.Runtime.Peers.{
  drop_reconciliation, generation_of, delete_generation, put_generation, evict_peer, remove_peer,
  make_room, touch_peer, note_generation, count_summary_received, note_peer, compare_root,
  handle_root_summary,
}
use ghost_cache.Node.Runtime.Invariant.{is_known, ArePeers, IsRuntime}
use ghost_cache.Node.Runtime.Invariant.Peers.{
  generation_of-delete, generation_of-put, elem-remove_peer, Distinct-remove_peer, elem-append,
  Distinct-append, length-remove_peer, drop-IsRuntime, queue_all-IsRuntime,
}

module _ (generations : List (NodeId × ℕ)) (peer : NodeId) where
  new_peer-ArePeers :
      (order : List NodeId) (generation : ℕ)
      → ArePeers generations order
      → elem peer order ≡ false
      → suc (length order) ≤ max_tracked_peers
      → ArePeers (put_generation peer generation generations) (order ++ peer ∷ [])
  new_peer-ArePeers order generation (known, distinct, size) absent room = (
    λ x.
        ground (
          arith,
          generation_of-put peer generation x generations,
          elem-append x peer order,
          known x,
        ),
    Distinct-append peer order distinct absent,
    omega (arith, room, length-append order (peer ∷ [])),
  )

  known_peer-ArePeers :
      (order : List NodeId)
      → ArePeers generations order
      → elem peer order ≡ true
      → ArePeers generations (remove_peer peer order ++ peer ∷ [])
  known_peer-ArePeers order (known, distinct, size) there = (
    λ x. elim (Bool-cases (peer == x)) [
      | inl same ↦
          let e : peer ≡ x = (==_iff peer x).0 same in
          let here : elem x order ≡ true = rw (← e) there in
          ground (arith, known x, here, elem-append x peer (remove_peer peer order), same)
      | inr other ↦ ground (
        arith,
        known x,
        elem-append x peer (remove_peer peer order),
        elem-remove_peer peer x order distinct,
        other,
      )
    ],
    Distinct-append peer (remove_peer peer order) (Distinct-remove_peer peer order distinct)
        (ground (arith, elem-remove_peer peer peer order distinct)),
    omega (
      arith,
      length-append (remove_peer peer order) (peer ∷ []),
      length-remove_peer peer order there,
    ),
  )

  changed_peer-ArePeers :
      (order : List NodeId) (generation : ℕ)
      → ArePeers generations order
      → elem peer order ≡ true
      → ArePeers (put_generation peer generation generations) order
  changed_peer-ArePeers order generation (known, distinct, size) there = (
    λ x. elim (Bool-cases (peer == x)) [
      | inl same ↦
          let e : peer ≡ x = (==_iff peer x).0 same in
          let here : elem x order ≡ true = rw (← e) there in
          ground (arith, generation_of-put peer generation x generations, same, here)
      | inr other ↦ ground (arith, generation_of-put peer generation x generations, other, known x)
    ],
    distinct,
    size,
  )

  evicted-ArePeers :
      (rest : List NodeId)
      → ArePeers generations (peer ∷ rest)
      → ArePeers (delete_generation peer generations) rest
  unfolding elem
  evicted-ArePeers rest (known, distinct, size) = (
    λ x. elim (Bool-cases (peer == x)) [
      | inl same ↦
          let e : peer ≡ x = (==_iff peer x).0 same in
          let gone : elem x rest ≡ false = rw (← e) distinct.0 in
          ground (arith, generation_of-delete peer x generations, same, gone)
      | inr other ↦ ground (arith, generation_of-delete peer x generations, other, known x)
    ],
    distinct.1,
    omega arith,
  )

module _ (limit : ℕ) where
  -- There is room for a new peer.
  evict-IsRuntime :
      (peer : NodeId) (order : List NodeId) (r : Runtime)
      → r.peer_order ≡ order
      → IsRuntime limit r
      → elem peer order ≡ false
      → let kept = evict_peer order r in
        IsRuntime limit kept
        × (suc (length kept.peer_order) ≤ max_tracked_peers)
        × (elem peer kept.peer_order ≡ false)
  unfolding evict_peer
  evict-IsRuntime peer [] r e h absent = (h, rw e (omega arith), rw e absent)
  evict-IsRuntime peer (oldest ∷ rest) r e h absent =
      let (table, single, queue, peers, inspected) = h in
      let listed : ArePeers r.peer_generations (oldest ∷ rest) =
        subst (λ (xs : List NodeId). ArePeers r.peer_generations xs) e peers in
      let kept : Runtime = record r {
        peer_order = rest;
        peer_generations = delete_generation oldest r.peer_generations;
      } in
      elim (Bool-cases (leb 64 (length (oldest ∷ rest)))) [
        | inr room ↦ rw room (h, ground (arith, room, e), rw e absent)
        | inl full ↦
            let size = listed.2 in
            rw full (
              unfold drop_reconciliation in
              (
                drop-IsRuntime limit oldest kept (
                  table,
                  single,
                  queue,
                  evicted-ArePeers r.peer_generations oldest rest listed,
                  inspected,
                ),
                omega (arith, size),
                unfold elem in ground (arith, absent),
              ))
      ]

  note_new :
      (peer : NodeId) (generation : ℕ) (r : Runtime)
      → IsRuntime limit r
      → elem peer r.peer_order ≡ false
      → IsRuntime limit (note_generation peer generation none (touch_peer peer none r))
  unfolding note_generation touch_peer make_room drop_reconciliation
  note_new peer generation r h absent =
      let ((table, single, queue, peers, inspected), room, gone) =
        evict-IsRuntime peer r.peer_order r refl h absent in
      let kept = evict_peer r.peer_order r in
      let ready : Runtime = record kept {
        peer_generations = put_generation peer generation kept.peer_generations;
        peer_order = kept.peer_order ++ peer ∷ [];
      } in
      unfold drop_reconciliation in
      drop-IsRuntime limit peer ready (
        table,
        single,
        queue,
        new_peer-ArePeers kept.peer_generations peer kept.peer_order generation peers gone room,
        inspected,
      )

  note_known :
      (peer generation old : ℕ) (r : Runtime)
      → IsRuntime limit r
      → elem peer r.peer_order ≡ true
      → IsRuntime limit (note_generation peer generation (some old) (touch_peer peer (some old) r))
  unfolding note_generation touch_peer make_room drop_reconciliation
  note_known peer generation old r (table, single, queue, peers, inspected) there =
      let moved = known_peer-ArePeers r.peer_generations peer r.peer_order peers there in
      let order = remove_peer peer r.peer_order ++ peer ∷ [] in
      let last : elem peer order ≡ true =
        elem-append peer peer (remove_peer peer r.peer_order) ∙ ground arith in
      elim (Bool-cases (old == generation)) [
        | inl same ↦ rw same (table, single, queue, moved, inspected)
        | inr changed ↦
            let ready : Runtime = record r {
              peer_generations = put_generation peer generation r.peer_generations;
              peer_order = order;
            } in
            rw changed (
              unfold drop_reconciliation in
              drop-IsRuntime limit peer ready (
                table,
                single,
                queue,
                changed_peer-ArePeers r.peer_generations peer order generation moved last,
                inspected,
              ))
      ]

  note_peer-IsRuntime :
      (peer : NodeId) (generation : ℕ) (r : Runtime)
      → IsRuntime limit r
      → IsRuntime limit (note_peer peer generation r)
  unfolding note_peer count_summary_received
  note_peer-IsRuntime peer generation r h =
      let known = h.3.0 peer in
      let counted = count_summary_received r in
      elim (Option-cases (generation_of peer r.peer_generations)) [
        | inl new ↦ rw new (
            note_new peer generation (unfold count_summary_received in counted) h
              (sym known ∙ ap is_known new))
        | inr (old, there) ↦ rw there (
            note_known peer generation old (unfold count_summary_received in counted) h
              (sym known ∙ ap is_known there))
      ]

  compare_root-IsRuntime :
      (env : Env) (now : ℕ) (peer : NodeId) (r : Runtime) (decoded : Result RadixSummary)
      → IsRuntime limit r
      → IsRuntime limit (compare_root env now peer r decoded)
  unfolding compare_root
  compare_root-IsRuntime env now peer r (err e) h = h
  compare_root-IsRuntime env now peer r (ok remote) h =
      elim (Bool-cases (not (length remote.prefix == 0))) [
        | inl below ↦ rw below h
        | inr root ↦ rw root (
            queue_all-IsRuntime limit env now peer remote.generation _ _
              (note_peer-IsRuntime peer remote.generation r h))
      ]

  pub handle_root_summary-IsRuntime :
      (env : Env) (now : ℕ) (p : Packet) (r : Runtime)
      → IsRuntime limit r
      → IsRuntime limit (handle_root_summary env now p r)
  unfolding handle_root_summary
  handle_root_summary-IsRuntime env now p r h =
      compare_root-IsRuntime env now p.source r (decode_summary p) h
