-- ===== src/Node/Controller/Turns.antt =====
-- When a node may speak.
use ghost_cache.Common.{
  ℕ, ◌+◌, ◌*◌, ◌/◌, ◌≤◌, ◌<◌, ◌≡◌, ◌⊎◌, refl, arith, inl, inr, Bool, true, false, not, ◌&&◌,
  Bool-cases, List, [], ◌∷◌, All, ltb, ltb→le, ◌==◌, ==_iff,
}
use ghost_cache.Node.Controller.{
  TrafficEvent, Controller, Pressure, millisecond, window, prune_events, prune, quiet_time,
  can_initiate, defer_base, defer,
}

-- Times do not go back along a list of events, and end before a time.
unfoldable pub Ascending : ℕ → List TrafficEvent → Type 0
Ascending from [] = Unit
Ascending from (e ∷ events) = (from ≤ e.at) × Ascending e.at events

prune_events-recent :
    (now from : ℕ) (events : List TrafficEvent)
    → Ascending from events
    → now ≤ from + window
    → All (λ e. now ≤ e.at + window) events
unfolding Ascending
prune_events-recent now from [] h b = tt
prune_events-recent now from (e ∷ events) h b =
    let here : now ≤ e.at + window = omega (arith, h.0) in
    (here, prune_events-recent now e.at events h.1 here)

-- When events are in the order of their times, only those of the last 20 seconds are kept.
pub prune_events_recent :
    (now from : ℕ) (events : List TrafficEvent)
    → Ascending from events
    → All (λ e. now ≤ e.at + window) (prune_events now events)
unfolding Ascending prune_events
prune_events_recent now from [] h = tt
prune_events_recent now from (e ∷ events) h = elim (Bool-cases (ltb (e.at + window) now)) [
  | inl old ↦ rw old (prune_events_recent now e.at events h.1)
  | inr young ↦
      let here = ltb→le _ _ young in rw young (here, prune_events-recent now e.at events h.1 here)
]

quiet_time_bounds :
    (p : Pressure) → (150 * millisecond ≤ quiet_time p) × (quiet_time p ≤ 1500 * millisecond)
unfolding quiet_time
quiet_time_bounds p = (
  ground (arith, Bool-cases (p.at_least 10), Bool-cases (p.at_least 6), Bool-cases (p.at_least 3)),
  ground (arith, Bool-cases (p.at_least 10), Bool-cases (p.at_least 6), Bool-cases (p.at_least 3)),
)

-- A node speaks only when its deferral is over, and when the radio has been quiet for the time that
-- the pressure asks for, which is 150 ms at least.
pub can_initiate_sound :
    (pressure : List TrafficEvent → ℕ → Pressure) (now : ℕ) (c : Controller)
    → (can_initiate pressure now c).0 ≡ true
    → (c.defer_until ≤ now)
      × ((c.last_activity ≡ 0)
          ⊎ ((c.last_activity + quiet_time (pressure (prune now c).events now) ≤ now)
              × (c.last_activity + 150 * millisecond ≤ now)))
unfolding can_initiate
can_initiate_sound pressure now c h =
    let p = pressure (prune now c).events now in
    let (least, most) = quiet_time_bounds p in
    elim (Bool-cases (ltb now c.defer_until)) [
      | inl waiting ↦ cc (rw waiting at h)
      | inr over ↦
          elim (Bool-cases
            (not (c.last_activity == 0) && ltb now (c.last_activity + quiet_time p))) [
              | inl loud ↦ cc (rw (over, loud) at h)
              | inr calm ↦ (
                ltb→le _ _ over,
                elim (Bool-cases (c.last_activity == 0)) [
                  | inl never ↦ inl ((==_iff _ _).0 never)
                  | inr once ↦
                      let quiet : c.last_activity + quiet_time p ≤ now =
                        ground (arith, calm, once) in
                      inr (quiet, omega arith)
                ],
              )
            ]
    ]

defer_base-le : (p : Pressure) (failed : Bool) → defer_base p failed ≤ 4000 * millisecond
unfolding defer_base
defer_base-le p failed = ground (arith, Bool-cases failed)

-- A deferral is at most six seconds, and until it is over the node does not speak.
pub defer_holds :
    (pressure : List TrafficEvent → ℕ → Pressure) (now later draw : ℕ) (failed : Bool)
    (c : Controller)
    → draw ≤ defer_base (pressure (prune now c).events now) failed
    → later < now + (defer pressure now failed draw c).0
    → ((can_initiate pressure later (defer pressure now failed draw c).1).0 ≡ false)
      × ((defer pressure now failed draw c).0 ≤ 6000 * millisecond)
unfolding can_initiate defer
defer_holds pressure now later draw failed c small h =
    let base = defer_base (pressure (prune now c).events now) failed in
    let most = defer_base-le (pressure (prune now c).events now) failed in
    let early : ltb later (now + (base / 2 + draw)) ≡ true = ground (arith, h) in
    (rw early refl, omega arith)
