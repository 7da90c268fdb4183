-- ===== src/Node/Controller.antt =====
-- internal/node/controller.go: how busy the radio is, and when a node may speak. A time is a number of
-- nanoseconds, 0 the zero time; a weight is counted in quarters. The floating-point sum of `Pressure`
-- is a parameter that says which bounds it reaches and how many milliseconds 75 times it makes.
pub mod Turns
use ghost_cache.Common.{
  ℕ, suc, ◌+◌, ◌*◌, ◌/◌, ◌≤◌, ◌<◌, Bool, true, false, not, ◌&&◌, List, [], ◌∷◌, ◌++◌, ltb, ◌==◌,
  if◌then◌else◌,
}
use ghost_cache.Node.Packet.{max_chunk_batch}

pub data TrafficClass : Type 0 where
  broadcast_traffic addressed_other addressed_us expected failure : TrafficClass

pub record TrafficEvent : Type 0 where
  pub at : ℕ
  pub weight : ℕ

pub record TrafficStats : Type 0 where
  pub rx_packets : ℕ
  pub tx_packets : ℕ
  pub broadcasts : ℕ
  pub others : ℕ
  pub ours : ℕ
  pub expecteds : ℕ
  pub failures : ℕ
  pub deferred : ℕ
  pub last_rssi : ℕ
  pub last_snr : ℕ

pub record Controller : Type 0 where
  pub events : List TrafficEvent
  pub last_activity : ℕ
  pub defer_until : ℕ
  pub stats : TrafficStats

-- What the code asks of the pressure.
pub record Pressure : Type 0 where
  pub at_least : ℕ → Bool
  pub wait_ms : ℕ

abbrev pub millisecond : ℕ
millisecond = 1000000

abbrev pub window : ℕ
window = 20000 * millisecond

-- Events before `now - 20 s` at the head of the list are dropped.
unfoldable pub prune_events : ℕ → List TrafficEvent → List TrafficEvent
prune_events now [] = []
prune_events now (e ∷ events) =
    let rest = prune_events now events in if ltb (e.at + window) now then rest else e ∷ events

unfoldable pub prune : ℕ → Controller → Controller
prune now c = record c { events = prune_events now c.events }

unfoldable pub class_weight : TrafficClass → ℕ
class_weight broadcast_traffic = 6
class_weight addressed_other = 10
class_weight addressed_us = 8
class_weight expected = 3
class_weight failure = 16

-- The counters are uint64 and are taken not to overflow.
unfoldable pub count_class : TrafficClass → TrafficStats → TrafficStats
count_class broadcast_traffic s = record s {
  broadcasts = suc s.broadcasts;
  rx_packets = suc s.rx_packets;
}
count_class addressed_other s = record s { others = suc s.others; rx_packets = suc s.rx_packets }
count_class addressed_us s = record s { ours = suc s.ours; rx_packets = suc s.rx_packets }
count_class expected s = record s { expecteds = suc s.expecteds; rx_packets = suc s.rx_packets }
count_class failure s = record s { failures = suc s.failures }

unfoldable pub observe : ℕ → TrafficClass → Controller → Controller
observe now class c = prune now (record c {
  stats = count_class class c.stats;
  events = c.events ++ record { at = now; weight = class_weight class } ∷ [];
  last_activity = now;
})

unfoldable pub note_tx : ℕ → Controller → Controller
note_tx now c = record c {
  stats = record c.stats { tx_packets = suc c.stats.tx_packets };
  last_activity = now;
}

unfoldable pub note_signal : ℕ → ℕ → Controller → Controller
note_signal rssi snr c = record c { stats = record c.stats { last_rssi = rssi; last_snr = snr } }

unfoldable pub batch_size : Pressure → ℕ
batch_size p =
    if p.at_least 10
    then 1
    else if p.at_least 6
    then 2
    else if p.at_least 3
    then 3
    else max_chunk_batch

-- How long the radio must have been quiet.
unfoldable pub quiet_time : Pressure → ℕ
quiet_time p =
    if p.at_least 10
    then 1500 * millisecond
    else if p.at_least 6
    then 800 * millisecond
    else if p.at_least 3
    then 350 * millisecond
    else 150 * millisecond

abbrev pub count_deferred : Controller → Controller
count_deferred c = record c { stats = record c.stats { deferred = suc c.stats.deferred } }

-- `Pressure` prunes first.
unfoldable pub can_initiate :
    (List TrafficEvent → ℕ → Pressure) → ℕ → Controller → Bool × Controller
can_initiate pressure now c =
    let pruned = prune now c in
    if ltb now c.defer_until
    then (false, count_deferred c)
    else if not (c.last_activity == 0)
        && ltb now (c.last_activity + quiet_time (pressure pruned.events now))
    then (false, count_deferred pruned)
    else (true, pruned)

-- At most four seconds.
unfoldable pub defer_base : Pressure → Bool → ℕ
defer_base p failed =
    let base = 100 * millisecond + p.wait_ms * millisecond in
    let doubled = if failed then base * 2 else base in
    if ltb (4000 * millisecond) doubled then 4000 * millisecond else doubled

-- The draw is what `Int63n` returned, below base + 1.
unfoldable pub defer :
    (List TrafficEvent → ℕ → Pressure) → ℕ → Bool → ℕ → Controller → ℕ × Controller
defer pressure now failed draw c =
    let pruned = prune now c in
    let delay = defer_base (pressure pruned.events now) failed / 2 + draw in
    (delay, record pruned { defer_until = now + delay })

unfoldable pub startup_delay : ℕ → ℕ → ℕ
startup_delay longest draw = if ltb 0 longest then draw else 0
