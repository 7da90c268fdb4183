-- ===== src/Tests/Settings.antt =====
-- The traffic controller and the configuration.
use ghost_cache.Common.{
  ℕ, ◌+◌, ◌*◌, ◌^◌, ◌≤◌, ◌<◌, ◌≡◌, refl, arith, true, List, [], ◌∷◌, none, some, leb, bytes_eq, ok,
}
use ghost_cache.Node.Controller.{
  addressed_us, TrafficEvent, Controller, Pressure, millisecond, prune_events, prune, quiet_time,
  batch_size, class_weight, count_class, observe, note_tx, note_signal, can_initiate, defer_base,
  defer, startup_delay,
}
use ghost_cache.Node.Controller.Turns.{Ascending}
use ghost_cache.Common.{trim_space, trim_left, trim_right, to_upper}
use ghost_cache.Config.{
  ConfigFile, has_suffix, suffixes, split_suffix, parse_digits, parse_uint, scale, parse_size,
}
use ghost_cache.Config.Bounds.{parse_size_exact}

-- In place of the decaying sum: the number of events.
abbrev counted : ℕ → List TrafficEvent → ℕ
counted n [] = n
counted n (e ∷ events) = counted (n + 1) events

abbrev crowd : List TrafficEvent → ℕ → Pressure
crowd events now = record {
  at_least = λ k. leb k (counted 0 events);
  wait_ms = 75 * counted 0 events;
}

abbrev idle : Controller
idle = record {
  events = [];
  last_activity = 0;
  defer_until = 0;
  stats = record {
    rx_packets = 0;
    tx_packets = 0;
    broadcasts = 0;
    others = 0;
    ours = 0;
    expecteds = 0;
    failures = 0;
    deferred = 0;
    last_rssi = 0;
    last_snr = 0;
  };
}

abbrev heard : Controller
heard = record idle {
  events = record { at = 1000; weight = 8 } ∷ [];
  last_activity = 1000;
  stats = record idle.stats { ours = 1; rx_packets = 1 };
}

observe_run : observe 1000 addressed_us idle ≡ heard
unfolding observe prune prune_events class_weight count_class
observe_run = refl

notes_run :
    ((note_tx 5 idle).last_activity ≡ 5)
    × ((note_signal 7 8 idle).stats.last_snr ≡ 8)
    × (batch_size (crowd heard.events 0) ≡ 4)
    × (startup_delay 10 3 ≡ 3)
unfolding note_tx note_signal batch_size startup_delay
notes_run = (refl, refl, refl, refl)

may_speak : (can_initiate crowd (200 * millisecond) heard).0 ≡ true
unfolding can_initiate quiet_time prune prune_events
may_speak = refl

defer_small : 5 ≤ defer_base (crowd (prune 2000 heard).events 2000) true
unfolding defer_base prune prune_events
defer_small = omega arith

defer_early : 3000 < 2000 + (defer crowd 2000 true 5 heard).0
unfolding defer defer_base prune prune_events
defer_early = omega arith

abbrev log : List TrafficEvent
log = record { at = 0; weight = 4 } ∷ record { at = 30000 * millisecond; weight = 4 } ∷ []

log-Ascending : Ascending 0 log
unfolding Ascending
log-Ascending = (omega arith, (omega arith, tt))

abbrev sample : ConfigFile
sample = record {
  data_dir = b'd' ∷ [];
  device = b't' ∷ [];
  frequency_mhz = none;
  spreading_factor = some 9;
  bandwidth_khz = none;
  coding_rate = none;
  tx_power_dbm = some 250;
  preamble = none;
  sync_word = none;
  advertise_interval = 10;
  startup_backoff = 5;
  signature_policy = [];
}

-- " 2kib".
abbrev two_kib : List ℕ
two_kib = 32 ∷ b'2' ∷ b'k' ∷ b'i' ∷ b'b' ∷ []

two_kib_read : parse_size two_kib ≡ ok 2048
unfolding parse_size split_suffix has_suffix trim_space trim_left trim_right to_upper bytes_eq
    parse_uint parse_digits scale
two_kib_read = refl

parse_size_exact_example :
    (number : ℕ) × (parse_uint (split_suffix suffixes (to_upper (trim_space two_kib))).0
      ≡ ok number)
    × (2048 ≡ number * (split_suffix suffixes (to_upper (trim_space two_kib))).1)
    × (2048 < 2 ^ 64)
parse_size_exact_example = parse_size_exact two_kib 2048 two_kib_read
