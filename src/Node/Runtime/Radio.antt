-- ===== src/Node/Runtime/Radio.antt =====
-- `send`, `fail` and the random draws of internal/node/runtime.go.
use ghost_cache.Common.{
  ℕ, suc, ◌+◌, ◌/◌, Bool, true, false, List, [], ◌∷◌, ◌++◌, none, ◌==◌, if◌then◌else◌, Result, ok,
  err,
}
use ghost_cache.Node.Kind
use ghost_cache.Node.Controller.{failure, observe, note_tx, prune, defer, defer_base}
use ghost_cache.Node.Scheduler.{backoff}
use ghost_cache.Node.Runtime.{Acquisition, Runtime, Env}
use ghost_cache.Node.Runtime.Table.{update}

-- `rng.Int63n(bound)`: the value, and the runtime after it.
unfoldable pub next_draw : Env → ℕ → Runtime → ℕ × Runtime
next_draw env bound r = (env.draw r.draws bound, record r { draws = suc r.draws })

-- `Controller.Observe` and `Controller.Defer(now, true)`.
unfoldable pub observe_failure : ℕ → Runtime → Runtime
observe_failure now r = record r { controller = observe now failure r.controller }

unfoldable pub defer_failed : Env → ℕ → Runtime → Runtime
defer_failed env now r =
    let bound = suc (defer_base (env.pressure (prune now r.controller).events now) true) in
    record r {
      controller = (defer env.pressure now true (env.draw r.draws bound) r.controller).1;
      draws = suc r.draws;
    }

-- `send`, and whether it succeeded.
unfoldable pub send : Env → ℕ → List ℕ → Runtime → Runtime × Bool
send env now wire r =
    if env.send_fails r.sends
    then (defer_failed env now (observe_failure now (record r { sends = suc r.sends })), false)
    else (
      record r {
        sends = suc r.sends;
        sent = r.sent ++ wire ∷ [];
        controller = note_tx now r.controller;
      },
      true,
    )

-- `wire, _ := Encode...`: nil after an error.
abbrev pub wire_of : Result (List ℕ) → List ℕ
wire_of (ok wire) = wire
wire_of (err e) = []

-- A draw from the second half of a backoff.
unfoldable pub backoff_draw : Env → ℕ → Runtime → ℕ
backoff_draw env failures r = backoff failures + env.draw r.draws (suc (backoff failures / 2))

-- `time.Now().Add(r.cfg.ResponseTimeout)`.
unfoldable pub response_deadline : Env → Runtime → ℕ
response_deadline env r = env.clock r.sends + env.response_timeout

abbrev pub failed_manifest : Acquisition → Acquisition
failed_manifest a =
    if a.waiting == Kind.signature then record a { manifest = none; manifest_source = 0 } else a

-- What `fail` makes of the acquisition.
unfoldable pub failed : Env → ℕ → Acquisition → Runtime → Acquisition
failed env now a r = record (failed_manifest a) {
  waiting = 0;
  wanted = [];
  active_source = 0;
  failures = suc a.failures;
  next_attempt = now + backoff_draw env (suc a.failures) r;
}

-- `fail`.
unfoldable pub fail : Env → ℕ → Acquisition → Runtime → Runtime
fail env now a r =
    defer_failed env now (update (failed env now a r) (record r { draws = suc r.draws }))
