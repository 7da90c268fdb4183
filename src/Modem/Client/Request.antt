-- ===== src/Modem/Client/Request.antt =====
-- `ReadFrame`, `ReadFrames`, `Request`, `requestWithRetry`, `Info`, `SetConfig` and `Open` of
-- internal/modem/client.go. The serial port has been opened before `open_client`.
use ghost_cache.Common.{
  ℕ, zero, suc, ◌+◌, ◌*◌, ◌^◌, min, Bool, ◌&&◌, ◌||◌, List, [], ◌∷◌, ◌++◌, Option, none, some, ltb,
  leb, ◌==◌, if◌then◌else◌, Result, ok, err, refused, modem_timeout, modem_error,
}
use ghost_cache.Modem.Frame.{Frame, encode_frame}
use ghost_cache.Modem.Messages.{RadioConfig, TxResult, encode_config, decode_result}
use ghost_cache.Modem.Decoder.{initial}
use ghost_cache.Modem.Client.{
  Host, Client, Outcome, returned, waiting, with_world, write_all, send, read_available,
}

abbrev pub msg_info_request : ℕ
msg_info_request = 1

abbrev pub msg_set_config : ℕ
msg_set_config = 3

abbrev pub msg_status : ℕ
msg_status = 131

abbrev pub msg_error : ℕ
msg_error = 132

-- One call of `requestWithRetry`, after its frame has been sent.
pub record Exchange : Type 0 where
  pub frame : Frame
  pub accept : Frame → Bool
  pub deadline : ℕ
  pub retry_interval : ℕ

abbrev pub answers : ℕ → (Frame → Bool) → Frame → Bool
answers seq accept f = f.sequence == seq && accept f

abbrev pub keep_before : Frame → Option (Frame × List Frame) → Option (Frame × List Frame)
keep_before f none = none
keep_before f (some (found, rest)) = some (found, f ∷ rest)

-- The first frame that answers, and the others.
unfoldable pub take_answer : ℕ → (Frame → Bool) → List Frame → Option (Frame × List Frame)
take_answer seq accept [] = none
take_answer seq accept (f ∷ frames) =
    if answers seq accept f then some (f, frames) else keep_before f (take_answer seq accept frames)

-- The answers that `Info`, `SetConfig` and `Open` wait for.
abbrev pub is_status : Frame → Bool
is_status f = f.type == msg_status || f.type == msg_error

abbrev pub modem_failure : Result TxResult → Result (List ℕ)
modem_failure (err e) = err e
modem_failure (ok r) = err (modem_error r.code)

unfoldable pub status_text : Result Frame → Result (List ℕ)
status_text (err e) = err e
status_text (ok f) =
    if f.type == msg_error then modem_failure (decode_result f.payload) else ok f.payload

abbrev pub text_outcome : Outcome Frame → Outcome (List ℕ)
text_outcome (returned r) = returned (status_text r)
text_outcome waiting = waiting

-- What the loop of `requestWithRetry` does next, with the time of the next retry.
abbrev pub Again : Type 0 → Type 0
Again W = ℕ → Client W → Client W × Outcome Frame

module _ {W : Type 0} (h : Host W) where
  abbrev pub first_frame :
      (Client W → Client W × Outcome Frame)
      → Option ℕ
      → Client W × Outcome (List Frame)
      → Client W × Outcome Frame
  first_frame again deadline (c, waiting) = (c, waiting)
  first_frame again deadline (c, returned (err e)) = (c, returned (err e))
  first_frame again deadline (c, returned (ok (f ∷ frames))) =
      (record c { pending = c.pending ++ frames }, returned (ok f))
  first_frame again none (c, returned (ok [])) = again c
  first_frame again (some deadline) (c, returned (ok [])) =
      let (w, t) = h.now c.world in
      if leb deadline t
      then (with_world c w, returned (err modem_timeout))
      else again (with_world c w)

  unfoldable pub read_loop : ℕ → Option ℕ → Client W → Client W × Outcome Frame
  read_loop zero deadline c = (c, waiting)
  read_loop (suc fuel) deadline c =
      first_frame (read_loop fuel deadline) deadline (read_available h deadline c)

  abbrev pub read_pending : ℕ → Option ℕ → List Frame → Client W → Client W × Outcome Frame
  read_pending fuel limit (f ∷ frames) c = (record c { pending = frames }, returned (ok f))
  read_pending fuel none [] c = read_loop fuel none c
  read_pending fuel (some limit) [] c =
      let (w, t) = h.now c.world in read_loop fuel (some (t + limit)) (with_world c w)

  -- `ReadFrame`. A negative time-out is `none`.
  unfoldable pub read_frame : ℕ → Option ℕ → Client W → Client W × Outcome Frame
  read_frame fuel limit c = read_pending fuel limit c.pending c

  abbrev pub after_handling :
      (Client W → Client W × Outcome (Unit {0}))
      → Client W
      → W × Result (Unit {0})
      → Client W × Outcome (Unit {0})
  after_handling again c (w, err e) = (with_world c w, returned (err e))
  after_handling again c (w, ok done) = again (with_world c w)

  abbrev pub handle_frame :
      (Frame → W → W × Result (Unit {0}))
      → (Client W → Client W × Outcome (Unit {0}))
      → Client W × Outcome Frame
      → Client W × Outcome (Unit {0})
  handle_frame handle again (c, waiting) = (c, waiting)
  handle_frame handle again (c, returned (err e)) = (c, returned (err e))
  handle_frame handle again (c, returned (ok f)) = after_handling again c (handle f c.world)

  -- `ReadFrames`, which only an error ends.
  unfoldable pub read_frames :
      ℕ → (Frame → W → W × Result (Unit {0})) → Client W → Client W × Outcome (Unit {0})
  read_frames zero handle c = (c, waiting)
  read_frames (suc fuel) handle c =
      handle_frame handle (read_frames fuel handle) (read_frame fuel none c)

  abbrev pub after_retry :
      Exchange → Again W → Client W → W × Result (Unit {0}) → Client W × Outcome Frame
  after_retry x again c (w, err e) = (with_world c w, returned (err e))
  after_retry x again c (w, ok done) =
      let (v, t) = h.now w in again (t + x.retry_interval) (with_world c v)

  abbrev pub retransmit : Exchange → Again W → Client W → Result (List ℕ) → Client W × Outcome Frame
  retransmit x again c (err e) = (c, returned (err e))
  retransmit x again c (ok wire) = after_retry x again c (write_all h wire c.world)

  -- The second look at the clock, when the first one says that a retry is due.
  abbrev pub retry_before : Exchange → Again W → ℕ → Client W → W × ℕ → Client W × Outcome Frame
  retry_before x again next c (w, t) =
      if ltb t x.deadline
      then retransmit x again (with_world c w) (encode_frame x.frame)
      else again next (with_world c w)

  abbrev pub retry_due : Exchange → Again W → ℕ → Client W → W × ℕ → Client W × Outcome Frame
  retry_due x again next c (w, t) =
      if ltb t next
      then again next (with_world c w)
      else retry_before x again next (with_world c w) (h.now w)

  abbrev pub search_arrived :
      Exchange
      → Again W
      → ℕ
      → Client W
      → List Frame
      → Option (Frame × List Frame)
      → Client W × Outcome Frame
  search_arrived x again next c frames (some (f, rest)) =
      (record c { pending = c.pending ++ rest }, returned (ok f))
  search_arrived x again next c frames none =
      let kept = record c { pending = c.pending ++ frames } in
      retry_due x again next kept (h.now kept.world)

  abbrev pub take_arrived :
      Exchange → Again W → ℕ → Client W × Outcome (List Frame) → Client W × Outcome Frame
  take_arrived x again next (c, waiting) = (c, waiting)
  take_arrived x again next (c, returned (err e)) = (c, returned (err e))
  take_arrived x again next (c, returned (ok frames)) =
      search_arrived x again next c frames (take_answer x.frame.sequence x.accept frames)

  abbrev pub search_pending :
      Exchange → Again W → ℕ → Client W → Option (Frame × List Frame) → Client W × Outcome Frame
  search_pending x again next c (some (f, rest)) = (record c { pending = rest }, returned (ok f))
  search_pending x again next c none =
      take_arrived x again next (read_available h (some (min next x.deadline)) c)

  abbrev pub before_deadline : Exchange → Again W → ℕ → Client W → W × ℕ → Client W × Outcome Frame
  before_deadline x again next c (w, t) =
      if ltb t x.deadline
      then search_pending x again next (with_world c w)
          (take_answer x.frame.sequence x.accept c.pending)
      else (with_world c w, returned (err modem_timeout))

  unfoldable pub request_loop : ℕ → Exchange → ℕ → Client W → Client W × Outcome Frame
  request_loop zero x next c = (c, waiting)
  request_loop (suc fuel) x next c = before_deadline x (request_loop fuel x) next c (h.now c.world)

  -- The deferred `SetReadTimeout`.
  abbrev pub reset_timeout : Client W × Outcome Frame → Client W × Outcome Frame
  reset_timeout (c, outcome) = (with_world c (h.set_read_timeout none c.world).0, outcome)

  abbrev pub exchange :
      ℕ → List ℕ → ℕ → ℕ → (Frame → Bool) → Client W × Result ℕ → Client W × Outcome Frame
  exchange type payload limit interval accept (c, err e) = (c, returned (err e))
  exchange type payload limit interval accept (c, ok seq) =
      let (w, start) = h.now c.world in
      let (v, sent) = h.now w in
      reset_timeout (
        request_loop (suc limit)
          (record {
            frame = record { type = type; sequence = seq; payload = payload };
            accept = accept;
            deadline = start + limit;
            retry_interval = interval;
          })
          (sent + interval) (with_world c v))

  -- `requestWithRetry`. A duration that is not positive is 0 here.
  unfoldable pub request_with_retry :
      ℕ → List ℕ → ℕ → ℕ → (Frame → Bool) → Client W → Client W × Outcome Frame
  request_with_retry type payload limit interval accept c =
      if limit == 0 || interval == 0
      then (c, returned (err refused))
      else exchange type payload limit interval accept (send h type payload c)

  -- `Request`.
  unfoldable pub request : ℕ → List ℕ → ℕ → (Frame → Bool) → Client W → Client W × Outcome Frame
  request type payload limit accept c = request_with_retry type payload limit limit accept c

  abbrev pub with_text : Client W × Outcome Frame → Client W × Outcome (List ℕ)
  with_text (c, outcome) = (c, text_outcome outcome)

  -- `Info` and `SetConfig`.
  unfoldable pub info : ℕ → Client W → Client W × Outcome (List ℕ)
  info limit c = with_text (request msg_info_request [] limit is_status c)

  unfoldable pub set_config : RadioConfig → ℕ → Client W → Client W × Outcome (List ℕ)
  set_config config limit c =
      with_text (request msg_set_config (encode_config config) limit is_status c)

  abbrev pub opened : Client W × Outcome Frame → Client W × Outcome (Unit {0})
  opened (c, waiting) = (c, waiting)
  opened (c, returned (ok f)) = (c, returned (ok tt))
  opened (c, returned (err e)) = (with_world c (h.close c.world), returned (err e))

  -- `Open`, whose time-outs are 4 s and 400 ms in nanoseconds.
  unfoldable pub open_client : W → Client W × Outcome (Unit {0})
  open_client w = opened (
      request_with_retry msg_info_request [] (4000 * 10 ^ 6) (400 * 10 ^ 6) is_status
        (record { world = w; seq = 0; decoder = initial; pending = [] }))
