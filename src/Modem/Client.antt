-- ===== src/Modem/Client.antt =====
-- `Client` of internal/modem/client.go: frames over a serial port, requests and their answers. The
-- port and the clock are parameters, which change a state `W` of their own. The locks, which let one
-- call read at a time, are not modelled.

pub mod Answers
pub mod Ends
pub mod Laws
pub mod Once
pub mod Reads
pub mod Sends
pub mod Request
pub mod Rounds
use ghost_cache.Common.{
  ℕ, zero, suc, ◌+◌, ◌-◌, ◌%◌, ◌^◌, min, Bool, true, false, ◌&&◌, ◌||◌, List, [], ◌∷◌, ◌++◌, drop,
  Option, none, some, ltb, leb, ◌==◌, if◌then◌else◌, length, Error, Result, ok, err, io_error,
  refused, modem_timeout, modem_error,
}
use ghost_cache.Modem.Frame.{Frame, encode_frame}
use ghost_cache.Modem.Messages.{RadioConfig, TxResult, encode_config, decode_result}
use ghost_cache.Modem.Decoder.{StreamDecoder, push, initial}

-- What `Read` gives: bytes, bytes with `io.EOF`, or bytes with another error; or it never returns.
pub data Read : Type 0 where
  got end_of_file read_error : List ℕ → Read
  blocks : Read

-- `serialPort`, and `time.Now`. A time-out of `none` is `serial.NoTimeout`; `set_read_timeout` says
-- whether it succeeds.
pub record Host (W : Type 0) : Type 0 where
  pub set_read_timeout : Option ℕ → W → W × Bool
  pub read : W → W × Read
  pub write : List ℕ → W → W × Result ℕ
  pub close : W → W
  pub now : W → W × ℕ

pub record Client (W : Type 0) : Type 0 where
  pub world : W
  pub seq : ℕ
  pub decoder : StreamDecoder
  pub pending : List Frame

-- What a call comes to that may not return: its result, or that it still waits.
pub data Outcome (A : Type 0) : Type 0 where
  returned : Result A → Outcome A
  waiting : Outcome A

module _ {W : Type 0} where
  abbrev pub with_world : Client W → W → Client W
  with_world c w = record c { world = w }

  abbrev pub count_up : Client W → Client W
  count_up c = record c { seq = (c.seq + 1) % 2 ^ 16 }

  abbrev pub decode_bytes : Client W → W → List ℕ → Client W × Outcome (List Frame)
  decode_bytes c w bytes =
      let pushed = push c.decoder bytes in
      (record c { world = w; decoder = pushed.decoder }, returned (ok pushed.frames))

  abbrev pub after_read : Client W → W × Read → Client W × Outcome (List Frame)
  after_read c (w, got bytes) = decode_bytes c w bytes
  after_read c (w, end_of_file bytes) = decode_bytes c w bytes
  after_read c (w, read_error bytes) = (with_world c w, returned (err io_error))
  after_read c (w, blocks) = (with_world c w, waiting)

  abbrev pub sent_frame : Client W → W × Result (Unit {0}) → Client W × Result ℕ
  sent_frame c (w, err e) = (with_world c w, err e)
  sent_frame c (w, ok done) = (with_world c w, ok c.seq)

module _ {W : Type 0} (h : Host W) where
  abbrev pub after_write :
      (List ℕ → W → W × Result (Unit {0})) → List ℕ → W × Result ℕ → W × Result (Unit {0})
  after_write again bytes (w, err e) = (w, err e)
  after_write again bytes (w, ok n) = if n == 0 then (w, err io_error) else again (drop n bytes) w

  -- A write that succeeds takes a byte at least, so that as many writes as bytes are enough.
  unfoldable pub write_loop : ℕ → List ℕ → W → W × Result (Unit {0})
  write_loop fuel [] w = (w, ok tt)
  write_loop zero (b ∷ bytes) w = (w, err io_error)
  write_loop (suc fuel) (b ∷ bytes) w =
      after_write (write_loop fuel) (b ∷ bytes) (h.write (b ∷ bytes) w)

  -- `writeAll`.
  abbrev pub write_all : List ℕ → W → W × Result (Unit {0})
  write_all bytes w = write_loop (length bytes) bytes w

  abbrev pub send_encoded : Client W → Result (List ℕ) → Client W × Result ℕ
  send_encoded c (err e) = (c, err e)
  send_encoded c (ok wire) = sent_frame c (write_all wire c.world)

  -- `Send`.
  unfoldable pub send : ℕ → List ℕ → Client W → Client W × Result ℕ
  send type payload c =
      send_encoded (count_up c)
        (encode_frame (record { type = type; sequence = (count_up c).seq; payload = payload }))

  abbrev pub after_setting : Client W → W × Bool → Client W × Outcome (List Frame)
  after_setting c (w, false) = (with_world c w, returned (err io_error))
  after_setting c (w, true) = after_read c (h.read w)

  abbrev pub read_until : Client W → ℕ → W × ℕ → Client W × Outcome (List Frame)
  read_until c deadline (w, t) =
      if leb deadline t
      then (with_world c w, returned (err modem_timeout))
      else after_setting c (h.set_read_timeout (some (deadline - t)) w)

  -- `readAvailable`; a deadline of `none` is the zero time.
  unfoldable pub read_available : Option ℕ → Client W → Client W × Outcome (List Frame)
  read_available none c = after_setting c (h.set_read_timeout none c.world)
  read_available (some deadline) c = read_until c deadline (h.now c.world)
