-- ===== src/Tests/Client.antt =====
-- The serial client of internal/modem/client.go on a port that takes three bytes at a time.
use ghost_cache.Common.{
  ◌≢◌, zero, suc, ℕ, ◌+◌, ◌<◌, get_le, ◌≡◌, ◌⊎◌, refl, sym, true, List, [], ◌∷◌, ◌++◌, append-nil,
  arith, length, length-take, take, Result, Error, ok, err,
}
use ghost_cache.Modem.Frame.{Frame, encode_frame, decode_frame, decode_raw, raw_frame, frame_head}
use ghost_cache.Modem.Cobs.{cobs_encode, cobs_decode}
use ghost_cache.Modem.Crc.{crc32}
use ghost_cache.Modem.Decoder.{initial, push, push_bytes, push_byte, end_record, report}
use ghost_cache.Modem.Decoder.Reference.{cut, judge_all, leave_open, push-reference}
use ghost_cache.Modem.Client.{
  Read, got, blocks, returned, Host, Client, send, read_available, write_loop,
}
use ghost_cache.Modem.Client.Request.{
  msg_info_request, msg_status, is_status, take_answer, request_loop, request, request_with_retry,
}
use ghost_cache.Modem.Client.Laws.{HostLaws, IsSilent, bytes_of}
use ghost_cache.Modem.Client.Answers.{request_answers, IsConcluded}
use ghost_cache.Modem.Client.Ends.{request_with_retry_ends, IsReturned}
use ghost_cache.Modem.Client.Sends.{SentOnce}
use ghost_cache.Modem.Client.Once.{request_once}

record Bench : Type 0 where
  clock : ℕ
  reads : List (List ℕ)
  read_bytes : List ℕ
  written : List ℕ

abbrev read_next : Bench → List (List ℕ) → Bench × Read
read_next w [] = (record w { clock = w.clock + 1000 }, got [])
read_next w (r ∷ reads) =
    (record w { clock = w.clock + 10; reads = reads; read_bytes = w.read_bytes ++ r }, got r)

abbrev bench : Host Bench
bench = record {
  set_read_timeout = λ limit w. (w, true);
  read = λ w. read_next w w.reads;
  write = λ bytes w. (
    record w { clock = w.clock + 1; written = w.written ++ take 3 bytes },
    ok (length (take 3 bytes)),
  );
  close = λ w. w;
  now = λ w. (record w { clock = w.clock + 1 }, w.clock);
}

read_next_time : (w : Bench) (reads : List (List ℕ)) → w.clock < (read_next w reads).0.clock
read_next_time w [] = omega arith
read_next_time w (r ∷ reads) = omega arith

read_next_returns : (w : Bench) (reads : List (List ℕ)) → (read_next w reads).1 ≢ blocks
read_next_returns w [] stuck = cc stuck
read_next_returns w (r ∷ reads) stuck = cc stuck

read_next_written : (w : Bench) (reads : List (List ℕ)) → (read_next w reads).0.written ≡ w.written
read_next_written w [] = refl
read_next_written w (r ∷ reads) = refl

read_next_arrived :
    (w : Bench) (reads : List (List ℕ))
    → (read_next w reads).0.read_bytes ≡ w.read_bytes ++ bytes_of (read_next w reads).1
read_next_arrived w [] = sym (append-nil w.read_bytes)
read_next_arrived w (r ∷ reads) = refl

ok_count : (a b : ℕ) → ok a ≡ ok b → b ≡ a
ok_count a b same = cc same

take_length : (k : ℕ) (bytes : List ℕ) → take (length (take k bytes)) bytes ≡ take k bytes
take_length zero bytes = refl
take_length (suc k) [] = refl
take_length (suc k) (b ∷ bytes) = rw (take_length k bytes) refl

bench-HostLaws : HostLaws bench
bench-HostLaws = record {
  time = λ w. w.clock;
  sent = λ w. w.written;
  arrived = λ w. w.read_bytes;
  setting_time = λ limit w. omega arith;
  setting_sent = λ limit w. refl;
  setting_arrived = λ limit w. refl;
  read_returns = λ limit w set stuck. read_next_returns w w.reads stuck;
  read_time = λ w. read_next_time w w.reads;
  read_sent = λ w. read_next_written w w.reads;
  read_arrived = λ w. read_next_arrived w w.reads;
  write_time = λ bytes w. omega arith;
  write_arrived = λ bytes w. refl;
  write_count = λ bytes w n taken.
      omega (arith, ok_count (length (take 3 bytes)) n taken, length-take 3 bytes);
  write_sent =
      λ bytes w n taken. rw (ok_count (length (take 3 bytes)) n taken, take_length 3 bytes) refl;
  now_value = λ w. omega arith;
  now_time = λ w. omega arith;
  now_sent = λ w. refl;
  now_arrived = λ w. refl;
}

-- The wire of a status with sequence number 1, behind noise and a packet.
abbrev answer : Frame
answer = record { type = msg_status; sequence = 1; payload = 7 ∷ [] }

abbrev packet : Frame
packet = record { type = 129; sequence = 0; payload = [] }

abbrev wire_of : Result (List ℕ) → List ℕ
wire_of (ok wire) = wire
wire_of (err e) = []

abbrev board : Client Bench
board = record {
  world = record {
    clock = 5;
    reads =
        (2 ∷ 1 ∷ 0 ∷ []) ∷ (wire_of (encode_frame packet) ++ wire_of (encode_frame answer)) ∷ [];
    read_bytes = [];
    written = [];
  };
  seq = 0;
  decoder = initial;
  pending = [];
}

abbrev patience : ℕ
patience = 10000

-- The answer is found, and the packet waits.
answered_run :
    let r = request_with_retry bench msg_info_request [] patience 400 is_status board in
    (r.1 ≡ returned (ok answer)) × (r.0.pending ≡ packet ∷ [])
unfolding request_with_retry send request_loop take_answer read_available write_loop push push_bytes
    push_byte end_record report encode_frame decode_frame decode_raw raw_frame frame_head
    cobs_encode cobs_decode crc32 get_le
answered_run = (refl, refl)

request_answers_example :
    IsConcluded bench-HostLaws 1 is_status board
      (request_with_retry bench msg_info_request [] patience 400 is_status board)
request_answers_example =
    request_answers bench-HostLaws msg_info_request [] patience 400 is_status board

request_with_retry_ends_example :
    IsReturned (request_with_retry bench msg_info_request [] patience 400 is_status board).1
request_with_retry_ends_example =
    request_with_retry_ends bench-HostLaws msg_info_request [] patience 400 is_status board

request_once_example :
    let r = request bench msg_info_request [] patience is_status board in
    let s = send bench msg_info_request [] board in
    ((patience ≡ 0) × IsSilent bench-HostLaws board r.0)
    ⊎ (((e : Error) × (s.1 ≡ err e) × IsSilent bench-HostLaws s.0 r.0)
        ⊎ SentOnce bench-HostLaws
            (record { type = msg_info_request; sequence = 1; payload = [] })
            board.world
            r.0.world)
request_once_example = request_once bench-HostLaws msg_info_request [] patience is_status board

push-reference_example :
    let (records, rest) = cut [] (8 ∷ 0 ∷ 0 ∷ 5 ∷ []) in
    push initial (8 ∷ 0 ∷ 0 ∷ 5 ∷ [])
    ≡ leave_open rest (judge_all (record { decoder = initial; frames = []; errs = [] }) records)
push-reference_example = push-reference (8 ∷ 0 ∷ 0 ∷ 5 ∷ [])
