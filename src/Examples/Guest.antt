-- ===== src/Examples/Guest.antt =====
-- The theorems on the guest's transport at a guest of the in-memory backend.
use vt_ferry.Prelude.{
  ℕ, ◌≡◌, refl, true, false, Bool, none, some, List, [], ◌∷◌, replicate, length, ◌<◌, arith, sum_by,
  find_first,
}
use vt_ferry.Protocol.LittleEndian.{little_endian}
use vt_ferry.Mock.State.{MockBackend}
use vt_ferry.Protocol.Codes.{opcode_of}
use vt_ferry.Mock.Handles.{find_pool, find_recyclable_buffer, write_slot}
use vt_ferry.Mock.Transfer.{err, ◌>>=◌, or_refuse, read_pod}
use vt_ferry.Mock.Dispatch.{dispatch}
use vt_ferry.Mock.PoolOps.{on_alloc_buffer}
use vt_ferry.Server.Backend.{Backend}
use vt_ferry.Server.InMemory.{mock_backend}
use vt_ferry.Transport.Sending.{
  Socket, Transport, Env, frame_delay_err, request_header, ensure_backend, round_trip, send_frame,
  send_request_bytes, heartbeat,
}
use vt_ferry.Transport.Terminal.{Fails, Run, Step, transport-terminal}
use vt_ferry.Transport.Releases.{
  output_release_batch_size, flush_deferred_output_releases, release_output,
}
use vt_ferry.Transport.Deferral.{release_output-bounded}
use vt_ferry.Transport.Worker.{Worker, worker_socket, idle, IsAnswer, outcome_of}
use vt_ferry.Transport.Delivery.{connected, send_request_bytes-dispatch}
use vt_ferry.Examples.Backend.{small_backend}

abbrev in_memory : Backend MockBackend
in_memory = mock_backend little_endian

abbrev guest : Env (Worker MockBackend)
guest = record {
  socket = worker_socket little_endian in_memory;
  open_backend = some (idle small_backend (replicate 400 0));
  defer_releases = false;
  release_batch_size = none;
  drop_on_destroy = false;
}

-- ALLOC_BUFFER from pool 1001.
abbrev alloc_bytes : List ℕ
alloc_bytes = 233 ∷ 3 ∷ 0 ∷ 0 ∷ 0 ∷ 0 ∷ 0 ∷ 0 ∷ []

alloc-IsAnswer : IsAnswer (
    in_memory.dispatch small_backend
      (request_header 0x32 7 alloc_bytes)
      alloc_bytes
      (replicate 400 0))
unfolding mock_backend dispatch request_header opcode_of on_alloc_buffer ◌>>=◌ or_refuse read_pod
    sum_by find_pool find_first little_endian find_recyclable_buffer write_slot
alloc-IsAnswer = record { flags_u32 = omega arith; status_u32 = omega arith }

send_request_bytes-dispatch_example :
    let header = request_header 0x32 7 alloc_bytes in
    let a = in_memory.dispatch small_backend header alloc_bytes (replicate 400 0) in
    send_request_bytes little_endian guest 0x32 alloc_bytes
      (connected little_endian in_memory guest small_backend (replicate 400 0) 7 false (5000 ∷ []))
    ≡ (
      outcome_of header a,
      connected little_endian in_memory guest a.backend a.res_payload 8 false (5000 ∷ []),
    )
send_request_bytes-dispatch_example =
    send_request_bytes-dispatch little_endian in_memory guest refl 0x32 7 alloc_bytes small_backend
      (replicate 400 0) false (5000 ∷ []) (omega arith) (omega arith) (omega arith) (omega arith)
      alloc-IsAnswer

-- A socket that has been hung up.
abbrev dead_socket : Socket Bool
dead_socket = record { write_all = λ bytes s. (false, s); read_exact = λ n s. (none, s) }

abbrev dead_env : Env Bool
dead_env = record {
  socket = dead_socket;
  open_backend = some true;
  defer_releases = false;
  release_batch_size = none;
  drop_on_destroy = false;
}

-- Nothing has been dialled yet; the first request dials, and its write fails.
abbrev not_dialled : Transport Bool
not_dialled = record { backend = none; killed = false; deferred = 5000 ∷ [] }

abbrev hung_up : Transport Bool
hung_up = (send_request_bytes little_endian dead_env 0x02 [] not_dialled).1

abbrev later : Transport Bool
later =
    (send_request_bytes little_endian dead_env 0x02 []
      (heartbeat little_endian dead_env true hung_up)).1

transport-terminal_example :
    (later.killed ≡ true)
    × (later.backend ≡ none)
    × ((opcode : ℕ) (payload : List ℕ)
        → send_request_bytes little_endian dead_env opcode payload later
          ≡ (err frame_delay_err, later))
unfolding ensure_backend round_trip send_frame
transport-terminal_example =
    transport-terminal little_endian dead_env {s = not_dialled} {t = not_dialled} {u = hung_up}
      {v = later} (record { alive = λ b e. absurd (cc); clean = λ b e. absurd (cc) }) Run.here
      (Fails.request_fails 0x02 [] (record { stream = true; request_id = 1; poisoned = false }) refl
        refl)
      (Run.next (Run.next Run.here (Step.beat true hung_up))
        (Step.request 0x02 [] (heartbeat little_endian dead_env true hung_up)))

abbrev deferring : Env Bool
deferring = record dead_env { defer_releases = true; release_batch_size = some 2 }

abbrev with_one_deferred : Transport Bool
with_one_deferred = record { backend = none; killed = false; deferred = 5000 ∷ [] }

release_output-bounded_example :
    (length (release_output little_endian deferring 5001 with_one_deferred).1.deferred < 2)
    × ((flush_deferred_output_releases little_endian deferring with_one_deferred).1.deferred ≡ [])
unfolding output_release_batch_size
release_output-bounded_example =
    release_output-bounded little_endian deferring 5001 with_one_deferred (omega arith)
