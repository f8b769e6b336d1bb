-- ===== src/Transport/Delivery.antt =====
-- The requests of crates/vt-ferry-shim/src/transport.rs with the worker of
-- crates/vt-ferry-worker/src/server.rs at the other end.
use vt_ferry.Prelude.{ℕ, ◌+◌, ◌^◌, ◌≤◌, ◌<◌, ◌≡◌, refl, Bool, false, some, List, length, arith}
use vt_ferry.Protocol.Wire.{Bytemuck}
use vt_ferry.Mock.Handles.{to_u64}
use vt_ferry.Server.Backend.{Backend}
use vt_ferry.Server.Connection.{vtf_transport_storage_capacity}
use vt_ferry.Server.Answers.{IsRequest}
use vt_ferry.Transport.Rounds.{round_trip-idle}
use vt_ferry.Transport.Sending.{
  Transport, Env, request_header, reply_of, send_request_dynamic, ensure_backend, keep_backend,
  send_request_bytes,
}
use vt_ferry.Transport.Worker.{Worker, worker_socket, idle, IsAnswer, outcome_of}

module _ (bm : Bytemuck) {S : Type 0} (be : Backend S) (env : Env (Worker S)) where
  -- A connected transport at an idle worker.
  abbrev pub connected : S → List ℕ → ℕ → Bool → List ℕ → Transport (Worker S)
  connected b buf request_id killed deferred = record {
    backend = some (record { stream = idle b buf; request_id = request_id; poisoned = false });
    killed = killed;
    deferred = deferred;
  }

  request_header-IsRequest :
      (opcode request_id : ℕ) (payload : List ℕ)
      → opcode < 2 ^ 16
      → request_id < 2 ^ 64
      → length payload ≤ vtf_transport_storage_capacity
      → IsRequest (record { header = request_header opcode request_id payload; payload = payload })
  unfolding request_header
  request_header-IsRequest opcode request_id payload o r small = record {
    wire = (refl, (omega arith, (o, (omega arith, (r, (omega arith, (omega arith, tt)))))));
    counts = omega (arith, small);
    small = small;
  }

  -- A request of a guest that is connected to an idle worker is one dispatch at the worker's backend:
  -- the guest sees exactly the status and the bytes that the backend has answered, the worker is idle
  -- again, and the next request has the next number. The payload is within the capacity of the server,
  -- the response buffer is shorter than 2 ^ 32, and the answered header fits its fields.
  pub send_request_bytes-dispatch :
      env.socket ≡ worker_socket bm be
      → (opcode request_id : ℕ) (payload : List ℕ) (b : S) (buf : List ℕ) (killed : Bool)
        (deferred : List ℕ)
      → opcode < 2 ^ 16
      → request_id < 2 ^ 64
      → length payload ≤ vtf_transport_storage_capacity
      → length buf < 2 ^ 32
      → let header = request_header opcode request_id payload in
        let a = be.dispatch b header payload buf in
        IsAnswer a
        → send_request_bytes bm env opcode payload (connected b buf request_id killed deferred) ≡ (
          outcome_of header a,
          connected a.backend a.res_payload (to_u64 (request_id + 1)) killed deferred,
        )
  unfolding send_request_bytes ensure_backend send_request_dynamic keep_backend reply_of outcome_of
  send_request_bytes-dispatch e opcode request_id payload b buf killed deferred o r small short v =
      let header = request_header opcode request_id payload in
      let a = be.dispatch b header payload buf in
      let trip =
        round_trip-idle bm be env e header payload b buf
          (request_header-IsRequest opcode request_id payload o r small) v short in
      rw (trip, send_request_bytes) refl
