-- ===== src/Transport/Sending.antt =====
-- Requests and their replies on the stream, and what becomes of the transport when the stream fails:
-- `StreamBackend`, `send_request_bytes`, `send_request` and one round of `heartbeat_loop` of
-- crates/vt-ferry-shim/src/transport.rs.
use vt_ferry.Prelude.{
  ℕ, ◌+◌, ◌-◌, ◌^◌, Bool, true, false, not, ◌==◌, ◌&&◌, ltb, if◌then◌else◌, Option, none, some,
  List, [], take, length,
}
use vt_ferry.Protocol.Codes.{vtf_transport_version, status_internal_failure}
use vt_ferry.Protocol.Opcodes.{op_ping}
use vt_ferry.Protocol.Wire.{Bytemuck, Layout, size_of}
use vt_ferry.Protocol.Header.{MessageHeader, message_header}
use vt_ferry.Mock.PixelLayout.{to_u32}
use vt_ferry.Mock.Handles.{to_u64}
use vt_ferry.Mock.Transfer.{Check, ok, err}

-- A connected socket. The calls of the standard library say whether the write went through, and the bytes
-- read if the read was filled.
pub record Socket (L : Type 0) : Type 0 where
  pub write_all : List ℕ → L → Bool × L
  pub read_exact : ℕ → L → Option (List ℕ) × L

-- The time of the last activity, which only decides when the heartbeat probes, is left out.
pub record StreamBackend (L : Type 0) : Type 0 where
  pub stream : L
  pub request_id : ℕ
  pub poisoned : Bool

-- The statics TRANSPORT_BACKEND, TRANSPORT_KILLED and DEFERRED_OUTPUT_RELEASES.
pub record Transport (L : Type 0) : Type 0 where
  pub backend : Option (StreamBackend L)
  pub killed : Bool
  pub deferred : List ℕ

-- The environment of the process: the socket that `open_backend` connects, if it does, and the variables
-- VT_FERRY_DEFER_OUTPUT_RELEASES, VT_FERRY_OUTPUT_RELEASE_BATCH_SIZE (parsed as a usize) and
-- VT_FERRY_DROP_DEFERRED_OUTPUT_RELEASES_ON_DESTROY.
pub record Env (L : Type 0) : Type 0 where
  pub socket : Socket L
  pub open_backend : Option L
  pub defer_releases : Bool
  pub release_batch_size : Option ℕ
  pub drop_on_destroy : Bool

-- An i32 error stands as its bits: here -12902, and a status as it is.
abbrev pub frame_delay_err : ℕ
frame_delay_err = 2 ^ 32 - 12902

unfoldable pub request_header : ℕ → ℕ → List ℕ → MessageHeader
request_header opcode request_id payload = record {
  version = vtf_transport_version;
  opcode = opcode;
  flags = 0;
  request_id = request_id;
  payload_len = to_u32 (length payload);
  status = 0;
}

module _ (bm : Bytemuck) {L : Type 0} (env : Env L) where
  -- The two writes of a request; a payload of no bytes is not written.
  unfoldable pub send_frame : MessageHeader → List ℕ → L → Bool × L
  send_frame header payload stream =
      let (sent, stream') = env.socket.write_all (bm.bytes_of message_header header) stream in
      if sent
      then (if length payload == 0 then (true, stream') else env.socket.write_all payload stream')
      else (false, stream')

  -- The two reads of a response: the header, and the payload that it announces.
  unfoldable pub after_payload :
      MessageHeader → Option (List ℕ) × L → Option (MessageHeader × List ℕ) × L
  after_payload response (none, stream) = (none, stream)
  after_payload response (some response_payload, stream) =
      (some (response, response_payload), stream)

  unfoldable pub after_header : Option (List ℕ) × L → Option (MessageHeader × List ℕ) × L
  unfolding after_payload
  after_header (none, stream) = (none, stream)
  after_header (some response_header, stream) =
      let response = bm.pod_read_unaligned message_header response_header in
      if response.payload_len == 0
      then (some (response, []), stream)
      else after_payload response (env.socket.read_exact response.payload_len stream)

  unfoldable pub receive_frame : L → Option (MessageHeader × List ℕ) × L
  unfolding after_header
  receive_frame stream = after_header (env.socket.read_exact (size_of message_header) stream)

  unfoldable pub round_trip : MessageHeader → List ℕ → L → Option (MessageHeader × List ℕ) × L
  unfolding send_frame receive_frame
  round_trip header payload stream =
      let (sent, stream') = send_frame header payload stream in
      if sent then receive_frame stream' else (none, stream')

  -- What the round trip comes to: each failure of the stream poisons the backend.
  unfoldable pub reply_of :
      Option (MessageHeader × List ℕ) × L → StreamBackend L → Check (List ℕ) × StreamBackend L
  reply_of (none, stream) backend =
      (err status_internal_failure, record backend { stream = stream; poisoned = true })
  reply_of (some (response, response_payload), stream) backend = (
    if response.status == 0 then ok response_payload else err response.status,
    record backend { stream = stream },
  )

  unfoldable pub send_request_dynamic :
      ℕ → List ℕ → StreamBackend L → Check (List ℕ) × StreamBackend L
  unfolding round_trip reply_of request_header
  send_request_dynamic opcode payload backend =
      reply_of
        (round_trip (request_header opcode backend.request_id payload) payload backend.stream)
        (record backend { request_id = to_u64 (backend.request_id + 1) })

  unfoldable pub ensure_backend : Transport L → Transport L
  ensure_backend t = elim t.backend [
    | some backend ↦ t
    | none ↦ if t.killed then t else record t {
      backend = elim env.open_backend [
        | none ↦ none
        | some stream ↦ some (record { stream = stream; request_id = 1; poisoned = false })
      ];
    }
  ]

  -- A poisoned backend is dropped, and the transport is killed.
  unfoldable pub keep_backend : Transport L → StreamBackend L → Transport L
  keep_backend t backend =
      if backend.poisoned
      then record t { backend = none; killed = true }
      else record t { backend = some backend }

  unfoldable pub send_request_bytes : ℕ → List ℕ → Transport L → Check (List ℕ) × Transport L
  unfolding send_request_dynamic keep_backend ensure_backend
  send_request_bytes opcode payload t =
      let t' = ensure_backend t in
      elim t'.backend [
        | none ↦ (err frame_delay_err, t')
        | some backend ↦
            let (result, backend') = send_request_dynamic opcode payload backend in
            (result, keep_backend t' backend')
      ]

  -- `send_request` with the layouts of the payload and the reply, and the `send_request_dynamic` beside it.
  unfoldable pub send_request :
      {P R : Type 0} → Layout P → Layout R → ℕ → P → Transport L → Check R × Transport L
  unfolding send_request_bytes
  send_request p r opcode payload t =
      let (result, t') = send_request_bytes opcode (bm.bytes_of p payload) t in
      (
        elim result [
          | err e ↦ err e
          | ok bytes ↦
              if ltb (length bytes) (size_of r)
              then err frame_delay_err
              else ok (bm.pod_read_unaligned r (take (size_of r) bytes))
        ],
        t',
      )

  unfoldable pub send_pod :
      {P : Type 0} → Layout P → ℕ → P → Transport L → Check (List ℕ) × Transport L
  unfolding send_request_bytes
  send_pod p opcode payload t = send_request_bytes opcode (bm.bytes_of p payload) t

  -- One round of `heartbeat_loop`: `stale` is whether the last activity is long enough ago.
  unfoldable pub heartbeat : Bool → Transport L → Transport L
  unfolding send_request_dynamic keep_backend
  heartbeat stale t = elim t.backend [
    | none ↦ t
    | some backend ↦
        if not backend.poisoned && stale
        then keep_backend t (send_request_dynamic op_ping [] backend).1
        else t
  ]

-- `?` after a request, with the transport as it is by then.
abbrev pub and_then :
    {L : Type 0} {A B : Type 0}
    → Check A × Transport L
    → (A → Transport L → Check B × Transport L)
    → Check B × Transport L
and_then (ok a, t) k = k a t
and_then (err e, t) k = (err e, t)
