-- ===== src/Transport/Oversize.antt =====
-- Requests of crates/vt-ferry-shim/src/transport.rs that are longer than what the server of
-- crates/vt-ferry-worker/src/server.rs takes.
use vt_ferry.Prelude.{
  ℕ, ◌+◌, ◌-◌, ◌^◌, ◌<◌, ◌≡◌, refl, ap, ◌∙◌, Bool, true, false, ◌==◌, ◌||◌, ltb, none, List, [],
  ◌∷◌, ◌++◌, take, drop, length, length-append, length-take, min, sum_by, ==-ne, arith,
}
use vt_ferry.Protocol.Codes.{status_internal_failure}
use vt_ferry.Protocol.Opcodes.{
  op_enqueue_encoded_frame_chunk, vtf_transport_max_encoded_frame_bytes,
}
use vt_ferry.Protocol.Wire.{Bytemuck, size_of, IsWireValue}
use vt_ferry.Protocol.Header.{MessageHeader, message_header}
use vt_ferry.Protocol.Decode.{EnqueueEncodedFrameChunkPayload, enqueue_encoded_frame_chunk_payload}
use vt_ferry.Mock.Transfer.{err}
use vt_ferry.Server.Stream.{read_exact-append}
use vt_ferry.Server.Backend.{Backend}
use vt_ferry.Server.Connection.{closed, serve_one, vtf_transport_storage_capacity}
use vt_ferry.Transport.Sending.{
  Socket, Env, request_header, after_header, receive_frame, round_trip, reply_of,
  send_request_dynamic, ensure_backend, keep_backend, send_request_bytes, and_then,
}
use vt_ferry.Transport.Chunks.{send_chunks}
use vt_ferry.Transport.Frames.{chunk_payload, chunk_request, enqueue_encoded_frame_chunked}
use vt_ferry.Transport.Worker.{Worker, settled, work, take_unread, worker_socket, idle}
use vt_ferry.Transport.Rounds.{waiting, send_frame-idle, length-header}
use vt_ferry.Transport.Delivery.{connected}

module _ (bm : Bytemuck) {S : Type 0} (be : Backend S) (env : Env (Worker S)) where
  serve_one-oversized :
      (b : S) (buf : List ℕ) (header : MessageHeader) (payload : List ℕ) (room : ℕ)
      → IsWireValue message_header header
      → vtf_transport_storage_capacity < header.payload_len
      → serve_one bm be (record {
        backend = b;
        client_stream = record {
          incoming = bm.bytes_of message_header header ++ payload;
          room = room;
          sent = [];
        };
        res_payload_buf = buf;
      })
        ≡ closed (record {
          backend = b;
          client_stream = record { incoming = payload; room = room; sent = [] };
          res_payload_buf = buf;
        })
  unfolding serve_one
  serve_one-oversized b buf header payload room wire long =
      let got =
        read_exact-append (size_of message_header) (bm.bytes_of message_header header) payload room
          [] (bm.length-bytes_of message_header header) in
      let known = bm.pod_read-bytes_of message_header header wire in
      let large : ltb vtf_transport_storage_capacity header.payload_len ≡ true =
        ground (arith, long) in
      rw (got, serve_one) (rw (known, large) refl)

  -- The worker behind the guest's request: it has hung up, with nothing said.
  abbrev hung_up : S → List ℕ → List ℕ → Worker S
  hung_up b buf payload = record {
    turn = closed (record {
      backend = b;
      client_stream = record {
        incoming = payload;
        room = size_of message_header + length buf;
        sent = [];
      };
      res_payload_buf = buf;
    });
    unread = [];
  }

  work-oversized :
      (b : S) (buf : List ℕ) (header : MessageHeader) (payload : List ℕ)
      → IsWireValue message_header header
      → vtf_transport_storage_capacity < header.payload_len
      → work bm be (waiting bm be env b buf (bm.bytes_of message_header header ++ payload) [])
        ≡ hung_up b buf payload
  unfolding work
  work-oversized b buf header payload wire long =
      let sizes = length-append (bm.bytes_of message_header header) payload in
      let heads = length-header bm be env header in
      let some_bytes : (length (bm.bytes_of message_header header ++ payload) == 0) ≡ false =
        ==-ne (length (bm.bytes_of message_header header ++ payload)) 0
          (λ z. omega (arith, sizes, heads, z)) in
      rw (some_bytes, work)
        (ap (λ t. settled t [])
          (serve_one-oversized b buf header payload (size_of message_header + length buf) wire
            long))

  round_trip-oversized :
      env.socket ≡ worker_socket bm be
      → (b : S) (buf : List ℕ) (header : MessageHeader) (payload : List ℕ)
      → IsWireValue message_header header
      → vtf_transport_storage_capacity < header.payload_len
      → round_trip bm env header payload (idle b buf) ≡ (none, hung_up b buf payload)
  unfolding round_trip receive_frame after_header worker_socket take_unread sum_by
  round_trip-oversized e b buf header payload wire long =
      let done = work-oversized b buf header payload wire long in
      let got : env.socket.read_exact (size_of message_header)
            (waiting bm be env b buf (bm.bytes_of message_header header ++ payload) [])
          ≡ (none, hung_up b buf payload) =
        ap
          (λ (k : Socket (Worker S)).
            k.read_exact (size_of message_header)
              (waiting bm be env b buf (bm.bytes_of message_header header ++ payload) []))
          e
        ∙ ap (take_unread (size_of message_header)) done in
      rw (send_frame-idle bm be env e header payload b buf, round_trip)
        (rw (got, receive_frame) refl)

  -- A request that is longer than the capacity of the server is never answered: it costs the guest the
  -- whole transport.
  send_request_bytes-oversized :
      env.socket ≡ worker_socket bm be
      → (opcode request_id : ℕ) (payload : List ℕ) (b : S) (buf : List ℕ) (killed : Bool)
        (deferred : List ℕ)
      → opcode < 2 ^ 16
      → request_id < 2 ^ 64
      → vtf_transport_storage_capacity < length payload
      → length payload < 2 ^ 32
      → send_request_bytes bm env opcode payload
          (connected bm be env b buf request_id killed deferred)
        ≡ (
          err status_internal_failure,
          record { backend = none; killed = true; deferred = deferred },
        )
  unfolding send_request_bytes ensure_backend send_request_dynamic keep_backend reply_of
      request_header
  send_request_bytes-oversized e opcode request_id payload b buf killed deferred o r long fits =
      let header = request_header opcode request_id payload in
      let trip =
        round_trip-oversized e b buf header payload
          (refl, (omega arith, (o, (omega arith, (r, (omega arith, (omega arith, tt)))))))
          (omega (arith, long, fits)) in
      rw (trip, send_request_bytes) refl

  -- A frame that is sent in chunks is lost with the transport as soon as it is about as long as the
  -- server's capacity: its first chunk is already too long, since a chunk may be longer than what the
  -- server takes. The guest is connected to an idle worker.
  pub enqueue_encoded_frame_chunked-oversized :
      env.socket ≡ worker_socket bm be
      → (head : EnqueueEncodedFrameChunkPayload) (frame : List ℕ) (b : S) (buf : List ℕ)
        (request_id : ℕ) (killed : Bool) (deferred : List ℕ)
      → request_id < 2 ^ 64
      → vtf_transport_storage_capacity < size_of enqueue_encoded_frame_chunk_payload + length frame
      → length frame < 2 ^ 32
      → enqueue_encoded_frame_chunked bm env head frame
          (connected bm be env b buf request_id killed deferred)
        ≡ (
          err status_internal_failure,
          record { backend = none; killed = true; deferred = deferred },
        )
  unfolding enqueue_encoded_frame_chunked send_chunks sum_by
  enqueue_encoded_frame_chunked-oversized e head [] b buf request_id killed deferred r long fits =
      let never : ⊥ = omega (arith, long) in absurd never
  enqueue_encoded_frame_chunked-oversized e head (x ∷ xs) b buf request_id killed deferred r long
        fits =
      let total = length (x ∷ xs) in
      let chunk = take (min total vtf_transport_max_encoded_frame_bytes) (x ∷ xs) in
      let request = chunk_request bm head total 0 chunk in
      let cut = length-take (min total vtf_transport_max_encoded_frame_bytes) (x ∷ xs) in
      let sizes =
        length-append
          (bm.bytes_of enqueue_encoded_frame_chunk_payload
            (chunk_payload head total 0 (length chunk)))
          chunk in
      let heads =
        bm.length-bytes_of enqueue_encoded_frame_chunk_payload
          (chunk_payload head total 0 (length chunk)) in
      let some_frame : (total == 0 || ltb (2 ^ 32 - 1) total) ≡ false = ground (arith, fits) in
      let dead =
        send_request_bytes-oversized e op_enqueue_encoded_frame_chunk request_id request b buf
          killed deferred (omega arith) r (omega (arith, sizes, heads, cut, long))
          (omega (arith, sizes, heads, cut, fits)) in
      rw some_frame (
        ap
          (λ r. and_then r (λ _ t.
            send_chunks bm env op_enqueue_encoded_frame_chunk (chunk_request bm head total)
              vtf_transport_max_encoded_frame_bytes (length xs) (0 + length chunk)
              (drop (length chunk) (x ∷ xs)) t))
          dead)
