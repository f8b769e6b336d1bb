-- ===== src/Examples/Applied.antt =====
-- Each theorem at a concrete backend and request.
use vt_ferry.Prelude.{
  ℕ, ◌+◌, ◌≡◌, ◌≢◌, refl, List, [], ◌∷◌, ◌++◌, replicate, none, some, drop, take, length, arith,
  sum_by, find_first, remove_first, length-replicate, ◌-◌,
}
use vt_ferry.Protocol.Wire.{size_of, IsWireValue}
use vt_ferry.Protocol.Codes.{status_stale_generation}
use vt_ferry.Protocol.Header.{MessageHeader}
use vt_ferry.Protocol.LittleEndian.{little_endian}
use vt_ferry.Protocol.Buffers.{
  WriteBufferPayload, write_buffer_payload, read_buffer_payload, read_buffer_reply,
  create_buffer_pool_reply, alloc_buffer_reply,
}
use vt_ferry.Mock.Transfer.{failed, settle}
use vt_ferry.Protocol.Sessions.{create_session_reply}
use vt_ferry.Protocol.Outputs.{EncodeFramePayload, dequeue_output_reply, dequeue_output_batch_reply}
use vt_ferry.Protocol.Codes.{opcode_of}
use vt_ferry.Mock.Transfer.{read_pod, or_refuse, ◌>>=◌}
use vt_ferry.Mock.Handles.{find_pool, output_is, find_buffer, find_recyclable_buffer}
use vt_ferry.Mock.State.{MockBackend, queued_to_host}
use vt_ferry.Mock.EncodeOps.{queue_output}
use vt_ferry.Mock.PoolOps.{on_alloc_buffer, realloc_buffer, reissue}
use vt_ferry.Mock.BufferOps.{on_write_buffer, on_read_buffer}
use vt_ferry.Mock.OutputOps.{release_output, dequeue_up_to}
use vt_ferry.Mock.Dispatch.{serve, dispatch}
use vt_ferry.Mock.Invariant.Defs.{Inv}
use vt_ferry.Mock.Invariant.Serve.{dispatch-Inv}
use vt_ferry.Mock.Refusal.{HasRoom, dispatch-refuses_clean}
use vt_ferry.Mock.Contents.{contents, write_buffer_isolated}
use vt_ferry.Mock.ReadBack.{same_place_read, read_answer, read_buffer-write_buffer}
use vt_ferry.Mock.Queue.{pending, dequeue_up_to-fifo}
use vt_ferry.Mock.Lifecycle.{realloc_buffer-stale, release_output-late}
use vt_ferry.Examples.Backend.{
  small_backend, small_backend-Inv, small_backend-HasHandles, one_pool, writable_buffer,
  recycled_buffer, output_of, one_session,
}

abbrev request : ℕ → ℕ → MessageHeader
request opcode payload_len = record {
  version = 1;
  opcode = opcode;
  flags = 0;
  request_id = 77;
  payload_len = payload_len;
  status = 0;
}

abbrev zeros : ℕ → List ℕ
zeros n = replicate n 0

length-zeros : (n : ℕ) → length (zeros n) ≡ n
length-zeros n = length-replicate n 0

abbrev dequeue_request : List ℕ
dequeue_request = 232 ∷ 3 ∷ replicate 6 0

dispatch-Inv_example :
    Inv
      (dispatch little_endian small_backend
        (request 0x50 8)
        dequeue_request
        (replicate 400 0)).backend
dispatch-Inv_example =
    dispatch-Inv little_endian small_backend (request 0x50 8) dequeue_request (replicate 400 0)
      small_backend-Inv small_backend-HasHandles

-- A response buffer with room for every reply.
abbrev wide : ℕ
wide =
    size_of create_session_reply
    + size_of create_buffer_pool_reply
    + size_of alloc_buffer_reply
    + size_of dequeue_output_reply
    + size_of dequeue_output_batch_reply

wide-HasRoom : HasRoom (length (zeros wide))
wide-HasRoom = rw (length-zeros wide) (record {
  session = omega arith;
  pool = omega arith;
  buffer = omega arith;
  output = omega arith;
  batch = omega arith;
})

-- ALLOC_BUFFER in a pool that does not exist.
alloc_nowhere :
    (dispatch little_endian small_backend (request 0x32 8) (replicate 8 0) (zeros wide)).result
    ≡ none
unfolding dispatch serve on_alloc_buffer opcode_of read_pod or_refuse ◌>>=◌ find_pool find_first
    little_endian sum_by
alloc_nowhere = refl

dispatch-refuses_clean_example :
    (dispatch little_endian small_backend (request 0x32 8) (replicate 8 0) (zeros wide)).backend
    ≡ small_backend
dispatch-refuses_clean_example =
    dispatch-refuses_clean little_endian small_backend (request 0x32 8) (replicate 8 0) (zeros wide)
      small_backend-Inv wide-HasRoom alloc_nowhere

abbrev write_of : ℕ → WriteBufferPayload
write_of generation = record { buffer_id = 1002; generation = generation; offset = 2; length = 3 }

abbrev write_request : List ℕ
write_request = little_endian.bytes_of write_buffer_payload (write_of 2) ++ 7 ∷ 8 ∷ 9 ∷ []

write_elsewhere :
    (little_endian.pod_read_unaligned write_buffer_payload
      (take (size_of write_buffer_payload) write_request)).buffer_id
    ≢ 1003
unfolding little_endian sum_by
write_elsewhere e = omega arith

write_buffer_isolated_example :
    contents
      (settle small_backend []
        (on_write_buffer little_endian small_backend write_request [])).backend
      1003
    ≡ contents small_backend 1003
write_buffer_isolated_example =
    write_buffer_isolated little_endian small_backend write_request [] small_backend-Inv 1003
      write_elsewhere

write_of-IsWireValue : IsWireValue write_buffer_payload (write_of 2)
write_of-IsWireValue = (refl, (omega arith, (omega arith, (omega arith, (omega arith, tt)))))

read_of-IsWireValue : IsWireValue read_buffer_payload (same_place_read (write_of 2))
read_of-IsWireValue = (refl, (omega arith, (omega arith, (omega arith, (omega arith, tt)))))

writable_found : find_buffer small_backend 1002 ≡ some writable_buffer
unfolding find_buffer find_first
writable_found = refl

read_buffer-write_buffer_example :
    let res = zeros 64 in
    let wrote =
      settle small_backend res (on_write_buffer little_endian small_backend write_request res) in
    let b' = wrote.backend in
    (wrote.result ≡ some 0)
    × (settle b' res (
          on_read_buffer little_endian b'
            (little_endian.bytes_of read_buffer_payload (same_place_read (write_of 2)) ++ [])
            res)
        ≡ record {
          backend = b';
          status = 0;
          res_payload =
              little_endian.bytes_of read_buffer_reply (read_answer (same_place_read (write_of 2)))
              ++ (7 ∷ 8 ∷ 9 ∷ [] ++ drop (size_of read_buffer_reply + 3) res);
          result = some (size_of read_buffer_reply + 3);
        })
unfolding sum_by
read_buffer-write_buffer_example =
    read_buffer-write_buffer little_endian small_backend (write_of 2) (7 ∷ 8 ∷ 9 ∷ []) (zeros 64)
      {x = writable_buffer} small_backend-Inv write_of-IsWireValue read_of-IsWireValue
      writable_found refl refl refl (omega arith) (omega arith)

dequeue_up_to-fifo_example :
    ((dequeue_up_to 1 1000 small_backend).0 ≡ take 1 (pending 1000 small_backend))
    × (pending 1000 (dequeue_up_to 1 1000 small_backend).1 ≡ drop 1 (pending 1000 small_backend))
    × ((other : ℕ)
        → other ≢ 1000
        → pending other (dequeue_up_to 1 1000 small_backend).1 ≡ pending other small_backend)
dequeue_up_to-fifo_example = dequeue_up_to-fifo 1 1000 small_backend

abbrev old_write : WriteBufferPayload
old_write = record { buffer_id = 1003; generation = 1; offset = 0; length = 1 }

old_write-IsWireValue : IsWireValue write_buffer_payload old_write
old_write-IsWireValue = (refl, (omega arith, (omega arith, (omega arith, (omega arith, tt)))))

old_read-IsWireValue : IsWireValue read_buffer_payload (same_place_read old_write)
old_read-IsWireValue = (refl, (omega arith, (omega arith, (omega arith, (omega arith, tt)))))

recyclable_found : find_recyclable_buffer small_backend 1001 ≡ some recycled_buffer
unfolding find_recyclable_buffer find_first
recyclable_found = refl

realloc_buffer-stale_example :
    let b' = (realloc_buffer little_endian small_backend one_pool recycled_buffer []).backend in
    (settle b' [] (
        on_write_buffer little_endian b'
          (little_endian.bytes_of write_buffer_payload old_write ++ 5 ∷ [])
          [])
      ≡ failed b' [] status_stale_generation)
    × (settle b' [] (
          on_read_buffer little_endian b'
            (little_endian.bytes_of read_buffer_payload (same_place_read old_write) ++ [])
            [])
        ≡ failed b' [] status_stale_generation)
realloc_buffer-stale_example =
    realloc_buffer-stale little_endian small_backend one_pool recycled_buffer old_write
      (same_place_read old_write) (5 ∷ []) [] small_backend-Inv recyclable_found (omega arith)
      old_write-IsWireValue old_read-IsWireValue refl refl refl refl

output_found : find_first (output_is 5000) small_backend.outputs ≡ some (output_of 5000)
unfolding find_first
output_found = refl

-- The recycled buffer is handed out again, and a frame is encoded from it.
abbrev new_frame : EncodeFramePayload
new_frame = record {
  session_id = 1000;
  image_buffer_proxy_id = 9;
  image_buffer_host_id = 1003;
  image_buffer_generation = 2;
  pts_value = 3;
  pts_timescale = 30;
  duration_timescale = 30;
  duration_value = 1;
}

abbrev encoded_again : MockBackend
encoded_again =
    queue_output (realloc_buffer little_endian small_backend one_pool recycled_buffer []).backend
      new_frame one_session (reissue recycled_buffer) (replicate 24 1)

release_output-late_example :
    (release_output 5000 encoded_again
      ≡ some (record encoded_again {
        outputs = remove_first (output_is 5000) encoded_again.outputs;
        output_bytes_total = encoded_again.output_bytes_total - 28;
      }))
    × (find_buffer encoded_again 1003
        ≡ some (record (reissue recycled_buffer) { state = queued_to_host }))
release_output-late_example =
    release_output-late little_endian small_backend one_pool recycled_buffer [] 5000
      (output_of 5000) new_frame one_session (replicate 24 1) small_backend-Inv recyclable_found
      (omega arith) output_found refl (omega arith) refl
