-- ===== src/Examples/Ended.antt =====
-- Destroying the session of the small backend, and the life of one frame in it.
use vt_ferry.Prelude.{
  ℕ, ◌≡◌, ◌≢◌, refl, List, [], ◌∷◌, some, find_first, sum_by, replicate, ◌+◌, ◌++◌, length, arith,
}
use vt_ferry.Protocol.LittleEndian.{little_endian}
use vt_ferry.Protocol.Sessions.{DestroySessionPayload, destroy_session_payload}
use vt_ferry.Protocol.Wire.{IsWireValue}
use vt_ferry.Protocol.Outputs.{encode_frame_payload, DequeueOutputReply}
use vt_ferry.Mock.Transfer.{settle, read_pod}
use vt_ferry.Mock.Handles.{find_session, find_buffer}
use vt_ferry.Mock.SessionOps.{on_destroy_session}
use vt_ferry.Mock.EncodeOps.{queue_output, on_encode_frame}
use vt_ferry.Mock.OutputOps.{release_output, dequeue_up_to}
use vt_ferry.Mock.Queue.{pending}
use vt_ferry.Mock.Encoding.{Describes, encode_frame-dequeued}
use vt_ferry.Mock.Ending.{Cleared, destroy_session-clears}
use vt_ferry.Mock.GiveBack.{release_output-queue_output}
use vt_ferry.Examples.Backend.{small_backend, small_backend-Inv, one_session, writable_buffer}
use vt_ferry.Examples.Held.{frame}

abbrev session_bytes : List ℕ
session_bytes = 232 ∷ 3 ∷ 0 ∷ 0 ∷ 0 ∷ 0 ∷ 0 ∷ 0 ∷ []

abbrev session_1000 : DestroySessionPayload
session_1000 = record { session_id = 1000 }

payload_read : read_pod little_endian destroy_session_payload session_bytes ≡ some session_1000
unfolding read_pod little_endian sum_by
payload_read = refl

session_found : find_session small_backend 1000 ≡ some one_session
unfolding find_session find_first
session_found = refl

destroy_session-clears_example :
    let o =
      settle small_backend [] (on_destroy_session little_endian small_backend session_bytes []) in
    (o.result ≡ some 0)
    × Cleared 1000 o.backend
    × ((other : ℕ) → other ≢ 1000 → pending other o.backend ≡ pending other small_backend)
destroy_session-clears_example =
    destroy_session-clears little_endian small_backend session_bytes [] session_1000 one_session
      small_backend-Inv payload_read session_found

buffer_found : find_buffer small_backend 1002 ≡ some writable_buffer
unfolding find_buffer find_first
buffer_found = refl

release_output-queue_output_example :
    let b' = queue_output small_backend frame one_session writable_buffer (replicate 24 1) in
    release_output 5002 b'
    ≡ some (record b' {
      buffers = small_backend.buffers;
      outputs = small_backend.outputs;
      output_bytes_total = small_backend.output_bytes_total;
    })
release_output-queue_output_example =
    release_output-queue_output small_backend frame one_session writable_buffer (replicate 24 1)
      small_backend-Inv buffer_found refl refl

frame-IsWireValue : IsWireValue encode_frame_payload frame
frame-IsWireValue = (
  refl,
  (
    omega arith,
    (
      omega arith,
      (omega arith, (omega arith, (omega arith, (omega arith, (omega arith, (omega arith, tt)))))),
    ),
  ),
)

encode_frame-dequeued_example :
    let o = settle small_backend [] (
      on_encode_frame little_endian small_backend
        (little_endian.bytes_of encode_frame_payload frame ++ [])
        []) in
    (o.result ≡ some 0)
    × (o.status ≡ 0)
    × ((other : ℕ) → other ≢ 1000 → pending other o.backend ≡ pending other small_backend)
    × ((r : DequeueOutputReply) × Describes small_backend frame one_session r
        × (pending 1000 o.backend ≡ pending 1000 small_backend ++ r ∷ [])
        × ((dequeue_up_to (length (pending 1000 small_backend) + 1) 1000 o.backend).0
            ≡ pending 1000 small_backend ++ r ∷ []))
encode_frame-dequeued_example =
    encode_frame-dequeued little_endian small_backend frame one_session writable_buffer []
      small_backend-Inv frame-IsWireValue session_found refl (λ e. omega (arith, e)) buffer_found
      refl refl (omega arith) (omega arith)
