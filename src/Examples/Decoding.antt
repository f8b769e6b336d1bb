-- ===== src/Examples/Decoding.antt =====
-- The theorems on the decode side of the backend on VideoToolbox, at small frameworks.
use vt_ferry.Prelude.{
  ℕ, ◌+◌, ◌≤◌, ◌<◌, ◌≡◌, refl, true, false, none, some, List, [], ◌∷◌, replicate, length,
  length-replicate, Rising, sum_by, arith,
}
use vt_ferry.Protocol.Codes.{status_internal_failure, status_timeout}
use vt_ferry.Protocol.Buffers.{BufferLayoutReply}
use vt_ferry.Protocol.Decode.{
  EnqueueEncodedFrameChunkPayload, dequeue_decoded_frame_reply, DequeueDecodedFramePayload,
}
use vt_ferry.Protocol.LittleEndian.{little_endian}
use vt_ferry.Mock.State.{MockBackend}
use vt_ferry.Mock.Transfer.{err}
use vt_ferry.Server.Backend.{Backend}
use vt_ferry.Server.InMemory.{mock_backend}
use vt_ferry.Transport.Sending.{Env}
use vt_ferry.Transport.Frames.{enqueue_encoded_frame_chunked}
use vt_ferry.Transport.Worker.{Worker, worker_socket, idle}
use vt_ferry.Transport.Delivery.{connected}
use vt_ferry.Transport.Oversize.{enqueue_encoded_frame_chunked-oversized}
use vt_ferry.Real.Maps.{empty, insert, remove}
use vt_ferry.Real.Frameworks.{Frameworks, CmTime}
use vt_ferry.Real.State.{VtRealDecodeSession, VtRealBackend, new_queue, queue_of, enqueue}
use vt_ferry.Real.Encoded.{dispatch_decode_assembled_frame, timing_of, with_pending}
use vt_ferry.Real.Assembly.{feed, feed-assembles}
use vt_ferry.Real.Decoded.{only, reply_with, with_queue, decompression_output, error_reply}
use vt_ferry.Real.Fifo.{Event, decoded, dequeued, released, given, given-Rising}
use vt_ferry.Real.Failures.{answers, waiting, decode_error-once}
use vt_ferry.Real.Pixels.{
  vtf_fill_buffer_layout, vtf_buffer_total_size, Memory, copy_rows, copy_planes,
  copy_layout_to_bytes, vtf_copy_pixel_buffer_byte_range,
}
use vt_ferry.Real.Frames.{Holds, vtf_fill_buffer_layout-Holds}
use vt_ferry.Real.Ranges.{byte_range-slices}
use vt_ferry.Examples.Backend.{small_backend}

-- The frameworks log the frames that they decode; an image is its number, and its planes hold the addresses
-- as bytes, 3 bytes a row.
abbrev small_frameworks : Frameworks
small_frameworks = record {
  World = List (List ℕ);
  CmVideoFormatDescription = ℕ;
  VtDecompressionSession = ℕ;
  CmBlockBuffer = ℕ;
  CmSampleBuffer = ℕ;
  CvImageBuffer = ℕ;
  new_with_memory_block = λ n w. (some n, w);
  replace_data_bytes = λ block bytes w. (true, bytes ∷ w);
  create_ready = λ block format timing size w. (some size, w);
  decode_frame = λ session sample w. (true, w);
  from_h264_parameter_sets = λ sets nal w. (some nal, w);
  from_hevc_parameter_sets = λ sets nal w. (some nal, w);
  can_accept_format_description = λ session format w. true;
  new_with_callback = λ format context w. (some context, w);
  get_width = λ image. 4;
  get_height = λ image. 2;
  get_pixel_format_type = λ image. 0x34323076;
  get_plane_count = λ image. 2;
  get_base_address = λ image. none;
  get_base_address_of_plane = λ image plane. some (λ address. address + 1);
  get_bytes_per_row_of_plane = λ image plane. 3;
}

abbrev session_one : VtRealDecodeSession small_frameworks
session_one = record {
  id = 1;
  codec = 0x61766331;
  width = 4;
  height = 2;
  format_description = some 4;
  vt_session = some 1;
  callback_context = some 1;
  chunked_output = false;
}

abbrev decoder : VtRealBackend small_frameworks
decoder = record {
  decode_sessions = λ k. some session_one;
  pending_encoded_frames = empty;
  next_host_id = 2;
  decoded_output_state = new_queue small_frameworks;
  world = [];
}

abbrev chunk_head : EnqueueEncodedFrameChunkPayload
chunk_head = record {
  session_id = 1;
  pts_value = 90;
  duration_value = 3;
  chunk_offset = 0;
  chunk_length = 0;
  total_encoded_size = 0;
  is_final_chunk = 0;
  flags = 0;
  pts_timescale = 30;
  duration_timescale = 30;
  reserved = 0;
}

feed-assembles_example :
    feed little_endian small_frameworks chunk_head 5 0
      ((7 ∷ 8 ∷ []) ∷ (9 ∷ []) ∷ (1 ∷ 2 ∷ []) ∷ [])
      decoder
    ≡ dispatch_decode_assembled_frame little_endian small_frameworks 1
        (7 ∷ 8 ∷ 9 ∷ 1 ∷ 2 ∷ [])
        (timing_of 90 30 3 30)
        (with_pending little_endian small_frameworks decoder (remove 1 empty))
feed-assembles_example =
    feed-assembles little_endian small_frameworks chunk_head decoder session_one (7 ∷ 8 ∷ [])
      ((9 ∷ []) ∷ (1 ∷ 2 ∷ []) ∷ []) (refl, omega arith) (omega arith) (omega arith) refl

abbrev zero_time : CmTime
zero_time = record { value = 0; timescale = 1; flags = 1; epoch = 0 }

-- Two sessions, a failure, and a release of what has been given.
abbrev events : List (Event small_frameworks)
events =
    decoded 1 0 (some 5) zero_time zero_time
    ∷ decoded 2 0 (some 6) zero_time zero_time
    ∷ decoded 1 0 (some 7) zero_time zero_time
    ∷ dequeued 1
    ∷ released 70000
    ∷ decoded 1 9 none zero_time zero_time
    ∷ dequeued 1
    ∷ dequeued 1
    ∷ []

given-Rising_example :
    Rising
      (λ i. i)
      0
      (given small_frameworks 1 events (new_queue small_frameworks))
      (18446744073709551616)
unfolding queue_of
given-Rising_example =
    given-Rising small_frameworks 1 0 events (new_queue small_frameworks) (omega arith)
      (omega arith)

abbrev of_session_one : DequeueDecodedFramePayload
of_session_one = record { session_id = 1 }

-- One frame waits, and has not been released.
abbrev one_waits : VtRealBackend small_frameworks
one_waits = with_queue small_frameworks decoder (
    decompression_output small_frameworks 1 0 (some 5) zero_time zero_time
      decoder.decoded_output_state)

decode_error-once_example :
    answers little_endian small_frameworks one_waits session_one of_session_one
      (replicate 100 0)
      (refl, omega arith)
      refl
      4
      (decompression_output small_frameworks 1 5
        (some 3)
        zero_time
        zero_time
        one_waits.decoded_output_state)
    ≡ waiting little_endian small_frameworks one_waits session_one of_session_one
        (replicate 100 0)
        (refl, omega arith)
        refl
        one_waits.decoded_output_state
        70000
      ∷ reply_with little_endian dequeue_decoded_frame_reply
          (error_reply small_frameworks 1 5)
          (replicate 100 0)
      ∷ only status_timeout (replicate 100 0)
      ∷ only status_timeout (replicate 100 0)
      ∷ []
unfolding queue_of insert decompression_output enqueue
decode_error-once_example =
    decode_error-once little_endian small_frameworks one_waits session_one of_session_one
      (replicate 100 0) (refl, omega arith) refl (70000 ∷ []) 2 5 (some 3) zero_time zero_time
      (λ e. omega (arith, e)) refl

-- Two planes of rows of 4 bytes.
abbrev small_layout : BufferLayoutReply
small_layout = record {
  plane_count = 2;
  total_size = 12;
  plane_offsets = 0 ∷ 8 ∷ 0 ∷ 0 ∷ [];
  plane_widths = 4 ∷ 2 ∷ 0 ∷ 0 ∷ [];
  plane_heights = 2 ∷ 1 ∷ 0 ∷ 0 ∷ [];
  plane_bytes_per_row = 4 ∷ 4 ∷ 0 ∷ 0 ∷ [];
}

abbrev whole_frame : Memory
whole_frame =
    copy_rows (λ address. address + 1) 3 4 8 1 0
      (copy_rows (λ address. address + 1) 3 4 0 2 0 (λ _. 0))

whole_frame-copied :
    copy_layout_to_bytes small_frameworks 0 small_layout (λ _. 0) ≡ some whole_frame
unfolding copy_layout_to_bytes copy_planes
whole_frame-copied = refl

byte_range-slices_example :
    (r : Memory) × (vtf_copy_pixel_buffer_byte_range small_frameworks 0 small_layout 3 7 (λ _. 9)
      ≡ some r)
    × ((i : ℕ) → (i < 7 → r i ≡ whole_frame (3 + i)) × (7 ≤ i → r i ≡ 9))
byte_range-slices_example =
    byte_range-slices small_frameworks 0 small_layout 3 7 (λ _. 9) whole_frame (omega arith)
      (omega arith) whole_frame-copied

abbrev in_memory : Backend MockBackend
in_memory = mock_backend little_endian

abbrev guest : Env (Worker MockBackend)
guest = record {
  socket = worker_socket little_endian in_memory;
  open_backend = some (idle small_backend []);
  defer_releases = false;
  release_batch_size = none;
  drop_on_destroy = false;
}

-- A frame of `n` bytes.
unfoldable frame_of : ℕ → List ℕ
frame_of n = replicate n 7

length-frame_of : (n : ℕ) → length (frame_of n) ≡ n
unfolding frame_of
length-frame_of n = length-replicate n 7

enqueue_encoded_frame_chunked-oversized_example :
    enqueue_encoded_frame_chunked little_endian guest chunk_head
      (frame_of 2097152)
      (connected little_endian in_memory guest small_backend [] 3 false [])
    ≡ (err status_internal_failure, record { backend = none; killed = true; deferred = [] })
unfolding sum_by
enqueue_encoded_frame_chunked-oversized_example =
    let long = length-frame_of 2097152 in
    enqueue_encoded_frame_chunked-oversized little_endian in_memory guest refl chunk_head
      (frame_of 2097152) small_backend [] 3 false [] (omega arith) (omega (arith, long))
      (omega (arith, long))

vtf_fill_buffer_layout-Holds_example :
    Holds (vtf_fill_buffer_layout 1922 1081 0x78663230) (vtf_buffer_total_size 1922 1081 0x78663230)
vtf_fill_buffer_layout-Holds_example =
    vtf_fill_buffer_layout-Holds 1922 1081 0x78663230 (omega arith) (omega arith)
