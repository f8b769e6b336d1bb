-- ===== src/Mock/EncodeOps.antt =====
-- The arm of `dispatch` for ENCODE_FRAME, with `reply_seed`, of crates/vt-ferry-worker/src/mock.rs.
use vt_ferry.Prelude.{
  ℕ, zero, suc, ◌+◌, ◌-◌, ◌*◌, ◌/◌, ◌%◌, ◌^◌, min, Bool, false, not, ◌==◌, ltb, leb, ◌||◌,
  if◌then◌else◌, List, [], ◌∷◌, ◌++◌, take, replicate, length, modify_first,
}
use vt_ferry.Protocol.Codes.{
  status_invalid_handle, status_internal_failure, status_stale_generation, status_invalid_state,
  status_resource_exhausted,
}
use vt_ferry.Protocol.Wire.{Bytemuck}
use vt_ferry.Protocol.Outputs.{EncodeFramePayload, encode_frame_payload, DequeueOutputReply}
use vt_ferry.Mock.State.{
  MockBackend, MockSession, MockBuffer, MockOutput, queued_to_host, encode_output_flag_sync,
}
use vt_ferry.Mock.PixelLayout.{to_u32}
use vt_ferry.Mock.Transfer.{Outcome, Check, ok, ◌>>=◌, ◌>>◌, refuse_if, or_refuse, done, read_pod}
use vt_ferry.Mock.Handles.{
  to_u64, find_session, find_pool, find_buffer, is_guest_writable, session_is, buffer_is,
  slot_bytes,
}

-- The wrapping arithmetic of u64.
unfoldable pub reply_seed : ℕ → ℕ → ℕ → ℕ
reply_seed session_id output_id index =
    to_u64 (to_u64 (to_u64 (session_id * 131) + to_u64 (output_id * 17)) + to_u64 (index * 29))

-- `while bytes.len() < 24`: the rounds that are left, and the length so far. `& 0xff` is `% 256`.
unfoldable pub seed_bytes : ℕ → ℕ → ℕ → ℕ → List ℕ
unfolding reply_seed
seed_bytes session_id output_id zero len = []
seed_bytes session_id output_id (suc rounds) len =
    (reply_seed session_id output_id len % 256) ∷ seed_bytes session_id output_id rounds (len + 1)

-- The NAL unit: its type, up to eight bytes of the frame, and filler to 24 bytes.
unfoldable pub nal_bytes : ℕ → ℕ → Bool → List ℕ → List ℕ
unfolding seed_bytes
nal_bytes session_id output_id is_sync input_prefix_bytes =
    let head = (if is_sync then 0x65 else 0x41) ∷ take 8 input_prefix_bytes in
    head ++ seed_bytes session_id output_id (24 - length head) (length head)

-- u32::to_be_bytes
unfoldable pub to_be_bytes : ℕ → List ℕ
to_be_bytes n = (n / 2 ^ 24 % 256) ∷ (n / 2 ^ 16 % 256) ∷ (n / 2 ^ 8 % 256) ∷ (n % 256) ∷ []

-- Four bytes of length, then the NAL unit.
unfoldable pub sample_bytes : List ℕ → List ℕ
unfolding to_be_bytes
sample_bytes payload_bytes = to_be_bytes (to_u32 (length payload_bytes)) ++ payload_bytes

-- The parameter sets that every reply carries.
abbrev pub parameter_sets : List ℕ
parameter_sets = 0x67 ∷ 0x64 ∷ 0x00 ∷ 0x1f ∷ 0x68 ∷ 0xee ∷ 0x3c ∷ 0x80 ∷ []

unfoldable pub output_reply : EncodeFramePayload → MockSession → ℕ → Bool → ℕ → DequeueOutputReply
output_reply payload s output_id is_sync sample_size = record {
  session_id = payload.session_id;
  output_id = output_id;
  codec = s.codec;
  width = s.width;
  height = s.height;
  pixel_format = s.pixel_format;
  pts_value = payload.pts_value;
  pts_timescale = payload.pts_timescale;
  duration_timescale = payload.duration_timescale;
  duration_value = payload.duration_value;
  sample_size = sample_size;
  sample_flags = if is_sync then encode_output_flag_sync else 0;
  parameter_set_count = 2;
  nal_header_length = 4;
  parameter_set_sizes = 4 ∷ 4 ∷ 0 ∷ 0 ∷ [];
  parameter_set_data = parameter_sets ++ replicate 120 0;
  output_slot_index = 0;
  output_slot_offset = 0;
  output_region_size = 0;
  reserved = 0;
}

-- The output queues of the mock have a limit on their number and one on their bytes.
abbrev pub no_room_for : MockBackend → ℕ → Bool
no_room_for b sample_size =
    ltb b.max_output_bytes sample_size
    || ltb (b.max_output_bytes - sample_size) b.output_bytes_total

-- The output of a frame that is accepted.
unfoldable pub queued_output :
    MockBackend → EncodeFramePayload → MockSession → MockBuffer → List ℕ → MockOutput
unfolding output_reply sample_bytes
queued_output b payload s x payload_bytes = record {
  reply =
      output_reply payload s b.next_output_id (s.frames_encoded == 0)
        (to_u32 (4 + length payload_bytes));
  source_buffer_id = x.id;
  source_buffer_generation = x.generation;
  sample_data = sample_bytes payload_bytes;
  dequeued = false;
}

-- The changes of state of a frame that is accepted.
unfoldable pub queue_output :
    MockBackend → EncodeFramePayload → MockSession → MockBuffer → List ℕ → MockBackend
unfolding queued_output
queue_output b payload s x payload_bytes = record b {
  next_output_id = to_u64 (b.next_output_id + 1);
  output_bytes_total = to_u64 (b.output_bytes_total + to_u32 (4 + length payload_bytes));
  outputs = b.outputs ++ queued_output b payload s x payload_bytes ∷ [];
  buffers =
      modify_first (buffer_is payload.image_buffer_host_id)
        (λ y. record y { state = queued_to_host }) b.buffers;
  sessions =
      modify_first (session_is payload.session_id)
        (λ t. record t { frames_encoded = to_u64 (t.frames_encoded + 1) }) b.sessions;
}

module _ (bm : Bytemuck) where
  unfoldable pub on_encode_frame : MockBackend → List ℕ → List ℕ → Check Outcome
  unfolding queue_output
  on_encode_frame b req res = do
    payload ← or_refuse (read_pod bm encode_frame_payload req) status_internal_failure
    s ← or_refuse (find_session b payload.session_id) status_invalid_handle
    refuse_if (not s.prepared) status_invalid_state
    refuse_if (payload.image_buffer_proxy_id == 0) status_invalid_handle
    x ← or_refuse (find_buffer b payload.image_buffer_host_id) status_invalid_handle
    refuse_if (not (x.generation == payload.image_buffer_generation)) status_stale_generation
    refuse_if (not (is_guest_writable x.state)) status_invalid_state
    p ← or_refuse (find_pool b x.pool_id) status_invalid_handle
    bytes ← or_refuse (slot_bytes p x.slot_index) status_internal_failure
    let payload_bytes =
        nal_bytes payload.session_id b.next_output_id (s.frames_encoded == 0)
          (take (min 8 x.total_size) bytes)
    refuse_if (leb b.max_output_count (length b.outputs)) status_resource_exhausted
    refuse_if (no_room_for b (to_u32 (4 + length payload_bytes))) status_resource_exhausted
    ok (done (queue_output b payload s x payload_bytes) res)
