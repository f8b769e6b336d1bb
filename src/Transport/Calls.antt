-- ===== src/Transport/Calls.antt =====
-- The requests of crates/vt-ferry-shim/src/transport.rs that send one payload and read one reply.
use vt_ferry.Prelude.{ℕ, not, ◌==◌, ltb, leb, if◌then◌else◌, List, take, replicate, length}
use vt_ferry.Protocol.Opcodes.{
  op_create_session, op_destroy_buffer_pool, op_create_buffer_pool, op_alloc_buffer,
  op_encode_frame, op_encode_frame_batch, op_set_property, op_dequeue_output,
  op_dequeue_output_batch, op_read_output, op_set_decode_format, op_dequeue_decoded_frame,
  op_release_decoded_frame, op_bind_decode_output_pool, op_recycle_buffer, op_drain,
  create_buffer_pool_compact_reply_format,
}
use vt_ferry.Protocol.Codes.{status_internal_failure, vtf_transport_max_pool_slots}
use vt_ferry.Protocol.Wire.{Bytemuck, size_of}
use vt_ferry.Protocol.Sessions.{
  CreateSessionPayload, create_session_payload, create_session_reply, SetPropertyPayload,
  set_property_payload, DrainReply, drain_payload, drain_reply,
}
use vt_ferry.Protocol.Buffers.{
  CreateBufferPoolPayload, create_buffer_pool_payload, CreateBufferPoolReply,
  create_buffer_pool_reply, AllocBufferPayload, alloc_buffer_payload, AllocBufferReply,
  alloc_buffer_reply, RecycleBufferPayload, recycle_buffer_payload,
}
use vt_ferry.Protocol.Outputs.{
  EncodeFramePayload, encode_frame_payload, DequeueOutputPayload, dequeue_output_payload,
  DequeueOutputReply, dequeue_output_reply, DequeueOutputBatchPayload, dequeue_output_batch_payload,
  DequeueOutputBatchReply, dequeue_output_batch_reply, ReadOutputPayload, read_output_payload,
  read_output_reply,
}
use vt_ferry.Protocol.Batches.{
  CreateBufferPoolCompactReply, create_buffer_pool_compact_reply, destroy_buffer_pool_payload,
  EncodeFrameBatchPayload, encode_frame_batch_payload,
}
use vt_ferry.Protocol.Decode.{
  SetDecodeFormatPayload, set_decode_format_payload, DequeueDecodedFramePayload,
  dequeue_decoded_frame_payload, DequeueDecodedFrameReply, dequeue_decoded_frame_reply,
  ReleaseDecodedFramePayload, release_decoded_frame_payload, BindDecodeOutputPoolPayload,
  bind_decode_output_pool_payload,
}
use vt_ferry.Mock.PoolOps.{zeroed_region}
use vt_ferry.Mock.Transfer.{Check, ok, err}
use vt_ferry.Transport.Sending.{Transport, Env, frame_delay_err, send_request, send_pod, and_then}

-- The reply that a compact one stands for: its regions stay zeroed.
unfoldable pub expand_reply : CreateBufferPoolCompactReply → CreateBufferPoolReply
expand_reply compact = record {
  pool_id = compact.pool_id;
  width = compact.width;
  height = compact.height;
  pixel_format = compact.pixel_format;
  slot_count = compact.slot_count;
  buffer_region_size = compact.buffer_region_size;
  host_backing_kind = compact.host_backing_kind;
  layout = compact.layout;
  shared_regions = replicate vtf_transport_max_pool_slots zeroed_region;
  buffer_leases = compact.buffer_leases;
}

-- The reply to a CREATE_BUFFER_POOL, in the full or the compact form by its length.
unfoldable pub pool_reply : Bytemuck → List ℕ → Check CreateBufferPoolReply
unfolding expand_reply
pool_reply bm bytes =
    if leb (size_of create_buffer_pool_reply) (length bytes)
    then ok (
        bm.pod_read_unaligned create_buffer_pool_reply
          (take (size_of create_buffer_pool_reply) bytes))
    else if leb (size_of create_buffer_pool_compact_reply) (length bytes)
    then (let compact =
          bm.pod_read_unaligned create_buffer_pool_compact_reply
            (take (size_of create_buffer_pool_compact_reply) bytes) in
        if not (compact.format == create_buffer_pool_compact_reply_format)
        then err status_internal_failure
        else ok (expand_reply compact))
    else err status_internal_failure

module _ (bm : Bytemuck) {L : Type 0} (env : Env L) where
  unfoldable pub create_session : CreateSessionPayload → Transport L → Check ℕ × Transport L
  create_session payload t =
      and_then
        (send_request bm env create_session_payload create_session_reply op_create_session payload
          t)
        λ reply t'. (ok reply.session_id, t')

  unfoldable pub create_buffer_pool :
      CreateBufferPoolPayload → Transport L → Check CreateBufferPoolReply × Transport L
  unfolding pool_reply
  create_buffer_pool payload t =
      and_then (send_pod bm env create_buffer_pool_payload op_create_buffer_pool payload t)
        λ bytes t'. (pool_reply bm bytes, t')

  unfoldable pub read_output : ReadOutputPayload → Transport L → Check (List ℕ) × Transport L
  read_output payload t =
      and_then (send_pod bm env read_output_payload op_read_output payload t) λ bytes t'. (
        if ltb (length bytes) (size_of read_output_reply) then err frame_delay_err else ok bytes,
        t',
      )

  unfoldable pub encode_frame : EncodeFramePayload → Transport L → Check (Unit {0}) × Transport L
  encode_frame payload t =
      and_then (send_pod bm env encode_frame_payload op_encode_frame payload t) λ _ t'. (ok tt, t')

  unfoldable pub encode_frame_batch :
      EncodeFrameBatchPayload → Transport L → Check (Unit {0}) × Transport L
  encode_frame_batch payload t =
      and_then (send_pod bm env encode_frame_batch_payload op_encode_frame_batch payload t)
        λ _ t'. (ok tt, t')

  unfoldable pub set_property : SetPropertyPayload → Transport L → Check (Unit {0}) × Transport L
  set_property payload t =
      and_then (send_pod bm env set_property_payload op_set_property payload t) λ _ t'. (ok tt, t')

  unfoldable pub set_decode_format :
      SetDecodeFormatPayload → Transport L → Check (Unit {0}) × Transport L
  set_decode_format payload t =
      and_then (send_pod bm env set_decode_format_payload op_set_decode_format payload t)
        λ _ t'. (ok tt, t')

  unfoldable pub release_decoded_frame :
      ReleaseDecodedFramePayload → Transport L → Check (Unit {0}) × Transport L
  release_decoded_frame payload t =
      and_then (send_pod bm env release_decoded_frame_payload op_release_decoded_frame payload t)
        λ _ t'. (ok tt, t')

  unfoldable pub bind_decode_output_pool :
      BindDecodeOutputPoolPayload → Transport L → Check (Unit {0}) × Transport L
  bind_decode_output_pool payload t =
      and_then
        (send_pod bm env bind_decode_output_pool_payload op_bind_decode_output_pool payload t)
        λ _ t'. (ok tt, t')

  unfoldable pub recycle_buffer :
      RecycleBufferPayload → Transport L → Check (Unit {0}) × Transport L
  recycle_buffer payload t =
      and_then (send_pod bm env recycle_buffer_payload op_recycle_buffer payload t)
        λ _ t'. (ok tt, t')

  unfoldable pub destroy_buffer_pool : ℕ → Transport L → Check (Unit {0}) × Transport L
  destroy_buffer_pool pool_id t =
      and_then
        (send_pod bm env destroy_buffer_pool_payload op_destroy_buffer_pool
          (record { pool_id = pool_id }) t)
        λ _ t'. (ok tt, t')

  unfoldable pub alloc_buffer :
      AllocBufferPayload → Transport L → Check AllocBufferReply × Transport L
  alloc_buffer payload t =
      send_request bm env alloc_buffer_payload alloc_buffer_reply op_alloc_buffer payload t

  unfoldable pub dequeue_output :
      DequeueOutputPayload → Transport L → Check DequeueOutputReply × Transport L
  dequeue_output payload t =
      send_request bm env dequeue_output_payload dequeue_output_reply op_dequeue_output payload t

  unfoldable pub dequeue_output_batch :
      DequeueOutputBatchPayload → Transport L → Check DequeueOutputBatchReply × Transport L
  dequeue_output_batch payload t =
      send_request bm env dequeue_output_batch_payload dequeue_output_batch_reply
        op_dequeue_output_batch payload t

  unfoldable pub dequeue_decoded_frame :
      DequeueDecodedFramePayload → Transport L → Check DequeueDecodedFrameReply × Transport L
  dequeue_decoded_frame payload t =
      send_request bm env dequeue_decoded_frame_payload dequeue_decoded_frame_reply
        op_dequeue_decoded_frame payload t

  unfoldable pub drain : ℕ → Transport L → Check DrainReply × Transport L
  drain session_id t =
      send_request bm env drain_payload drain_reply op_drain (record { session_id = session_id }) t
