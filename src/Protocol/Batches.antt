-- ===== src/Protocol/Batches.antt =====
-- The structs of the batch operations and of the pools of the worker on VideoToolbox, crates/vt-ferry-protocol/src/lib.rs.
use mathlib.Core.List.{flat_map}
use vt_ferry.Prelude.{ℕ, List, [], ◌∷◌, ◌++◌, map, take, drop, replicate, get_or, repeat, chunks}
use vt_ferry.Protocol.Wire.{Layout}
use vt_ferry.Protocol.Outputs.{EncodeFramePayload, encode_frame_payload}
use vt_ferry.Protocol.Buffers.{
  BufferLayoutReply, buffer_layout_reply, PoolBufferLeaseReply, pool_buffer_lease_reply,
}

pub record CreateBufferPoolCompactReply : Type 0 where
  pub pool_id : ℕ
  pub width : ℕ
  pub height : ℕ
  pub pixel_format : ℕ
  pub slot_count : ℕ
  pub buffer_region_size : ℕ
  pub host_backing_kind : ℕ
  pub format : ℕ
  pub reserved : ℕ
  pub layout : BufferLayoutReply
  pub buffer_leases : List PoolBufferLeaseReply

abbrev pub create_buffer_pool_compact_reply : Layout CreateBufferPoolCompactReply
create_buffer_pool_compact_reply = record {
  widths =
      8
      ∷ 4
      ∷ 4
      ∷ 4
      ∷ 4
      ∷ 4
      ∷ 4
      ∷ 4
      ∷ 4
      ∷ ((buffer_layout_reply.widths) ++ (repeat 64 pool_buffer_lease_reply.widths));
  words = λ r.
      r.pool_id
      ∷ r.width
      ∷ r.height
      ∷ r.pixel_format
      ∷ r.slot_count
      ∷ r.buffer_region_size
      ∷ r.host_backing_kind
      ∷ r.format
      ∷ r.reserved
      ∷ ((buffer_layout_reply.words r.layout)
          ++ (flat_map pool_buffer_lease_reply.words r.buffer_leases));
  of_words = λ ws. record {
    pool_id = get_or ws 0 0;
    width = get_or ws 1 0;
    height = get_or ws 2 0;
    pixel_format = get_or ws 3 0;
    slot_count = get_or ws 4 0;
    buffer_region_size = get_or ws 5 0;
    host_backing_kind = get_or ws 6 0;
    format = get_or ws 7 0;
    reserved = get_or ws 8 0;
    layout = buffer_layout_reply.of_words (take 18 (drop 9 ws));
    buffer_leases = map pool_buffer_lease_reply.of_words (chunks 64 6 (drop 27 ws));
  };
}

pub record DestroyBufferPoolPayload : Type 0 where
  pub pool_id : ℕ

abbrev pub destroy_buffer_pool_payload : Layout DestroyBufferPoolPayload
destroy_buffer_pool_payload = record {
  widths = 8 ∷ [];
  words = λ r. r.pool_id ∷ [];
  of_words = λ ws. record { pool_id = get_or ws 0 0 };
}

pub record EncodeFrameBatchPayload : Type 0 where
  pub session_id : ℕ
  pub frame_count : ℕ
  pub reserved : ℕ
  pub frames : List EncodeFramePayload

abbrev pub encode_frame_batch_payload : Layout EncodeFrameBatchPayload
encode_frame_batch_payload = record {
  widths = 8 ∷ 4 ∷ 4 ∷ (repeat 32 encode_frame_payload.widths);
  words = λ r.
      r.session_id ∷ r.frame_count ∷ r.reserved ∷ (flat_map encode_frame_payload.words r.frames);
  of_words = λ ws. record {
    session_id = get_or ws 0 0;
    frame_count = get_or ws 1 0;
    reserved = get_or ws 2 0;
    frames = map encode_frame_payload.of_words (chunks 32 8 (drop 3 ws));
  };
}

pub record ReleaseOutputBatchPayload : Type 0 where
  pub output_count : ℕ
  pub reserved : ℕ
  pub output_ids : List ℕ

abbrev pub release_output_batch_payload : Layout ReleaseOutputBatchPayload
release_output_batch_payload = record {
  widths = 4 ∷ 4 ∷ (replicate 24 8);
  words = λ r. r.output_count ∷ r.reserved ∷ (r.output_ids);
  of_words = λ ws. record {
    output_count = get_or ws 0 0;
    reserved = get_or ws 1 0;
    output_ids = take 24 (drop 2 ws);
  };
}
