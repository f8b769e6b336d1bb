-- ===== src/Protocol/Decode.antt =====
-- The payloads and replies of the decode operations, crates/vt-ferry-protocol/src/lib.rs.

use vt_ferry.Prelude.{ℕ, List, [], ◌∷◌, ◌++◌, take, drop, replicate, get_or}
use vt_ferry.Protocol.Wire.{Layout}

pub record EnqueueEncodedFramePayload : Type 0 where
  pub session_id : ℕ
  pub buffer_proxy_id : ℕ
  pub buffer_host_id : ℕ
  pub buffer_generation : ℕ
  pub encoded_size : ℕ
  pub flags : ℕ
  pub pts_value : ℕ
  pub pts_timescale : ℕ
  pub duration_timescale : ℕ
  pub duration_value : ℕ

abbrev pub enqueue_encoded_frame_payload : Layout EnqueueEncodedFramePayload
enqueue_encoded_frame_payload = record {
  widths = 8 ∷ 8 ∷ 8 ∷ 8 ∷ 4 ∷ 4 ∷ 8 ∷ 4 ∷ 4 ∷ 8 ∷ [];
  words = λ r.
      r.session_id ∷ r.buffer_proxy_id ∷ r.buffer_host_id ∷ r.buffer_generation ∷ r.encoded_size
      ∷ r.flags ∷ r.pts_value ∷ r.pts_timescale ∷ r.duration_timescale ∷ r.duration_value ∷ [];
  of_words = λ ws. record {
    session_id = get_or ws 0 0;
    buffer_proxy_id = get_or ws 1 0;
    buffer_host_id = get_or ws 2 0;
    buffer_generation = get_or ws 3 0;
    encoded_size = get_or ws 4 0;
    flags = get_or ws 5 0;
    pts_value = get_or ws 6 0;
    pts_timescale = get_or ws 7 0;
    duration_timescale = get_or ws 8 0;
    duration_value = get_or ws 9 0;
  };
}

pub record EnqueueEncodedFrameChunkPayload : Type 0 where
  pub session_id : ℕ
  pub pts_value : ℕ
  pub duration_value : ℕ
  pub chunk_offset : ℕ
  pub chunk_length : ℕ
  pub total_encoded_size : ℕ
  pub is_final_chunk : ℕ
  pub flags : ℕ
  pub pts_timescale : ℕ
  pub duration_timescale : ℕ
  pub reserved : ℕ

abbrev pub enqueue_encoded_frame_chunk_payload : Layout EnqueueEncodedFrameChunkPayload
enqueue_encoded_frame_chunk_payload = record {
  widths = 8 ∷ 8 ∷ 8 ∷ 4 ∷ 4 ∷ 4 ∷ 4 ∷ 4 ∷ 4 ∷ 4 ∷ 4 ∷ [];
  words = λ r.
      r.session_id ∷ r.pts_value ∷ r.duration_value ∷ r.chunk_offset ∷ r.chunk_length
      ∷ r.total_encoded_size ∷ r.is_final_chunk ∷ r.flags ∷ r.pts_timescale ∷ r.duration_timescale
      ∷ r.reserved ∷ [];
  of_words = λ ws. record {
    session_id = get_or ws 0 0;
    pts_value = get_or ws 1 0;
    duration_value = get_or ws 2 0;
    chunk_offset = get_or ws 3 0;
    chunk_length = get_or ws 4 0;
    total_encoded_size = get_or ws 5 0;
    is_final_chunk = get_or ws 6 0;
    flags = get_or ws 7 0;
    pts_timescale = get_or ws 8 0;
    duration_timescale = get_or ws 9 0;
    reserved = get_or ws 10 0;
  };
}

pub record DequeueDecodedFramePayload : Type 0 where
  pub session_id : ℕ

abbrev pub dequeue_decoded_frame_payload : Layout DequeueDecodedFramePayload
dequeue_decoded_frame_payload = record {
  widths = 8 ∷ [];
  words = λ r. r.session_id ∷ [];
  of_words = λ ws. record { session_id = get_or ws 0 0 };
}

pub record DequeueDecodedFrameReply : Type 0 where
  pub session_id : ℕ
  pub output_id : ℕ
  pub buffer_proxy_id : ℕ
  pub buffer_host_id : ℕ
  pub buffer_generation : ℕ
  pub width : ℕ
  pub height : ℕ
  pub pixel_format : ℕ
  pub flags : ℕ
  pub pts_value : ℕ
  pub pts_timescale : ℕ
  pub duration_timescale : ℕ
  pub duration_value : ℕ
  pub status : ℕ
  pub slot_index : ℕ

abbrev pub dequeue_decoded_frame_reply : Layout DequeueDecodedFrameReply
dequeue_decoded_frame_reply = record {
  widths = 8 ∷ 8 ∷ 8 ∷ 8 ∷ 8 ∷ 4 ∷ 4 ∷ 4 ∷ 4 ∷ 8 ∷ 4 ∷ 4 ∷ 8 ∷ 4 ∷ 4 ∷ [];
  words = λ r.
      r.session_id ∷ r.output_id ∷ r.buffer_proxy_id ∷ r.buffer_host_id ∷ r.buffer_generation
      ∷ r.width ∷ r.height ∷ r.pixel_format ∷ r.flags ∷ r.pts_value ∷ r.pts_timescale
      ∷ r.duration_timescale ∷ r.duration_value ∷ r.status ∷ r.slot_index ∷ [];
  of_words = λ ws. record {
    session_id = get_or ws 0 0;
    output_id = get_or ws 1 0;
    buffer_proxy_id = get_or ws 2 0;
    buffer_host_id = get_or ws 3 0;
    buffer_generation = get_or ws 4 0;
    width = get_or ws 5 0;
    height = get_or ws 6 0;
    pixel_format = get_or ws 7 0;
    flags = get_or ws 8 0;
    pts_value = get_or ws 9 0;
    pts_timescale = get_or ws 10 0;
    duration_timescale = get_or ws 11 0;
    duration_value = get_or ws 12 0;
    status = get_or ws 13 0;
    slot_index = get_or ws 14 0;
  };
}

pub record ReleaseDecodedFramePayload : Type 0 where
  pub session_id : ℕ
  pub output_id : ℕ

abbrev pub release_decoded_frame_payload : Layout ReleaseDecodedFramePayload
release_decoded_frame_payload = record {
  widths = 8 ∷ 8 ∷ [];
  words = λ r. r.session_id ∷ r.output_id ∷ [];
  of_words = λ ws. record { session_id = get_or ws 0 0; output_id = get_or ws 1 0 };
}

pub record ReadDecodedFramePayload : Type 0 where
  pub session_id : ℕ
  pub output_id : ℕ

abbrev pub read_decoded_frame_payload : Layout ReadDecodedFramePayload
read_decoded_frame_payload = record {
  widths = 8 ∷ 8 ∷ [];
  words = λ r. r.session_id ∷ r.output_id ∷ [];
  of_words = λ ws. record { session_id = get_or ws 0 0; output_id = get_or ws 1 0 };
}

pub record ReadDecodedFrameReply : Type 0 where
  pub output_id : ℕ
  pub sample_size : ℕ
  pub status : ℕ

abbrev pub read_decoded_frame_reply : Layout ReadDecodedFrameReply
read_decoded_frame_reply = record {
  widths = 8 ∷ 4 ∷ 4 ∷ [];
  words = λ r. r.output_id ∷ r.sample_size ∷ r.status ∷ [];
  of_words = λ ws. record {
    output_id = get_or ws 0 0;
    sample_size = get_or ws 1 0;
    status = get_or ws 2 0;
  };
}

pub record ReadDecodedFrameChunkPayload : Type 0 where
  pub session_id : ℕ
  pub output_id : ℕ
  pub offset : ℕ
  pub length : ℕ

abbrev pub read_decoded_frame_chunk_payload : Layout ReadDecodedFrameChunkPayload
read_decoded_frame_chunk_payload = record {
  widths = 8 ∷ 8 ∷ 4 ∷ 4 ∷ [];
  words = λ r. r.session_id ∷ r.output_id ∷ r.offset ∷ r.length ∷ [];
  of_words = λ ws. record {
    session_id = get_or ws 0 0;
    output_id = get_or ws 1 0;
    offset = get_or ws 2 0;
    length = get_or ws 3 0;
  };
}

pub record ReadDecodedFrameChunkReply : Type 0 where
  pub output_id : ℕ
  pub offset : ℕ
  pub length : ℕ
  pub status : ℕ
  pub reserved : ℕ

abbrev pub read_decoded_frame_chunk_reply : Layout ReadDecodedFrameChunkReply
read_decoded_frame_chunk_reply = record {
  widths = 8 ∷ 4 ∷ 4 ∷ 4 ∷ 4 ∷ [];
  words = λ r. r.output_id ∷ r.offset ∷ r.length ∷ r.status ∷ r.reserved ∷ [];
  of_words = λ ws. record {
    output_id = get_or ws 0 0;
    offset = get_or ws 1 0;
    length = get_or ws 2 0;
    status = get_or ws 3 0;
    reserved = get_or ws 4 0;
  };
}

pub record BindDecodeOutputPoolPayload : Type 0 where
  pub session_id : ℕ
  pub pool_id : ℕ
  pub reserved : List ℕ

abbrev pub bind_decode_output_pool_payload : Layout BindDecodeOutputPoolPayload
bind_decode_output_pool_payload = record {
  widths = 8 ∷ 8 ∷ (replicate 16 1);
  words = λ r. r.session_id ∷ r.pool_id ∷ (r.reserved);
  of_words = λ ws. record {
    session_id = get_or ws 0 0;
    pool_id = get_or ws 1 0;
    reserved = take 16 (drop 2 ws);
  };
}

pub record SetDecodeFormatPayload : Type 0 where
  pub session_id : ℕ
  pub codec : ℕ
  pub width : ℕ
  pub height : ℕ
  pub nal_header_length : ℕ
  pub parameter_set_count : ℕ
  pub flags : ℕ
  pub parameter_set_sizes : List ℕ
  pub parameter_set_data : List ℕ

abbrev pub set_decode_format_payload : Layout SetDecodeFormatPayload
set_decode_format_payload = record {
  widths = 8 ∷ 4 ∷ 4 ∷ 4 ∷ 4 ∷ 4 ∷ 4 ∷ ((replicate 4 4) ++ (replicate 128 1));
  words = λ r.
      r.session_id
      ∷ r.codec
      ∷ r.width
      ∷ r.height
      ∷ r.nal_header_length
      ∷ r.parameter_set_count
      ∷ r.flags
      ∷ ((r.parameter_set_sizes) ++ (r.parameter_set_data));
  of_words = λ ws. record {
    session_id = get_or ws 0 0;
    codec = get_or ws 1 0;
    width = get_or ws 2 0;
    height = get_or ws 3 0;
    nal_header_length = get_or ws 4 0;
    parameter_set_count = get_or ws 5 0;
    flags = get_or ws 6 0;
    parameter_set_sizes = take 4 (drop 7 ws);
    parameter_set_data = take 128 (drop 11 ws);
  };
}
