-- ===== src/Protocol/Outputs.antt =====
-- The payloads and replies of the encode and output operations.
use mathlib.Core.List.{flat_map}
use vt_ferry.Prelude.{ℕ, List, [], ◌∷◌, ◌++◌, map, take, drop, replicate, get_or, repeat, chunks}
use vt_ferry.Protocol.Wire.{Layout}

pub record EncodeFramePayload : Type 0 where
  pub session_id : ℕ
  pub image_buffer_proxy_id : ℕ
  pub image_buffer_host_id : ℕ
  pub image_buffer_generation : ℕ
  pub pts_value : ℕ
  pub pts_timescale : ℕ
  pub duration_timescale : ℕ
  pub duration_value : ℕ

abbrev pub encode_frame_payload : Layout EncodeFramePayload
encode_frame_payload = record {
  widths = 8 ∷ 8 ∷ 8 ∷ 8 ∷ 8 ∷ 4 ∷ 4 ∷ 8 ∷ [];
  words = λ r.
      r.session_id ∷ r.image_buffer_proxy_id ∷ r.image_buffer_host_id ∷ r.image_buffer_generation
      ∷ r.pts_value ∷ r.pts_timescale ∷ r.duration_timescale ∷ r.duration_value ∷ [];
  of_words = λ ws. record {
    session_id = get_or ws 0 0;
    image_buffer_proxy_id = get_or ws 1 0;
    image_buffer_host_id = get_or ws 2 0;
    image_buffer_generation = get_or ws 3 0;
    pts_value = get_or ws 4 0;
    pts_timescale = get_or ws 5 0;
    duration_timescale = get_or ws 6 0;
    duration_value = get_or ws 7 0;
  };
}

pub record DequeueOutputPayload : Type 0 where
  pub session_id : ℕ

abbrev pub dequeue_output_payload : Layout DequeueOutputPayload
dequeue_output_payload = record {
  widths = 8 ∷ [];
  words = λ r. r.session_id ∷ [];
  of_words = λ ws. record { session_id = get_or ws 0 0 };
}

pub record DequeueOutputReply : Type 0 where
  pub session_id : ℕ
  pub output_id : ℕ
  pub codec : ℕ
  pub width : ℕ
  pub height : ℕ
  pub pixel_format : ℕ
  pub pts_value : ℕ
  pub pts_timescale : ℕ
  pub duration_timescale : ℕ
  pub duration_value : ℕ
  pub sample_size : ℕ
  pub sample_flags : ℕ
  pub parameter_set_count : ℕ
  pub nal_header_length : ℕ
  pub parameter_set_sizes : List ℕ
  pub parameter_set_data : List ℕ
  pub output_slot_index : ℕ
  pub output_slot_offset : ℕ
  pub output_region_size : ℕ
  pub reserved : ℕ

abbrev pub dequeue_output_reply : Layout DequeueOutputReply
dequeue_output_reply = record {
  widths =
      8
      ∷ 8
      ∷ 4
      ∷ 4
      ∷ 4
      ∷ 4
      ∷ 8
      ∷ 4
      ∷ 4
      ∷ 8
      ∷ 4
      ∷ 4
      ∷ 4
      ∷ 4
      ∷ (replicate 4 4 ++ (replicate 128 1 ++ (4 ∷ 4 ∷ 4 ∷ 4 ∷ [])));
  words = λ r.
      r.session_id
      ∷ r.output_id
      ∷ r.codec
      ∷ r.width
      ∷ r.height
      ∷ r.pixel_format
      ∷ r.pts_value
      ∷ r.pts_timescale
      ∷ r.duration_timescale
      ∷ r.duration_value
      ∷ r.sample_size
      ∷ r.sample_flags
      ∷ r.parameter_set_count
      ∷ r.nal_header_length
      ∷ (r.parameter_set_sizes
          ++ (r.parameter_set_data
              ++ (r.output_slot_index ∷ r.output_slot_offset ∷ r.output_region_size ∷ r.reserved
                  ∷ [])));
  of_words = λ ws. record {
    session_id = get_or ws 0 0;
    output_id = get_or ws 1 0;
    codec = get_or ws 2 0;
    width = get_or ws 3 0;
    height = get_or ws 4 0;
    pixel_format = get_or ws 5 0;
    pts_value = get_or ws 6 0;
    pts_timescale = get_or ws 7 0;
    duration_timescale = get_or ws 8 0;
    duration_value = get_or ws 9 0;
    sample_size = get_or ws 10 0;
    sample_flags = get_or ws 11 0;
    parameter_set_count = get_or ws 12 0;
    nal_header_length = get_or ws 13 0;
    parameter_set_sizes = take 4 (drop 14 ws);
    parameter_set_data = take 128 (drop 18 ws);
    output_slot_index = get_or ws 146 0;
    output_slot_offset = get_or ws 147 0;
    output_region_size = get_or ws 148 0;
    reserved = get_or ws 149 0;
  };
}

pub record DequeueOutputBatchPayload : Type 0 where
  pub session_id : ℕ
  pub max_outputs : ℕ
  pub reserved : ℕ

abbrev pub dequeue_output_batch_payload : Layout DequeueOutputBatchPayload
dequeue_output_batch_payload = record {
  widths = 8 ∷ 4 ∷ 4 ∷ [];
  words = λ r. r.session_id ∷ r.max_outputs ∷ r.reserved ∷ [];
  of_words = λ ws. record {
    session_id = get_or ws 0 0;
    max_outputs = get_or ws 1 0;
    reserved = get_or ws 2 0;
  };
}

pub record DequeueOutputBatchReply : Type 0 where
  pub session_id : ℕ
  pub output_count : ℕ
  pub reserved : ℕ
  pub outputs : List DequeueOutputReply

abbrev pub dequeue_output_batch_reply : Layout DequeueOutputBatchReply
dequeue_output_batch_reply = record {
  widths = 8 ∷ 4 ∷ 4 ∷ (repeat 24 dequeue_output_reply.widths);
  words = λ r.
      r.session_id ∷ r.output_count ∷ r.reserved ∷ (flat_map dequeue_output_reply.words r.outputs);
  of_words = λ ws. record {
    session_id = get_or ws 0 0;
    output_count = get_or ws 1 0;
    reserved = get_or ws 2 0;
    outputs = map dequeue_output_reply.of_words (chunks 24 150 (drop 3 ws));
  };
}

pub record ReadOutputPayload : Type 0 where
  pub output_id : ℕ

abbrev pub read_output_payload : Layout ReadOutputPayload
read_output_payload = record {
  widths = 8 ∷ [];
  words = λ r. r.output_id ∷ [];
  of_words = λ ws. record { output_id = get_or ws 0 0 };
}

pub record ReadOutputReply : Type 0 where
  pub output_id : ℕ
  pub sample_size : ℕ
  pub reserved : ℕ

abbrev pub read_output_reply : Layout ReadOutputReply
read_output_reply = record {
  widths = 8 ∷ 4 ∷ 4 ∷ [];
  words = λ r. r.output_id ∷ r.sample_size ∷ r.reserved ∷ [];
  of_words = λ ws. record {
    output_id = get_or ws 0 0;
    sample_size = get_or ws 1 0;
    reserved = get_or ws 2 0;
  };
}

pub record ReleaseOutputPayload : Type 0 where
  pub output_id : ℕ

abbrev pub release_output_payload : Layout ReleaseOutputPayload
release_output_payload = record {
  widths = 8 ∷ [];
  words = λ r. r.output_id ∷ [];
  of_words = λ ws. record { output_id = get_or ws 0 0 };
}
