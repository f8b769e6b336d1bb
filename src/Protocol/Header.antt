-- ===== src/Protocol/Header.antt =====
-- The structs that every request has: the message header, and the replies to HELLO and GET_CAPS.
use vt_ferry.Prelude.{ℕ, List, [], ◌∷◌, drop, replicate, get_or}
use vt_ferry.Protocol.Wire.{Layout}

pub record MessageHeader : Type 0 where
  pub version : ℕ
  pub opcode : ℕ
  pub flags : ℕ
  pub request_id : ℕ
  pub payload_len : ℕ
  pub status : ℕ

abbrev pub message_header : Layout MessageHeader
message_header = record {
  widths = 2 ∷ 2 ∷ 4 ∷ 8 ∷ 4 ∷ 4 ∷ [];
  words = λ h. h.version ∷ h.opcode ∷ h.flags ∷ h.request_id ∷ h.payload_len ∷ h.status ∷ [];
  of_words = λ ws. record {
    version = get_or ws 0 0;
    opcode = get_or ws 1 0;
    flags = get_or ws 2 0;
    request_id = get_or ws 3 0;
    payload_len = get_or ws 4 0;
    status = get_or ws 5 0;
  };
}

abbrev pub zeroed_header : MessageHeader
zeroed_header = record {
  version = 0;
  opcode = 0;
  flags = 0;
  request_id = 0;
  payload_len = 0;
  status = 0;
}

pub record HelloReply : Type 0 where
  pub worker_abi_version : ℕ
  pub reserved : ℕ
  pub supported_features : ℕ
  pub worker_name : List ℕ

abbrev pub hello_reply : Layout HelloReply
hello_reply = record {
  widths = 4 ∷ 4 ∷ 8 ∷ replicate 32 1;
  words = λ r. r.worker_abi_version ∷ r.reserved ∷ r.supported_features ∷ r.worker_name;
  of_words = λ ws. record {
    worker_abi_version = get_or ws 0 0;
    reserved = get_or ws 1 0;
    supported_features = get_or ws 2 0;
    worker_name = drop 3 ws;
  };
}

pub record GetCapsReply : Type 0 where
  pub codec_bits : ℕ
  pub pixel_format_bits : ℕ
  pub session_feature_bits : ℕ
  pub max_width : ℕ
  pub max_height : ℕ
  pub max_inflight_frames : ℕ
  pub reserved : ℕ

abbrev pub get_caps_reply : Layout GetCapsReply
get_caps_reply = record {
  widths = 8 ∷ 8 ∷ 8 ∷ 4 ∷ 4 ∷ 4 ∷ 4 ∷ [];
  words = λ r.
      r.codec_bits ∷ r.pixel_format_bits ∷ r.session_feature_bits ∷ r.max_width ∷ r.max_height
      ∷ r.max_inflight_frames ∷ r.reserved ∷ [];
  of_words = λ ws. record {
    codec_bits = get_or ws 0 0;
    pixel_format_bits = get_or ws 1 0;
    session_feature_bits = get_or ws 2 0;
    max_width = get_or ws 3 0;
    max_height = get_or ws 4 0;
    max_inflight_frames = get_or ws 5 0;
    reserved = get_or ws 6 0;
  };
}
