-- ===== src/Protocol/Sessions.antt =====
-- The payloads and replies of the session operations.
use vt_ferry.Prelude.{ℕ, List, [], ◌∷◌, ◌++◌, take, drop, replicate, get_or}
use vt_ferry.Protocol.Wire.{Layout}

pub record CreateSessionPayload : Type 0 where
  pub kind : ℕ
  pub codec : ℕ
  pub width : ℕ
  pub height : ℕ
  pub pixel_format : ℕ
  pub fps_num : ℕ
  pub fps_den : ℕ
  pub bitrate : ℕ
  pub gop_size : ℕ

abbrev pub create_session_payload : Layout CreateSessionPayload
create_session_payload = record {
  widths = 4 ∷ 4 ∷ 4 ∷ 4 ∷ 4 ∷ 4 ∷ 4 ∷ 4 ∷ 4 ∷ [];
  words = λ r.
      r.kind ∷ r.codec ∷ r.width ∷ r.height ∷ r.pixel_format ∷ r.fps_num ∷ r.fps_den ∷ r.bitrate
      ∷ r.gop_size ∷ [];
  of_words = λ ws. record {
    kind = get_or ws 0 0;
    codec = get_or ws 1 0;
    width = get_or ws 2 0;
    height = get_or ws 3 0;
    pixel_format = get_or ws 4 0;
    fps_num = get_or ws 5 0;
    fps_den = get_or ws 6 0;
    bitrate = get_or ws 7 0;
    gop_size = get_or ws 8 0;
  };
}

pub record CreateSessionReply : Type 0 where
  pub session_id : ℕ
  pub negotiated_width : ℕ
  pub negotiated_height : ℕ
  pub pixel_format : ℕ
  pub reserved : ℕ

abbrev pub create_session_reply : Layout CreateSessionReply
create_session_reply = record {
  widths = 8 ∷ 4 ∷ 4 ∷ 4 ∷ 4 ∷ [];
  words = λ r.
      r.session_id ∷ r.negotiated_width ∷ r.negotiated_height ∷ r.pixel_format ∷ r.reserved ∷ [];
  of_words = λ ws. record {
    session_id = get_or ws 0 0;
    negotiated_width = get_or ws 1 0;
    negotiated_height = get_or ws 2 0;
    pixel_format = get_or ws 3 0;
    reserved = get_or ws 4 0;
  };
}

pub record SetPropertyPayload : Type 0 where
  pub session_id : ℕ
  pub property_key_proxy_id : ℕ
  pub property_value_proxy_id : ℕ
  pub property_value_kind : ℕ
  pub property_number_type : ℕ
  pub property_sint64 : ℕ
  pub property_f64 : ℕ
  pub property_bool : ℕ
  pub reserved : ℕ
  pub property_key : List ℕ
  pub property_string : List ℕ
  pub property_array_count : ℕ
  pub property_dict_pair_count : ℕ
  pub property_array_i64 : List ℕ
  pub property_dict_keys : List ℕ
  pub property_dict_sint64 : List ℕ

abbrev pub set_property_payload : Layout SetPropertyPayload
set_property_payload = record {
  widths =
      8
      ∷ 8
      ∷ 8
      ∷ 4
      ∷ 4
      ∷ 8
      ∷ 8
      ∷ 4
      ∷ 4
      ∷ (replicate 64 1
          ++ (replicate 64 1 ++ (4 ∷ 4 ∷ (replicate 2 8 ++ (replicate 64 1 ++ (replicate 2 8))))));
  words = λ r.
      r.session_id
      ∷ r.property_key_proxy_id
      ∷ r.property_value_proxy_id
      ∷ r.property_value_kind
      ∷ r.property_number_type
      ∷ r.property_sint64
      ∷ r.property_f64
      ∷ r.property_bool
      ∷ r.reserved
      ∷ (r.property_key
          ++ (r.property_string
              ++ (r.property_array_count
                  ∷ r.property_dict_pair_count
                  ∷ (r.property_array_i64 ++ (r.property_dict_keys ++ (r.property_dict_sint64))))));
  of_words = λ ws. record {
    session_id = get_or ws 0 0;
    property_key_proxy_id = get_or ws 1 0;
    property_value_proxy_id = get_or ws 2 0;
    property_value_kind = get_or ws 3 0;
    property_number_type = get_or ws 4 0;
    property_sint64 = get_or ws 5 0;
    property_f64 = get_or ws 6 0;
    property_bool = get_or ws 7 0;
    reserved = get_or ws 8 0;
    property_key = take 64 (drop 9 ws);
    property_string = take 64 (drop 73 ws);
    property_array_count = get_or ws 137 0;
    property_dict_pair_count = get_or ws 138 0;
    property_array_i64 = take 2 (drop 139 ws);
    property_dict_keys = take 64 (drop 141 ws);
    property_dict_sint64 = take 2 (drop 205 ws);
  };
}

pub record PrepareSessionPayload : Type 0 where
  pub session_id : ℕ

abbrev pub prepare_session_payload : Layout PrepareSessionPayload
prepare_session_payload = record {
  widths = 8 ∷ [];
  words = λ r. r.session_id ∷ [];
  of_words = λ ws. record { session_id = get_or ws 0 0 };
}

pub record DestroySessionPayload : Type 0 where
  pub session_id : ℕ

abbrev pub destroy_session_payload : Layout DestroySessionPayload
destroy_session_payload = record {
  widths = 8 ∷ [];
  words = λ r. r.session_id ∷ [];
  of_words = λ ws. record { session_id = get_or ws 0 0 };
}

pub record DrainPayload : Type 0 where
  pub session_id : ℕ

abbrev pub drain_payload : Layout DrainPayload
drain_payload = record {
  widths = 8 ∷ [];
  words = λ r. r.session_id ∷ [];
  of_words = λ ws. record { session_id = get_or ws 0 0 };
}

pub record DrainReply : Type 0 where
  pub session_id : ℕ
  pub pending_outputs : ℕ
  pub reserved : ℕ

abbrev pub drain_reply : Layout DrainReply
drain_reply = record {
  widths = 8 ∷ 4 ∷ 4 ∷ [];
  words = λ r. r.session_id ∷ r.pending_outputs ∷ r.reserved ∷ [];
  of_words = λ ws. record {
    session_id = get_or ws 0 0;
    pending_outputs = get_or ws 1 0;
    reserved = get_or ws 2 0;
  };
}
