-- ===== src/Real/Sessions.antt =====
-- The decode sessions of crates/vt-ferry-worker/src/vt_real.rs: CREATE_SESSION for decoding,
-- SET_DECODE_FORMAT, BIND_DECODE_OUTPUT_POOL and DESTROY_SESSION of a decode session.
use vt_ferry.Prelude.{
  ℕ, ◌+◌, Bool, true, false, not, ◌==◌, ltb, if◌then◌else◌, Option, none, some, List, [], ◌∷◌, take,
  drop, sum_by,
}
use vt_ferry.Protocol.Codes.{
  status_unsupported_codec_or_format, status_internal_failure, status_invalid_handle,
  status_invalid_state, status_bounds_violation, vtf_transport_max_parameter_sets,
  vtf_transport_max_parameter_set_bytes,
}
use vt_ferry.Protocol.Wire.{Bytemuck}
use vt_ferry.Protocol.Sessions.{CreateSessionPayload, CreateSessionReply}
use vt_ferry.Protocol.Decode.{
  SetDecodeFormatPayload, set_decode_format_payload, bind_decode_output_pool_payload,
}
use vt_ferry.Mock.Handles.{to_u64}
use vt_ferry.Mock.Transfer.{Check, ok, ◌>>=◌, ◌>>◌, refuse_if, or_refuse, read_pod}
use vt_ferry.Real.Maps.{insert, remove, contains_key}
use vt_ferry.Real.Frameworks.{Frameworks}
use vt_ferry.Real.State.{VtRealDecodeSession, VtRealBackend}
use vt_ferry.Real.Encoded.{refused}

-- 'avc1' and 'hvc1'
abbrev pub fourcc_avc1 : ℕ
fourcc_avc1 = 0x61766331

abbrev pub fourcc_hvc1 : ℕ
fourcc_hvc1 = 0x68766331

-- The slices of the inline data, one after the other.
unfoldable pub slices : List ℕ → ℕ → List ℕ → List (List ℕ)
slices [] offset data_bytes = []
slices (len ∷ lens) offset data_bytes =
    take len (drop offset data_bytes) ∷ slices lens (offset + len) data_bytes

-- The sizes that the payload declares.
abbrev pub declared_sizes : SetDecodeFormatPayload → List ℕ
declared_sizes payload = take payload.parameter_set_count payload.parameter_set_sizes

module _ (bm : Bytemuck) (fw : Frameworks) where
  abbrev pub new_decode_session : ℕ → CreateSessionPayload → VtRealDecodeSession fw
  new_decode_session session_id payload = record {
    id = session_id;
    codec = payload.codec;
    width = payload.width;
    height = payload.height;
    format_description = none;
    vt_session = none;
    callback_context = none;
    chunked_output = false;
  }

  -- CREATE_SESSION with the kind DECODE, with the reply that it sends.
  unfoldable pub create_decode_session :
      VtRealBackend fw → CreateSessionPayload → CreateSessionReply × VtRealBackend fw
  unfolding insert
  create_decode_session b payload = (
    record {
      session_id = b.next_host_id;
      negotiated_width = payload.width;
      negotiated_height = payload.height;
      pixel_format = payload.pixel_format;
      reserved = 0;
    },
    record b {
      next_host_id = to_u64 (b.next_host_id + 1);
      decode_sessions =
          insert b.next_host_id (new_decode_session b.next_host_id payload) b.decode_sessions;
    },
  )

  -- The decode branch of DESTROY_SESSION: whether it was a decode session.
  unfoldable pub destroy_decode_session : VtRealBackend fw → ℕ → Bool × VtRealBackend fw
  unfolding contains_key remove
  destroy_decode_session b session_id = (
    contains_key session_id b.decode_sessions,
    record b { decode_sessions = remove session_id b.decode_sessions },
  )

  unfoldable pub on_bind_decode_output_pool : VtRealBackend fw → List ℕ → ℕ × VtRealBackend fw
  unfolding read_pod ◌>>=◌ ◌>>◌ refuse_if or_refuse insert
  on_bind_decode_output_pool b req = refused bm fw b do
    payload ← or_refuse (read_pod bm bind_decode_output_pool_payload req) status_internal_failure
    refuse_if (not (payload.pool_id == 0)) status_bounds_violation
    session ← or_refuse (b.decode_sessions payload.session_id) status_invalid_handle
    refuse_if session.chunked_output status_invalid_state
    ok (
      0,
      record b {
        decode_sessions =
            insert payload.session_id (record session { chunked_output = true }) b.decode_sessions;
      },
    )

  -- The tests of SET_DECODE_FORMAT, with the session.
  unfoldable pub check_format :
      VtRealBackend fw → List ℕ → Check (SetDecodeFormatPayload × VtRealDecodeSession fw)
  unfolding read_pod ◌>>=◌ ◌>>◌ refuse_if or_refuse sum_by
  check_format b req = do
    payload ← or_refuse (read_pod bm set_decode_format_payload req) status_internal_failure
    refuse_if (ltb vtf_transport_max_parameter_sets payload.parameter_set_count)
        status_bounds_violation
    refuse_if (ltb vtf_transport_max_parameter_set_bytes (sum_by (λ s. s) (declared_sizes payload)))
        status_bounds_violation
    refuse_if (payload.parameter_set_count == 0) status_bounds_violation
    session ← or_refuse (b.decode_sessions payload.session_id) status_invalid_handle
    ok (payload, session)

  -- The format description, or none for another codec or a failure of CoreMedia.
  unfoldable pub format_of :
      SetDecodeFormatPayload → fw.World → Option fw.CmVideoFormatDescription × fw.World
  unfolding slices
  format_of payload w =
      let parameter_sets = slices (declared_sizes payload) 0 payload.parameter_set_data in
      if payload.codec == fourcc_avc1
      then fw.from_h264_parameter_sets parameter_sets payload.nal_header_length w
      else if payload.codec == fourcc_hvc1
      then fw.from_hevc_parameter_sets parameter_sets payload.nal_header_length w
      else (none, w)

  unfoldable pub needs_new_vt :
      VtRealDecodeSession fw → fw.CmVideoFormatDescription → fw.World → Bool
  needs_new_vt session format_description w = elim session.vt_session [
    | none ↦ true
    | some existing ↦ not (fw.can_accept_format_description existing format_description w)
  ]

  abbrev pub set_session :
      VtRealBackend fw → ℕ → VtRealDecodeSession fw → fw.World → VtRealBackend fw
  set_session b session_id session w = record b {
    decode_sessions = insert session_id session b.decode_sessions;
    world = w;
  }

  -- The session takes the format: the decoder that it has goes on if it can; otherwise a new one is made,
  -- under the context that it has or a new one, and a session without a decoder is what a failure leaves.
  unfoldable pub take_format :
      VtRealBackend fw
      → ℕ
      → VtRealDecodeSession fw
      → fw.CmVideoFormatDescription
      → fw.World
      → ℕ × VtRealBackend fw
  unfolding needs_new_vt insert
  take_format b session_id session format_description w =
      if not (needs_new_vt session format_description w)
      then (
        0,
        set_session b session_id (record session { format_description = some format_description })
            w,
      )
      else (let context : ℕ = elim session.callback_context [ none ↦ session_id | some c ↦ c ] in
          let dropped : VtRealDecodeSession fw = record session {
            vt_session = none;
            callback_context = some context;
          } in
          let (made, w') = fw.new_with_callback format_description context w in
          elim made [
            | none ↦ (status_unsupported_codec_or_format, set_session b session_id dropped w')
            | some vt_session ↦ (
              0,
              set_session b session_id
                  (record dropped {
                    vt_session = some vt_session;
                    format_description = some format_description;
                  })
                  w',
            )
          ])

  unfoldable pub on_set_decode_format : VtRealBackend fw → List ℕ → ℕ × VtRealBackend fw
  unfolding check_format format_of take_format ◌>>=◌
  on_set_decode_format b req = refused bm fw b do
    (payload, session) ← check_format b req
    let (format, w) = format_of payload b.world
    ok (elim format [
      | none ↦ (status_unsupported_codec_or_format, record b { world = w })
      | some format_description ↦ take_format b payload.session_id session format_description w
    ])
