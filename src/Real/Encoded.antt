-- ===== src/Real/Encoded.antt =====
-- ENQUEUE_ENCODED_FRAME and ENQUEUE_ENCODED_FRAME_CHUNK in crates/vt-ferry-worker/src/vt_real.rs.
use vt_ferry.Prelude.{
  ℕ, ◌+◌, ◌*◌, ◌^◌, Bool, true, not, ◌&&◌, ◌||◌, ◌==◌, ltb, leb, if◌then◌else◌, none, some, List,
  ◌++◌, drop, length,
}
use vt_ferry.Protocol.Codes.{
  status_bounds_violation, status_internal_failure, status_invalid_handle, status_invalid_state,
}
use vt_ferry.Protocol.Opcodes.{vtf_transport_max_encoded_frame_bytes}
use vt_ferry.Protocol.Wire.{Bytemuck, size_of}
use vt_ferry.Protocol.Decode.{
  enqueue_encoded_frame_payload, EnqueueEncodedFrameChunkPayload,
  enqueue_encoded_frame_chunk_payload,
}
use vt_ferry.Mock.PixelLayout.{to_u32}
use vt_ferry.Mock.Transfer.{Check, ok, err, ◌>>=◌, ◌>>◌, refuse_if, or_refuse, read_pod}
use vt_ferry.Real.Maps.{HashMap, insert, remove, contains_key}
use vt_ferry.Real.Frameworks.{Frameworks, CmTime, CmSampleTimingInfo}
use vt_ferry.Real.State.{PendingEncodedFrame, VtRealBackend}

abbrev pub max_chunked_encoded_frame_bytes : ℕ
max_chunked_encoded_frame_bytes = 64 * 1024 * 1024

abbrev pub cm_time_flags_valid : ℕ
cm_time_flags_valid = 1

abbrev pub valid_time : ℕ → ℕ → CmTime
valid_time value timescale = record {
  value = value;
  timescale = timescale;
  flags = cm_time_flags_valid;
  epoch = 0;
}

abbrev pub timing_of : ℕ → ℕ → ℕ → ℕ → CmSampleTimingInfo
timing_of pts_value pts_timescale duration_value duration_timescale = record {
  duration = valid_time duration_value duration_timescale;
  presentation_time_stamp = valid_time pts_value pts_timescale;
  decode_time_stamp = record { value = 0; timescale = 0; flags = 0; epoch = 0 };
}

-- u32's checked_add, and the test on what it gives.
abbrev pub beyond : ℕ → ℕ → ℕ → Bool
beyond offset len total = if leb (2 ^ 32) (offset + len) then true else ltb total (offset + len)

module _ (bm : Bytemuck) (fw : Frameworks) where
  -- The calls of the frameworks on a frame, each of which may fail.
  unfoldable pub decode_with :
      fw.CmVideoFormatDescription
      → fw.VtDecompressionSession
      → List ℕ
      → CmSampleTimingInfo
      → fw.World
      → ℕ × fw.World
  decode_with format_description vt_session encoded_bytes timing w =
      let (block, w1) = fw.new_with_memory_block (length encoded_bytes) w in
      elim block [
        | none ↦ (status_internal_failure, w1)
        | some block_buffer ↦
            let (replaced, w2) = fw.replace_data_bytes block_buffer encoded_bytes w1 in
            if not replaced
            then (status_internal_failure, w2)
            else (let (sample, w3) =
                  fw.create_ready block_buffer format_description timing (length encoded_bytes)
                    w2 in
                elim sample [
                  | none ↦ (status_internal_failure, w3)
                  | some sample_buffer ↦
                      let (decoded, w4) = fw.decode_frame vt_session sample_buffer w3 in
                      (if decoded then 0 else status_internal_failure, w4)
                ])
      ]

  -- The status, and the backend with the frameworks as they are then.
  unfoldable pub dispatch_decode_assembled_frame :
      ℕ → List ℕ → CmSampleTimingInfo → VtRealBackend fw → ℕ × VtRealBackend fw
  unfolding decode_with
  dispatch_decode_assembled_frame session_id encoded_bytes timing b =
      elim (b.decode_sessions session_id) [
        | none ↦ (status_invalid_handle, b)
        | some session ↦ elim session.format_description [
          | none ↦ (status_invalid_state, b)
          | some format_description ↦ elim session.vt_session [
            | none ↦ (status_invalid_state, b)
            | some vt_session ↦
                let (status, w) =
                  decode_with format_description vt_session encoded_bytes timing b.world in
                (status, record b { world = w })
          ]
        ]
      ]

  abbrev pub refused : VtRealBackend fw → Check (ℕ × VtRealBackend fw) → ℕ × VtRealBackend fw
  refused b (ok r) = r
  refused b (err status) = (status, b)

  -- The status of the response, of no payload, and the backend.
  unfoldable pub on_enqueue_encoded_frame : VtRealBackend fw → List ℕ → ℕ × VtRealBackend fw
  unfolding dispatch_decode_assembled_frame read_pod ◌>>=◌ ◌>>◌ refuse_if or_refuse
  on_enqueue_encoded_frame b req = refused b do
    payload ← or_refuse (read_pod bm enqueue_encoded_frame_payload req) status_internal_failure
    refuse_if (ltb vtf_transport_max_encoded_frame_bytes payload.encoded_size)
        status_bounds_violation
    refuse_if (payload.encoded_size == 0) status_bounds_violation
    let header_size = size_of enqueue_encoded_frame_payload
    refuse_if (not (length req == header_size + payload.encoded_size)) status_bounds_violation
    ok (
        dispatch_decode_assembled_frame payload.session_id (drop header_size req)
          (timing_of payload.pts_value payload.pts_timescale payload.duration_value
            payload.duration_timescale)
          b)

  -- The tests on a chunk, before anything changes.
  unfoldable pub check_chunk :
      VtRealBackend fw → List ℕ → Check (EnqueueEncodedFrameChunkPayload × List ℕ)
  unfolding read_pod ◌>>=◌ ◌>>◌ refuse_if or_refuse contains_key
  check_chunk b req = do
    payload ←
        or_refuse (read_pod bm enqueue_encoded_frame_chunk_payload req) status_internal_failure
    let header_size = size_of enqueue_encoded_frame_chunk_payload
    refuse_if (not (length req == header_size + payload.chunk_length)) status_bounds_violation
    refuse_if
        (payload.total_encoded_size == 0
          || ltb max_chunked_encoded_frame_bytes payload.total_encoded_size)
        status_bounds_violation
    refuse_if (beyond payload.chunk_offset payload.chunk_length payload.total_encoded_size)
        status_bounds_violation
    refuse_if (payload.chunk_length == 0 && payload.is_final_chunk == 0) status_bounds_violation
    refuse_if (not (contains_key payload.session_id b.decode_sessions)) status_invalid_handle
    ok (payload, drop header_size req)

  abbrev pub with_pending : VtRealBackend fw → HashMap PendingEncodedFrame → VtRealBackend fw
  with_pending b pending = record b { pending_encoded_frames = pending }

  abbrev pub head_of : EnqueueEncodedFrameChunkPayload → List ℕ → PendingEncodedFrame
  head_of payload chunk_data = record {
    bytes = chunk_data;
    total_size = payload.total_encoded_size;
    pts_value = payload.pts_value;
    pts_timescale = payload.pts_timescale;
    duration_value = payload.duration_value;
    duration_timescale = payload.duration_timescale;
  }

  -- A chunk at offset 0 starts a frame, whatever was there; any other one is appended in its place.
  unfoldable pub take_chunk :
      VtRealBackend fw → EnqueueEncodedFrameChunkPayload → List ℕ → Check (VtRealBackend fw)
  unfolding ◌>>=◌ ◌>>◌ refuse_if or_refuse insert
  take_chunk b payload chunk_data =
      if payload.chunk_offset == 0
      then ok (
          with_pending b
            (insert payload.session_id (head_of payload chunk_data) b.pending_encoded_frames))
      else do
        pending ← or_refuse (b.pending_encoded_frames payload.session_id) status_invalid_state
        refuse_if (not (pending.total_size == payload.total_encoded_size)) status_invalid_state
        refuse_if (not (length pending.bytes == payload.chunk_offset)) status_invalid_state
        ok (
            with_pending b (
              insert payload.session_id (record pending { bytes = pending.bytes ++ chunk_data })
                b.pending_encoded_frames))

  -- The final chunk takes the frame out and hands it to the decoder.
  unfoldable pub finish_frame :
      VtRealBackend fw → EnqueueEncodedFrameChunkPayload → ℕ × VtRealBackend fw
  unfolding dispatch_decode_assembled_frame remove
  finish_frame b payload =
      let b' = with_pending b (remove payload.session_id b.pending_encoded_frames) in
      elim (b.pending_encoded_frames payload.session_id) [
        | none ↦ (status_invalid_state, b')
        | some pending ↦
            if not (to_u32 (length pending.bytes) == pending.total_size)
            then (status_invalid_state, b')
            else dispatch_decode_assembled_frame payload.session_id pending.bytes
                (timing_of pending.pts_value pending.pts_timescale pending.duration_value
                  pending.duration_timescale)
                b'
      ]

  unfoldable pub on_enqueue_encoded_frame_chunk : VtRealBackend fw → List ℕ → ℕ × VtRealBackend fw
  unfolding check_chunk take_chunk finish_frame ◌>>=◌
  on_enqueue_encoded_frame_chunk b req = refused b do
    (payload, chunk_data) ← check_chunk b req
    b' ← take_chunk b payload chunk_data
    ok (if payload.is_final_chunk == 0 then (0, b') else finish_frame b' payload)
