-- ===== src/Real/Decoded.antt =====
-- The decoded frames of crates/vt-ferry-worker/src/vt_real.rs: the callback of the decoder, and
-- DEQUEUE_DECODED_FRAME and RELEASE_DECODED_FRAME.
use vt_ferry.Prelude.{
  ℕ, ◌-◌, ◌^◌, Bool, ◌==◌, not, ltb, if◌then◌else◌, Option, none, some, List, [], ◌∷◌, ◌++◌, drop,
  length,
}
use vt_ferry.Protocol.Codes.{status_internal_failure, status_invalid_handle, status_timeout}
use vt_ferry.Protocol.Wire.{Bytemuck, Layout, size_of}
use vt_ferry.Protocol.Decode.{
  dequeue_decoded_frame_payload, DequeueDecodedFrameReply, dequeue_decoded_frame_reply,
  release_decoded_frame_payload,
}
use vt_ferry.Mock.PixelLayout.{to_u32}
use vt_ferry.Mock.Transfer.{read_pod}
use vt_ferry.Real.Maps.{insert, remove}
use vt_ferry.Real.Frameworks.{Frameworks, CmTime}
use vt_ferry.Real.State.{
  VtRealDecodedOutput, DecodedOutputQueue, VtRealBackend, queue_of, enqueue, record_decode_error,
  take_decode_error,
}

-- kVTVideoDecoderUnknownErr, -12911, as the bits of an i32.
abbrev pub unknown_err : ℕ
unknown_err = 2 ^ 32 - 12911

-- The status, the response buffer and the returned length; or a slice of the response buffer out of range,
-- which panics.
pub data Response : Type 0 where
  answered : ℕ → List ℕ → ℕ → Response
  panicked : Response

-- Ok(0) with a status.
abbrev pub only : ℕ → List ℕ → Response
only status res = answered status res 0

unfoldable pub reply_with : Bytemuck → {A : Type 0} → Layout A → A → List ℕ → Response
reply_with bm l a res =
    if ltb (length res) (size_of l)
    then panicked
    else answered 0 (bm.bytes_of l a ++ drop (size_of l) res) (size_of l)

module _ (fw : Frameworks) where
  abbrev pub with_queue : VtRealBackend fw → DecodedOutputQueue fw → VtRealBackend fw
  with_queue b q = record b { decoded_output_state = q }

  -- What the decoder says of a frame to the context of a session, which shares the queue; `none` is a null
  -- image.
  unfoldable pub decompression_output :
      ℕ
      → ℕ
      → Option fw.CvImageBuffer
      → CmTime
      → CmTime
      → DecodedOutputQueue fw
      → DecodedOutputQueue fw
  unfolding enqueue record_decode_error
  decompression_output session_id status none pts duration q =
      record_decode_error fw session_id (if not (status == 0) then status else unknown_err) q
  decompression_output session_id status (some image) pts duration q =
      if not (status == 0)
      then record_decode_error fw session_id status q
      else (enqueue fw session_id
          (record {
            session_id = session_id;
            pts = pts;
            duration = duration;
            status = status;
            image_buffer = image;
          })
          q).1

  -- The front of the session's queue, the error that stands behind its frames, or nothing yet. A frame that
  -- has been released before its turn is nothing, too.
  pub data Front : Type 0 where
    frame : ℕ → VtRealDecodedOutput fw → Front
    failure : ℕ → Front
    timeout : Front

  unfoldable pub front_of : ℕ → Option (VtRealDecodedOutput fw) → Front
  front_of output_id none = timeout
  front_of output_id (some output) = frame output_id output

  unfoldable pub failure_of : Option ℕ → Front
  failure_of none = timeout
  failure_of (some status) = failure status

  unfoldable pub pop_front : ℕ → List ℕ → DecodedOutputQueue fw → Front × DecodedOutputQueue fw
  unfolding take_decode_error front_of failure_of
  pop_front session_id [] q =
      let (error, q') = take_decode_error fw session_id q in (failure_of error, q')
  pop_front session_id (output_id ∷ rest) q = (
    front_of output_id (q.queued output_id),
    record q { session_queues = insert session_id rest q.session_queues },
  )

  unfoldable pub release_decoded : ℕ → DecodedOutputQueue fw → ℕ × DecodedOutputQueue fw
  unfolding remove
  release_decoded output_id q = (
    elim (q.queued output_id) [ none ↦ status_invalid_handle | some _ ↦ 0 ],
    record q { queued = remove output_id q.queued },
  )

  unfoldable pub error_reply : ℕ → ℕ → DequeueDecodedFrameReply
  error_reply session_id vt_status = record {
    session_id = session_id;
    output_id = 0;
    buffer_proxy_id = 0;
    buffer_host_id = 0;
    buffer_generation = 0;
    width = 0;
    height = 0;
    pixel_format = 0;
    flags = 0;
    pts_value = 0;
    pts_timescale = 0;
    duration_timescale = 0;
    duration_value = 0;
    status = vt_status;
    slot_index = 0;
  }

  unfoldable pub frame_reply : ℕ → Bool → ℕ → VtRealDecodedOutput fw → DequeueDecodedFrameReply
  frame_reply session_id chunked_output output_id output = record {
    session_id = session_id;
    output_id = output_id;
    buffer_proxy_id = 0;
    buffer_host_id = if chunked_output then output_id else 0;
    buffer_generation = 0;
    width = to_u32 (fw.get_width output.image_buffer);
    height = to_u32 (fw.get_height output.image_buffer);
    pixel_format = fw.get_pixel_format_type output.image_buffer;
    flags = 0;
    pts_value = output.pts.value;
    pts_timescale = output.pts.timescale;
    duration_timescale = output.duration.timescale;
    duration_value = output.duration.value;
    status = output.status;
    slot_index = 0;
  }

  module _ (bm : Bytemuck) where
    unfoldable pub front_response : ℕ → Bool → List ℕ → Front → Response
    unfolding reply_with frame_reply error_reply
    front_response session_id chunked_output res (frame output_id output) =
        reply_with bm dequeue_decoded_frame_reply
          (frame_reply session_id chunked_output output_id output) res
    front_response session_id chunked_output res (failure vt_status) =
        reply_with bm dequeue_decoded_frame_reply (error_reply session_id vt_status) res
    front_response session_id chunked_output res timeout = only status_timeout res

    unfoldable pub on_dequeue_decoded_frame :
        VtRealBackend fw → List ℕ → List ℕ → Response × VtRealBackend fw
    unfolding read_pod front_response pop_front queue_of
    on_dequeue_decoded_frame b req res = elim (read_pod bm dequeue_decoded_frame_payload req) [
      | none ↦ (only status_internal_failure res, b)
      | some payload ↦ elim (b.decode_sessions payload.session_id) [
        | none ↦ (only status_invalid_handle res, b)
        | some session ↦
            let (front, q) =
              pop_front payload.session_id (queue_of fw b.decoded_output_state payload.session_id)
                b.decoded_output_state in
            (front_response payload.session_id session.chunked_output res front, with_queue b q)
      ]
    ]

    unfoldable pub on_release_decoded_frame :
        VtRealBackend fw → List ℕ → List ℕ → Response × VtRealBackend fw
    unfolding read_pod release_decoded
    on_release_decoded_frame b req res = elim (read_pod bm release_decoded_frame_payload req) [
      | none ↦ (only status_internal_failure res, b)
      | some payload ↦
          let (status, q) = release_decoded payload.output_id b.decoded_output_state in
          (only status res, with_queue b q)
    ]
