-- ===== src/Real/Failures.antt =====
-- What the guest hears of a frame that could not be decoded, in crates/vt-ferry-worker/src/vt_real.rs.
use vt_ferry.Prelude.{
  ℕ, zero, suc, ◌+◌, ◌≡◌, ◌≢◌, refl, sym, ap, ◌∙◌, ==-ne, Option, none, some, List, [], ◌∷◌, ◌++◌,
  map, length, replicate, arith,
}
use vt_ferry.Server.Answers.{append_nil}
use vt_ferry.Protocol.Codes.{status_timeout}
use vt_ferry.Protocol.Wire.{Bytemuck, IsWireValue}
use vt_ferry.Protocol.Decode.{
  DequeueDecodedFramePayload, dequeue_decoded_frame_payload, dequeue_decoded_frame_reply,
}
use vt_ferry.Mock.Transfer.{read_pod}
use vt_ferry.Real.Maps.{insert, remove, insert-get, remove-get}
use vt_ferry.Real.Frameworks.{Frameworks, CmTime}
use vt_ferry.Real.State.{
  VtRealDecodedOutput, VtRealDecodeSession, VtRealBackend, DecodedOutputQueue, queue_of,
  record_decode_error, take_decode_error,
}
use vt_ferry.Real.Decoded.{
  Response, only, reply_with, with_queue, decompression_output, failure_of, front_of, pop_front,
  error_reply, frame_reply, front_response, on_dequeue_decoded_frame,
}
use vt_ferry.Real.Assembly.{read_pod-append}

module _ (bm : Bytemuck) (fw : Frameworks) where
  read_pod-bytes_of :
      (payload : DequeueDecodedFramePayload)
      → IsWireValue dequeue_decoded_frame_payload payload
      → read_pod bm dequeue_decoded_frame_payload
          (bm.bytes_of dequeue_decoded_frame_payload payload)
        ≡ some payload
  read_pod-bytes_of payload w =
      ap (read_pod bm dequeue_decoded_frame_payload)
        (sym (append_nil (bm.bytes_of dequeue_decoded_frame_payload payload)))
      ∙ read_pod-append bm dequeue_decoded_frame_payload payload [] w

  -- A dequeue of a session that exists and has no frame waiting.
  on_dequeue_decoded_frame-empty :
      (b : VtRealBackend fw) (session : VtRealDecodeSession fw)
      (payload : DequeueDecodedFramePayload) (res : List ℕ) (error : Option ℕ)
      → IsWireValue dequeue_decoded_frame_payload payload
      → b.decode_sessions payload.session_id ≡ some session
      → queue_of fw b.decoded_output_state payload.session_id ≡ []
      → b.decoded_output_state.decode_errors payload.session_id ≡ error
      → on_dequeue_decoded_frame fw bm b (bm.bytes_of dequeue_decoded_frame_payload payload) res ≡ (
        front_response fw bm payload.session_id session.chunked_output res (failure_of fw error),
        with_queue fw b (record b.decoded_output_state {
          decode_errors = remove payload.session_id b.decoded_output_state.decode_errors;
        }),
      )
  unfolding on_dequeue_decoded_frame pop_front take_decode_error
  on_dequeue_decoded_frame-empty b session payload res error w known none_left e =
      rw (read_pod-bytes_of payload w, on_dequeue_decoded_frame)
        (rw (known, on_dequeue_decoded_frame) (rw (none_left, pop_front) (rw e refl)))

  decompression_output-failed :
      (session_id status : ℕ) (image : Option fw.CvImageBuffer) (pts duration : CmTime)
      (q : DecodedOutputQueue fw)
      → status ≢ 0
      → decompression_output fw session_id status image pts duration q
        ≡ record q { decode_errors = insert session_id status q.decode_errors }
  unfolding decompression_output record_decode_error
  decompression_output-failed session_id status none pts duration q bad =
      rw (==-ne status 0 bad, decompression_output) (rw (==-ne status 0 bad) refl)
  decompression_output-failed session_id status (some image) pts duration q bad =
      rw (==-ne status 0 bad) refl

  module _ (b : VtRealBackend fw) (session : VtRealDecodeSession fw)
      (payload : DequeueDecodedFramePayload) (res : List ℕ)
      (wire : IsWireValue dequeue_decoded_frame_payload payload)
      (known : b.decode_sessions payload.session_id ≡ some session) where
    -- The answers to the same DEQUEUE_DECODED_FRAME, sent a number of times.
    unfoldable pub answers : ℕ → DecodedOutputQueue fw → List Response
    unfolding on_dequeue_decoded_frame
    answers zero q = []
    answers (suc n) q =
        let (response, b') =
          on_dequeue_decoded_frame fw bm (with_queue fw b q)
            (bm.bytes_of dequeue_decoded_frame_payload payload) res in
        response ∷ answers n b'.decoded_output_state

    -- What is answered of a frame that waits; one that has been released before its turn is not there.
    abbrev pub shown : ℕ → Option (VtRealDecodedOutput fw) → Response
    shown output_id none = only status_timeout res
    shown output_id (some output) =
        reply_with bm dequeue_decoded_frame_reply
          (frame_reply fw payload.session_id session.chunked_output output_id output) res

    abbrev pub waiting : DecodedOutputQueue fw → ℕ → Response
    waiting q output_id = shown output_id (q.queued output_id)

    front_response-shown :
        (output_id : ℕ) (o : Option (VtRealDecodedOutput fw))
        → front_response fw bm payload.session_id session.chunked_output res
            (front_of fw output_id o)
          ≡ shown output_id o
    unfolding front_response front_of
    front_response-shown output_id none = refl
    front_response-shown output_id (some output) = refl

    -- No frame waits and no failure is there.
    answers-quiet :
        (n : ℕ) (q : DecodedOutputQueue fw)
        → queue_of fw q payload.session_id ≡ []
        → q.decode_errors payload.session_id ≡ none
        → answers n q ≡ replicate n (only status_timeout res)
    unfolding answers front_response failure_of queue_of
    answers-quiet zero q empty quiet = refl
    answers-quiet (suc n) q empty quiet =
        let one =
          on_dequeue_decoded_frame-empty (with_queue fw b q) session payload res none wire known
            empty quiet in
        rw (one, answers)
          (ap (λ rest. only status_timeout res ∷ rest)
            (answers-quiet n
              (record q { decode_errors = remove payload.session_id q.decode_errors }) empty
              (remove-get payload.session_id q.decode_errors)))

    -- A frame waits.
    on_dequeue_decoded_frame-front :
        (q : DecodedOutputQueue fw) (output_id : ℕ) (rest : List ℕ)
        → queue_of fw q payload.session_id ≡ output_id ∷ rest
        → on_dequeue_decoded_frame fw bm
            (with_queue fw b q)
            (bm.bytes_of dequeue_decoded_frame_payload payload)
            res
          ≡ (
            waiting q output_id,
            with_queue fw b
                (record q { session_queues = insert payload.session_id rest q.session_queues }),
          )
    unfolding on_dequeue_decoded_frame pop_front
    on_dequeue_decoded_frame-front q output_id rest front =
        rw (read_pod-bytes_of payload wire, on_dequeue_decoded_frame)
          (rw (known, on_dequeue_decoded_frame)
            (rw (front, pop_front)
              (ap
                (λ response. (
                  response,
                  with_queue fw b (record q {
                    session_queues = insert payload.session_id rest q.session_queues;
                  }),
                ))
                (front_response-shown output_id (q.queued output_id)))))

    answers-failed :
        (ids : List ℕ) (n status : ℕ) (q : DecodedOutputQueue fw)
        → queue_of fw q payload.session_id ≡ ids
        → q.decode_errors payload.session_id ≡ some status
        → answers (suc (length ids + n)) q
          ≡ map (waiting q) ids
            ++ reply_with bm dequeue_decoded_frame_reply
                (error_reply fw payload.session_id status)
                res
              ∷ replicate n (only status_timeout res)
    unfolding answers front_response failure_of queue_of
    answers-failed [] n status q empty failed =
        let one =
          on_dequeue_decoded_frame-empty (with_queue fw b q) session payload res (some status) wire
            known empty failed in
        let count : length {A = ℕ} [] + n ≡ n = omega arith in
        rw (count, one, answers)
          (ap
            (λ rest.
              reply_with bm dequeue_decoded_frame_reply (error_reply fw payload.session_id status)
                res
              ∷ rest)
            (answers-quiet n
              (record q { decode_errors = remove payload.session_id q.decode_errors }) empty
              (remove-get payload.session_id q.decode_errors)))
    answers-failed (output_id ∷ ids) n status q front failed =
        let one = on_dequeue_decoded_frame-front q output_id ids front in
        let left = record q { session_queues = insert payload.session_id ids q.session_queues } in
        let behind : queue_of fw left payload.session_id ≡ ids =
          rw (insert-get payload.session_id ids q.session_queues, queue_of) refl in
        let count : length (output_id ∷ ids) + n ≡ suc (length ids + n) = omega arith in
        rw count (
          rw (one, answers)
            (ap (λ rest. waiting q output_id ∷ rest)
              (answers-failed ids n status left behind failed)))

    -- A failure that the decoder reports of a session is answered once, behind the frames that wait: with
    -- `ids` in the queue of the session when it is reported, the next dequeues are answered with those
    -- frames in their order, the one after them with the frame 0 with the status of the failure, and any
    -- number after that with nothing yet. A frame that has been released before its turn is answered with
    -- nothing yet, too. The request is well formed, and the session exists.
    pub decode_error-once :
        (ids : List ℕ) (n status : ℕ) (image : Option fw.CvImageBuffer) (pts duration : CmTime)
        → status ≢ 0
        → queue_of fw b.decoded_output_state payload.session_id ≡ ids
        → answers (suc (length ids + n)) (
            decompression_output fw payload.session_id status image pts duration
              b.decoded_output_state)
          ≡ map (waiting b.decoded_output_state) ids
            ++ reply_with bm dequeue_decoded_frame_reply
                (error_reply fw payload.session_id status)
                res
              ∷ replicate n (only status_timeout res)
    unfolding queue_of
    decode_error-once ids n status image pts duration bad queue =
        let q = b.decoded_output_state in
        ap (answers (suc (length ids + n)))
          (decompression_output-failed payload.session_id status image pts duration q bad)
        ∙ answers-failed ids n status
            (record q { decode_errors = insert payload.session_id status q.decode_errors }) queue
            (insert-get payload.session_id status q.decode_errors)
