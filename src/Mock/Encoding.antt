-- ===== src/Mock/Encoding.antt =====
-- From ENCODE_FRAME to the dequeue of its output, in crates/vt-ferry-worker/src/mock.rs.
use vt_ferry.Prelude.{
  ℕ, ◌+◌, ◌*◌, ◌<◌, ◌≤◌, ◌≡◌, ◌≢◌, refl, sym, ap, ◌∙◌, true, false, ◌==◌, ==-refl, if◌then◌else◌,
  some, List, [], ◌∷◌, ◌++◌, map, take, take-append_at, length, length-append, arith, min, retain,
}
use vt_ferry.Server.Answers.{append_nil}
use vt_ferry.Protocol.Wire.{Bytemuck, IsWireValue}
use vt_ferry.Protocol.Outputs.{EncodeFramePayload, encode_frame_payload, DequeueOutputReply}
use vt_ferry.Mock.State.{
  MockBackend, MockOutput, MockSession, MockBuffer, MockPool, guest_writable,
  encode_output_flag_sync,
}
use vt_ferry.Mock.PixelLayout.{to_u32}
use vt_ferry.Mock.Transfer.{ok, settle, done, ◌>>=◌, ◌>>◌, refuse_if, or_refuse}
use vt_ferry.Mock.Handles.{find_session, find_pool, find_buffer, slot_bytes, bytes_at, pending_for}
use vt_ferry.Mock.EncodeOps.{
  on_encode_frame, queue_output, queued_output, output_reply, no_room_for, nal_bytes,
}
use vt_ferry.Mock.OutputOps.{dequeue_up_to}
use vt_ferry.Mock.Samples.{length-nal_bytes}
use vt_ferry.Mock.Slots.{slot_bytes-some, find_pool-IsPool}
use vt_ferry.Mock.ReadBack.{read_pod-request}
use vt_ferry.Mock.Queue.{pending, dequeue_up_to-fifo}
use vt_ferry.Mock.Invariant.Defs.{Inv}

-- What the guest is told of the output of a frame: the session and the times of the frame, the codec and the
-- format of the session, a fresh number, and a sample of 28 bytes, marked if it is the session's first.
pub record Describes (b : MockBackend) (payload : EncodeFramePayload) (s : MockSession)
    (r : DequeueOutputReply) : Type 0 where
  pub session_id : r.session_id ≡ payload.session_id
  pub output_id : r.output_id ≡ b.next_output_id
  pub pts_value : r.pts_value ≡ payload.pts_value
  pub pts_timescale : r.pts_timescale ≡ payload.pts_timescale
  pub duration_value : r.duration_value ≡ payload.duration_value
  pub duration_timescale : r.duration_timescale ≡ payload.duration_timescale
  pub codec : r.codec ≡ s.codec
  pub width : r.width ≡ s.width
  pub height : r.height ≡ s.height
  pub pixel_format : r.pixel_format ≡ s.pixel_format
  pub sample_size : r.sample_size ≡ 28
  pub sample_flags : r.sample_flags ≡ (if s.frames_encoded == 0 then encode_output_flag_sync else 0)

-- A new output of a session is the last one that is pending in it.
pending-last :
    (sid : ℕ) (os : List MockOutput) (o : MockOutput)
    → pending_for sid o ≡ true
    → map (λ (q : MockOutput). q.reply) (retain (pending_for sid) (os ++ o ∷ []))
      ≡ map (λ (q : MockOutput). q.reply) (retain (pending_for sid) os) ++ o.reply ∷ []
unfolding retain
pending-last sid [] o e = ground arith
pending-last sid (h ∷ os) o e = ground (arith, pending-last sid os o e)

pending-other :
    (sid : ℕ) (os : List MockOutput) (o : MockOutput)
    → pending_for sid o ≡ false
    → retain (pending_for sid) (os ++ o ∷ []) ≡ retain (pending_for sid) os
unfolding retain
pending-other sid [] o e = ground arith
pending-other sid (h ∷ os) o e = ground (arith, pending-other sid os o e)

module _ (b : MockBackend) (payload : EncodeFramePayload) (s : MockSession) (x : MockBuffer)
    (payload_bytes : List ℕ) where
  pending-queue_output :
      pending payload.session_id (queue_output b payload s x payload_bytes)
      ≡ pending payload.session_id b ++ (queued_output b payload s x payload_bytes).reply ∷ []
  unfolding pending queue_output queued_output output_reply
  pending-queue_output =
      pending-last payload.session_id b.outputs (queued_output b payload s x payload_bytes)
        (rw (==-refl payload.session_id) refl)

  pending-queue_output_other :
      (other : ℕ)
      → other ≢ payload.session_id
      → pending other (queue_output b payload s x payload_bytes) ≡ pending other b
  unfolding pending queue_output queued_output output_reply
  pending-queue_output_other other n = ap (map (λ (q : MockOutput). q.reply)) (
      pending-other other b.outputs (queued_output b payload s x payload_bytes) (ground (arith, n)))

  queued_output-Describes :
      length payload_bytes ≡ 24
      → Describes b payload s (queued_output b payload s x payload_bytes).reply
  unfolding queued_output output_reply
  queued_output-Describes size = record {
    session_id = refl;
    output_id = refl;
    pts_value = refl;
    pts_timescale = refl;
    duration_value = refl;
    duration_timescale = refl;
    codec = refl;
    width = refl;
    height = refl;
    pixel_format = refl;
    sample_size = omega (arith, size);
    sample_flags = refl;
  }

module _ (bm : Bytemuck) (b : MockBackend) (payload : EncodeFramePayload) (s : MockSession)
    (x : MockBuffer) (res : List ℕ) where
  -- The accepted frame.
  encode_frame-accepts :
      (p : MockPool) (bytes : List ℕ)
      → IsWireValue encode_frame_payload payload
      → find_session b payload.session_id ≡ some s
      → s.prepared ≡ true
      → (payload.image_buffer_proxy_id == 0) ≡ false
      → find_buffer b payload.image_buffer_host_id ≡ some x
      → x.generation ≡ payload.image_buffer_generation
      → x.state ≡ guest_writable
      → length b.outputs < b.max_output_count
      → find_pool b x.pool_id ≡ some p
      → slot_bytes p x.slot_index ≡ some bytes
      → no_room_for b 28 ≡ false
      → on_encode_frame bm b (bm.bytes_of encode_frame_payload payload ++ []) res
        ≡ ok (
            done
              (queue_output b payload s x (
                nal_bytes payload.session_id b.next_output_id
                  (s.frames_encoded == 0)
                  (take (min 8 x.total_size) bytes)))
              res)
  unfolding on_encode_frame ◌>>=◌ ◌>>◌ refuse_if or_refuse
  encode_frame-accepts p bytes wire session prepared named found gen state count found_p here room =
      let size : to_u32 (
            4
            + length (
                nal_bytes payload.session_id b.next_output_id (s.frames_encoded == 0)
                  (take (min 8 x.total_size) bytes)))
          ≡ 28 =
        omega (
          arith,
          length-nal_bytes payload.session_id b.next_output_id (s.frames_encoded == 0)
              (take (min 8 x.total_size) bytes),
        ) in
      ground (arith, read_pod-request bm encode_frame_payload payload [] wire, size)

  -- A frame of a prepared session, from a buffer that the guest may write, under its generation, is accepted
  -- while there is room for one more output and 28 bytes: ENCODE_FRAME is answered with Ok(0), and from then
  -- on its output is the last one that waits in the queue of the session. The queues of the other sessions
  -- are as they were, and dequeuing one output more than had been waiting gives the waiting ones in order,
  -- and then this one. The backend satisfies its invariant, and the request is well formed and has a proxy
  -- id that is not 0.
  pub encode_frame-dequeued :
      Inv b
      → IsWireValue encode_frame_payload payload
      → find_session b payload.session_id ≡ some s
      → s.prepared ≡ true
      → payload.image_buffer_proxy_id ≢ 0
      → find_buffer b payload.image_buffer_host_id ≡ some x
      → x.generation ≡ payload.image_buffer_generation
      → x.state ≡ guest_writable
      → length b.outputs < b.max_output_count
      → b.output_bytes_total + 28 ≤ b.max_output_bytes
      → let o =
          settle b res
            (on_encode_frame bm b (bm.bytes_of encode_frame_payload payload ++ []) res) in
        let sid = payload.session_id in
        (o.result ≡ some 0)
        × (o.status ≡ 0)
        × ((other : ℕ) → other ≢ sid → pending other o.backend ≡ pending other b)
        × ((r : DequeueOutputReply) × Describes b payload s r
            × (pending sid o.backend ≡ pending sid b ++ r ∷ [])
            × ((dequeue_up_to (length (pending sid b) + 1) sid o.backend).0
                ≡ pending sid b ++ r ∷ []))
  encode_frame-dequeued v wire session prepared named found gen state count room =
      let (p, found_p, ip, hx, size, pos) =
        find_pool-IsPool b payload.image_buffer_host_id {x = x} v found in
      let bytes = bytes_at (x.slot_index * p.slot_region_size) p.slot_region_size p.backing in
      let nal =
        nal_bytes payload.session_id b.next_output_id (s.frames_encoded == 0)
          (take (min 8 x.total_size) bytes) in
      let r = (queued_output b payload s x nal).reply in
      let sid = payload.session_id in
      let b' = queue_output b payload s x nal in
      let some_proxy : (payload.image_buffer_proxy_id == 0) ≡ false = ground (arith, named) in
      let fits : no_room_for b 28 ≡ false = ground (arith, room) in
      let accepted =
        encode_frame-accepts p bytes wire session prepared some_proxy found gen state count found_p
          (slot_bytes-some p x.slot_index ip hx pos) fits in
      let last = pending-queue_output b payload s x nal in
      let whole : length (pending sid b ++ r ∷ []) ≡ length (pending sid b) + 1 =
        omega (arith, length-append (pending sid b) (r ∷ [])) in
      let batch : (dequeue_up_to (length (pending sid b) + 1) sid b').0 ≡ pending sid b ++ r ∷ [] =
        (dequeue_up_to-fifo (length (pending sid b) + 1) sid b').0
        ∙ ap (take (length (pending sid b) + 1)) (last ∙ sym (append_nil (pending sid b ++ r ∷ [])))
        ∙ take-append_at (length (pending sid b) + 1) (pending sid b ++ r ∷ []) [] whole in
      rw accepted (
        refl,
        refl,
        λ other n. pending-queue_output_other b payload s x nal other n,
        (r, queued_output-Describes b payload s x nal (length-nal_bytes _ _ _ _), last, batch),
      )
