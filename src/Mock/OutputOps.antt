-- ===== src/Mock/OutputOps.antt =====
-- The arms of `dispatch` that hand out encoded outputs and release them, with `dequeue_output_idx`
-- and `release_output`, of crates/vt-ferry-worker/src/mock.rs.
use vt_ferry.Prelude.{
  ℕ, zero, suc, ◌-◌, min, max, true, ◌==◌, ◌&&◌, if◌then◌else◌, Option, none, some, List, [], ◌∷◌,
  ◌++◌, replicate, length, find_first, modify_first, remove_first,
}
use vt_ferry.Protocol.Codes.{
  status_invalid_handle, status_internal_failure, status_timeout, vtf_transport_max_output_batch,
}
use vt_ferry.Protocol.Wire.{Bytemuck}
use vt_ferry.Protocol.Outputs.{
  DequeueOutputReply, dequeue_output_payload, dequeue_output_reply, DequeueOutputBatchReply,
  dequeue_output_batch_payload, dequeue_output_batch_reply, read_output_payload, read_output_reply,
  release_output_payload,
}
use vt_ferry.Mock.State.{MockBackend, MockBuffer, MockOutput, guest_writable}
use vt_ferry.Mock.Transfer.{
  Outcome, Check, ok, err, ◌>>=◌, or_refuse, done, respond, read_pod, write_pod,
  write_pod_and_bytes,
}
use vt_ferry.Mock.Handles.{buffer_is, output_is, pending_for, is_queued_to_host, take_output}

abbrev pub mark_dequeued : MockOutput → MockOutput
mark_dequeued o = record o { dequeued = true }

-- `dequeue_output_idx` with the reply at the index that it returns.
unfoldable pub dequeue_output : ℕ → MockBackend → Option (DequeueOutputReply × MockBackend)
dequeue_output session_id b = elim (find_first (pending_for session_id) b.outputs) [
  | none ↦ none
  | some o ↦ some (
    o.reply,
    record b { outputs = modify_first (pending_for session_id) mark_dequeued b.outputs },
  )
]

-- The loop of DEQUEUE_OUTPUT_BATCH, by the rounds left.
unfoldable pub dequeue_up_to : ℕ → ℕ → MockBackend → List DequeueOutputReply × MockBackend
unfolding dequeue_output
dequeue_up_to zero session_id b = ([], b)
dequeue_up_to (suc rounds) session_id b = elim (dequeue_output session_id b) [
  | none ↦ ([], b)
  | some (r, b') ↦ let rest = dequeue_up_to rounds session_id b' in (r ∷ rest.0, rest.1)
]

-- A buffer that is still queued under the generation of the output is the guest's again.
abbrev pub give_back : ℕ → MockBuffer → MockBuffer
give_back generation x =
    if x.generation == generation && is_queued_to_host x.state
    then record x { state = guest_writable }
    else x

-- `release_output`: `none` if there is no such output.
unfoldable pub release_output : ℕ → MockBackend → Option MockBackend
release_output output_id b = elim (find_first (output_is output_id) b.outputs) [
  | none ↦ none
  | some o ↦ some (record b {
    buffers =
        modify_first (buffer_is o.source_buffer_id) (give_back o.source_buffer_generation)
          b.buffers;
    outputs = remove_first (output_is output_id) b.outputs;
    output_bytes_total = b.output_bytes_total - o.reply.sample_size;
  })
]

abbrev pub zeroed_output : DequeueOutputReply
zeroed_output = record {
  session_id = 0;
  output_id = 0;
  codec = 0;
  width = 0;
  height = 0;
  pixel_format = 0;
  pts_value = 0;
  pts_timescale = 0;
  duration_timescale = 0;
  duration_value = 0;
  sample_size = 0;
  sample_flags = 0;
  parameter_set_count = 0;
  nal_header_length = 0;
  parameter_set_sizes = replicate 4 0;
  parameter_set_data = replicate 128 0;
  output_slot_index = 0;
  output_slot_offset = 0;
  output_region_size = 0;
  reserved = 0;
}

abbrev pub batch_limit : ℕ → ℕ
batch_limit max_outputs = max (min max_outputs vtf_transport_max_output_batch) 1

unfoldable pub batch_reply : ℕ → List DequeueOutputReply → DequeueOutputBatchReply
batch_reply session_id replies = record {
  session_id = session_id;
  output_count = length replies;
  reserved = 0;
  outputs = replies ++ replicate (vtf_transport_max_output_batch - length replies) zeroed_output;
}

module _ (bm : Bytemuck) where
  unfoldable pub on_dequeue_output : MockBackend → List ℕ → List ℕ → Check Outcome
  on_dequeue_output b req res = do
    payload ← or_refuse (read_pod bm dequeue_output_payload req) status_internal_failure
    (reply, b') ← or_refuse (dequeue_output payload.session_id b) status_timeout
    ok (respond b' (write_pod bm dequeue_output_reply res reply))

  -- With no output at all the loop has changed nothing.
  unfoldable pub answer_batch :
      MockBackend → List ℕ → ℕ → List DequeueOutputReply × MockBackend → Check Outcome
  unfolding batch_reply
  answer_batch b res session_id ([], b') = err status_timeout
  answer_batch b res session_id (r ∷ rs, b') =
      ok
        (respond b' (write_pod bm dequeue_output_batch_reply res (batch_reply session_id (r ∷ rs))))

  unfoldable pub on_dequeue_output_batch : MockBackend → List ℕ → List ℕ → Check Outcome
  unfolding answer_batch dequeue_up_to
  on_dequeue_output_batch b req res = do
    payload ← or_refuse (read_pod bm dequeue_output_batch_payload req) status_internal_failure
    answer_batch b res payload.session_id
        (dequeue_up_to (batch_limit payload.max_outputs) payload.session_id b)

  unfoldable pub on_read_output : MockBackend → List ℕ → List ℕ → Check Outcome
  on_read_output b req res = do
    payload ← or_refuse (read_pod bm read_output_payload req) status_internal_failure
    o ← or_refuse (take_output b payload.output_id) status_invalid_handle
    ok (
        respond b (
          write_pod_and_bytes bm read_output_reply res
            (record {
              output_id = o.reply.output_id;
              sample_size = o.reply.sample_size;
              reserved = 0;
            })
            o.sample_data))

  unfoldable pub on_release_output : MockBackend → List ℕ → List ℕ → Check Outcome
  on_release_output b req res = do
    payload ← or_refuse (read_pod bm release_output_payload req) status_internal_failure
    b' ← or_refuse (release_output payload.output_id b) status_invalid_handle
    ok (done b' res)
