-- ===== src/Mock/BufferOps.antt =====
-- The arms of `dispatch` that read and write the bytes of a buffer, of
-- crates/vt-ferry-worker/src/mock.rs.
use vt_ferry.Prelude.{ℕ, ◌+◌, ◌-◌, not, ◌==◌, ltb, ◌||◌, List, take, drop, length}
use vt_ferry.Protocol.Codes.{
  status_invalid_handle, status_internal_failure, status_stale_generation, status_invalid_state,
  status_bounds_violation,
}
use vt_ferry.Protocol.Wire.{Bytemuck, size_of}
use vt_ferry.Protocol.Buffers.{read_buffer_payload, read_buffer_reply, write_buffer_payload}
use vt_ferry.Mock.State.{MockBackend}
use vt_ferry.Mock.Transfer.{
  Outcome, Check, ok, ◌>>=◌, ◌>>◌, refuse_if, or_refuse, done, respond, read_pod,
  write_pod_and_bytes,
}
use vt_ferry.Mock.Handles.{
  find_pool, find_buffer, is_recycled, is_guest_writable, bytes_at, slot_bytes, write_slot,
  set_pool,
}

module _ (bm : Bytemuck) where
  unfoldable pub on_read_buffer : MockBackend → List ℕ → List ℕ → Check Outcome
  on_read_buffer b req res = do
    payload ← or_refuse (read_pod bm read_buffer_payload req) status_internal_failure
    x ← or_refuse (find_buffer b payload.buffer_id) status_invalid_handle
    refuse_if (not (x.generation == payload.generation)) status_stale_generation
    refuse_if (is_recycled x.state) status_invalid_state
    refuse_if
        (ltb x.total_size payload.offset || ltb (x.total_size - payload.offset) payload.length)
        status_bounds_violation
    p ← or_refuse (find_pool b x.pool_id) status_invalid_handle
    bytes ← or_refuse (slot_bytes p x.slot_index) status_internal_failure
    ok (
        respond b (
          write_pod_and_bytes bm read_buffer_reply res
            (record {
              buffer_id = x.id;
              generation = x.generation;
              offset = payload.offset;
              length = payload.length;
            })
            (bytes_at payload.offset payload.length bytes)))

  -- A request that is too short for its header is a violation of bounds here.
  unfoldable pub on_write_buffer : MockBackend → List ℕ → List ℕ → Check Outcome
  on_write_buffer b req res = do
    let header_size = size_of write_buffer_payload
    refuse_if (ltb (length req) header_size) status_bounds_violation
    let payload = bm.pod_read_unaligned write_buffer_payload (take header_size req)
    x ← or_refuse (find_buffer b payload.buffer_id) status_invalid_handle
    refuse_if (not (x.generation == payload.generation)) status_stale_generation
    refuse_if (not (is_guest_writable x.state)) status_invalid_state
    refuse_if
        (ltb x.total_size payload.offset
          || (ltb (x.total_size - payload.offset) payload.length
              || not (length req == header_size + payload.length)))
        status_bounds_violation
    p ← or_refuse (find_pool b x.pool_id) status_invalid_handle
    p' ←
        or_refuse (write_slot p x.slot_index payload.offset (drop header_size req))
          status_internal_failure
    ok (done (set_pool b p') res)
