-- ===== src/Mock/PoolOps.antt =====
-- The arms of `dispatch` that make pools, hand out buffers and take them back, with `recycle_buffer`,
-- of crates/vt-ferry-worker/src/mock.rs.
use vt_ferry.Prelude.{
  ℕ, ◌+◌, ◌*◌, ◌^◌, not, ◌==◌, leb, ◌&&◌, ◌||◌, if◌then◌else◌, true, false, none, some, List, [],
  ◌∷◌, ◌++◌, replicate, length, modify_first, Bool,
}
use vt_ferry.Protocol.Codes.{
  status_invalid_handle, status_internal_failure, status_resource_exhausted,
  status_stale_generation, status_invalid_state, vtf_transport_max_pool_slots,
}
use vt_ferry.Protocol.Wire.{Bytemuck}
use vt_ferry.Protocol.Buffers.{
  CreateBufferPoolReply, create_buffer_pool_payload, create_buffer_pool_reply, SharedRegionReply,
  PoolBufferLeaseReply, alloc_buffer_payload, AllocBufferReply, alloc_buffer_reply,
  RecycleBufferPayload, recycle_buffer_payload,
}
use vt_ferry.Mock.State.{
  MockBackend, MockPool, MockBuffer, guest_writable, recycled, max_pools, max_buffers_total,
  default_pool_buffers,
}
use vt_ferry.Mock.PixelLayout.{fill_buffer_layout, to_u32}
use vt_ferry.Mock.Transfer.{
  Outcome, Check, ok, ◌>>=◌, ◌>>◌, refuse_if, or_refuse, done, failed, respond, read_pod, write_pod,
}
use vt_ferry.Mock.Handles.{
  to_u64, find_session, find_pool, find_buffer, find_recyclable_buffer, is_recycled, buffer_is,
  recyclable_in, write_slot, set_pool,
}

abbrev pub zeroed_region : SharedRegionReply
zeroed_region = record {
  mapping_id = 0;
  region_size = 0;
  source_offset = 0;
  flags = 0;
  source_kind = 0;
  source_handle = 0;
  source_path = replicate 256 0;
}

abbrev pub zeroed_lease : PoolBufferLeaseReply
zeroed_lease = record {
  buffer_id = 0;
  generation = 0;
  slot_index = 0;
  slot_offset = 0;
  host_backing_kind = 0;
  flags = 0;
}

-- `if payload.session_id != 0 && find_session_idx(payload.session_id).is_none()`
abbrev pub names_no_session : MockBackend → ℕ → Bool
names_no_session b session_id =
    not (session_id == 0) && (elim (find_session b session_id) [ none ↦ true | some s ↦ false ])

abbrev pub pool_buffers : ℕ → ℕ
pool_buffers buffer_count = if buffer_count == 0 then default_pool_buffers else buffer_count

-- The answer to ALLOC_BUFFER, from the buffer that is handed out.
unfoldable pub alloc_reply : MockBuffer → AllocBufferReply
alloc_reply x =
    let layout = fill_buffer_layout x.width x.height x.pixel_format in
    record {
      buffer_id = x.id;
      generation = x.generation;
      width = x.width;
      height = x.height;
      pixel_format = x.pixel_format;
      slot_index = x.slot_index;
      slot_offset = to_u32 (x.slot_index * layout.total_size);
      host_backing_kind = 0;
      layout = layout;
    }

abbrev pub reissue : MockBuffer → MockBuffer
reissue x = record x { generation = to_u64 (x.generation + 1); state = guest_writable }

-- The next slot of the pool, under the first generation.
unfoldable pub fresh_buffer : MockBackend → MockPool → MockBuffer
fresh_buffer b p = record {
  id = b.next_host_id;
  pool_id = p.id;
  generation = 1;
  slot_index = p.buffer_count;
  width = p.width;
  height = p.height;
  pixel_format = p.pixel_format;
  state = guest_writable;
  total_size = p.slot_region_size;
}

module _ (bm : Bytemuck) where
  -- A backing size past usize returns Err with no status.
  unfoldable pub on_create_buffer_pool : MockBackend → List ℕ → List ℕ → Check Outcome
  on_create_buffer_pool b req res = do
    refuse_if (leb max_pools (length b.pools)) status_internal_failure
    payload ← or_refuse (read_pod bm create_buffer_pool_payload req) status_internal_failure
    refuse_if (names_no_session b payload.session_id) status_invalid_handle
    let layout = fill_buffer_layout payload.width payload.height payload.pixel_format
    let max_buffers = pool_buffers payload.buffer_count
    refuse_if (leb (2 ^ 64) (max_buffers * layout.total_size)) 0
    let pool : MockPool = record {
      id = b.next_host_id;
      session_id = payload.session_id;
      width = payload.width;
      height = payload.height;
      pixel_format = payload.pixel_format;
      max_buffers = max_buffers;
      buffer_count = 0;
      slot_region_size = layout.total_size;
      backing = replicate (max_buffers * layout.total_size) 0;
    }
    let b' : MockBackend = record b {
      next_host_id = to_u64 (b.next_host_id + 1);
      pools = b.pools ++ pool ∷ [];
    }
    let reply : CreateBufferPoolReply = record {
      pool_id = b.next_host_id;
      width = payload.width;
      height = payload.height;
      pixel_format = payload.pixel_format;
      slot_count = max_buffers;
      buffer_region_size = to_u32 (max_buffers * layout.total_size);
      host_backing_kind = 0;
      layout = layout;
      shared_regions = replicate vtf_transport_max_pool_slots zeroed_region;
      buffer_leases = replicate vtf_transport_max_pool_slots zeroed_lease;
    }
    ok (respond b' (write_pod bm create_buffer_pool_reply res reply))

  -- A recycled buffer is handed out again under a new generation, its slot zeroed. The buffer has
  -- changed by the time that its slot is looked up.
  unfoldable pub realloc_buffer : MockBackend → MockPool → MockBuffer → List ℕ → Outcome
  unfolding alloc_reply
  realloc_buffer b p x res =
      let b' : MockBackend = record b {
        buffers = modify_first (recyclable_in p.id) reissue b.buffers;
      } in
      elim (write_slot p x.slot_index 0 (replicate p.slot_region_size 0)) [
        | none ↦ failed b' res status_internal_failure
        | some p' ↦
            respond (set_pool b' p') (write_pod bm alloc_buffer_reply res (alloc_reply (reissue x)))
      ]

  unfoldable pub alloc_fresh_buffer : MockBackend → MockPool → List ℕ → Check Outcome
  unfolding alloc_reply fresh_buffer
  alloc_fresh_buffer b p res = do
    refuse_if (leb p.max_buffers p.buffer_count || leb max_buffers_total (length b.buffers))
        status_resource_exhausted
    p' ←
        or_refuse (write_slot p p.buffer_count 0 (replicate p.slot_region_size 0))
          status_internal_failure
    let b' : MockBackend = record b {
      next_host_id = to_u64 (b.next_host_id + 1);
      buffers = b.buffers ++ fresh_buffer b p ∷ [];
    }
    ok (
        respond (set_pool b' (record p' { buffer_count = to_u32 (p.buffer_count + 1) }))
          (write_pod bm alloc_buffer_reply res (alloc_reply (fresh_buffer b p))))

  unfoldable pub on_alloc_buffer : MockBackend → List ℕ → List ℕ → Check Outcome
  unfolding realloc_buffer alloc_fresh_buffer
  on_alloc_buffer b req res = do
    payload ← or_refuse (read_pod bm alloc_buffer_payload req) status_internal_failure
    p ← or_refuse (find_pool b payload.pool_id) status_invalid_handle
    elim (find_recyclable_buffer b payload.pool_id) [
      | some x ↦ ok (realloc_buffer b p x res)
      | none ↦ alloc_fresh_buffer b p res
    ]

-- `recycle_buffer`: the backend with the buffer given back, or the status of the refusal.
unfoldable pub recycle_buffer : MockBackend → RecycleBufferPayload → Check MockBackend
recycle_buffer b payload = do
  p ← or_refuse (find_pool b payload.pool_id) status_invalid_handle
  x ← or_refuse (find_buffer b payload.buffer_id) status_invalid_handle
  refuse_if (not (p.id == x.pool_id)) status_invalid_handle
  refuse_if (not (x.generation == payload.generation)) status_stale_generation
  refuse_if (is_recycled x.state) status_invalid_state
  ok (record b {
    buffers =
        modify_first (buffer_is payload.buffer_id) (λ y. record y { state = recycled }) b.buffers;
  })

unfoldable pub on_recycle_buffer : Bytemuck → MockBackend → List ℕ → List ℕ → Check Outcome
unfolding recycle_buffer
on_recycle_buffer bm b req res = do
  payload ← or_refuse (read_pod bm recycle_buffer_payload req) status_internal_failure
  b' ← recycle_buffer b payload
  ok (done b' res)
