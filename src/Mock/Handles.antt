-- ===== src/Mock/Handles.antt =====
-- The lookups of crates/vt-ferry-worker/src/mock.rs. Where the source finds an index and then indexes
-- the vector with it, a lookup here returns the element at that index.
use vt_ferry.Prelude.{
  ℕ, ◌+◌, ◌*◌, ◌%◌, ◌^◌, Bool, true, false, ◌&&◌, not, ◌==◌, leb, ltb, if◌then◌else◌, Option, none,
  some, List, ◌++◌, take, drop, length, find_first, modify_first, count_if,
}
use vt_ferry.Mock.State.{
  MockSession, MockPool, MockBuffer, MockOutput, MockBackend, BufferState, guest_writable,
  queued_to_host, recycled,
}

abbrev pub to_u64 : ℕ → ℕ
to_u64 n = n % 2 ^ 64

abbrev pub is_recycled : BufferState → Bool
is_recycled recycled = true
is_recycled _ = false

abbrev pub is_guest_writable : BufferState → Bool
is_guest_writable guest_writable = true
is_guest_writable _ = false

abbrev pub is_queued_to_host : BufferState → Bool
is_queued_to_host queued_to_host = true
is_queued_to_host _ = false

abbrev pub session_is : ℕ → MockSession → Bool
session_is session_id s = s.id == session_id

abbrev pub pool_is : ℕ → MockPool → Bool
pool_is pool_id p = p.id == pool_id

abbrev pub buffer_is : ℕ → MockBuffer → Bool
buffer_is buffer_id x = x.id == buffer_id

abbrev pub output_is : ℕ → MockOutput → Bool
output_is output_id o = o.reply.output_id == output_id

abbrev pub recyclable_in : ℕ → MockBuffer → Bool
recyclable_in pool_id x = x.pool_id == pool_id && is_recycled x.state

abbrev pub pending_for : ℕ → MockOutput → Bool
pending_for session_id o = o.reply.session_id == session_id && not o.dequeued

abbrev pub readable : ℕ → MockOutput → Bool
readable output_id o = o.reply.output_id == output_id && o.dequeued

unfoldable pub find_session : MockBackend → ℕ → Option MockSession
find_session b session_id = find_first (session_is session_id) b.sessions

unfoldable pub find_pool : MockBackend → ℕ → Option MockPool
find_pool b pool_id = find_first (pool_is pool_id) b.pools

unfoldable pub find_buffer : MockBackend → ℕ → Option MockBuffer
find_buffer b buffer_id = find_first (buffer_is buffer_id) b.buffers

unfoldable pub find_recyclable_buffer : MockBackend → ℕ → Option MockBuffer
find_recyclable_buffer b pool_id = find_first (recyclable_in pool_id) b.buffers

-- `count() as u32`
unfoldable pub count_outputs_for_session : MockBackend → ℕ → ℕ
count_outputs_for_session b session_id =
    count_if (λ o. o.reply.session_id == session_id) b.outputs % 2 ^ 32

unfoldable pub take_output : MockBackend → ℕ → Option MockOutput
take_output b output_id = find_first (readable output_id) b.outputs

-- The start of a slot's bytes in the backing, if the slot lies within it; usize has 64 bits.
unfoldable pub slot_range : ℕ → ℕ → ℕ → Option ℕ
slot_range slot_index slot_region_size backing_len =
    if slot_region_size == 0
    then none
    else if leb (2 ^ 64) (slot_index * slot_region_size)
    then none
    else if leb (2 ^ 64) (slot_index * slot_region_size + slot_region_size)
    then none
    else if ltb backing_len (slot_index * slot_region_size + slot_region_size)
    then none
    else some (slot_index * slot_region_size)

-- The bytes from `start` on, as many as `count`, and a write over them.
abbrev pub bytes_at : ℕ → ℕ → List ℕ → List ℕ
bytes_at start count bytes = take count (drop start bytes)

abbrev pub put_bytes : ℕ → List ℕ → List ℕ → List ℕ
put_bytes start new_bytes bytes =
    take start bytes ++ (new_bytes ++ drop (length new_bytes) (drop start bytes))

unfoldable pub slot_bytes : MockPool → ℕ → Option (List ℕ)
unfolding slot_range
slot_bytes p slot_index = elim (slot_range slot_index p.slot_region_size (length p.backing)) [
  | none ↦ none
  | some start ↦ some (bytes_at start p.slot_region_size p.backing)
]

-- What a write of `new_bytes` at `offset` of the slot, through `slot_bytes_mut`, makes of the pool.
unfoldable pub write_slot : MockPool → ℕ → ℕ → List ℕ → Option MockPool
unfolding slot_range
write_slot p slot_index offset new_bytes =
    elim (slot_range slot_index p.slot_region_size (length p.backing)) [
      | none ↦ none
      | some start ↦ some (record p { backing = put_bytes (start + offset) new_bytes p.backing })
    ]

abbrev pub set_pool : MockBackend → MockPool → MockBackend
set_pool b p = record b { pools = modify_first (pool_is p.id) (λ _. p) b.pools }
