-- ===== src/Mock/Slots.antt =====
-- Under the invariant the slot of every buffer lies within the backing of its pool, so that the
-- lookups of slots in crates/vt-ferry-worker/src/mock.rs never fail.
use vt_ferry.Prelude.{ℕ, ◌+◌, ◌*◌, ◌≤◌, ◌<◌, ◌≡◌, some, List, arith, length, All-find_first}
use vt_ferry.Mock.State.{MockBackend, MockPool, MockBuffer}
use vt_ferry.Mock.Handles.{
  pool_is, buffer_is, slot_range, slot_bytes, write_slot, bytes_at, put_bytes, find_pool,
  find_buffer,
}
use vt_ferry.Mock.Invariant.Defs.{Inv, IsPool, HasSlot}

-- Slot `i` of `n` slots ends within the slots.
pub slot_end : (i n size : ℕ) → i < n → i * size + size ≤ n * size
slot_end i n size h = grind arith

pub slot_range-some :
    (p : MockPool) (i : ℕ)
    → IsPool p
    → i < p.buffer_count
    → 0 < p.slot_region_size
    → slot_range i p.slot_region_size (length p.backing) ≡ some (i * p.slot_region_size)
unfolding slot_range
slot_range-some p i v h pos =
    let fits = slot_end i p.max_buffers p.slot_region_size (omega (arith, v.counted)) in
    ground (arith, fits, v.backed, v.addressable)

pub slot_bytes-some :
    (p : MockPool) (i : ℕ)
    → IsPool p
    → i < p.buffer_count
    → 0 < p.slot_region_size
    → slot_bytes p i ≡ some (bytes_at (i * p.slot_region_size) p.slot_region_size p.backing)
unfolding slot_bytes
slot_bytes-some p i v h pos = rw (slot_range-some p i v h pos, slot_bytes)

pub write_slot-some :
    (p : MockPool) (i offset : ℕ) (new_bytes : List ℕ)
    → IsPool p
    → i < p.buffer_count
    → 0 < p.slot_region_size
    → write_slot p i offset new_bytes
      ≡ some
          (record p { backing = put_bytes (i * p.slot_region_size + offset) new_bytes p.backing })
unfolding write_slot
write_slot-some p i offset new_bytes v h pos = rw (slot_range-some p i v h pos, write_slot)

-- A found buffer's pool is found too, and holds the slot.
pub find_pool-IsPool :
    (b : MockBackend) (i : ℕ) {x : MockBuffer}
    → Inv b
    → find_buffer b i ≡ some x
    → (p : MockPool) × (find_pool b x.pool_id ≡ some p)
      × IsPool p
      × (x.slot_index < p.buffer_count)
      × (x.total_size ≡ p.slot_region_size)
      × (0 < p.slot_region_size)
unfolding find_buffer find_pool
find_pool-IsPool b i {x} v found =
    let (p, found_p, fits, size, pos) =
      All-find_first (HasSlot b.pools) (buffer_is i) b.buffers {x = x} v.buffers_ok.each found in
    (
      p,
      found_p,
      All-find_first IsPool (pool_is x.pool_id) b.pools {x = p} v.pools_ok.each found_p,
      fits,
      size,
      pos,
    )
