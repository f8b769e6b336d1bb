-- ===== src/Mock/Invariant/Pools.antt =====
-- Making a pool keeps the invariant, and so does every write into the slot of a pool.
use vt_ferry.Prelude.{
  ℕ, ◌+◌, ◌*◌, ◌^◌, ◌≤◌, ◌<◌, ◌≡◌, refl, some, List, [], ◌∷◌, ◌++◌, take, drop, arith, length,
  length-append, length-take, length-drop, length-replicate, leb, false, replicate,
}
use vt_ferry.Protocol.Wire.{Bytemuck, IsStruct, size_of}
use vt_ferry.Protocol.Buffers.{CreateBufferPoolPayload, create_buffer_pool_payload}
use vt_ferry.Mock.State.{MockBackend, MockPool}
use vt_ferry.Mock.Transfer.{read_pod}
use vt_ferry.Mock.Handles.{put_bytes, slot_range, write_slot}
use vt_ferry.Mock.Ensures.{Ensures, Ensures-ok, Ensures-refuse_if, Ensures-or_refuse}
use vt_ferry.Mock.PoolOps.{on_create_buffer_pool, pool_buffers}
use vt_ferry.Mock.Invariant.Defs.{Inv, HasHandles, IsPool}
use vt_ferry.Mock.Invariant.Slots.{Grows}
use vt_ferry.Mock.Invariant.Setters.{
  SessionsOk-raise, PoolsOk-append, BuffersOk-raise, BuffersOk-append_pool,
}
use vt_ferry.Mock.Invariant.Sessions.{KeepsInv, to_u64-suc}

create_buffer_pool_payload-IsStruct : IsStruct create_buffer_pool_payload
create_buffer_pool_payload-IsStruct (a ∷ b ∷ c ∷ d ∷ e ∷ f ∷ g ∷ []) len = refl
create_buffer_pool_payload-IsStruct _ len = absurd (omega arith)

-- A pool's slots are counted by a u32.
pool_buffers-lt :
    (bm : Bytemuck) (bytes : List ℕ)
    → pool_buffers (bm.pod_read_unaligned create_buffer_pool_payload bytes).buffer_count < 2 ^ 32
pool_buffers-lt bm bytes = ground (
  arith,
  bm.pod_read-InWidths create_buffer_pool_payload bytes create_buffer_pool_payload-IsStruct,
)

read_pool_buffers-lt :
    (bm : Bytemuck) (bytes : List ℕ) {payload : CreateBufferPoolPayload}
    → read_pod bm create_buffer_pool_payload bytes ≡ some payload
    → pool_buffers payload.buffer_count < 2 ^ 32
unfolding read_pod
read_pool_buffers-lt bm bytes e =
    ground (arith, pool_buffers-lt bm (take (size_of create_buffer_pool_payload) bytes))

leb→lt : (n : ℕ) → leb (2 ^ 64) n ≡ false → n < 2 ^ 64
leb→lt n h = ground arith

replicate-addressable : (n : ℕ) → leb (2 ^ 64) n ≡ false → length {A = ℕ} (replicate n 0) < 2 ^ 64
replicate-addressable n h = omega (arith, leb→lt n h, length-replicate {A = ℕ} n 0)

module _ (bm : Bytemuck) (b : MockBackend) (req res : List ℕ) (v : Inv b) where
  pub create_buffer_pool-Inv : HasHandles b → Ensures KeepsInv (on_create_buffer_pool bm b req res)
  unfolding on_create_buffer_pool
  create_buffer_pool-Inv h = Ensures-refuse_if _ _ _ λ room. Ensures-or_refuse _ _ _ λ payload read.
      Ensures-refuse_if _ _ _ λ known. Ensures-refuse_if _ _ _ λ fits. Ensures-ok _ (
        rw (to_u64-suc b.next_host_id h.host) (record {
          sessions_ok = SessionsOk-raise (omega arith) v.sessions_ok;
          pools_ok = PoolsOk-append b.pools _ v.pools_ok refl (ground arith) (record {
            counted = omega arith;
            countable = read_pool_buffers-lt bm req read;
            backed = length-replicate _ 0;
            addressable = replicate-addressable _ fits;
          });
          buffers_ok =
              BuffersOk-append_pool b.pools _ b.buffers
                (BuffersOk-raise (omega arith) v.buffers_ok);
          outputs_ok = v.outputs_ok;
        }))

length-put_bytes :
    (start : ℕ) (new_bytes bytes : List ℕ)
    → start + length new_bytes ≤ length bytes
    → length (put_bytes start new_bytes bytes) ≡ length bytes
length-put_bytes start new_bytes bytes h = omega (
  arith,
  length-append (take start bytes) (new_bytes ++ drop (length new_bytes) (drop start bytes)),
  length-append new_bytes (drop (length new_bytes) (drop start bytes)),
  length-take start bytes,
  length-drop start bytes,
  length-drop (length new_bytes) (drop start bytes),
)

-- A write within a slot changes nothing of the pool but the bytes of the slot.
pub write_slot_lem :
    (p : MockPool) (slot_index offset : ℕ) (new_bytes : List ℕ) {q : MockPool}
    → write_slot p slot_index offset new_bytes ≡ some q
    → (q ≡ record p {
      backing = put_bytes (slot_index * p.slot_region_size + offset) new_bytes p.backing;
    })
      × (slot_index * p.slot_region_size + p.slot_region_size ≤ length p.backing)
      × (0 < p.slot_region_size)
unfolding write_slot slot_range
write_slot_lem p slot_index offset new_bytes e = ground arith

pub write_slot-IsPool :
    (p : MockPool) (slot_index offset : ℕ) (new_bytes : List ℕ) {q : MockPool}
    → IsPool p
    → offset + length new_bytes ≤ p.slot_region_size
    → write_slot p slot_index offset new_bytes ≡ some q
    → IsPool q × Grows p q
write_slot-IsPool p slot_index offset new_bytes {q} k fits e =
    let (same, within, pos) = write_slot_lem p slot_index offset new_bytes {q = q} e in
    let len =
      length-put_bytes (slot_index * p.slot_region_size + offset) new_bytes p.backing
        (omega arith) in
    rw same (
      record {
        counted = k.counted;
        countable = k.countable;
        backed = omega (arith, k.backed, len);
        addressable = omega (arith, k.addressable, len);
      },
      record { same_id = refl; same_region = refl; more = omega arith },
    )
