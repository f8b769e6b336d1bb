-- ===== src/Mock/Invariant/Buffers.antt =====
-- Handing out, writing and recycling buffers keeps the invariant.
use vt_ferry.Prelude.{
  ℕ, ◌+◌, ◌≤◌, ◌<◌, ◌≡◌, refl, sym, inl, inr, ==_iff, Bool, false, ◌||◌, Option-cases, some, ◌==◌,
  leb, List, [], ◌∷◌, ◌++◌, arith, length, length-append, length-drop, length-replicate, replicate,
  find_first, find_first-holds, modify_first, All, All-map, All-append, All-find_first,
  find_first-modify_self, ltb, not, ◌-◌, ap, Rising-append, subst,
}
use vt_ferry.Protocol.Wire.{Bytemuck, size_of}
use vt_ferry.Protocol.Buffers.{write_buffer_payload, RecycleBufferPayload}
use vt_ferry.Mock.State.{MockBackend, MockPool, MockBuffer, BufferState, max_buffers_total}
use vt_ferry.Mock.PixelLayout.{to_u32}
use vt_ferry.Mock.Handles.{
  pool_is, buffer_is, recyclable_in, write_slot, find_pool, find_buffer, find_recyclable_buffer,
  set_pool,
}
use vt_ferry.Mock.Ensures.{Ensures, Ensures-ok, Ensures-refuse_if, Ensures->>=, Ensures-or_refuse}
use vt_ferry.Mock.PoolOps.{
  on_alloc_buffer, alloc_fresh_buffer, realloc_buffer, fresh_buffer, reissue, recycle_buffer,
  on_recycle_buffer,
}
use vt_ferry.Mock.BufferOps.{on_write_buffer}
use vt_ferry.Mock.Invariant.Defs.{Inv, HasHandles, IsPool, HasSlot, OtherSlot, buffer_key}
use vt_ferry.Mock.Invariant.Slots.{Grows, Apart-append}
use vt_ferry.Mock.Invariant.Setters.{
  SessionsOk-raise, PoolsOk-raise, PoolsOk-set, BuffersOk-set, BuffersOk-modify, SamePlace,
}
use vt_ferry.Mock.Invariant.Sessions.{KeepsInv, to_u64-suc}
use vt_ferry.Mock.Invariant.Pools.{write_slot_lem, write_slot-IsPool}

-- A pool that is found has the handle that was asked for.
pub found_pool :
    (b : MockBackend) (k : ℕ) {p : MockPool}
    → find_pool b k ≡ some p
    → (find_first (pool_is p.id) b.pools ≡ some p) × (p.id ≡ k)
unfolding find_pool
found_pool b k {p} e =
    let same : p.id ≡ k = ground (arith, find_first-holds (pool_is k) b.pools {x = p} e) in
    (subst (λ i. find_first (pool_is i) b.pools ≡ some p) (sym same) e, same)

-- A pool that grew, put in place of the pool that was found.
set_pool-Inv :
    (b : MockBackend) (p q : MockPool)
    → Inv b
    → find_first (pool_is p.id) b.pools ≡ some p
    → Grows p q
    → IsPool q
    → Inv (set_pool b q)
set_pool-Inv b p q v e g k = simp g.same_id (record {
  sessions_ok = v.sessions_ok;
  pools_ok = PoolsOk-set b.pools p q v.pools_ok g k;
  buffers_ok = BuffersOk-set b.pools p q b.buffers g e v.buffers_ok;
  outputs_ok = v.outputs_ok;
})

modify_buffers-Inv :
    (b : MockBackend) (t : MockBuffer → Bool) (f : MockBuffer → MockBuffer)
    → Inv b
    → ((x : MockBuffer) → SamePlace x (f x))
    → Inv (record b { buffers = modify_first t f b.buffers })
modify_buffers-Inv b t f v k = record {
  sessions_ok = v.sessions_ok;
  pools_ok = v.pools_ok;
  buffers_ok = BuffersOk-modify t f b.buffers k v.buffers_ok;
  outputs_ok = v.outputs_ok;
}

-- A change of state or generation.
pub same_place :
    {x : MockBuffer} {state : BufferState} {generation : ℕ}
    → SamePlace x (record x { state = state; generation = generation })
same_place = record { same_id = refl; same_pool = refl; same_slot = refl; same_size = refl }

-- A write through a found pool.
write_slot-Inv :
    (b : MockBackend) (p : MockPool) (k slot_index offset : ℕ) (new_bytes : List ℕ) {q : MockPool}
    → Inv b
    → find_pool b k ≡ some p
    → offset + length new_bytes ≤ p.slot_region_size
    → write_slot p slot_index offset new_bytes ≡ some q
    → Inv (set_pool b q)
unfolding find_pool
write_slot-Inv b p k slot_index offset new_bytes v found fits e =
    let ip = All-find_first IsPool (pool_is k) b.pools v.pools_ok.each found in
    let (iq, g) = write_slot-IsPool p slot_index offset new_bytes ip fits e in
    set_pool-Inv b p _ v (found_pool b k found).0 g iq

found-IsPool : (b : MockBackend) (k : ℕ) {p : MockPool} → Inv b → find_pool b k ≡ some p → IsPool p
unfolding find_pool
found-IsPool b k v found = All-find_first IsPool (pool_is k) b.pools v.pools_ok.each found

next_count :
    (p : MockPool)
    → IsPool p
    → p.buffer_count < p.max_buffers
    → to_u32 (p.buffer_count + 1) ≡ p.buffer_count + 1
next_count p v h = omega (arith, v.countable)

-- The pool that was put in place is found under its handle.
pub find_first-set_pool :
    (ps : List MockPool) (p q : MockPool)
    → find_first (pool_is p.id) ps ≡ some p
    → q.id ≡ p.id
    → find_first (pool_is p.id) (modify_first (pool_is q.id) (λ _. q) ps) ≡ some q
find_first-set_pool ps p q e same =
    subst (λ i. find_first (pool_is p.id) (modify_first (pool_is i) (λ _. q) ps) ≡ some q)
      (sym same) (find_first-modify_self (pool_is p.id) (λ _. q) ps e ((==_iff q.id p.id).1 same))

-- A found buffer lies in a slot of its pool.
pub slot_of :
    (b : MockBackend) (i : ℕ) {x : MockBuffer} {p : MockPool}
    → Inv b
    → find_buffer b i ≡ some x
    → find_pool b x.pool_id ≡ some p
    → (x.slot_index < p.buffer_count)
      × (x.total_size ≡ p.slot_region_size)
      × (0 < p.slot_region_size)
unfolding find_buffer find_pool
slot_of b i {x} {p} v found_x found_p =
    let (q, found_q, fits, size, pos) =
      All-find_first (HasSlot b.pools) (buffer_is i) b.buffers {x = x} v.buffers_ok.each found_x in
    ground arith

-- The slot that a pool hands out next is in no other buffer.
next_slot-free :
    (ps : List MockPool) (p : MockPool) (y : MockBuffer)
    → find_first (pool_is p.id) ps ≡ some p
    → HasSlot ps y
    → y.pool_id ≡ p.id
    → y.slot_index ≡ p.buffer_count
    → ⊥
next_slot-free ps p y e (q, found, fits, size, pos) same_pool same_slot =
    let found' = subst (λ i. find_first (pool_is i) ps ≡ some q) same_pool found in ground arith

-- A new buffer in a slot of its own.
append_buffer-Inv :
    (b : MockBackend) (x : MockBuffer)
    → Inv b
    → x.id ≡ b.next_host_id
    → length b.buffers < max_buffers_total
    → HasSlot b.pools x
    → All (λ y. OtherSlot y x) b.buffers
    → Inv (record b { next_host_id = b.next_host_id + 1; buffers = b.buffers ++ x ∷ [] })
append_buffer-Inv b x v e room slot other = record {
  sessions_ok = SessionsOk-raise (omega arith) v.sessions_ok;
  pools_ok = PoolsOk-raise (omega arith) v.pools_ok;
  buffers_ok = record {
    rise =
        Rising-append buffer_key 1 b.buffers x (b.next_host_id + 1) (rw e v.buffers_ok.rise)
          (omega arith);
    room = omega (arith, length-append b.buffers (x ∷ []));
    each = All-append (HasSlot b.pools) b.buffers x v.buffers_ok.each slot;
    apart = Apart-append b.buffers x v.buffers_ok.apart other;
  };
  outputs_ok = v.outputs_ok;
}

-- The test of room of ALLOC_BUFFER.
alloc_room :
    (p : MockPool) (xs : List MockBuffer)
    → (leb p.max_buffers p.buffer_count || leb max_buffers_total (length xs)) ≡ false
    → (p.buffer_count < p.max_buffers) × (length xs < max_buffers_total)
alloc_room p xs h = ground arith

-- The test of bounds of WRITE_BUFFER.
pub write_fits :
    (total offset len req_len header_size : ℕ)
    → (ltb total offset || (ltb (total - offset) len || not (req_len == header_size + len))) ≡ false
    → (offset + len ≤ total) × (req_len ≡ header_size + len)
write_fits total offset len req_len header_size h = ground arith

-- The pool with its next slot zeroed and handed out.
alloc_fresh_state-Inv :
    (b : MockBackend) (p q : MockPool) (k : ℕ)
    → Inv b
    → find_pool b k ≡ some p
    → write_slot p p.buffer_count 0 (replicate p.slot_region_size 0) ≡ some q
    → p.buffer_count < p.max_buffers
    → length b.buffers < max_buffers_total
    → Inv (
        set_pool
          (record b {
            next_host_id = b.next_host_id + 1;
            buffers = b.buffers ++ fresh_buffer b p ∷ [];
          })
          (record q { buffer_count = p.buffer_count + 1 }))
unfolding find_pool fresh_buffer
alloc_fresh_state-Inv b p q k v found written room_pool room =
    let (found', same) = found_pool b k {p = p} found in
    let ip = found-IsPool b k {p = p} v found in
    let (iq, g) =
      write_slot-IsPool p p.buffer_count 0 _ {q = q} ip
        (omega (arith, length-replicate {A = ℕ} p.slot_region_size 0)) written in
    let q' : MockPool = record q { buffer_count = p.buffer_count + 1 } in
    let (alike, within, pos) = write_slot_lem p p.buffer_count 0 _ {q = q} written in
    let keeps : q.max_buffers ≡ p.max_buffers = ap (λ (r : MockPool). r.max_buffers) alike in
    let v' =
      set_pool-Inv b p q' v found'
        (record { same_id = g.same_id; same_region = g.same_region; more = omega arith })
        (record {
          counted = omega arith;
          countable = iq.countable;
          backed = iq.backed;
          addressable = iq.addressable;
        }) in
    append_buffer-Inv (set_pool b q') (fresh_buffer b p) v' refl room
      (q', find_first-set_pool b.pools p q' found' g.same_id, omega arith, omega arith, omega arith)
      (All-map (HasSlot b.pools) (λ y. OtherSlot y (fresh_buffer b p)) b.buffers
        (λ y. next_slot-free b.pools p y found') v.buffers_ok.each)

module _ (bm : Bytemuck) (b : MockBackend) (req res : List ℕ) (v : Inv b) where
  recycled-Inv : (payload : RecycleBufferPayload) → Ensures Inv (recycle_buffer b payload)
  unfolding recycle_buffer
  recycled-Inv payload = Ensures-or_refuse _ _ _ λ p _. Ensures-or_refuse _ _ _ λ x _.
      Ensures-refuse_if _ _ _ λ _. Ensures-refuse_if _ _ _ λ _.
        Ensures-refuse_if _ _ _ λ _. Ensures-ok _ (modify_buffers-Inv b _ _ v (λ y. same_place))

  pub recycle_buffer-Inv : Ensures KeepsInv (on_recycle_buffer bm b req res)
  unfolding on_recycle_buffer
  recycle_buffer-Inv =
      Ensures-or_refuse _ _ _
        λ payload _. Ensures->>= _ _ (recycled-Inv payload) λ b' v'. Ensures-ok _ v'

  pub write_buffer-Inv : Ensures KeepsInv (on_write_buffer bm b req res)
  unfolding on_write_buffer
  write_buffer-Inv = Ensures-refuse_if _ _ _ λ long. Ensures-or_refuse _ _ _ λ x found_x.
      Ensures-refuse_if _ _ _ λ _. Ensures-refuse_if _ _ _ λ _. Ensures-refuse_if _ _ _ λ bounds.
        Ensures-or_refuse _ _ _ λ p found_p. Ensures-or_refuse _ _ _ λ q written. Ensures-ok _ (
          write_slot-Inv b p x.pool_id x.slot_index _ _ v found_p
            (let fits = write_fits x.total_size _ _ _ _ bounds in
              let size = (slot_of b _ v found_x found_p).1 in
              omega (arith, fits, size, length-drop (size_of write_buffer_payload) req))
            written)

  alloc_fresh-Inv :
      (p : MockPool) (k : ℕ)
      → HasHandles b
      → find_pool b k ≡ some p
      → Ensures KeepsInv (alloc_fresh_buffer bm b p res)
  unfolding alloc_fresh_buffer
  alloc_fresh-Inv p k h found = Ensures-refuse_if _ _ _ λ room. Ensures-or_refuse _ _ _ λ q written.
      Ensures-ok _ (
        let (room_pool, room_buffers) = alloc_room p b.buffers room in
        rw (to_u64-suc b.next_host_id h.host, next_count p (found-IsPool b k v found) room_pool)
          (alloc_fresh_state-Inv b p q k v found written room_pool room_buffers))

  realloc-Inv :
      (p : MockPool) (k : ℕ) (x : MockBuffer)
      → find_pool b k ≡ some p
      → Inv (realloc_buffer bm b p x res).backend
  unfolding realloc_buffer find_pool
  realloc-Inv p k x found =
      let v' = modify_buffers-Inv b (recyclable_in p.id) reissue v (λ y. same_place) in
      elim (Option-cases (write_slot p x.slot_index 0 (replicate p.slot_region_size 0))) [
        | inl e ↦ rw (e, realloc_buffer) v'
        | inr (q, e) ↦
            rw (e, realloc_buffer)
              (write_slot-Inv _ p k x.slot_index 0 _ v' found
                (omega (arith, length-replicate {A = ℕ} p.slot_region_size 0)) e)
      ]

  pub alloc_buffer-Inv : HasHandles b → Ensures KeepsInv (on_alloc_buffer bm b req res)
  unfolding on_alloc_buffer
  alloc_buffer-Inv h = Ensures-or_refuse _ _ _ λ payload _. Ensures-or_refuse _ _ _ λ p found.
      elim (Option-cases (find_recyclable_buffer b payload.pool_id)) [
        | inl e ↦ rw e (alloc_fresh-Inv p payload.pool_id h found)
        | inr (x, e) ↦ rw e (Ensures-ok _ (realloc-Inv p payload.pool_id x found))
      ]
