-- ===== src/Mock/Contents.antt =====
-- What the guest sees of the bytes of its buffers: WRITE_BUFFER and READ_BUFFER of
-- crates/vt-ferry-worker/src/mock.rs.
use vt_ferry.Prelude.{
  ℕ, ◌+◌, ◌*◌, ◌≤◌, ◌<◌, ◌≡◌, ◌≢◌, refl, sym, ap, subst, ◌∙◌, ◌⊎◌, inl, inr, ◌==◌, ==_iff,
  Bool-cases, Option-cases, Option, none, some, List, [], ◌∷◌, take, length, length-drop, arith,
  find_first, modify_first,
}
use vt_ferry.Protocol.Wire.{Bytemuck, size_of}
use vt_ferry.Protocol.Buffers.{write_buffer_payload}
use vt_ferry.Mock.State.{MockBackend, MockPool, MockBuffer}
use vt_ferry.Mock.Transfer.{settle}
use vt_ferry.Mock.Handles.{
  pool_is, find_pool, find_buffer, slot_bytes, write_slot, set_pool, put_bytes,
}
use vt_ferry.Mock.BufferOps.{on_write_buffer}
use vt_ferry.Mock.Bytes.{window-put_bytes}
use vt_ferry.Mock.Slots.{slot_end, slot_bytes-some, write_slot-some, find_pool-IsPool}
use vt_ferry.Mock.Ensures.{Ensures-ok, Ensures-refuse_if, Ensures-or_refuse, Ensures-settle}
use vt_ferry.Mock.Invariant.Defs.{Inv, IsPool}
use vt_ferry.Mock.Invariant.Slots.{Apart-found}
use vt_ferry.Mock.Invariant.Buffers.{found_pool, find_first-set_pool, write_fits}
use vt_ferry.Mock.Invariant.Pools.{write_slot_lem, write_slot-IsPool}

-- The bytes of a buffer, if there is such a buffer.
unfoldable pub contents : MockBackend → ℕ → Option (List ℕ)
contents b i = elim (find_buffer b i) [
  | none ↦ none
  | some x ↦ elim (find_pool b x.pool_id) [ none ↦ none | some p ↦ slot_bytes p x.slot_index ]
]

find_first-set_other :
    (ps : List MockPool) (p q : MockPool) (k : ℕ)
    → q.id ≡ p.id
    → k ≢ p.id
    → find_first (pool_is k) (modify_first (pool_is p.id) (λ _. q) ps) ≡ find_first (pool_is k) ps
unfolding find_first modify_first
find_first-set_other [] p q k e n = refl
find_first-set_other (h ∷ ps) p q k e n = ground (arith, find_first-set_other ps p q k e n)

-- A write within slot `i` does not meet slot `j`.
slots_disjoint :
    (i j size offset len : ℕ)
    → i ≢ j
    → offset + len ≤ size
    → (i * size + offset + len ≤ j * size) ⊎ (j * size + size ≤ i * size + offset)
slots_disjoint i j size offset len n h = elim (lt_or_gt i j n) [
  | inl lt ↦ inl (grind arith)
  | inr gt ↦ inr (grind arith)
]
  where
    lt_or_gt : (i j : ℕ) → i ≢ j → (i < j) ⊎ (j < i)
    lt_or_gt i j n = grind arith

abbrev pub pool_with : MockPool → ℕ → ℕ → List ℕ → MockPool
pool_with p slot_index offset new_bytes = record p {
  backing = put_bytes (slot_index * p.slot_region_size + offset) new_bytes p.backing;
}

-- The other slots of the pool keep their bytes.
slot_bytes-other :
    (p : MockPool) (i j offset : ℕ) (new_bytes : List ℕ)
    → IsPool p
    → i ≢ j
    → i < p.buffer_count
    → j < p.buffer_count
    → 0 < p.slot_region_size
    → offset + length new_bytes ≤ p.slot_region_size
    → slot_bytes (pool_with p i offset new_bytes) j ≡ slot_bytes p j
slot_bytes-other p i j offset new_bytes v n hi hj pos h =
    let end = slot_end i p.max_buffers p.slot_region_size (omega (arith, v.counted)) in
    let (w, g) =
      write_slot-IsPool p i offset new_bytes {q = pool_with p i offset new_bytes} v h
        (write_slot-some p i offset new_bytes v hi pos) in
    rw (slot_bytes-some (pool_with p i offset new_bytes) j w hj pos, slot_bytes-some p j v hj pos)
      (ap some (
        window-put_bytes (j * p.slot_region_size) p.slot_region_size _ new_bytes p.backing
          (slots_disjoint i j p.slot_region_size offset (length new_bytes) n h)
          (omega (arith, end, v.backed))))

pub contents-found :
    (b : MockBackend) (i : ℕ) {x : MockBuffer} {p : MockPool}
    → find_buffer b i ≡ some x
    → find_pool b x.pool_id ≡ some p
    → contents b i ≡ slot_bytes p x.slot_index
unfolding contents
contents-found b i e f = rw (e, contents) (rw f refl)

contents-missing :
    (b c : MockBackend) (i : ℕ)
    → find_buffer b i ≡ none
    → find_buffer c i ≡ none
    → contents b i ≡ contents c i
unfolding contents
contents-missing b c i e f = rw (e, f, contents)

-- The pools after the write, as a lookup.
pub find_pool-set_self :
    (b : MockBackend) (p q : MockPool) (k : ℕ)
    → find_pool b k ≡ some p
    → q.id ≡ p.id
    → find_pool (set_pool b q) k ≡ some q
unfolding find_pool
find_pool-set_self b p q k e same =
    let (found, here) = found_pool b k {p = p} e in
    subst (λ i. find_first (pool_is i) (modify_first (pool_is q.id) (λ _. q) b.pools) ≡ some q) here
      (find_first-set_pool b.pools p q found same)

find_pool-set_other :
    (b : MockBackend) (p q : MockPool) (k : ℕ)
    → q.id ≡ p.id
    → k ≢ p.id
    → find_pool (set_pool b q) k ≡ find_pool b k
unfolding find_pool
find_pool-set_other b p q k same n =
    subst
      (λ i.
        find_first (pool_is k) (modify_first (pool_is i) (λ _. q) b.pools)
        ≡ find_first (pool_is k) b.pools)
      (sym same) (find_first-set_other b.pools p q k same n)

-- A write into one buffer leaves the bytes of every other: where the pool is the same,
contents-same_pool :
    (b : MockBackend) (i j offset : ℕ) (new_bytes : List ℕ) {x y : MockBuffer} {p q : MockPool}
    → Inv b
    → i ≢ j
    → find_buffer b i ≡ some x
    → find_buffer b j ≡ some y
    → find_pool b x.pool_id ≡ some p
    → y.pool_id ≡ x.pool_id
    → offset + length new_bytes ≤ x.total_size
    → q ≡ pool_with p x.slot_index offset new_bytes
    → contents (set_pool b q) j ≡ contents b j
unfolding find_buffer
contents-same_pool b i j offset new_bytes {x} {y} {p} {q} v n found_x found_y found_p same fits e =
    let (p', found_p', ip, hx, size, pos) = find_pool-IsPool b i {x = x} v found_x in
    let (r, found_r, ir, hy, size_r, pos_r) = find_pool-IsPool b j {x = y} v found_y in
    let found_py = subst (λ k. find_pool b k ≡ some p) (sym same) found_p in
    let is_p : p' ≡ p = cc in
    let is_r : r ≡ p = cc in
    let other = Apart-found i j b.buffers x y v.buffers_ok.apart found_x found_y n in
    let id_q : q.id ≡ p.id = ap (λ (z : MockPool). z.id) e in
    contents-found (set_pool b q) j found_y (find_pool-set_self b p q y.pool_id found_py id_q)
    ∙ ap (λ (z : MockPool). slot_bytes z y.slot_index) e
    ∙ slot_bytes-other p x.slot_index y.slot_index offset new_bytes (subst IsPool is_p ip)
        (other (sym same)) (omega (arith, ap (λ (z : MockPool). z.buffer_count) is_p))
        (omega (arith, ap (λ (z : MockPool). z.buffer_count) is_r))
        (omega (arith, ap (λ (z : MockPool). z.slot_region_size) is_p))
        (omega (arith, ap (λ (z : MockPool). z.slot_region_size) is_p))
    ∙ sym (contents-found b j found_y found_py)

-- and where it is another.
contents-write_slot :
    (b : MockBackend) (i j offset : ℕ) (new_bytes : List ℕ) {x : MockBuffer} {p q : MockPool}
    → Inv b
    → i ≢ j
    → find_buffer b i ≡ some x
    → find_pool b x.pool_id ≡ some p
    → offset + length new_bytes ≤ x.total_size
    → write_slot p x.slot_index offset new_bytes ≡ some q
    → contents (set_pool b q) j ≡ contents b j
unfolding find_buffer
contents-write_slot b i j offset new_bytes {x} {p} {q} v n found_x found_p fits written =
    let e = (write_slot_lem p x.slot_index offset new_bytes {q = q} written).0 in
    let id_q : q.id ≡ p.id = ap (λ (z : MockPool). z.id) e in
    elim (Option-cases (find_buffer b j)) [
      | inl none_y ↦ contents-missing (set_pool b q) b j none_y none_y
      | inr (y, found_y) ↦ elim (Bool-cases (y.pool_id == x.pool_id)) [
        | inl same ↦
            contents-same_pool b i j offset new_bytes {x = x} {y = y} {p = p} {q = q} v n found_x
              found_y found_p ((==_iff _ _).0 same) fits e
        | inr apart ↦
            let (r, found_r, ir, hy, size_r, pos_r) = find_pool-IsPool b j {x = y} v found_y in
            let here = (found_pool b x.pool_id {p = p} found_p).1 in
            let away = find_pool-set_other b p q y.pool_id id_q (ground arith) in
            contents-found (set_pool b q) j found_y (away ∙ found_r)
            ∙ sym (contents-found b j found_y found_r)
      ]
    ]

module _ (bm : Bytemuck) (b : MockBackend) (req res : List ℕ) (v : Inv b) where
  -- WRITE_BUFFER to one buffer, accepted or refused, changes no byte of any other buffer.
  pub write_buffer_isolated :
      (j : ℕ)
      → (bm.pod_read_unaligned write_buffer_payload
          (take (size_of write_buffer_payload) req)).buffer_id
        ≢ j
      → contents (settle b res (on_write_buffer bm b req res)).backend j ≡ contents b j
  unfolding on_write_buffer
  write_buffer_isolated j n =
      Ensures-settle (λ c. contents c j ≡ contents b j) b res _ refl
        (Ensures-refuse_if _ _ _ λ long. Ensures-or_refuse _ _ _ λ x found_x.
          Ensures-refuse_if _ _ _ λ _. Ensures-refuse_if _ _ _ λ _.
            Ensures-refuse_if _ _ _ λ bounds. Ensures-or_refuse _ _ _ λ p found_p.
              Ensures-or_refuse _ _ _ λ q written. Ensures-ok _ (
                contents-write_slot b _ j _ _ v n found_x found_p
                  (let (fits, len) = write_fits x.total_size _ _ _ _ bounds in
                    omega (arith, fits, len, length-drop (size_of write_buffer_payload) req))
                  written))
