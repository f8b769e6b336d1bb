-- ===== src/Mock/ReadBack.antt =====
-- The bytes that WRITE_BUFFER stores are those that READ_BUFFER answers, in
-- crates/vt-ferry-worker/src/mock.rs.
use vt_ferry.Prelude.{
  ℕ, ◌+◌, ◌*◌, ◌≤◌, ◌≡◌, refl, false, ltb, some, List, [], ◌++◌, find_first-holds, take, drop,
  length, length-append, arith, take-append_at, drop-append_at,
}
use vt_ferry.Protocol.Wire.{Bytemuck, Layout, size_of, IsWireValue}
use vt_ferry.Protocol.Buffers.{
  WriteBufferPayload, ReadBufferPayload, ReadBufferReply, write_buffer_payload, read_buffer_payload,
  read_buffer_reply,
}
use vt_ferry.Mock.State.{MockBackend, MockPool, MockBuffer, guest_writable}
use vt_ferry.Mock.Transfer.{
  ok, settle, done, respond, read_pod, write_pod_and_bytes, ◌>>=◌, ◌>>◌, refuse_if, or_refuse,
}
use vt_ferry.Mock.Handles.{
  buffer_is, find_pool, find_buffer, slot_bytes, write_slot, set_pool, bytes_at, is_recycled,
}
use vt_ferry.Mock.BufferOps.{on_write_buffer, on_read_buffer}
use vt_ferry.Mock.Bytes.{slot-put_bytes_self}
use vt_ferry.Mock.Slots.{slot_end, slot_bytes-some, write_slot-some, find_pool-IsPool}
use vt_ferry.Mock.Invariant.Defs.{Inv}
use vt_ferry.Mock.Invariant.Pools.{write_slot-IsPool}
use vt_ferry.Mock.Contents.{find_pool-set_self, pool_with}

-- A request with its header in front of its bytes.
module _ (bm : Bytemuck) {A : Type 0} (l : Layout A) (a : A) (bytes : List ℕ) where
  pub header-taken : take (size_of l) (bm.bytes_of l a ++ bytes) ≡ bm.bytes_of l a
  header-taken = take-append_at (size_of l) (bm.bytes_of l a) bytes (bm.length-bytes_of l a)

  pub header-dropped : drop (size_of l) (bm.bytes_of l a ++ bytes) ≡ bytes
  header-dropped = drop-append_at (size_of l) (bm.bytes_of l a) bytes (bm.length-bytes_of l a)

  pub length-request : length (bm.bytes_of l a ++ bytes) ≡ size_of l + length bytes
  length-request = omega (arith, length-append (bm.bytes_of l a) bytes, bm.length-bytes_of l a)

  pub read_pod-request : IsWireValue l a → read_pod bm l (bm.bytes_of l a ++ bytes) ≡ some a
  unfolding read_pod
  read_pod-request h =
      rw (header-taken, bm.pod_read-bytes_of l a h) (ground (arith, length-request))

-- The header that a READ_BUFFER has in common with the WRITE_BUFFER of the same place.
abbrev pub same_place_read : WriteBufferPayload → ReadBufferPayload
same_place_read w = record {
  buffer_id = w.buffer_id;
  generation = w.generation;
  offset = w.offset;
  length = w.length;
}

abbrev pub read_answer : ReadBufferPayload → ReadBufferReply
read_answer r = record {
  buffer_id = r.buffer_id;
  generation = r.generation;
  offset = r.offset;
  length = r.length;
}

module _ (bm : Bytemuck) (b : MockBackend) (w : WriteBufferPayload) (bytes res : List ℕ)
    {x : MockBuffer} where
  -- The accepted write.
  write_buffer-accepts :
      (q : MockPool) {p : MockPool}
      → IsWireValue write_buffer_payload w
      → find_buffer b w.buffer_id ≡ some x
      → x.generation ≡ w.generation
      → x.state ≡ guest_writable
      → w.length ≡ length bytes
      → w.offset + w.length ≤ x.total_size
      → find_pool b x.pool_id ≡ some p
      → write_slot p x.slot_index w.offset bytes ≡ some q
      → on_write_buffer bm b (bm.bytes_of write_buffer_payload w ++ bytes) res
        ≡ ok (done (set_pool b q) res)
  unfolding on_write_buffer ◌>>=◌ ◌>>◌ refuse_if or_refuse
  write_buffer-accepts q wire found gen state len fits found_p written =
      rw
        (
          header-taken bm write_buffer_payload w bytes,
          bm.pod_read-bytes_of write_buffer_payload w wire,
        )
        (ground (
          arith,
          length-request bm write_buffer_payload w bytes,
          header-dropped bm write_buffer_payload w bytes,
        ))

module _ (bm : Bytemuck) (b : MockBackend) (r : ReadBufferPayload) (res : List ℕ)
    {x : MockBuffer} where
  -- The accepted read.
  read_buffer-accepts :
      {p : MockPool} (slot : List ℕ)
      → IsWireValue read_buffer_payload r
      → find_buffer b r.buffer_id ≡ some x
      → x.id ≡ r.buffer_id
      → x.generation ≡ r.generation
      → is_recycled x.state ≡ false
      → r.offset + r.length ≤ x.total_size
      → find_pool b x.pool_id ≡ some p
      → slot_bytes p x.slot_index ≡ some slot
      → on_read_buffer bm b (bm.bytes_of read_buffer_payload r ++ []) res
        ≡ ok (
            respond b (
              write_pod_and_bytes bm read_buffer_reply res
                (read_answer r)
                (bytes_at r.offset r.length slot)))
  unfolding on_read_buffer ◌>>=◌ ◌>>◌ refuse_if or_refuse
  read_buffer-accepts slot wire found own gen state fits found_p here =
      ground (arith, read_pod-request bm read_buffer_payload r [] wire)

-- What the guest writes into a writable buffer it reads back from the same place: the write is answered
-- with Ok(0), and the read after it with its header and exactly the bytes written.
pub read_buffer-write_buffer :
    (bm : Bytemuck) (b : MockBackend) (w : WriteBufferPayload) (bytes res : List ℕ) {x : MockBuffer}
    → Inv b
    → IsWireValue write_buffer_payload w
    → IsWireValue read_buffer_payload (same_place_read w)
    → find_buffer b w.buffer_id ≡ some x
    → x.generation ≡ w.generation
    → x.state ≡ guest_writable
    → w.length ≡ length bytes
    → w.offset + w.length ≤ x.total_size
    → size_of read_buffer_reply + length bytes ≤ length res
    → let wrote =
        settle b res (on_write_buffer bm b (bm.bytes_of write_buffer_payload w ++ bytes) res) in
      let b' = wrote.backend in
      (wrote.result ≡ some 0)
      × (settle b' res
            (on_read_buffer bm b' (bm.bytes_of read_buffer_payload (same_place_read w) ++ []) res)
          ≡ record {
            backend = b';
            status = 0;
            res_payload =
                bm.bytes_of read_buffer_reply (read_answer (same_place_read w))
                ++ (bytes ++ drop (size_of read_buffer_reply + length bytes) res);
            result = some (size_of read_buffer_reply + length bytes);
          })
unfolding find_buffer write_pod_and_bytes
read_buffer-write_buffer bm b w bytes res {x} v wire wire_r found gen state len fits room =
    let (p, found_p, ip, hx, size, pos) = find_pool-IsPool b w.buffer_id {x = x} v found in
    let q = pool_with p x.slot_index w.offset bytes in
    let written = write_slot-some p x.slot_index w.offset bytes ip hx pos in
    let (iq, g) =
      write_slot-IsPool p x.slot_index w.offset bytes {q = q} ip (omega arith) written in
    let wrote =
      write_buffer-accepts bm b w bytes res q {p = p} wire found gen state len fits found_p
        written in
    let own : x.id ≡ w.buffer_id =
      ground (arith, find_first-holds (buffer_is w.buffer_id) b.buffers {x = x} found) in
    let there = slot_bytes-some q x.slot_index iq hx pos in
    let reads =
      read_buffer-accepts bm (set_pool b q) (same_place_read w) res {x = x} {p = q} _ wire_r found
        own gen (rw state refl) fits (find_pool-set_self b p q x.pool_id found_p refl) there in
    let end = slot_end x.slot_index p.max_buffers p.slot_region_size (omega (arith, ip.counted)) in
    let same =
      slot-put_bytes_self (x.slot_index * p.slot_region_size) w.offset p.slot_region_size bytes
        p.backing (omega arith) (omega (arith, end, ip.backed)) in
    let enough : ltb (length res) (size_of read_buffer_reply + length bytes) ≡ false =
      ground arith in
    rw wrote (refl, rw (reads, len, same) (rw enough refl))
