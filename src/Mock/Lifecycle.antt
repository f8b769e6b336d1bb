-- ===== src/Mock/Lifecycle.antt =====
-- The life of a buffer of crates/vt-ferry-worker/src/mock.rs: written by the guest, queued with an output,
-- given back, recycled and handed out again under a new generation.
use vt_ferry.Prelude.{
  ℕ, ◌+◌, ◌-◌, ◌^◌, ◌<◌, ◌≤◌, ◌≡◌, ◌≢◌, refl, sym, ap, subst, ◌∙◌, false, ◌==◌, inl, inr, ==-refl,
  some, Option-cases, List, [], ◌∷◌, ◌++◌, replicate, arith, find_first, modify_first, remove_first,
  find_first-modify_self, Rising-find_key, Rising-modify_key,
}
use vt_ferry.Protocol.Wire.{Bytemuck, IsWireValue}
use vt_ferry.Protocol.Codes.{status_stale_generation}
use vt_ferry.Protocol.Buffers.{
  WriteBufferPayload, write_buffer_payload, ReadBufferPayload, read_buffer_payload,
}
use vt_ferry.Protocol.Outputs.{EncodeFramePayload}
use vt_ferry.Mock.State.{MockBackend, MockPool, MockBuffer, MockOutput, MockSession, queued_to_host}
use vt_ferry.Mock.EncodeOps.{queue_output}
use vt_ferry.Mock.Transfer.{err, failed, settle, ◌>>=◌, ◌>>◌, refuse_if, or_refuse}
use vt_ferry.Mock.Handles.{
  to_u64, buffer_is, output_is, recyclable_in, find_buffer, find_recyclable_buffer, write_slot,
}
use vt_ferry.Mock.PoolOps.{realloc_buffer, reissue}
use vt_ferry.Mock.BufferOps.{on_read_buffer, on_write_buffer}
use vt_ferry.Mock.OutputOps.{release_output, give_back}
use vt_ferry.Mock.ReadBack.{header-taken, length-request, read_pod-request}
use vt_ferry.Mock.Invariant.Defs.{Inv, buffer_key}

-- A buffer that is handed out again is found under its old handle, with the next generation.
find_buffer-realloc :
    (bm : Bytemuck) (b : MockBackend) (p : MockPool) (x : MockBuffer) (res : List ℕ)
    → Inv b
    → find_recyclable_buffer b p.id ≡ some x
    → find_buffer (realloc_buffer bm b p x res).backend x.id ≡ some (reissue x)
unfolding realloc_buffer find_buffer find_recyclable_buffer
find_buffer-realloc bm b p x res v found =
    let rise = v.buffers_ok.rise in
    let by_key =
      Rising-find_key buffer_key (recyclable_in p.id) 1 b.buffers b.next_host_id {x = x} rise
        found in
    let same =
      Rising-modify_key buffer_key (recyclable_in p.id) reissue 1 b.buffers b.next_host_id {x = x}
        rise found in
    let there =
      find_first-modify_self (buffer_is x.id) reissue b.buffers {x = x} by_key (==-refl x.id) in
    elim (Option-cases (write_slot p x.slot_index 0 (replicate p.slot_region_size 0))) [
      | inl e ↦ rw (e, realloc_buffer) (rw same there)
      | inr (q, e) ↦ rw (e, realloc_buffer) (rw same there)
    ]

-- The tests of generation.
module _ (bm : Bytemuck) (b : MockBackend) (res : List ℕ) {x : MockBuffer} where
  read_buffer-stale :
      (r : ReadBufferPayload)
      → IsWireValue read_buffer_payload r
      → find_buffer b r.buffer_id ≡ some x
      → x.generation ≢ r.generation
      → on_read_buffer bm b (bm.bytes_of read_buffer_payload r ++ []) res
        ≡ err status_stale_generation
  unfolding on_read_buffer ◌>>=◌ ◌>>◌ refuse_if or_refuse
  read_buffer-stale r wire found n =
      ground (arith, read_pod-request bm read_buffer_payload r [] wire)

  write_buffer-stale :
      (w : WriteBufferPayload) (bytes : List ℕ)
      → IsWireValue write_buffer_payload w
      → find_buffer b w.buffer_id ≡ some x
      → x.generation ≢ w.generation
      → on_write_buffer bm b (bm.bytes_of write_buffer_payload w ++ bytes) res
        ≡ err status_stale_generation
  unfolding on_write_buffer ◌>>=◌ ◌>>◌ refuse_if or_refuse
  write_buffer-stale w bytes wire found n =
      rw
        (
          header-taken bm write_buffer_payload w bytes,
          bm.pod_read-bytes_of write_buffer_payload w wire,
        )
        (ground (arith, length-request bm write_buffer_payload w bytes))

-- Once a recycled buffer has been handed out again, a guest that still holds the old generation can neither
-- read nor write it: both requests are refused as stale and change nothing.
pub realloc_buffer-stale :
    (bm : Bytemuck) (b : MockBackend) (p : MockPool) (x : MockBuffer) (w : WriteBufferPayload)
    (r : ReadBufferPayload) (bytes res : List ℕ)
    → Inv b
    → find_recyclable_buffer b p.id ≡ some x
    → x.generation + 1 < 2 ^ 64
    → IsWireValue write_buffer_payload w
    → IsWireValue read_buffer_payload r
    → w.buffer_id ≡ x.id
    → r.buffer_id ≡ x.id
    → w.generation ≡ x.generation
    → r.generation ≡ x.generation
    → let b' = (realloc_buffer bm b p x res).backend in
      (settle b' res (on_write_buffer bm b' (bm.bytes_of write_buffer_payload w ++ bytes) res)
        ≡ failed b' res status_stale_generation)
      × (settle b' res (on_read_buffer bm b' (bm.bytes_of read_buffer_payload r ++ []) res)
          ≡ failed b' res status_stale_generation)
realloc_buffer-stale bm b p x w r bytes res v found room wire_w wire_r id_w id_r gen_w gen_r =
    let b' = (realloc_buffer bm b p x res).backend in
    let there = find_buffer-realloc bm b p x res v found in
    let older : to_u64 (x.generation + 1) ≢ x.generation = omega arith in
    (
      ap (settle b' res) (
          write_buffer-stale bm b' res {x = reissue x} w bytes wire_w (rw id_w there)
            (rw gen_w older)),
      ap (settle b' res)
          (read_buffer-stale bm b' res {x = reissue x} r wire_r (rw id_r there) (rw gen_r older)),
    )

modify_first-same :
    (i : ℕ) (f : MockBuffer → MockBuffer) (xs : List MockBuffer) {x : MockBuffer}
    → find_first (buffer_is i) xs ≡ some x
    → f x ≡ x
    → modify_first (buffer_is i) f xs ≡ xs
unfolding find_first modify_first
modify_first-same i f [] e k = refl
modify_first-same i f (y ∷ xs) {x} e k = ground (arith, modify_first-same i f xs {x = x})

find_first-append :
    (i : ℕ) (os more : List MockOutput) {o : MockOutput}
    → find_first (output_is i) os ≡ some o
    → find_first (output_is i) (os ++ more) ≡ some o
unfolding find_first
find_first-append i [] more e = absurd (cc)
find_first-append i (h ∷ os) more {o} e = ground (arith, find_first-append i os more {o = o})

outputs-realloc :
    (bm : Bytemuck) (b : MockBackend) (p : MockPool) (x : MockBuffer) (res : List ℕ)
    → (realloc_buffer bm b p x res).backend.outputs ≡ b.outputs
unfolding realloc_buffer
outputs-realloc bm b p x res =
    elim (Option-cases (write_slot p x.slot_index 0 (replicate p.slot_region_size 0))) [
      | inl e ↦ rw (e, realloc_buffer) refl
      | inr (q, e) ↦ rw (e, realloc_buffer) refl
    ]

-- A late release. An output was made from a buffer, the buffer was recycled and handed out again, and a new
-- frame was encoded from it. Releasing the old output then leaves every buffer as it is, and the buffer is
-- still queued under its new generation. The backend satisfies its invariant before the buffer is handed
-- out again, and the 64 bits of its generation have not run out.
pub release_output-late :
    (bm : Bytemuck) (b : MockBackend) (p : MockPool) (x : MockBuffer) (res : List ℕ) (output_id : ℕ)
    (o : MockOutput) (payload : EncodeFramePayload) (s : MockSession) (payload_bytes : List ℕ)
    → Inv b
    → find_recyclable_buffer b p.id ≡ some x
    → x.generation + 1 < 2 ^ 64
    → find_first (output_is output_id) b.outputs ≡ some o
    → o.source_buffer_id ≡ x.id
    → o.source_buffer_generation ≤ x.generation
    → payload.image_buffer_host_id ≡ x.id
    → let b' =
        queue_output (realloc_buffer bm b p x res).backend payload s (reissue x) payload_bytes in
      (release_output output_id b'
        ≡ some (record b' {
          outputs = remove_first (output_is output_id) b'.outputs;
          output_bytes_total = b'.output_bytes_total - o.reply.sample_size;
        }))
      × (find_buffer b' x.id ≡ some (record (reissue x) { state = queued_to_host }))
unfolding release_output queue_output find_buffer
release_output-late bm b p x res output_id o payload s payload_bytes v found room old source before
      host =
    let anew = (realloc_buffer bm b p x res).backend in
    let b' = queue_output anew payload s (reissue x) payload_bytes in
    let y = record (reissue x) { state = queued_to_host } in
    let queued : MockBuffer → MockBuffer = λ z. record z { state = queued_to_host } in
    let kept : find_first (output_is output_id) anew.outputs ≡ some o =
      ap (find_first (output_is output_id)) (outputs-realloc bm b p x res) ∙ old in
    let got : find_first (output_is output_id) b'.outputs ≡ some o =
      find_first-append output_id anew.outputs _ {o = o} kept in
    let there : find_buffer b' x.id ≡ some y =
      subst
        (λ i. find_first (buffer_is x.id) (modify_first (buffer_is i) queued anew.buffers) ≡ some y)
        (sym host)
        (find_first-modify_self (buffer_is x.id) queued anew.buffers {x = reissue x}
          (find_buffer-realloc bm b p x res v found) (==-refl x.id)) in
    let newer : (to_u64 (x.generation + 1) == o.source_buffer_generation) ≡ false =
      ground (arith, room, before) in
    let still : give_back o.source_buffer_generation y ≡ y = rw newer refl in
    let same : modify_first (buffer_is o.source_buffer_id) (give_back o.source_buffer_generation)
          b'.buffers
        ≡ b'.buffers =
      subst
        (λ i.
          modify_first (buffer_is i) (give_back o.source_buffer_generation) b'.buffers ≡ b'.buffers)
        (sym source)
        (modify_first-same x.id (give_back o.source_buffer_generation) b'.buffers {x = y} there
          still) in
    (rw (got, release_output) (rw same refl), there)
