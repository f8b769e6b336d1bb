-- ===== src/Mock/Counters.antt =====
-- A request of crates/vt-ferry-worker/src/mock.rs takes at most one handle and one output id.
use vt_ferry.Prelude.{
  ℕ, zero, suc, ◌+◌, ◌≤◌, ◌≡◌, refl, ◌∙◌, inl, inr, some, List, [], ◌∷◌, replicate, find_first,
  retain, map, ◌==◌, not, Option-cases, arith,
}
use vt_ferry.Protocol.Codes.{
  Opcode, hello, ping, get_caps, create_session, set_property, prepare_session, create_buffer_pool,
  alloc_buffer, read_buffer, write_buffer, recycle_buffer, encode_frame, dequeue_output,
  dequeue_output_batch, read_output, release_output, drain, destroy_session,
}
use vt_ferry.Protocol.Wire.{Bytemuck}
use vt_ferry.Protocol.Header.{MessageHeader}
use vt_ferry.Protocol.Buffers.{RecycleBufferPayload}
use vt_ferry.Protocol.Outputs.{DequeueOutputReply}
use vt_ferry.Mock.State.{MockBackend, MockPool, MockBuffer}
use vt_ferry.Mock.Transfer.{Outcome}
use vt_ferry.Mock.Handles.{find_recyclable_buffer, write_slot, pending_for, output_is}
use vt_ferry.Mock.Ensures.{
  Ensures, Ensures-ok, Ensures-err, Ensures-refuse_if, Ensures-or_refuse, Ensures->>=,
  Ensures-settle,
}
use vt_ferry.Mock.SessionOps.{
  on_hello, on_get_caps, on_create_session, on_prepare_session, on_destroy_session, remove_session,
  remove_buffers_for_pool, remove_buffers_for_pools, remove_pools_for_session,
  remove_outputs_for_session,
}
use vt_ferry.Mock.PoolOps.{
  on_create_buffer_pool, on_alloc_buffer, alloc_fresh_buffer, realloc_buffer, on_recycle_buffer,
  recycle_buffer as recycle,
}
use vt_ferry.Mock.BufferOps.{on_write_buffer}
use vt_ferry.Mock.EncodeOps.{on_encode_frame, queue_output}
use vt_ferry.Mock.OutputOps.{
  on_dequeue_output, on_dequeue_output_batch, on_release_output, answer_batch, dequeue_up_to,
  dequeue_output as dequeue, release_output as release,
}
use vt_ferry.Mock.Dispatch.{serve, dispatch}
use vt_ferry.Mock.Invariant.Serve.{
  dispatch_cases, set_property-reads, drain-reads, read_buffer-reads, read_output-reads,
}

-- From `b` on, at most one of each.
abbrev Few : MockBackend → MockBackend → Type 0
Few b b' = (b'.next_host_id ≤ b.next_host_id + 1) × (b'.next_output_id ≤ b.next_output_id + 1)

-- None at all.
abbrev Same : MockBackend → MockBackend → Type 0
Same b b' = (b'.next_host_id ≡ b.next_host_id) × (b'.next_output_id ≡ b.next_output_id)

remove_buffers_for_pools-Same :
    (ids : List ℕ) (b : MockBackend) → Same b (remove_buffers_for_pools ids b)
unfolding remove_buffers_for_pools remove_buffers_for_pool
remove_buffers_for_pools-Same [] b = (refl, refl)
remove_buffers_for_pools-Same (id ∷ ids) b =
    remove_buffers_for_pools-Same ids (remove_buffers_for_pool id b)

dequeue-Same :
    (sid : ℕ) (b : MockBackend) {r : DequeueOutputReply} {b' : MockBackend}
    → dequeue sid b ≡ some (r, b')
    → Same b b'
unfolding dequeue
dequeue-Same sid b {r} {b'} e = elim (Option-cases (find_first (pending_for sid) b.outputs)) [
  | inl f ↦ ground arith
  | inr (o, f) ↦ ground arith
]

dequeue_up_to-Same : (rounds sid : ℕ) (b : MockBackend) → Same b (dequeue_up_to rounds sid b).1
unfolding dequeue_up_to
dequeue_up_to-Same zero sid b = (refl, refl)
dequeue_up_to-Same (suc rounds) sid b = elim (Option-cases (dequeue sid b)) [
  | inl e ↦ rw (e, dequeue_up_to) (refl, refl)
  | inr ((r, b'), e) ↦
      let first = dequeue-Same sid b {r = r} {b' = b'} e in
      let rest = dequeue_up_to-Same rounds sid b' in
      rw (e, dequeue_up_to) (rest.0 ∙ first.0, rest.1 ∙ first.1)
]

release-Same : (id : ℕ) (b : MockBackend) {b' : MockBackend} → release id b ≡ some b' → Same b b'
unfolding release
release-Same id b {b'} e = elim (Option-cases (find_first (output_is id) b.outputs)) [
  | inl f ↦ ground arith
  | inr (o, f) ↦ ground arith
]

destroy-Same :
    (sid : ℕ) (b : MockBackend)
    → Same b (remove_session sid (remove_pools_for_session sid (remove_outputs_for_session sid b)))
unfolding remove_session remove_pools_for_session remove_outputs_for_session
destroy-Same sid b =
    remove_buffers_for_pools-Same (map (λ p. p.id) (retain (λ p. p.session_id == sid) b.pools))
      (record (remove_outputs_for_session sid b) {
        pools = retain (λ p. not (p.session_id == sid)) b.pools;
      })

few : {n m n' m' : ℕ} → (n' ≡ n) × (m' ≡ m) → (n' ≤ n + 1) × (m' ≤ m + 1)
few (p, q) = (omega arith, omega arith)

module _ (bm : Bytemuck) (b : MockBackend) (req res : List ℕ) where
  create_session-Few : Ensures (λ (o : Outcome). Few b o.backend) (on_create_session bm b req res)
  unfolding on_create_session
  create_session-Few =
      Ensures-refuse_if _ _ _
        λ _. Ensures-or_refuse _ _ _ λ _ _. Ensures-ok _ (omega arith, omega arith)

  prepare_session-Few : Ensures (λ (o : Outcome). Few b o.backend) (on_prepare_session bm b req res)
  unfolding on_prepare_session
  prepare_session-Few =
      Ensures-or_refuse _ _ _
        λ _ _. Ensures-or_refuse _ _ _ λ _ _. Ensures-ok _ (omega arith, omega arith)

  create_buffer_pool-Few :
      Ensures (λ (o : Outcome). Few b o.backend) (on_create_buffer_pool bm b req res)
  unfolding on_create_buffer_pool
  create_buffer_pool-Few = Ensures-refuse_if _ _ _ λ _. Ensures-or_refuse _ _ _ λ _ _.
      Ensures-refuse_if _ _ _
        λ _. Ensures-refuse_if _ _ _ λ _. Ensures-ok _ (omega arith, omega arith)

  write_buffer-Few : Ensures (λ (o : Outcome). Few b o.backend) (on_write_buffer bm b req res)
  unfolding on_write_buffer
  write_buffer-Few = Ensures-refuse_if _ _ _ λ _. Ensures-or_refuse _ _ _ λ _ _.
      Ensures-refuse_if _ _ _ λ _. Ensures-refuse_if _ _ _ λ _. Ensures-refuse_if _ _ _ λ _.
        Ensures-or_refuse _ _ _
          λ _ _. Ensures-or_refuse _ _ _ λ _ _. Ensures-ok _ (omega arith, omega arith)

  encode_frame-Few : Ensures (λ (o : Outcome). Few b o.backend) (on_encode_frame bm b req res)
  unfolding on_encode_frame queue_output
  encode_frame-Few = Ensures-or_refuse _ _ _ λ _ _. Ensures-or_refuse _ _ _ λ _ _.
      Ensures-refuse_if _ _ _ λ _. Ensures-refuse_if _ _ _ λ _. Ensures-or_refuse _ _ _ λ _ _.
        Ensures-refuse_if _ _ _ λ _. Ensures-refuse_if _ _ _ λ _. Ensures-or_refuse _ _ _ λ _ _.
          Ensures-or_refuse _ _ _ λ _ _.
            Ensures-refuse_if _ _ _
              λ _. Ensures-refuse_if _ _ _ λ _. Ensures-ok _ (omega arith, omega arith)

  destroy_session-Few : Ensures (λ (o : Outcome). Few b o.backend) (on_destroy_session bm b req res)
  unfolding on_destroy_session
  destroy_session-Few = Ensures-or_refuse _ _ _ λ payload _.
      Ensures-or_refuse _ _ _ λ s _. Ensures-ok _ (few (destroy-Same payload.session_id b))

  dequeue_output-Few : Ensures (λ (o : Outcome). Few b o.backend) (on_dequeue_output bm b req res)
  unfolding on_dequeue_output
  dequeue_output-Few = Ensures-or_refuse _ _ _ λ payload _.
      Ensures-or_refuse _ _ _
        λ (r, b') e. Ensures-ok _ (few (dequeue-Same payload.session_id b {r = r} {b' = b'} e))

  answer_batch-Few :
      (sid : ℕ) (batch : List DequeueOutputReply × MockBackend)
      → Same b batch.1
      → Ensures (λ (o : Outcome). Few b o.backend) (answer_batch bm b res sid batch)
  unfolding answer_batch
  answer_batch-Few sid ([], b') same = Ensures-err _
  answer_batch-Few sid (r ∷ rs, b') same = Ensures-ok _ (few same)

  dequeue_output_batch-Few :
      Ensures (λ (o : Outcome). Few b o.backend) (on_dequeue_output_batch bm b req res)
  unfolding on_dequeue_output_batch
  dequeue_output_batch-Few =
      Ensures-or_refuse _ _ _ λ payload _.
        answer_batch-Few payload.session_id _ (dequeue_up_to-Same _ payload.session_id b)

  release_output-Few : Ensures (λ (o : Outcome). Few b o.backend) (on_release_output bm b req res)
  unfolding on_release_output
  release_output-Few = Ensures-or_refuse _ _ _ λ payload _.
      Ensures-or_refuse _ _ _
        λ b' e. Ensures-ok _ (few (release-Same payload.output_id b {b' = b'} e))

  recycle-Same : (payload : RecycleBufferPayload) → Ensures (λ b'. Same b b') (recycle b payload)
  unfolding recycle
  recycle-Same payload = Ensures-or_refuse _ _ _ λ _ _. Ensures-or_refuse _ _ _ λ _ _.
      Ensures-refuse_if _ _ _
        λ _. Ensures-refuse_if _ _ _ λ _. Ensures-refuse_if _ _ _ λ _. Ensures-ok _ (refl, refl)

  recycle_buffer-Few : Ensures (λ (o : Outcome). Few b o.backend) (on_recycle_buffer bm b req res)
  unfolding on_recycle_buffer
  recycle_buffer-Few =
      Ensures-or_refuse _ _ _
        λ payload _. Ensures->>= _ _ (recycle-Same payload) λ b' same. Ensures-ok _ (few same)

  realloc_buffer-Few : (p : MockPool) (x : MockBuffer) → Few b (realloc_buffer bm b p x res).backend
  unfolding realloc_buffer
  realloc_buffer-Few p x =
      elim (Option-cases (write_slot p x.slot_index 0 (replicate p.slot_region_size 0))) [
        | inl e ↦ rw (e, realloc_buffer) (omega arith, omega arith)
        | inr (q, e) ↦ rw (e, realloc_buffer) (omega arith, omega arith)
      ]

  alloc_fresh_buffer-Few :
      (p : MockPool) → Ensures (λ (o : Outcome). Few b o.backend) (alloc_fresh_buffer bm b p res)
  unfolding alloc_fresh_buffer
  alloc_fresh_buffer-Few p =
      Ensures-refuse_if _ _ _
        λ _. Ensures-or_refuse _ _ _ λ _ _. Ensures-ok _ (omega arith, omega arith)

  alloc_buffer-Few : Ensures (λ (o : Outcome). Few b o.backend) (on_alloc_buffer bm b req res)
  unfolding on_alloc_buffer
  alloc_buffer-Few = Ensures-or_refuse _ _ _ λ payload _. Ensures-or_refuse _ _ _ λ p _.
      elim (Option-cases (find_recyclable_buffer b payload.pool_id)) [
        | inl e ↦ rw e (alloc_fresh_buffer-Few p)
        | inr (x, e) ↦ rw e (Ensures-ok _ (realloc_buffer-Few p x))
      ]

module _ (bm : Bytemuck) (b : MockBackend) where
  none_taken : Few b b
  none_taken = (omega arith, omega arith)

  serve-Few : (op : Opcode) (req res : List ℕ) → Few b (serve bm b op req res).backend
  unfolding serve on_hello on_get_caps
  serve-Few hello req res = none_taken
  serve-Few ping req res = none_taken
  serve-Few get_caps req res = none_taken
  serve-Few create_session req res =
      Ensures-settle (Few b) b res _ none_taken (create_session-Few bm b req res)
  serve-Few prepare_session req res =
      Ensures-settle (Few b) b res _ none_taken (prepare_session-Few bm b req res)
  serve-Few create_buffer_pool req res =
      Ensures-settle (Few b) b res _ none_taken (create_buffer_pool-Few bm b req res)
  serve-Few alloc_buffer req res =
      Ensures-settle (Few b) b res _ none_taken (alloc_buffer-Few bm b req res)
  serve-Few write_buffer req res =
      Ensures-settle (Few b) b res _ none_taken (write_buffer-Few bm b req res)
  serve-Few recycle_buffer req res =
      Ensures-settle (Few b) b res _ none_taken (recycle_buffer-Few bm b req res)
  serve-Few encode_frame req res =
      Ensures-settle (Few b) b res _ none_taken (encode_frame-Few bm b req res)
  serve-Few dequeue_output req res =
      Ensures-settle (Few b) b res _ none_taken (dequeue_output-Few bm b req res)
  serve-Few dequeue_output_batch req res =
      Ensures-settle (Few b) b res _ none_taken (dequeue_output_batch-Few bm b req res)
  serve-Few release_output req res =
      Ensures-settle (Few b) b res _ none_taken (release_output-Few bm b req res)
  serve-Few destroy_session req res =
      Ensures-settle (Few b) b res _ none_taken (destroy_session-Few bm b req res)
  serve-Few set_property req res =
      Ensures-settle (Few b) b res _ none_taken (set_property-reads bm b req res (Few b) none_taken)
  serve-Few read_buffer req res =
      Ensures-settle (Few b) b res _ none_taken (read_buffer-reads bm b req res (Few b) none_taken)
  serve-Few read_output req res =
      Ensures-settle (Few b) b res _ none_taken (read_output-reads bm b req res (Few b) none_taken)
  serve-Few drain req res =
      Ensures-settle (Few b) b res _ none_taken (drain-reads bm b req res (Few b) none_taken)

  pub dispatch-Few :
      (req_header : MessageHeader) (req res : List ℕ)
      → Few b (dispatch bm b req_header req res).backend
  dispatch-Few req_header req res =
      dispatch_cases bm (λ o. Few b o.backend) b req_header req res (λ s _. none_taken)
        (λ op _. serve-Few op req res)
