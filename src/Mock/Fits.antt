-- ===== src/Mock/Fits.antt =====
-- The response buffer of crates/vt-ferry-worker/src/mock.rs keeps its length, and what dispatch returns is
-- a length within it.
use vt_ferry.Prelude.{
  ℕ, ◌+◌, ◌≤◌, ◌≡◌, refl, Bool-cases, inl, inr, ltb, none, some, List, [], ◌∷◌, ◌++◌, drop, length,
  length-append, length-drop, Option-cases, Option, replicate, arith,
}
use vt_ferry.Protocol.Codes.{
  Opcode, hello, ping, get_caps, create_session, set_property, prepare_session, create_buffer_pool,
  alloc_buffer, read_buffer, write_buffer, recycle_buffer, encode_frame, dequeue_output,
  dequeue_output_batch, read_output, release_output, drain, destroy_session,
}
use vt_ferry.Protocol.Wire.{Layout, Bytemuck, size_of}
use vt_ferry.Protocol.Header.{MessageHeader}
use vt_ferry.Protocol.Outputs.{DequeueOutputReply}
use vt_ferry.Mock.State.{MockBackend, MockPool, MockBuffer}
use vt_ferry.Mock.Transfer.{Outcome, Check, ok, err, write_pod, write_pod_and_bytes, settle}
use vt_ferry.Mock.Handles.{find_recyclable_buffer, write_slot}
use vt_ferry.Mock.Ensures.{
  Ensures, Ensures-ok, Ensures-err, Ensures-refuse_if, Ensures-or_refuse, Ensures->>=, Ensures-any,
}
use vt_ferry.Mock.SessionOps.{
  on_hello, on_get_caps, on_create_session, on_set_property, on_prepare_session, on_destroy_session,
  on_drain,
}
use vt_ferry.Mock.PoolOps.{
  on_create_buffer_pool, on_alloc_buffer, alloc_fresh_buffer, realloc_buffer, on_recycle_buffer,
  recycle_buffer as recycle,
}
use vt_ferry.Mock.BufferOps.{on_read_buffer, on_write_buffer}
use vt_ferry.Mock.EncodeOps.{on_encode_frame}
use vt_ferry.Mock.OutputOps.{
  on_dequeue_output, on_dequeue_output_batch, on_read_output, on_release_output, answer_batch,
}
use vt_ferry.Mock.Dispatch.{serve, dispatch}
use vt_ferry.Mock.Invariant.Serve.{dispatch_cases}

-- A response buffer of `n` bytes, and a length within it.
abbrev Within : ℕ → List ℕ × Option ℕ → Type 0
Within n (res_payload, result) =
    (length res_payload ≡ n) × ((len : ℕ) → result ≡ some len → len ≤ n)

abbrev Fits : ℕ → Outcome → Type 0
Fits n o = Within n (o.res_payload, o.result)

module _ (bm : Bytemuck) {A : Type 0} (l : Layout A) (res : List ℕ) (a : A) where
  write_pod-Fits : Within (length res) (write_pod bm l res a)
  unfolding write_pod
  write_pod-Fits = elim (Bool-cases (ltb (length res) (size_of l))) [
    | inl e ↦ rw e (refl, λ len f. absurd (cc))
    | inr e ↦
        let sizes = length-append (bm.bytes_of l a) (drop (size_of l) res) in
        let le : size_of l ≤ length res = ground arith in
        rw e (
          omega (arith, sizes, le, bm.length-bytes_of l a, length-drop (size_of l) res),
          λ len f. ground (arith, le),
        )
  ]

  write_pod_and_bytes-Fits :
      (bytes : List ℕ) → Within (length res) (write_pod_and_bytes bm l res a bytes)
  unfolding write_pod_and_bytes
  write_pod_and_bytes-Fits bytes = elim (Bool-cases (ltb (length res) (size_of l + length bytes))) [
    | inl e ↦ rw e (refl, λ len f. absurd (cc))
    | inr e ↦
        let left = drop (size_of l + length bytes) res in
        let le : size_of l + length bytes ≤ length res = ground arith in
        rw e (
          omega (
            arith,
            length-append (bm.bytes_of l a) (bytes ++ left),
            length-append bytes left,
            le,
            bm.length-bytes_of l a,
            length-drop (size_of l + length bytes) res,
          ),
          λ len f. ground (arith, le),
        )
  ]

-- An arm that answers Ok(0), and a refusal.
no_bytes : (res : List ℕ) → Within (length res) (res, some 0)
no_bytes res = (refl, λ len f. ground arith)

refused : (res : List ℕ) → Within (length res) (res, none)
refused res = (refl, λ len f. absurd (cc))

module _ (bm : Bytemuck) (b : MockBackend) (req res : List ℕ) where
  create_session-Fits : Ensures (Fits (length res)) (on_create_session bm b req res)
  unfolding on_create_session
  create_session-Fits =
      Ensures-refuse_if _ _ _
        λ _. Ensures-or_refuse _ _ _ λ _ _. Ensures-ok _ (write_pod-Fits bm _ res _)

  set_property-Fits : Ensures (Fits (length res)) (on_set_property bm b req res)
  unfolding on_set_property
  set_property-Fits =
      Ensures-or_refuse _ _ _ λ _ _. Ensures-or_refuse _ _ _ λ _ _. Ensures-ok _ (no_bytes res)

  prepare_session-Fits : Ensures (Fits (length res)) (on_prepare_session bm b req res)
  unfolding on_prepare_session
  prepare_session-Fits =
      Ensures-or_refuse _ _ _ λ _ _. Ensures-or_refuse _ _ _ λ _ _. Ensures-ok _ (no_bytes res)

  create_buffer_pool-Fits : Ensures (Fits (length res)) (on_create_buffer_pool bm b req res)
  unfolding on_create_buffer_pool
  create_buffer_pool-Fits = Ensures-refuse_if _ _ _ λ _. Ensures-or_refuse _ _ _ λ _ _.
      Ensures-refuse_if _ _ _
        λ _. Ensures-refuse_if _ _ _ λ _. Ensures-ok _ (write_pod-Fits bm _ res _)

  read_buffer-Fits : Ensures (Fits (length res)) (on_read_buffer bm b req res)
  unfolding on_read_buffer
  read_buffer-Fits = Ensures-or_refuse _ _ _ λ _ _. Ensures-or_refuse _ _ _ λ _ _.
      Ensures-refuse_if _ _ _ λ _. Ensures-refuse_if _ _ _ λ _. Ensures-refuse_if _ _ _ λ _.
        Ensures-or_refuse _ _ _
          λ _ _. Ensures-or_refuse _ _ _ λ _ _. Ensures-ok _ (write_pod_and_bytes-Fits bm _ res _ _)

  write_buffer-Fits : Ensures (Fits (length res)) (on_write_buffer bm b req res)
  unfolding on_write_buffer
  write_buffer-Fits = Ensures-refuse_if _ _ _ λ _. Ensures-or_refuse _ _ _ λ _ _.
      Ensures-refuse_if _ _ _ λ _. Ensures-refuse_if _ _ _ λ _. Ensures-refuse_if _ _ _ λ _.
        Ensures-or_refuse _ _ _ λ _ _. Ensures-or_refuse _ _ _ λ _ _. Ensures-ok _ (no_bytes res)

  encode_frame-Fits : Ensures (Fits (length res)) (on_encode_frame bm b req res)
  unfolding on_encode_frame
  encode_frame-Fits = Ensures-or_refuse _ _ _ λ _ _. Ensures-or_refuse _ _ _ λ _ _.
      Ensures-refuse_if _ _ _ λ _. Ensures-refuse_if _ _ _ λ _. Ensures-or_refuse _ _ _ λ _ _.
        Ensures-refuse_if _ _ _ λ _. Ensures-refuse_if _ _ _ λ _. Ensures-or_refuse _ _ _ λ _ _.
          Ensures-or_refuse _ _ _ λ _ _.
            Ensures-refuse_if _ _ _ λ _. Ensures-refuse_if _ _ _ λ _. Ensures-ok _ (no_bytes res)

  dequeue_output-Fits : Ensures (Fits (length res)) (on_dequeue_output bm b req res)
  unfolding on_dequeue_output
  dequeue_output-Fits =
      Ensures-or_refuse _ _ _
        λ _ _. Ensures-or_refuse _ _ _ λ _ _. Ensures-ok _ (write_pod-Fits bm _ res _)

  read_output-Fits : Ensures (Fits (length res)) (on_read_output bm b req res)
  unfolding on_read_output
  read_output-Fits =
      Ensures-or_refuse _ _ _
        λ _ _. Ensures-or_refuse _ _ _ λ _ _. Ensures-ok _ (write_pod_and_bytes-Fits bm _ res _ _)

  release_output-Fits : Ensures (Fits (length res)) (on_release_output bm b req res)
  unfolding on_release_output
  release_output-Fits =
      Ensures-or_refuse _ _ _ λ _ _. Ensures-or_refuse _ _ _ λ _ _. Ensures-ok _ (no_bytes res)

  drain-Fits : Ensures (Fits (length res)) (on_drain bm b req res)
  unfolding on_drain
  drain-Fits =
      Ensures-or_refuse _ _ _
        λ _ _. Ensures-or_refuse _ _ _ λ _ _. Ensures-ok _ (write_pod-Fits bm _ res _)

  destroy_session-Fits : Ensures (Fits (length res)) (on_destroy_session bm b req res)
  unfolding on_destroy_session
  destroy_session-Fits =
      Ensures-or_refuse _ _ _ λ _ _. Ensures-or_refuse _ _ _ λ _ _. Ensures-ok _ (no_bytes res)

  answer_batch-Fits :
      (sid : ℕ) (batch : List DequeueOutputReply × MockBackend)
      → Ensures (Fits (length res)) (answer_batch bm b res sid batch)
  unfolding answer_batch
  answer_batch-Fits sid ([], b') = Ensures-err _
  answer_batch-Fits sid (r ∷ rs, b') = Ensures-ok _ (write_pod-Fits bm _ res _)

  dequeue_output_batch-Fits : Ensures (Fits (length res)) (on_dequeue_output_batch bm b req res)
  unfolding on_dequeue_output_batch
  dequeue_output_batch-Fits =
      Ensures-or_refuse _ _ _ λ payload _. answer_batch-Fits payload.session_id _

  recycle_buffer-Fits : Ensures (Fits (length res)) (on_recycle_buffer bm b req res)
  unfolding on_recycle_buffer
  recycle_buffer-Fits = Ensures-or_refuse _ _ _ λ payload _.
      Ensures->>= _ _ (Ensures-any (recycle b payload)) λ _ _. Ensures-ok _ (no_bytes res)

  realloc_buffer-Fits :
      (p : MockPool) (x : MockBuffer) → Fits (length res) (realloc_buffer bm b p x res)
  unfolding realloc_buffer
  realloc_buffer-Fits p x =
      elim (Option-cases (write_slot p x.slot_index 0 (replicate p.slot_region_size 0))) [
        | inl e ↦ rw (e, realloc_buffer) (refused res)
        | inr (q, e) ↦ rw (e, realloc_buffer) (write_pod-Fits bm _ res _)
      ]

  alloc_fresh_buffer-Fits :
      (p : MockPool) → Ensures (Fits (length res)) (alloc_fresh_buffer bm b p res)
  unfolding alloc_fresh_buffer
  alloc_fresh_buffer-Fits p =
      Ensures-refuse_if _ _ _
        λ _. Ensures-or_refuse _ _ _ λ _ _. Ensures-ok _ (write_pod-Fits bm _ res _)

  alloc_buffer-Fits : Ensures (Fits (length res)) (on_alloc_buffer bm b req res)
  unfolding on_alloc_buffer
  alloc_buffer-Fits = Ensures-or_refuse _ _ _ λ payload _. Ensures-or_refuse _ _ _ λ p _.
      elim (Option-cases (find_recyclable_buffer b payload.pool_id)) [
        | inl e ↦ rw e (alloc_fresh_buffer-Fits p)
        | inr (x, e) ↦ rw e (Ensures-ok _ (realloc_buffer-Fits p x))
      ]

settle-Fits :
    (b : MockBackend) (res : List ℕ) (c : Check Outcome)
    → Ensures (Fits (length res)) c
    → Fits (length res) (settle b res c)
settle-Fits b res (ok o) h = h.holds o refl
settle-Fits b res (err s) h = refused res

module _ (bm : Bytemuck) (b : MockBackend) (req res : List ℕ) where
  serve-Fits : (op : Opcode) → Fits (length res) (serve bm b op req res)
  unfolding serve on_hello on_get_caps
  serve-Fits hello = write_pod-Fits bm _ res _
  serve-Fits ping = no_bytes res
  serve-Fits get_caps = write_pod-Fits bm _ res _
  serve-Fits create_session = settle-Fits b res _ (create_session-Fits bm b req res)
  serve-Fits set_property = settle-Fits b res _ (set_property-Fits bm b req res)
  serve-Fits prepare_session = settle-Fits b res _ (prepare_session-Fits bm b req res)
  serve-Fits create_buffer_pool = settle-Fits b res _ (create_buffer_pool-Fits bm b req res)
  serve-Fits alloc_buffer = settle-Fits b res _ (alloc_buffer-Fits bm b req res)
  serve-Fits read_buffer = settle-Fits b res _ (read_buffer-Fits bm b req res)
  serve-Fits write_buffer = settle-Fits b res _ (write_buffer-Fits bm b req res)
  serve-Fits recycle_buffer = settle-Fits b res _ (recycle_buffer-Fits bm b req res)
  serve-Fits encode_frame = settle-Fits b res _ (encode_frame-Fits bm b req res)
  serve-Fits dequeue_output = settle-Fits b res _ (dequeue_output-Fits bm b req res)
  serve-Fits dequeue_output_batch = settle-Fits b res _ (dequeue_output_batch-Fits bm b req res)
  serve-Fits read_output = settle-Fits b res _ (read_output-Fits bm b req res)
  serve-Fits release_output = settle-Fits b res _ (release_output-Fits bm b req res)
  serve-Fits drain = settle-Fits b res _ (drain-Fits bm b req res)
  serve-Fits destroy_session = settle-Fits b res _ (destroy_session-Fits bm b req res)

-- Whatever the request, the response buffer keeps its length, and a length that dispatch returns is within
-- the response buffer.
pub dispatch-Fits :
    (bm : Bytemuck) (b : MockBackend) (req_header : MessageHeader) (req res : List ℕ)
    → (length (dispatch bm b req_header req res).res_payload ≡ length res)
      × ((len : ℕ) → (dispatch bm b req_header req res).result ≡ some len → len ≤ length res)
dispatch-Fits bm b req_header req res =
    dispatch_cases bm (Fits (length res)) b req_header req res (λ s _. refused res)
      (λ op _. serve-Fits bm b req res op)
